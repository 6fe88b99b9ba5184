-- ===== src/Profiles/Preview.antt =====
-- `PreviewProfile` of profiles_app.go: what applying a profile would do, shown before it is done. The
-- commands of the hosts, certificate and Frida steps come from other parts of the program and are an
-- argument, `Plans`.
pub mod Shown
use adbq.Prelude.{
  ℕ, List, [], ◌∷◌, ◌++◌, Option, none, some, Bool, true, false, not, ◌&&◌, if◌then◌else◌, Text,
  codes, text_eq, length, map,
}
use adbq.Prelude.Int.{ℤ, pos}
use adbq.Strings.{trim_space}
use adbq.Decimal.{decimal}
use adbq.Dict.{lookup}
use adbq.Iptables.Preview.{iptables_commands_for, CommandRequest}
use adbq.Forwards.{forward_commands_for}
use adbq.Profiles.{Profile, ProxyStep, PortSpec, ProfileStore}
use adbq.Profiles.Device.{Outcome, done, fault, Details, Actions, print_int}
use adbq.Profiles.Apply.{wants_iptables, wants_cert, wants_forwards}

pub record StepPreview : Type 0 where
  pub name : Text
  pub title : Text
  pub detail : Text
  pub needs_root : Bool
  pub commands : List Text
  pub will_skip : Bool
  pub skip_reason : Text

pub record Plans : Type 0 where
  pub render : Text → Bool → Text
  pub hosts : Text → List Text
  pub cert : List Text
  pub frida_install : ℤ → List Text
  pub frida_start : ℤ → List Text

-- the closure `add`
abbrev pub added : Details → Text → Text → Text → Bool → List Text → StepPreview
added dev name title detail needs_root commands =
    let skipped = needs_root && not dev.root in
    record {
      name = name;
      title = title;
      detail = detail;
      needs_root = needs_root;
      commands = commands;
      will_skip = skipped;
      skip_reason = if skipped then codes "device is not rooted" else [];
    }

-- `proxyValue` of internal/adb/network.go
proxy_value : Text → Text
proxy_value host_port = if text_eq (trim_space host_port) [] then codes ":0" else host_port

unfoldable pub proxy_command : Text → Text → Text
unfolding proxy_value
proxy_command serial host_port =
    codes "adb -s "
    ++ (serial ++ (codes " shell settings put global http_proxy " ++ proxy_value host_port))

unfoldable pub proxy_detail : ProxyStep → Text
proxy_detail s =
    if text_eq s.host_port []
    then codes "clear proxy"
    else if text_eq s.host_port (codes "auto")
    then codes "auto-resolve host:port"
    else s.host_port

import_commands : Plans → Text → Text → Text → List Text
import_commands plans serial family [] = []
import_commands plans serial family (c ∷ blob) =
    (iptables_commands_for serial
      (record {
        family = family;
        table = [];
        chain = [];
        position = pos 0;
        num = pos 0;
        policy = [];
        spec = [];
      })
      plans.render).import_rules

add_commands : Text → Text → List PortSpec → List Text
add_commands serial kind [] = []
add_commands serial kind (f ∷ fs) =
    (forward_commands_for serial kind f.local f.remote).add ++ add_commands serial kind fs

proxy_commands : Text → ProxyStep → List Text
unfolding proxy_command print_int
proxy_commands serial s =
    if text_eq s.host_port (codes "auto")
    then codes "# host:port resolved from this computer's addresses when applied, then:"
      ∷ proxy_command serial (codes "<host>:" ++ print_int s.port)
      ∷ []
    else proxy_command serial s.host_port ∷ []

or_latest : Text → Text
or_latest [] = codes "latest"
or_latest (c ∷ v) = c ∷ v

frida_title : Profile → Text
unfolding or_latest
frida_title p =
    let title = codes "Install frida-server " ++ or_latest p.frida.version in
    if p.frida.start then title ++ codes " + start" else title

frida_commands : Plans → Profile → List Text
frida_commands plans p =
    if p.frida.start
    then plans.frida_install p.frida.port ++ plans.frida_start p.frida.port
    else plans.frida_install p.frida.port

abbrev pub one_if : Bool → StepPreview → List StepPreview
one_if b s = if b then s ∷ [] else []

module _ (plans : Plans) (serial : Text) where
  unfoldable pub iptables_preview : Details → Profile → StepPreview
  unfolding import_commands
  iptables_preview dev p =
      added dev (codes "iptables") (codes "Restore iptables ruleset")
        (codes "imports saved iptables-save blob(s)") true
        (import_commands plans serial (codes "ipv4") p.iptables.v4_blob
          ++ import_commands plans serial (codes "ipv6") p.iptables.v6_blob)

  unfoldable pub hosts_preview : Details → Profile → StepPreview
  hosts_preview dev p =
      added dev (codes "hosts") (codes "Apply /etc/hosts override")
        (decimal (length p.hosts.content) ++ codes " bytes") true (plans.hosts p.hosts.content)

  unfoldable pub cert_preview : Details → Profile → StepPreview
  cert_preview dev p =
      added dev (codes "cert") (codes "Install CA certificate")
        (p.cert.subject ++ codes " (system store needs root; else user store)") false plans.cert

  unfoldable pub frida_preview : Details → Profile → StepPreview
  unfolding frida_title frida_commands
  frida_preview dev p =
      added dev (codes "frida") (frida_title p) (codes "arch resolved from device") p.frida.start
        (frida_commands plans p)

  unfoldable pub forwards_preview : Details → Profile → StepPreview
  unfolding add_commands
  forwards_preview dev p =
      added dev (codes "forwards") (codes "Set up forwards/reverses")
        (decimal (length p.forwards.forwards)
          ++ (codes " forward(s), "
              ++ (decimal (length p.forwards.reverses) ++ codes " reverse(s)")))
        false
        (add_commands serial (codes "forward") p.forwards.forwards
          ++ add_commands serial (codes "reverse") p.forwards.reverses)

  unfoldable pub proxy_preview : Details → Profile → StepPreview
  unfolding proxy_commands proxy_detail
  proxy_preview dev p =
      added dev (codes "proxy") (codes "Set global HTTP proxy") (proxy_detail p.proxy) false
        (proxy_commands serial p.proxy)

  unfoldable pub previews : Details → Profile → List StepPreview
  unfolding iptables_preview hosts_preview cert_preview frida_preview forwards_preview proxy_preview
  previews dev p =
      one_if (wants_iptables p) (iptables_preview dev p)
      ++ (one_if p.hosts.enabled (hosts_preview dev p)
          ++ (one_if (wants_cert p) (cert_preview dev p)
              ++ (one_if p.frida.enabled (frida_preview dev p)
                  ++ (one_if (wants_forwards p) (forwards_preview dev p)
                      ++ (one_if p.proxy.enabled (proxy_preview dev p))))))

  shown : Profile → Outcome Details → Outcome (List StepPreview)
  unfolding previews
  shown p (fault msg) = fault msg
  shown p (done dev) = done (previews dev p)

  preview_of : {D : Type 0} → Actions D → Text → Option Profile → D → Outcome (List StepPreview) × D
  unfolding shown
  preview_of a profile_id none d =
      (fault (codes "profile " ++ (profile_id ++ codes " not found")), d)
  preview_of a profile_id (some p) d = let (details, d') = a.details d in (shown p details, d')

  unfoldable pub preview_profile :
      {D : Type 0} → Actions D → Text → ProfileStore → D → Outcome (List StepPreview) × D
  unfolding preview_of
  preview_profile a profile_id store d =
      preview_of a profile_id (lookup profile_id store.profiles) d
