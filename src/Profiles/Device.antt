-- ===== src/Profiles/Device.antt =====
-- What the steps of a profile in profiles_app.go ask of the rest of the program, and what they answer.
-- The device is a state `D` behind the record `Actions`.
use adbq.Prelude.{
  ℕ, suc, ◌+◌, List, [], ◌∷◌, Option, some, Bool, true, false, ◌&&◌, ◌||◌, if◌then◌else◌, Text,
  codes, text_eq,
}
use adbq.Prelude.Int.{ℤ, pos, negsuc}
use adbq.Decimal.{decimal}
use adbq.Forwards.{Forward}
use adbq.Iptables.{IpFamily, ipv4, ipv6}

-- a value, or the text of an error
pub data Outcome (A : Type 0) : Type 0 where
  done : A → Outcome A
  fault : Text → Outcome A

-- what `DeviceDetails` tells of the device, as far as a profile asks
pub record Details : Type 0 where
  pub id : Text
  pub hardware_serial : Text
  pub root : Bool

pub record HostsApplied : Type 0 where
  pub strategy : Text
  pub needs_reboot : Bool

pub record CertInstalled : Type 0 where
  pub note : Text
  pub rooted : Bool
  pub persistent : Bool

pub record FridaServer : Type 0 where
  pub name : Text
  pub path : Text
  pub version : Text
  pub arch : Text
  pub active : Bool
  pub pid : ℕ
  pub port : ℕ

pub record ProxyHost : Type 0 where
  pub host : Text
  pub port : ℕ
  pub needs_reverse : Bool

-- Where only whether an error came back matters, the answer is an option. `stage_cert` writes the
-- PEM to a temporary file; `install_frida` also tells the stages that it reported.
pub record Actions (D : Type 0) : Type 0 where
  pub details : D → Outcome Details × D
  pub read_only : IpFamily → D → Bool × D
  pub import_iptables : IpFamily → Text → D → Option Text × D
  pub apply_hosts : Text → D → Outcome HostsApplied × D
  pub save_hosts_config : Text → D → D
  pub flush_dns : D → D
  pub stage_cert : Text → D → Outcome Text × D
  pub install_cert : Text → D → Outcome CertInstalled × D
  pub remove_staged : Text → D → D
  pub frida_arch : D → Option Text × D
  pub frida_releases : Text → D → Option (List Text) × D
  pub frida_servers : D → Option (List FridaServer) × D
  pub install_frida : Text → Text → D → (List Text × Outcome Text) × D
  pub start_frida : Text → Text → ℤ → D → Option Text × D
  pub list_forwards : D → Option (List Forward) × D
  pub list_reverses : D → Option (List Forward) × D
  pub add_forward : Text → Text → D → Option Text × D
  pub add_reverse : Text → Text → D → Option Text × D
  pub suggest_proxy : ℤ → D → Option ProxyHost × D
  pub get_proxy : D → Option Text × D
  pub set_proxy : Text → D → Option Text × D

pub data Status : Type 0 where
  ok skip err : Status

pub record StepResult : Type 0 where
  pub name : Text
  pub status : Status
  pub message : Text
  pub needs_reboot : Bool

abbrev pub result : Text → Status → Text → StepResult
result name status message = record {
  name = name;
  status = status;
  message = message;
  needs_reboot = false;
}

abbrev pub skip_no_root : Text → StepResult
skip_no_root name = result name Status.skip (codes "requires root")

-- `%d` of an int
unfoldable pub print_int : ℤ → Text
unfolding decimal
print_int (pos n) = decimal n
print_int (negsuc n) = b'-' ∷ decimal (n + 1)

-- "→" in UTF-8
abbrev pub arrow : Text
arrow = 226 ∷ 134 ∷ 146 ∷ []

unfoldable pub family_text : IpFamily → Text
family_text ipv4 = codes "ipv4"
family_text ipv6 = codes "ipv6"

unfoldable pub or_else : Text → Text → Text
or_else [] d = d
or_else (c ∷ s) d = c ∷ s

unfoldable pub positive : ℤ → Bool
positive (pos (suc n)) = true
positive z = false

-- `msgs = append(msgs, …)` where there was a blob
unfoldable pub imported : Text → Text → List Text
imported [] msg = []
imported (c ∷ s) msg = msg ∷ []

-- the servers: the path of the first that fits, and the last that runs
unfoldable pub first_fitting : Text → Text → List FridaServer → Text
first_fitting version arch [] = []
first_fitting version arch (s ∷ ss) =
    let rest = first_fitting version arch ss in
    if text_eq s.version version && (text_eq s.arch [] || text_eq s.arch arch)
    then or_else s.path rest
    else rest

unfoldable pub last_active : List FridaServer → Option FridaServer → Option FridaServer
last_active [] running = running
last_active (s ∷ ss) running = last_active ss (if s.active then some s else running)
