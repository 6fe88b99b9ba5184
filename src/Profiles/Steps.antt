-- ===== src/Profiles/Steps.antt =====
-- The steps of a profile: `applyIptables` to `applyProxy` of profiles_app.go.
use adbq.Prelude.{
  ℕ, ◌+◌, List, [], ◌∷◌, ◌++◌, Option, none, some, Bool, false, not, ◌&&◌, if◌then◌else◌, Text,
  codes, text_eq, join,
}
use adbq.Strings.{trim_space}
use adbq.Decimal.{decimal}
use adbq.Forwards.{Forward}
use adbq.Iptables.{IpFamily, ipv4, ipv6}
use adbq.FactStore.Resolver.{member}
use adbq.Profiles.{PortSpec, ForwardsStep, ProxyStep, HostsStep, CertStep, IptablesStep}
use adbq.Profiles.Device.{
  Outcome, done, fault, Details, HostsApplied, CertInstalled, ProxyHost, Actions, Status,
  StepResult, result, skip_no_root, arrow, family_text, imported,
}

module _ {D : Type 0} (a : Actions D) where
  -- the closure `apply` of `applyIptables`
  import_blob : IpFamily → Text → D → Option Text × D
  unfolding family_text
  import_blob fam [] d = (none, d)
  import_blob fam (c ∷ blob) d =
      let (read_only, d') = a.read_only fam d in
      if read_only
      then (some (family_text fam ++ codes ": device is nftables-only (import unsupported)"), d')
      else a.import_iptables fam (c ∷ blob) d'

  import_v6 : IptablesStep → D → StepResult × D
  unfolding import_blob imported
  import_v6 step d =
      let (e, d') = import_blob ipv6 step.v6_blob d in
      (
        elim e [
          | some msg ↦ result (codes "iptables") Status.err msg
          | none ↦ result (codes "iptables") Status.ok (
              join
                (imported step.v4_blob (codes "ipv4 imported")
                  ++ imported step.v6_blob (codes "ipv6 imported"))
                (codes ", "))
        ],
        d',
      )

  unfoldable pub apply_iptables : Details → IptablesStep → D → StepResult × D
  unfolding import_blob import_v6
  apply_iptables dev step d =
      if not dev.root
      then (skip_no_root (codes "iptables"), d)
      else let (e, d') = import_blob ipv4 step.v4_blob d in
        elim e [
          | some msg ↦ (result (codes "iptables") Status.err msg, d')
          | none ↦ import_v6 step d'
        ]

  hosts_done : HostsStep → Outcome HostsApplied → D → StepResult × D
  hosts_done step (fault msg) d = (result (codes "hosts") Status.err msg, d)
  hosts_done step (done res) d =
      let d' = a.save_hosts_config step.content d in
      (
        record (result (codes "hosts") Status.ok (codes "applied via " ++ res.strategy)) {
          needs_reboot = res.needs_reboot;
        },
        if step.flush_dns then a.flush_dns d' else d',
      )

  unfoldable pub apply_hosts : Details → HostsStep → D → StepResult × D
  unfolding hosts_done
  apply_hosts dev step d =
      if not dev.root
      then (skip_no_root (codes "hosts"), d)
      else let (res, d') = a.apply_hosts step.content d in hosts_done step res d'

  cert_done : Outcome CertInstalled → StepResult
  cert_done (fault msg) = result (codes "cert") Status.err msg
  cert_done (done res) = record (result (codes "cert") Status.ok res.note) {
    needs_reboot = res.rooted && not res.persistent;
  }

  install_staged : Outcome Text × D → StepResult × D
  unfolding cert_done
  install_staged (fault msg, d) = (result (codes "cert") Status.err msg, d)
  install_staged (done path, d) =
      let (res, d') = a.install_cert path d in (cert_done res, a.remove_staged path d')

  unfoldable pub apply_cert : CertStep → D → StepResult × D
  unfolding install_staged
  apply_cert step d = install_staged (a.stage_cert step.pem d)

  -- the keys of `have`
  forward_key : Text → Text → Text
  forward_key local remote = codes "f|" ++ (local ++ (b'|' ∷ remote))

  reverse_key : Text → Text → Text
  reverse_key remote local = codes "r|" ++ (remote ++ (b'|' ∷ local))

  forward_keys : List Forward → List Text
  unfolding forward_key
  forward_keys [] = []
  forward_keys (f ∷ fs) = forward_key f.local f.remote ∷ forward_keys fs

  reverse_keys : List Forward → List Text
  unfolding reverse_key
  reverse_keys [] = []
  reverse_keys (f ∷ fs) = reverse_key f.remote f.local ∷ reverse_keys fs

  some_forwards : Option (List Forward) → List Forward
  some_forwards none = []
  some_forwards (some fs) = fs

  -- one mapping: what was added and what failed, in front of what came before in reverse
  added_or_failed : Text → Option Text → ℕ × List Text → ℕ × List Text
  added_or_failed what none (added, errs) = (added + 1, errs)
  added_or_failed what (some e) (added, errs) = (added, errs ++ (what ++ (codes ": " ++ e)) ∷ [])

  add_forwards : List Text → List PortSpec → ℕ × List Text → D → (ℕ × List Text) × D
  unfolding added_or_failed forward_key member
  add_forwards have [] acc d = (acc, d)
  add_forwards have (f ∷ fs) acc d =
      let (e, d') = a.add_forward f.local f.remote d in
      let what = codes "forward " ++ (f.local ++ (arrow ++ f.remote)) in
      let acc' = added_or_failed what e acc in
      let skipped = add_forwards have fs acc d in
      let rest = add_forwards have fs acc' d' in
      if member (forward_key f.local f.remote) have then skipped else rest

  add_reverses : List Text → List PortSpec → ℕ × List Text → D → (ℕ × List Text) × D
  unfolding added_or_failed reverse_key member
  add_reverses have [] acc d = (acc, d)
  add_reverses have (r ∷ rs) acc d =
      let (e, d') = a.add_reverse r.remote r.local d in
      let what = codes "reverse " ++ (r.remote ++ (arrow ++ r.local)) in
      let acc' = added_or_failed what e acc in
      let skipped = add_reverses have rs acc d in
      let rest = add_reverses have rs acc' d' in
      if member (reverse_key r.remote r.local) have then skipped else rest

  forwards_done : ℕ × List Text → StepResult
  forwards_done (added, []) =
      result (codes "forwards") Status.ok (decimal added ++ codes " added (others already present)")
  forwards_done (added, e ∷ errs) =
      result (codes "forwards") Status.err (join (e ∷ errs) (codes "; "))

  unfoldable pub apply_forwards : ForwardsStep → D → StepResult × D
  unfolding add_forwards add_reverses forwards_done forward_keys reverse_keys some_forwards
  apply_forwards step d =
      let (fwds, d1) = a.list_forwards d in
      let (revs, d2) = a.list_reverses d1 in
      let have = forward_keys (some_forwards fwds) ++ reverse_keys (some_forwards revs) in
      let (acc, d3) = add_forwards have step.forwards (0, []) d2 in
      let (acc', d4) = add_reverses have step.reverses acc d3 in (forwards_done acc', d4)

  is_set : Option Text → Text → Bool
  is_set none target = false
  is_set (some cur) target = text_eq (trim_space cur) target && not (text_eq target [])

  proxy_done : Text → Option Text → StepResult
  proxy_done target (some e) = result (codes "proxy") Status.err e
  proxy_done [] none = result (codes "proxy") Status.ok (codes "proxy cleared")
  proxy_done (c ∷ s) none = result (codes "proxy") Status.ok (codes "set to " ++ (c ∷ s))

  set_target : Text → D → StepResult × D
  unfolding is_set proxy_done
  set_target target d =
      let (cur, d') = a.get_proxy d in
      if is_set cur target
      then (result (codes "proxy") Status.ok (codes "already set to " ++ target), d')
      else let (e, d'') = a.set_proxy target d' in (proxy_done target e, d'')

  no_host : D → StepResult × D
  no_host d = (result (codes "proxy") Status.err (codes "could not auto-resolve proxy host"), d)

  suggested : Option ProxyHost × D → StepResult × D
  unfolding no_host set_target
  suggested (none, d) = no_host d
  suggested (some h, d) =
      let tcp = codes "tcp:" ++ decimal h.port in
      let d' = if h.needs_reverse then (a.add_reverse tcp tcp d).1 else d in
      if text_eq h.host [] then no_host d else set_target (h.host ++ (b':' ∷ decimal h.port)) d'

  unfoldable pub apply_proxy : ProxyStep → D → StepResult × D
  unfolding suggested set_target
  apply_proxy step d =
      if text_eq step.host_port (codes "auto")
      then suggested (a.suggest_proxy step.port d)
      else set_target step.host_port d
