-- ===== src/Profiles/Preview/Shown.antt =====
-- What `PreviewProfile` shows is what `ApplyProfile` does, step by step.
use mathlib.Core.Path.{subst}
use adbq.Prelude.{
  ◌≡◌, ◌≢◌, arith, List, [], ◌∷◌, ◌++◌, append-nil, append_assoc, Bool, true, false, Text, codes,
}
use adbq.Tasks.{TaskManager}
use adbq.Profiles.{Profile, FridaStep, IptablesStep, HostsStep, CertStep, ForwardsStep, ProxyStep}
use adbq.Profiles.Device.{Details, Actions, Status, StepResult}
use adbq.Profiles.Steps.{apply_iptables, apply_hosts, apply_cert, apply_forwards, apply_proxy}
use adbq.Profiles.Frida.{apply_frida}
use adbq.Profiles.Preview.{
  StepPreview, Plans, added, one_if, previews, iptables_preview, hosts_preview, cert_preview,
  frida_preview, forwards_preview, proxy_preview,
}
use adbq.Profiles.Apply.{
  Run, step_if, frida_if, run_steps, wants_iptables, wants_cert, wants_forwards,
}

-- a shown step and the step that was taken: one name, and a root-only step is skipped as shown
abbrev pub Agrees : StepPreview → StepResult → Type 0
Agrees s r =
    (r.name ≡ s.name) × (s.will_skip ≡ true → s.name ≢ codes "frida" → r.status ≡ Status.skip)

abbrev pub AllAgree : List StepPreview → List StepResult → Type 0
AllAgree [] [] = Unit
AllAgree [] (r ∷ rs) = ⊥
AllAgree (s ∷ ss) [] = ⊥
AllAgree (s ∷ ss) (r ∷ rs) = Agrees s r × AllAgree ss rs

AllAgree-append :
    (ss ss' : List StepPreview) (rs rs' : List StepResult)
    → AllAgree ss rs
    → AllAgree ss' rs'
    → AllAgree (ss ++ ss') (rs ++ rs')
AllAgree-append [] ss' [] rs' h h' = h'
AllAgree-append [] ss' (r ∷ rs) rs' h h' = absurd h
AllAgree-append (s ∷ ss) ss' [] rs' h h' = absurd h
AllAgree-append (s ∷ ss) ss' (r ∷ rs) rs' (e, h) h' = (e, AllAgree-append ss ss' rs rs' h h')

regroup :
    (a b c d e f : List StepPreview)
    → ((((a ++ b) ++ c) ++ d) ++ e) ++ f ≡ a ++ (b ++ (c ++ (d ++ (e ++ f))))
regroup a b c d e f = simp append_assoc

module _ {D : Type 0} (a : Actions D) (serial : Text) where
  -- one step more on both sides
  step_if-Agrees :
      (b : Bool) (id name : Text) (act : D → StepResult × D) (ss : List StepPreview)
      (s : StepPreview) (run : Run D)
      → ((d : D) → Agrees s (act d).0)
      → AllAgree ss run.0
      → AllAgree (ss ++ one_if b s) (step_if a serial b id name act run).0
  unfolding step_if
  step_if-Agrees true id name act ss s (rs, d, tasks) agree h =
      AllAgree-append ss (s ∷ []) rs ((act d).0 ∷ []) h (agree d, tt)
  step_if-Agrees false id name act ss s (rs, d, tasks) agree h = rw append-nil h

  iptables-Agrees :
      (dev : Details) (step : IptablesStep) (title detail : Text) (cmds : List Text) (d : D)
      → Agrees (added dev (codes "iptables") title detail true cmds) (apply_iptables a dev step d).0
  unfolding apply_iptables
  iptables-Agrees dev step title detail cmds d = ground arith

  hosts-Agrees :
      (dev : Details) (step : HostsStep) (title detail : Text) (cmds : List Text) (d : D)
      → Agrees (added dev (codes "hosts") title detail true cmds) (apply_hosts a dev step d).0
  unfolding apply_hosts
  hosts-Agrees dev step title detail cmds d = ground arith

  cert-Agrees :
      (dev : Details) (step : CertStep) (title detail : Text) (cmds : List Text) (d : D)
      → Agrees (added dev (codes "cert") title detail false cmds) (apply_cert a step d).0
  unfolding apply_cert
  cert-Agrees dev step title detail cmds d = ground arith

  forwards-Agrees :
      (dev : Details) (step : ForwardsStep) (title detail : Text) (cmds : List Text) (d : D)
      → Agrees (added dev (codes "forwards") title detail false cmds) (apply_forwards a step d).0
  unfolding apply_forwards
  forwards-Agrees dev step title detail cmds d = ground arith

  proxy-Agrees :
      (dev : Details) (step : ProxyStep) (title detail : Text) (cmds : List Text) (d : D)
      → Agrees (added dev (codes "proxy") title detail false cmds) (apply_proxy a step d).0
  unfolding apply_proxy
  proxy-Agrees dev step title detail cmds d = ground arith

  frida-Agrees :
      (dev : Details) (step : FridaStep) (needs_root : Bool) (title detail : Text)
      (cmds : List Text) (d : D)
      → Agrees (added dev (codes "frida") title detail needs_root cmds) (apply_frida a dev step d).0
  unfolding apply_frida
  frida-Agrees dev step needs_root title detail cmds d = ground arith

  frida_if-Agrees :
      (b : Bool) (id : Text) (dev : Details) (p : Profile) (ss : List StepPreview) (s : StepPreview)
      (run : Run D)
      → ((d : D) → Agrees s (apply_frida a dev p.frida d).0)
      → AllAgree ss run.0
      → AllAgree (ss ++ one_if b s) (frida_if a serial b id dev p run).0
  unfolding frida_if
  frida_if-Agrees true id dev p ss s (rs, d, tasks) agree h =
      AllAgree-append ss (s ∷ []) rs ((apply_frida a dev p.frida d).0 ∷ []) h (agree d, tt)
  frida_if-Agrees false id dev p ss s (rs, d, tasks) agree h = rw append-nil h

  -- What is shown before a profile is applied is what is done: the preview lists the steps that
  -- are then taken, under the same names and in the same order, whatever each step comes to; and a
  -- step that the preview says will be skipped is reported as skipped, the Frida step aside.
  pub previews-AllAgree :
      (plans : Plans) (id : Text) (dev : Details) (p : Profile) (d : D) (tasks : TaskManager)
      → AllAgree (previews plans serial dev p) (run_steps a serial id dev p ([], d, tasks)).0
  unfolding previews run_steps iptables_preview hosts_preview cert_preview frida_preview
      forwards_preview proxy_preview
  previews-AllAgree plans id dev p d tasks =
      let s1 = iptables_preview plans serial dev p in
      let s2 = hosts_preview plans serial dev p in
      let s3 = cert_preview plans serial dev p in
      let s4 = frida_preview plans serial dev p in
      let s5 = forwards_preview plans serial dev p in
      let s6 = proxy_preview plans serial dev p in
      let l1 = one_if (wants_iptables p) s1 in
      let l2 = one_if p.hosts.enabled s2 in
      let l3 = one_if (wants_cert p) s3 in
      let l4 = one_if p.frida.enabled s4 in
      let l5 = one_if (wants_forwards p) s5 in
      let l6 = one_if p.proxy.enabled s6 in
      let r0 : Run D = ([], d, tasks) in
      let r1 =
        step_if a serial (wants_iptables p) id (codes "iptables") (apply_iptables a dev p.iptables)
          r0 in
      let r2 = step_if a serial p.hosts.enabled id (codes "hosts") (apply_hosts a dev p.hosts) r1 in
      let r3 = step_if a serial (wants_cert p) id (codes "cert") (apply_cert a p.cert) r2 in
      let r4 = frida_if a serial p.frida.enabled id dev p r3 in
      let r5 =
        step_if a serial (wants_forwards p) id (codes "forwards") (apply_forwards a p.forwards)
          r4 in
      let h1 =
        step_if-Agrees (wants_iptables p) id (codes "iptables") (apply_iptables a dev p.iptables) []
          s1 r0 (iptables-Agrees dev p.iptables s1.title s1.detail s1.commands) tt in
      let h2 =
        step_if-Agrees p.hosts.enabled id (codes "hosts") (apply_hosts a dev p.hosts) l1 s2 r1
          (hosts-Agrees dev p.hosts s2.title s2.detail s2.commands) h1 in
      let h3 =
        step_if-Agrees (wants_cert p) id (codes "cert") (apply_cert a p.cert) (l1 ++ l2) s3 r2
          (cert-Agrees dev p.cert s3.title s3.detail s3.commands) h2 in
      let h4 =
        frida_if-Agrees p.frida.enabled id dev p ((l1 ++ l2) ++ l3) s4 r3
          (frida-Agrees dev p.frida p.frida.start s4.title s4.detail s4.commands) h3 in
      let h5 =
        step_if-Agrees (wants_forwards p) id (codes "forwards") (apply_forwards a p.forwards)
          (((l1 ++ l2) ++ l3) ++ l4) s5 r4
          (forwards-Agrees dev p.forwards s5.title s5.detail s5.commands) h4 in
      let h6 =
        step_if-Agrees p.proxy.enabled id (codes "proxy") (apply_proxy a p.proxy)
          ((((l1 ++ l2) ++ l3) ++ l4) ++ l5) s6 r5
          (proxy-Agrees dev p.proxy s6.title s6.detail s6.commands) h5 in
      subst (λ ss. AllAgree ss (run_steps a serial id dev p ([], d, tasks)).0)
        (regroup l1 l2 l3 l4 l5 l6) h6
