-- ===== src/Root/Memory.antt =====
-- What the client remembers of the root probes of a device, and when it forgets.
use adbq.Prelude.{
  ℕ, ◌-◌, ◌<◌, ◌≡◌, refl, sym, arith, List, [], ◌∷◌, Option, none, some, Bool, true, false, inl,
  inr, Option-cases, ◌∙◌, ap, ◌++◌, if◌then◌else◌, Text, codes,
}
use mathlib.Core.Path.{subst}
use adbq.Strings.{contains, to_lower}
use adbq.Dict.{lookup, lookup-insert_self, lookup-remove_self}
use adbq.FactStore.{
  Client, SuStyle, AdbRootState, Capabilities, forget_root_probe, invalidate_capabilities,
}
use adbq.FactStore.Resolver.{scanned}
use adbq.Root.{
  Reply, Adb, marker, has_marker_line, tells_su_gone, has_uid0, su_retry_after, probe, SuAnswer,
  found, recently, denied, su_wrap, su_forms, shell, is_granted, set_su_style, set_adb_root_state,
  note_su_failed, capabilities_or_scan, adb_root_eligible, after_adb_root, ask_adb_root,
  latched_or_ask, try_adb_root, try_forms, after_adb_root_try, after_id, recent, known_or_probe,
  su_style_for, refusal, after_style, shell_su,
}

module _ {ℓ} {V : Type ℓ} {D : Type 0} (a : Adb D) (serial : Text) where
  -- what a call of `tryAdbRoot` leaves: the latch tells its answer
  abbrev pub Latched : Bool × Client V × D → Type 0
  Latched (answer, c, d) =
      (st : AdbRootState) × (lookup serial c.adb_rooted ≡ some st) × (is_granted st ≡ answer)

  set-Latched :
      (c : Client V) (st : AdbRootState) (d : D)
      → Latched (is_granted st, set_adb_root_state c serial st, d)
  unfolding set_adb_root_state
  set-Latched c st d = (st, lookup-insert_self serial st c.adb_rooted, refl)

  Latched-if :
      (b : Bool) (x y : Bool × Client V × D) → Latched x → Latched y → Latched (if b then x else y)
  Latched-if true x y hx hy = hx
  Latched-if false x y hx hy = hy

  after_adb_root-Latched :
      (c : Client V) (r : Reply) (d : D) → Latched (after_adb_root a serial c (r, d))
  unfolding after_adb_root
  after_adb_root-Latched c r d =
      let id = shell a (codes "id") (a.adb (codes "wait-for-device" ∷ []) d).1 in
      Latched-if (contains (to_lower r.out) (codes "cannot run as root")) _ _
        (set-Latched c AdbRootState.refused d)
        (Latched-if (has_uid0 id.0.out) _ _
          (set-Latched (invalidate_capabilities c serial) AdbRootState.granted id.1)
          (set-Latched c AdbRootState.refused id.1))

  ask_adb_root-Latched :
      (eligible : Bool) (c : Client V) (d : D) → Latched (ask_adb_root a serial (eligible, c, d))
  unfolding ask_adb_root
  ask_adb_root-Latched false c d = set-Latched c AdbRootState.ineligible d
  ask_adb_root-Latched true c d =
      let r = a.adb (codes "root" ∷ []) d in
      Latched-if a.binary _ _ (after_adb_root-Latched c r.0 r.1)
        (set-Latched c AdbRootState.refused d)

  try_adb_root-Latched : (c : Client V) (d : D) → Latched (try_adb_root a serial c d)
  unfolding try_adb_root latched_or_ask
  try_adb_root-Latched c d = elim (Option-cases (lookup serial c.adb_rooted)) [
    | inl e ↦
        rw (e, latched_or_ask)
          (ask_adb_root-Latched (adb_root_eligible a serial c d).0
            (adb_root_eligible a serial c d).1 (adb_root_eligible a serial c d).2)
    | inr (st, e) ↦ rw (e, latched_or_ask) (st, e, refl)
  ]

  try_adb_root_known :
      (c : Client V) (d : D) (st : AdbRootState)
      → lookup serial c.adb_rooted ≡ some st
      → try_adb_root a serial c d ≡ (is_granted st, c, d)
  unfolding try_adb_root latched_or_ask
  try_adb_root_known c d st e = rw (e, latched_or_ask)

  -- The answer of `tryAdbRoot` is latched: after a call, whatever else the device and the client have
  -- come to, a further call gives the same answer, runs nothing on the device and changes nothing that
  -- the client remembers, as long as the client still has the device's latch as the call left it. A
  -- latch that was forgotten, as by `ForgetRootProbe`, is not covered.
  pub try_adb_root-try_adb_root :
      (c : Client V) (d : D) (c₂ : Client V) (d₂ : D)
      → lookup serial c₂.adb_rooted ≡ lookup serial (try_adb_root a serial c d).1.adb_rooted
      → try_adb_root a serial c₂ d₂ ≡ ((try_adb_root a serial c d).0, c₂, d₂)
  try_adb_root-try_adb_root c d c₂ d₂ kept =
      let (st, known, same) = try_adb_root-Latched c d in
      rw (try_adb_root_known c₂ d₂ st (kept ∙ known), same)

  -- `tryAdbRoot` leaves the su styles alone
  abbrev pub Styles : Client V → Bool × Client V × D → Type 0
  Styles c (answer, c', d) = c'.su_styles ≡ c.su_styles

  eligible-Styles :
      (o : Option Capabilities) (c : Client V) (d : D)
      → (capabilities_or_scan a serial o c d).1.su_styles ≡ c.su_styles
  unfolding capabilities_or_scan scanned
  eligible-Styles (some caps) c d = refl
  eligible-Styles none c d = ground arith

  adb_root_eligible-Styles : (c : Client V) (d : D) → Styles c (adb_root_eligible a serial c d)
  unfolding adb_root_eligible
  adb_root_eligible-Styles c d = ground (arith, eligible-Styles (lookup serial c.caps) c d)

  ask_adb_root-Styles :
      (eligible : Bool) (c : Client V) (d : D) → Styles c (ask_adb_root a serial (eligible, c, d))
  unfolding ask_adb_root after_adb_root set_adb_root_state invalidate_capabilities
  ask_adb_root-Styles false c d = refl
  ask_adb_root-Styles true c d = ground arith

  try_adb_root-Styles : (c : Client V) (d : D) → Styles c (try_adb_root a serial c d)
  unfolding try_adb_root latched_or_ask
  try_adb_root-Styles c d = elim (Option-cases (lookup serial c.adb_rooted)) [
    | inl e ↦
        let (eligible, c', d') = adb_root_eligible a serial c d in
        rw (e, latched_or_ask) (ask_adb_root-Styles eligible c' d' ∙ adb_root_eligible-Styles c d)
    | inr (st, e) ↦ rw (e, latched_or_ask) refl
  ]

  -- what `suStyleFor` leaves behind for its next call
  abbrev pub Noted : ℕ → SuAnswer × Client V × D → Type 0
  Noted later (found st, c', d') = lookup serial c'.su_styles ≡ some st
  Noted later (denied, c', d') =
      (lookup serial c'.su_styles ≡ none) × (lookup serial c'.su_failed_at ≡ some later)
  Noted later (recently, c', d') = Unit

  Noted-if :
      (later : ℕ) (b : Bool) (x y : SuAnswer × Client V × D)
      → Noted later x
      → Noted later y
      → Noted later (if b then x else y)
  Noted-if later true x y hx hy = hx
  Noted-if later false x y hx hy = hy

  found-Noted :
      (later : ℕ) (st : SuStyle) (c : Client V) (d : D)
      → Noted later (found st, set_su_style c serial st, d)
  unfolding set_su_style
  found-Noted later st c d = lookup-insert_self serial st c.su_styles

  try_forms-Noted :
      (later : ℕ) (sts : List SuStyle) (c : Client V) (d : D)
      → lookup serial c.su_styles ≡ none
      → Noted later (try_forms a serial later sts c d)
  unfolding try_forms note_su_failed
  try_forms-Noted later [] c d h = (h, lookup-insert_self serial later c.su_failed_at)
  try_forms-Noted later (st ∷ sts) c d h =
      let d' = (shell a (su_wrap st probe) d).1 in
      Noted-if later (has_marker_line (shell a (su_wrap st probe) d).0.out marker)
        (found st, set_su_style c serial st, d') (try_forms a serial later sts c d')
        (found-Noted later st c d') (try_forms-Noted later sts c d' h)

  after_try-Noted :
      (later : ℕ) (rooted : Bool) (c : Client V) (d : D)
      → lookup serial c.su_styles ≡ none
      → Noted later (after_adb_root_try a serial later (rooted, c, d))
  unfolding after_adb_root_try
  after_try-Noted later true c d h = found-Noted later SuStyle.bare_root c d
  after_try-Noted later false c d h = try_forms-Noted later su_forms c d h

  after_id-Noted :
      (later : ℕ) (c : Client V) (r : Reply) (d : D)
      → lookup serial c.su_styles ≡ none
      → Noted later (after_id a serial later c (r, d))
  unfolding after_id
  after_id-Noted later c r d h =
      let (rooted, c', d') = try_adb_root a serial c d in
      Noted-if later (has_uid0 r.out) _ _ (found-Noted later SuStyle.bare_root c d)
        (after_try-Noted later rooted c' d' (ap (lookup serial) (try_adb_root-Styles c d) ∙ h))

  su_style_for-Noted :
      (now later : ℕ) (c : Client V) (d : D) → Noted later (su_style_for a serial now later c d)
  unfolding su_style_for known_or_probe
  su_style_for-Noted now later c d = elim (Option-cases (lookup serial c.su_styles)) [
    | inr (st, e) ↦ rw (e, known_or_probe) e
    | inl e ↦
        let (r, d') = shell a (codes "id") d in
        rw (e, known_or_probe)
          (Noted-if later (recent (lookup serial c.su_failed_at) now) _ _ tt
            (after_id-Noted later c r d' e))
  ]

  -- what a later call makes of that
  abbrev pub Settled : ℕ → ℕ → ℕ → SuAnswer × Client V × D → Type ℓ
  Settled later now' later' (found st, c', d') =
      su_style_for a serial now' later' c' d' ≡ (found st, c', d')
  Settled later now' later' (denied, c', d') =
      now' - later < su_retry_after → su_style_for a serial now' later' c' d' ≡ (recently, c', d')
  Settled later now' later' (recently, c', d') = Unit

  Noted-Settled :
      (later now' later' : ℕ) (x : SuAnswer × Client V × D)
      → Noted later x
      → Settled later now' later' x
  unfolding su_style_for known_or_probe recent
  Noted-Settled later now' later' (found st, c', d') h = rw (h, known_or_probe)
  Noted-Settled later now' later' (denied, c', d') (no_style, failed) =
      λ soon. rw (no_style, known_or_probe, failed, recent) (ground arith)
  Noted-Settled later now' later' (recently, c', d') h = tt

  -- A probe for root is not repeated. A form that `suStyleFor` has found is given again by every
  -- later call, and a device that denied root is refused again within the five minutes after, in
  -- both cases without running anything on the device or changing what the client remembers.
  pub su_style_for-su_style_for :
      (now later now' later' : ℕ) (c : Client V) (d : D)
      → Settled later now' later' (su_style_for a serial now later c d)
  su_style_for-su_style_for now later now' later' c d =
      Noted-Settled later now' later' (su_style_for a serial now later c d)
        (su_style_for-Noted now later c d)

  -- nothing is remembered of any probe of the device
  abbrev pub NothingKnown : Client V → Type 0
  NothingKnown c =
      (lookup serial c.su_styles ≡ none)
      × (lookup serial c.su_failed_at ≡ none)
      × (lookup serial c.adb_rooted ≡ none)

  forget-NothingKnown : (c : Client V) → NothingKnown (forget_root_probe c serial)
  unfolding forget_root_probe
  forget-NothingKnown c = (
    lookup-remove_self serial c.su_styles,
    lookup-remove_self serial c.su_failed_at,
    lookup-remove_self serial c.adb_rooted,
  )

  abbrev pub Healed : Client V → (Text × Bool × Bool) × Client V × D → Type 0
  Healed c ((out, true, failed), c', d') = (failed ≡ true) × NothingKnown c'
  Healed c ((out, false, failed), c', d') = lookup serial c'.su_styles ≡ lookup serial c.su_styles

  Healed-if :
      (c : Client V) (b : Bool) (x y : (Text × Bool × Bool) × Client V × D)
      → Healed c x
      → Healed c y
      → Healed c (if b then x else y)
  Healed-if c true x y hx hy = hx
  Healed-if c false x y hx hy = hy

  refusal-Healed :
      (out : Text) (err : Option Text) (c : Client V) (d : D)
      → Healed c (refusal serial (record { out = out; err = err }, d) c)
  unfolding refusal
  refusal-Healed out none c d = refl
  refusal-Healed out (some e) c d =
      Healed-if c (tells_su_gone (to_lower (e ++ (b' ' ∷ out))))
        ((out, true, true), forget_root_probe c serial, d) ((out, false, true), c, d)
        (refl, forget-NothingKnown c) refl

  shell_su_cached :
      (now later : ℕ) (command : Text) (c : Client V) (d : D) (st : SuStyle)
      → lookup serial c.su_styles ≡ some st
      → shell_su a serial now later command c d ≡ refusal serial (shell a (su_wrap st command) d) c
  unfolding shell_su after_style su_style_for known_or_probe
  shell_su_cached now later command c d st e = rw (e, known_or_probe)

  -- A way to be root that stops working is not kept. Where a form of `su` is remembered, `ShellSU`
  -- runs the command through that form and nothing else. If it then reports that root is
  -- unavailable, it failed and no probe of the device is remembered any more; if it does not, the
  -- form is remembered as before.
  pub shell_su-Healed :
      (now later : ℕ) (command : Text) (c : Client V) (d : D) (st : SuStyle)
      → lookup serial c.su_styles ≡ some st
      → (shell_su a serial now later command c d
          ≡ refusal serial (shell a (su_wrap st command) d) c)
        × Healed c (shell_su a serial now later command c d)
  shell_su-Healed now later command c d st e =
      let same = shell_su_cached now later command c d st e in
      let (r, d') = shell a (su_wrap st command) d in
      (same, subst (Healed c) (sym same) (refusal-Healed r.out r.err c d'))
