-- ===== src/Root.antt =====
-- How the client becomes root on a device: `suStyleFor`, `rootWrap` and `ShellSU` of
-- internal/adb/adb.go, and internal/adb/adb_root.go. The maps are those of the `Client` of FactStore.
-- A clock reading is an argument: `now` where a probe is begun and `later` where its failure is noted.
pub mod Wrap
pub mod Memory
mod Examples
use adbq.Prelude.{
  ℕ, ◌-◌, ◌*◌, ◌^◌, List, [], ◌∷◌, ◌++◌, Option, none, some, Bool, true, false, ◌||◌, if◌then◌else◌,
  ltb, Text, codes, text_eq, has_prefix,
}
use adbq.Strings.{split, trim_space, contains, to_lower}
use adbq.Dict.{Dict, lookup, insert}
use adbq.CommandText.{sh_quote}
use adbq.FactStore.{
  Client, Capabilities, SuStyle, AdbRootState, forget_root_probe, invalidate_capabilities,
}
use adbq.FactStore.Resolver.{scanned}

-- what `Run` returns: the trimmed output, and the text of the error if there is one
pub record Reply : Type 0 where
  pub out : Text
  pub err : Option Text

-- What the client does with one device. `binary` tells whether the adb program is found, `adb` runs
-- it with arguments behind the serial, `scan` is the capability scan.
pub record Adb (D : Type 0) : Type 0 where
  pub binary : Bool
  pub adb : List Text → D → Reply × D
  pub scan : D → Capabilities × D

abbrev pub no_binary : Text
no_binary = codes "adb binary not found in PATH or common locations"

-- five minutes
abbrev pub su_retry_after : ℕ
su_retry_after = 5 * 60 * 10 ^ 9

-- `suStyleFor` returns a style or one of two errors
pub data SuAnswer : Type 0 where
  found : SuStyle → SuAnswer
  recently denied : SuAnswer

-- the cases of `rootWrap`
unfoldable pub su_wrap : SuStyle → Text → Text
su_wrap SuStyle.bare_root inner = inner
su_wrap SuStyle.simple inner = codes "su -c " ++ sh_quote inner
su_wrap SuStyle.sh_wrap inner = codes "su -c sh -c " ++ sh_quote inner
su_wrap SuStyle.zero_simple inner = codes "su 0 -c " ++ sh_quote inner
su_wrap SuStyle.zero_sh_wrap inner = codes "su 0 sh -c " ++ sh_quote inner

unfoldable pub has_uid0 : Text → Bool
has_uid0 id_out =
    let s = trim_space id_out in
    has_prefix s (codes "uid=0(") || has_prefix s (codes "uid=0 ") || text_eq s (codes "uid=0")

any_line_is : Text → List Text → Bool
any_line_is marker [] = false
any_line_is marker (ln ∷ lns) = text_eq (trim_space ln) marker || any_line_is marker lns

unfoldable pub has_marker_line : Text → Text → Bool
unfolding any_line_is
has_marker_line out marker = any_line_is marker (split b'\n' out)

abbrev pub marker : Text
marker = codes "ADBQ_SU_OK"

abbrev pub probe : Text
probe = codes "echo " ++ marker

unfoldable pub su_forms : List SuStyle
su_forms = SuStyle.simple ∷ SuStyle.sh_wrap ∷ SuStyle.zero_simple ∷ SuStyle.zero_sh_wrap ∷ []

unfoldable pub tells_su_gone : Text → Bool
tells_su_gone low =
    contains low (codes "not found")
    || contains low (codes "permission denied")
    || contains low (codes "no such file")

abbrev pub is_granted : AdbRootState → Bool
is_granted AdbRootState.granted = true
is_granted st = false

recent : Option ℕ → ℕ → Bool
recent none now = false
recent (some at) now = ltb (now - at) su_retry_after

module _ {D : Type 0} (a : Adb D) where
  -- `Shell`
  unfoldable pub shell : Text → D → Reply × D
  shell command d =
      if a.binary
      then a.adb (codes "shell" ∷ command ∷ []) d
      else (record { out = []; err = some no_binary }, d)

module _ {ℓ} {V : Type ℓ} where
  unfoldable pub set_su_style : Client V → Text → SuStyle → Client V
  set_su_style c serial st = record c { su_styles = insert serial st c.su_styles }

  unfoldable pub set_adb_root_state : Client V → Text → AdbRootState → Client V
  set_adb_root_state c serial st = record c { adb_rooted = insert serial st c.adb_rooted }

  unfoldable pub note_su_failed : Client V → Text → ℕ → Client V
  note_su_failed c serial at = record c { su_failed_at = insert serial at c.su_failed_at }

  -- the answer of `ShellSU`: the output, whether root is unavailable, and whether it failed
  pub refusal : {D : Type 0} → Text → Reply × D → Client V → (Text × Bool × Bool) × Client V × D
  unfolding tells_su_gone
  refusal serial (r, d) c = elim r.err [
    | none ↦ ((r.out, false, false), c, d)
    | some e ↦
        if tells_su_gone (to_lower (e ++ (b' ' ∷ r.out)))
        then ((r.out, true, true), forget_root_probe c serial, d)
        else ((r.out, false, true), c, d)
  ]

  module _ {D : Type 0} (a : Adb D) (serial : Text) where
    capabilities_or_scan : Option Capabilities → Client V → D → Capabilities × Client V × D
    capabilities_or_scan (some caps) c d = (caps, c, d)
    capabilities_or_scan none c d =
        let (probed, d') = a.scan d in
        let (caps, c') = scanned c serial probed none in (caps, c', d')

    unfoldable pub adb_root_eligible : Client V → D → Bool × Client V × D
    unfolding capabilities_or_scan
    adb_root_eligible c d =
        if has_prefix serial (codes "emulator-")
        then (true, c, d)
        else let (caps, c', d') = capabilities_or_scan (lookup serial c.caps) c d in
          (caps.debuggable, c', d')

    -- from the answer to `adb root` on
    after_adb_root : Client V → Reply × D → Bool × Client V × D
    unfolding set_adb_root_state
    after_adb_root c (r, d) =
        if contains (to_lower r.out) (codes "cannot run as root")
        then (false, set_adb_root_state c serial AdbRootState.refused, d)
        else let (waited, d') = a.adb (codes "wait-for-device" ∷ []) d in
          let (id, d'') = shell a (codes "id") d' in
          if has_uid0 id.out
          then (
            true,
            set_adb_root_state (invalidate_capabilities c serial) serial AdbRootState.granted,
            d'',
          )
          else (false, set_adb_root_state c serial AdbRootState.refused, d'')

    ask_adb_root : Bool × Client V × D → Bool × Client V × D
    unfolding set_adb_root_state after_adb_root
    ask_adb_root (eligible, c, d) =
        if eligible
        then if a.binary
          then after_adb_root c (a.adb (codes "root" ∷ []) d)
          else (false, set_adb_root_state c serial AdbRootState.refused, d)
        else (false, set_adb_root_state c serial AdbRootState.ineligible, d)

    latched_or_ask : Option AdbRootState → Client V → D → Bool × Client V × D
    unfolding ask_adb_root adb_root_eligible
    latched_or_ask (some st) c d = (is_granted st, c, d)
    latched_or_ask none c d = ask_adb_root (adb_root_eligible c d)

    unfoldable pub try_adb_root : Client V → D → Bool × Client V × D
    unfolding latched_or_ask
    try_adb_root c d = latched_or_ask (lookup serial c.adb_rooted) c d

    -- the loop over the forms of `su`
    unfoldable pub try_forms : ℕ → List SuStyle → Client V → D → SuAnswer × Client V × D
    unfolding set_su_style note_su_failed
    try_forms later [] c d = (denied, note_su_failed c serial later, d)
    try_forms later (st ∷ sts) c d =
        let (r, d') = shell a (su_wrap st probe) d in
        let rest = try_forms later sts c d' in
        if has_marker_line r.out marker then (found st, set_su_style c serial st, d') else rest

    after_adb_root_try : ℕ → Bool × Client V × D → SuAnswer × Client V × D
    unfolding try_forms su_forms set_su_style
    after_adb_root_try later (true, c, d) =
        (found SuStyle.bare_root, set_su_style c serial SuStyle.bare_root, d)
    after_adb_root_try later (false, c, d) = try_forms later su_forms c d

    after_id : ℕ → Client V → Reply × D → SuAnswer × Client V × D
    unfolding after_adb_root_try set_su_style try_adb_root
    after_id later c (r, d) =
        if has_uid0 r.out
        then (found SuStyle.bare_root, set_su_style c serial SuStyle.bare_root, d)
        else after_adb_root_try later (try_adb_root c d)

    known_or_probe : Option SuStyle → ℕ → ℕ → Client V → D → SuAnswer × Client V × D
    unfolding recent after_id
    known_or_probe (some st) now later c d = (found st, c, d)
    known_or_probe none now later c d =
        if recent (lookup serial c.su_failed_at) now
        then (recently, c, d)
        else after_id later c (shell a (codes "id") d)

    unfoldable pub su_style_for : ℕ → ℕ → Client V → D → SuAnswer × Client V × D
    unfolding known_or_probe
    su_style_for now later c d = known_or_probe (lookup serial c.su_styles) now later c d

    after_style : Text → SuAnswer × Client V × D → (Text × Bool × Bool) × Client V × D
    unfolding su_wrap refusal
    after_style command (found st, c, d) = refusal serial (shell a (su_wrap st command) d) c
    after_style command (answer, c, d) = (([], true, true), c, d)

    unfoldable pub shell_su : ℕ → ℕ → Text → Client V → D → (Text × Bool × Bool) × Client V × D
    unfolding after_style
    shell_su now later command c d = after_style command (su_style_for now later c d)
