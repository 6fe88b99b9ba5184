-- ===== src/Root/Examples.antt =====
-- A phone with Magisk: it denies `adb root` and takes the first form of `su`. Its state counts the
-- commands that were run on it.
use adbq.Prelude.{
  has_prefix, ℕ, ◌+◌, ◌≡◌, ◌≢◌, refl, [], ◌∷◌, ◌++◌, none, some, true, Text, codes, text_eq,
}
use adbq.FactStore.Resolver.{scanned}
use adbq.Strings.{trim_space, contains, to_lower, split}
use adbq.Dict.{lookup}
use adbq.CommandText.Shell.{shell_words}
use adbq.Prelude.Int.{pos}
use adbq.FactStore.{no_capabilities, Client, SuStyle, Capabilities}
use adbq.Root.{
  has_uid0, has_marker_line, Adb, marker, found, su_wrap, shell, refusal, try_adb_root,
  su_style_for, shell_su,
}
use adbq.Root.Wrap.{su_argv, shell_words-su_wrap}
use adbq.Root.Memory.{Healed, try_adb_root-try_adb_root, shell_su-Healed}

abbrev phone : Text
phone = codes "R58M"

abbrev scanned_caps : Capabilities
scanned_caps = record no_capabilities {
  sdk = pos 30;
  abi = codes "x86";
  has = [];
  debuggable = true;
}

abbrev magisk : Adb ℕ
magisk = record {
  binary = true;
  adb = λ args d. (record { out = marker; err = none }, d + 1);
  scan = λ d. (scanned_caps, d + 1);
}

abbrev fresh : Client ℕ
fresh = record { facts = []; caps = []; su_styles = []; su_failed_at = []; adb_rooted = [] }

abbrev rooted : Client ℕ
rooted = record fresh { su_styles = (phone, SuStyle.simple) ∷ [] }

-- the probe takes six commands and finds the first form of `su`
probed :
    ((su_style_for magisk phone 0 1 fresh 0).0 ≡ found SuStyle.simple)
    × ((su_style_for magisk phone 0 1 fresh 0).2 ≡ 6)
unfolding su_style_for shell lookup has_uid0 has_prefix trim_space text_eq scanned contains to_lower
    has_marker_line split
probed = (refl, refl)

-- the client after a first call, which has learnt a form of `su` since
abbrev later : Client ℕ
later = record (try_adb_root magisk phone fresh 0).1 { su_styles = (phone, SuStyle.simple) ∷ [] }

try_adb_root-try_adb_root_example :
    try_adb_root magisk phone later 9 ≡ ((try_adb_root magisk phone fresh 0).0, later, 9)
try_adb_root-try_adb_root_example = try_adb_root-try_adb_root magisk phone fresh 0 later 9 refl

rooted-style : lookup phone rooted.su_styles ≡ some SuStyle.simple
unfolding lookup text_eq
rooted-style = refl

shell_su-Healed_example :
    (shell_su magisk phone 0 1 (codes "id") rooted 0
      ≡ refusal phone (shell magisk (su_wrap SuStyle.simple (codes "id")) 0) rooted)
    × Healed magisk phone rooted (shell_su magisk phone 0 1 (codes "id") rooted 0)
shell_su-Healed_example =
    shell_su-Healed magisk phone 0 1 (codes "id") rooted 0 SuStyle.simple rooted-style

shell_words-su_wrap_example :
    (SuStyle.simple ≢ SuStyle.bare_root
      → shell_words (su_wrap SuStyle.simple (codes "id"))
        ≡ some (su_argv SuStyle.simple ++ codes "id" ∷ []))
    × (su_wrap SuStyle.bare_root (codes "id") ≡ codes "id")
shell_words-su_wrap_example = shell_words-su_wrap SuStyle.simple (codes "id")
