-- ===== src/Root/Wrap.antt =====
-- What a device's shell makes of the line that `rootWrap` builds.
use adbq.Prelude.{◌≡◌, refl, List, [], ◌∷◌, ◌++◌, some, ◌≢◌, Text, codes}
use adbq.CommandText.Shell.{shell_words}
use adbq.CommandText.RoundTrip.{read-sh_quote}
use adbq.FactStore.{SuStyle}
use adbq.Root.{su_wrap}

-- the words of `su` in front of the command
abbrev pub su_argv : SuStyle → List Text
su_argv SuStyle.bare_root = []
su_argv SuStyle.simple = codes "su" ∷ codes "-c" ∷ []
su_argv SuStyle.sh_wrap = codes "su" ∷ codes "-c" ∷ codes "sh" ∷ codes "-c" ∷ []
su_argv SuStyle.zero_simple = codes "su" ∷ codes "0" ∷ codes "-c" ∷ []
su_argv SuStyle.zero_sh_wrap = codes "su" ∷ codes "0" ∷ codes "sh" ∷ codes "-c" ∷ []

-- Whatever form of `su` a device takes, its shell reads the wrapped line as that form's words and
-- then the command as one untouched argument, whatever bytes the command has; where the shell is
-- root already the command is the line.
pub shell_words-su_wrap :
    (st : SuStyle) (inner : Text)
    → (st ≢ SuStyle.bare_root → shell_words (su_wrap st inner) ≡ some (su_argv st ++ inner ∷ []))
      × (su_wrap SuStyle.bare_root inner ≡ inner)
unfolding shell_words su_wrap
shell_words-su_wrap SuStyle.bare_root inner = (λ h. absurd (h refl), refl)
shell_words-su_wrap SuStyle.simple inner =
    (λ h. rw (read-sh_quote inner (su_argv SuStyle.simple)), refl)
shell_words-su_wrap SuStyle.sh_wrap inner =
    (λ h. rw (read-sh_quote inner (su_argv SuStyle.sh_wrap)), refl)
shell_words-su_wrap SuStyle.zero_simple inner =
    (λ h. rw (read-sh_quote inner (su_argv SuStyle.zero_simple)), refl)
shell_words-su_wrap SuStyle.zero_sh_wrap inner =
    (λ h. rw (read-sh_quote inner (su_argv SuStyle.zero_sh_wrap)), refl)
