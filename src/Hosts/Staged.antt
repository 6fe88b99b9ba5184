-- ===== src/Hosts/Staged.antt =====
-- The content reaches the device's staging file byte for byte.
use adbq.Prelude.{◌≡◌, sym, ap, [], ◌∷◌, ◌++◌, append_assoc, some, Text, codes}
use adbq.CommandText.{sh_quote}
use adbq.CommandText.Shell.{shell_words}
use adbq.CommandText.RoundTrip.{shell_words-printf, sh_quote_lem}
use adbq.Hosts.{escaped, hosts_stage, hosts_stage_cmd}

-- what stands behind the quoted content
abbrev pub redirection : Text
redirection = codes " > " ++ (hosts_stage ++ (codes " && chmod 644 " ++ hosts_stage))

-- Staging a hosts file hands the device's `printf` the content as one untouched argument, whatever
-- bytes it has, and sends what is printed to the staging file: the command is a line that the shell
-- reads as `printf`, `%s` and the content, followed by the redirection.
pub hosts_stage_cmd-words :
    (content : Text)
    → (line : Text) × (hosts_stage_cmd content ≡ line ++ redirection)
      × (shell_words line ≡ some (codes "printf" ∷ codes "%s" ∷ content ∷ []))
unfolding hosts_stage_cmd escaped
hosts_stage_cmd-words content = (
  codes "printf '%s' " ++ sh_quote content,
  rw (sh_quote_lem content) (
      ap (λ t. codes "printf '%s' '" ++ t)
        (sym (append_assoc (escaped content) (b'\'' ∷ []) redirection))),
  shell_words-printf content,
)
