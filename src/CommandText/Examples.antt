-- ===== src/CommandText/Examples.antt =====
-- Rendered lines, and the theorems at them.
use adbq.Prelude.{◌≡◌, refl, [], ◌∷◌, some, none, true, Text, codes, has_byte, text_eq}
use adbq.CommandText.{quote_arg, host_command_text, device_command_text, plain_renderer}
use adbq.CommandText.Shell.{shell_words, assigns, reserved, shell_command}
use adbq.CommandText.RoundTrip.{shell_words-host_command_text}

abbrev tricky : Text
tricky = codes "it's; rm -rf $HOME"

quote_tricky : quote_arg tricky ≡ codes "'it'\\''s; rm -rf $HOME'"
unfolding quote_arg has_byte
quote_tricky = refl

bare_word :
    device_command_text (codes "emu-1") (codes "devices" ∷ []) ≡ codes "adb -s emu-1 devices"
unfolding device_command_text has_byte
bare_word = refl

root_line :
    plain_renderer (codes "e") (codes "id -u") true ≡ codes "adb -s e shell 'su -c '\\''id -u'\\'''"
unfolding plain_renderer has_byte
root_line = refl

expansion_refused : shell_words (codes "echo $HOME") ≡ none
unfolding shell_words
expansion_refused = refl

-- a name that is left bare and is no command's
assignment_refused : shell_command (host_command_text (codes "A=1") (codes "echo" ∷ [])) ≡ none
unfolding shell_command host_command_text quote_arg has_byte
assignment_refused = refl

shell_words-host_command_text_example :
    shell_command (host_command_text (codes "jadx") (tricky ∷ [] ∷ []))
    ≡ some (codes "jadx" ∷ tricky ∷ [] ∷ [])
shell_words-host_command_text_example =
    shell_words-host_command_text (codes "jadx") (tricky ∷ [] ∷ []) (unfold assigns in refl)
      (unfold reserved text_eq in refl)
