-- ===== src/CommandText.antt =====
-- internal/adb/command_text.go, and `shQuote` of internal/adb/system.go: how a command line is
-- spelled for a host shell. The specification, a reader of such lines, is in CommandText/Shell.
pub mod Shell
pub mod Simple
pub mod RoundTrip
mod Examples
use adbq.Prelude.{
  ℕ, List, [], ◌∷◌, ◌++◌, map, Option, none, some, Bool, true, false, if◌then◌else◌, Text, codes,
  contains_any, join, replace_byte, text_eq, not,
}

-- the bytes that a host shell would mangle
abbrev pub mangled : Text
mangled = codes " \t\n\r'\"$`\\|&;<>()*?[]{}#~!^"

-- an embedded single quote, broken out of the quotes
abbrev pub broken_quote : Text
broken_quote = codes "'\\''"

-- `"'" + strings.ReplaceAll(s, "'", `'\''`) + "'"`
pub single_quoted : Text → Text
unfolding replace_byte
single_quoted s = b'\'' ∷ (replace_byte b'\'' broken_quote s ++ b'\'' ∷ [])

pub sh_quote : Text → Text
unfolding single_quoted
sh_quote s = single_quoted s

pub quote_arg : Text → Text
unfolding single_quoted contains_any
quote_arg [] = codes "''"
quote_arg (c ∷ s) = if contains_any (c ∷ s) mangled then single_quoted (c ∷ s) else c ∷ s

pub host_command_text : Text → List Text → Text
unfolding quote_arg join
host_command_text bin args = join (quote_arg bin ∷ map quote_arg args) (codes " ")

-- `if serial != "" { parts = append(parts, "-s", quoteArg(serial)) }`
serial_parts : Text → List Text
unfolding quote_arg
serial_parts [] = []
serial_parts (c ∷ s) = codes "-s" ∷ quote_arg (c ∷ s) ∷ []

pub device_command_text : Text → List Text → Text
unfolding serial_parts join
device_command_text serial args =
    join (codes "adb" ∷ (serial_parts serial ++ map quote_arg args)) (codes " ")

pub shell_command_text : Text → Text → Text
unfolding device_command_text
shell_command_text serial remote = device_command_text serial (codes "shell" ∷ remote ∷ [])

pub plain_renderer : Text → Text → Bool → Text
unfolding shell_command_text sh_quote
plain_renderer serial remote as_root =
    if as_root
    then shell_command_text serial (codes "su -c " ++ sh_quote remote)
    else shell_command_text serial remote

-- `wrapped` is what `rootWrap` answered for this device, `none` for its error.
pub shell_command_text_root : Option Text → Text → Text → Bool → Text
unfolding plain_renderer
shell_command_text_root wrapped serial remote false = shell_command_text serial remote
shell_command_text_root (some w) serial remote true = shell_command_text serial w
shell_command_text_root none serial remote true =
    shell_command_text serial (codes "su -c " ++ sh_quote remote)
