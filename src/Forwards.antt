-- ===== src/Forwards.antt =====
-- internal/adb/forwards.go: the parsers of `adb forward --list` and `adb reverse --list`, and the
-- commands that are shown for a mapping. The calls that only run one adb command are left out.
pub mod Listed
mod Examples
use adbq.Prelude.{
  List, [], ◌∷◌, ◌++◌, Bool, true, false, not, ◌&&◌, if◌then◌else◌, Text, codes, text_eq, map,
}
use adbq.Strings.{split, fields}
use adbq.CommandText.{device_command_text}

pub record Forward : Type 0 where
  pub serial : Text
  pub local : Text
  pub remote : Text

-- three fields or more; the first may be the tag
reverse_row : Text → List Text → List Forward
reverse_row serial (a ∷ b ∷ c ∷ fs) =
    if text_eq a (codes "(reverse)")
    then record { serial = serial; local = c; remote = b } ∷ []
    else record { serial = serial; local = b; remote = a } ∷ []
reverse_row serial fs = []

reverse_rows : Text → List Text → List Forward
unfolding reverse_row
reverse_rows serial [] = []
reverse_rows serial (ln ∷ lines) = reverse_row serial (fields ln) ++ reverse_rows serial lines

-- the loop of `ListReverses`
pub parse_reverse_list : Text → Text → List Forward
unfolding reverse_rows
parse_reverse_list out serial = reverse_rows serial (split b'\n' out)

forward_row : Text → List Text → List Forward
forward_row serial (a ∷ b ∷ c ∷ fs) =
    if not (text_eq serial []) && not (text_eq a serial)
    then []
    else record { serial = a; local = b; remote = c } ∷ []
forward_row serial fs = []

forward_rows : Text → List Text → List Forward
unfolding forward_row
forward_rows serial [] = []
forward_rows serial (ln ∷ lines) = forward_row serial (fields ln) ++ forward_rows serial lines

pub parse_forward_list : Text → Text → List Forward
unfolding forward_rows
parse_forward_list out serial = forward_rows serial (split b'\n' out)

pub record ForwardCommands : Type 0 where
  pub kind : Text
  pub local : Text
  pub remote : Text
  pub add : List Text
  pub remove : List Text
  pub list : List Text

unless_blank : Text → List Text → List Text
unless_blank [] shown = []
unless_blank (c ∷ s) shown = shown

commands : Text → Text → Text → Text → Text → Text → ForwardCommands
unfolding unless_blank
commands serial sub first second local remote = record {
  kind = sub;
  local = local;
  remote = remote;
  list = device_command_text serial (sub ∷ codes "--list" ∷ []) ∷ [];
  add =
      unless_blank first
        (unless_blank second (device_command_text serial (sub ∷ first ∷ second ∷ []) ∷ []));
  remove =
      unless_blank first (device_command_text serial (sub ∷ codes "--remove" ∷ first ∷ []) ∷ []);
}

-- a reverse names the device's side first
pub forward_commands_for : Text → Text → Text → Text → ForwardCommands
unfolding commands
forward_commands_for serial kind local remote =
    if text_eq kind (codes "reverse")
    then commands serial (codes "reverse") remote local local remote
    else commands serial (codes "forward") local remote local remote

pub forward_commands_for_rows : Text → Text → List Forward → List ForwardCommands
unfolding forward_commands_for
forward_commands_for_rows serial kind rows =
    map (λ r. forward_commands_for serial kind r.local r.remote) rows
