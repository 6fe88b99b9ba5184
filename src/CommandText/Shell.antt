-- ===== src/CommandText/Shell.antt =====
-- How a POSIX shell reads a simple command: words are split at blanks, single quotes keep all up to
-- the next one, a backslash keeps the next byte. A line that an expansion or an operator would
-- change is refused, so what is read is what the program runs with.
use adbq.Prelude.{
  ℕ, List, [], ◌∷◌, ◌++◌, Option, none, some, Bool, true, false, ◌&&◌, ◌||◌, if◌then◌else◌, ◌==◌,
  leb, Text, codes, has_byte, text_eq,
}

pub data Mode : Type 0 where
  outside quoted escaped refused : Mode

pub record Reader : Type 0 where
  pub mode : Mode
  pub word : Option Text
  pub words : List Text

abbrev pub blanks : Text
blanks = codes " \t\n"

-- operators, expansions, double quotes, and what common shells treat so
abbrev pub active : Text
active = codes "\"$`|&;<>()*?[]{}#~!^"

abbrev pub grown : Option Text → Text → Text
grown none s = s
grown (some w) s = w ++ s

abbrev pub closed : Option Text → List Text → List Text
closed none ws = ws
closed (some w) ws = ws ++ w ∷ []

unfoldable pub step_in : Mode → Reader → ℕ → Reader
step_in Mode.outside r c =
    if has_byte blanks c
    then record r { word = none; words = closed r.word r.words }
    else if c == b'\''
    then record r { mode = Mode.quoted; word = some (grown r.word []) }
    else if c == b'\\'
    then record r { mode = Mode.escaped }
    else if has_byte active c
    then record r { mode = Mode.refused }
    else record r { word = some (grown r.word (c ∷ [])) }
step_in Mode.quoted r c =
    if c == b'\''
    then record r { mode = Mode.outside }
    else record r { word = some (grown r.word (c ∷ [])) }
step_in Mode.escaped r c =
    if c == b'\n'
    then record r { mode = Mode.outside }
    else record r { mode = Mode.outside; word = some (grown r.word (c ∷ [])) }
step_in Mode.refused r c = r

unfoldable pub step : Reader → ℕ → Reader
step r c = step_in r.mode r c

unfoldable pub read : Reader → Text → Reader
read r [] = r
read r (c ∷ s) = read (step r c) s

finish : Mode → Reader → Option (List Text)
finish Mode.outside r = some (closed r.word r.words)
finish m r = none

-- the words of a line, if the shell passes them on as they are
unfoldable pub shell_words : Text → Option (List Text)
unfolding finish read step step_in has_byte
shell_words s =
    let r = read (record { mode = Mode.outside; word = none; words = [] }) s in finish r.mode r

-- letters, digits and the underscore
unfoldable pub is_name_byte : ℕ → Bool
is_name_byte c =
    (leb b'a' c && leb c b'z')
    || ((leb b'A' c && leb c b'Z') || ((leb b'0' c && leb c b'9') || c == b'_'))

-- a line that begins with an assignment to a variable: a name and then an equals sign
unfoldable pub assigns : Text → Bool
unfolding is_name_byte
assigns [] = false
assigns (c ∷ s) = let rest = assigns s in if c == b'=' then true else is_name_byte c && rest

unfoldable pub first_word : Text → Text
unfolding has_byte
first_word [] = []
first_word (c ∷ s) = let rest = first_word s in if has_byte blanks c then [] else c ∷ rest

unfoldable pub one_of : Text → List Text → Bool
unfolding text_eq
one_of w [] = false
one_of w (r ∷ rs) = text_eq w r || one_of w rs

-- the reserved words of common shells that are made of letters; the others are quoted or refused
unfoldable pub reserved : Text → Bool
unfolding one_of
reserved w = one_of w (
    codes "if"
    ∷ codes "then"
    ∷ codes "else"
    ∷ codes "elif"
    ∷ codes "fi"
    ∷ codes "do"
    ∷ codes "done"
    ∷ codes "case"
    ∷ codes "esac"
    ∷ codes "while"
    ∷ codes "until"
    ∷ codes "for"
    ∷ codes "in"
    ∷ codes "function"
    ∷ codes "select"
    ∷ codes "time"
    ∷ codes "coproc"
    ∷ [])

-- the words of a line that is a simple command: no assignment and no reserved word stands in front
unfoldable pub shell_command : Text → Option (List Text)
unfolding assigns reserved first_word shell_words
shell_command s = if assigns s || reserved (first_word s) then none else shell_words s
