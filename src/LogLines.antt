-- ===== src/LogLines.antt =====
-- The lines of a device's log, `parseThreadtime` and the loop of `pump` of internal/adb/logcat.go, and
-- the process table that tells whose lines they are, internal/adb/logcat_procs.go.
pub mod Messages
pub mod Columns
pub mod Canonical
mod Examples
pub mod Groups
use adbq.Prelude.{
  ℕ, zero, suc, ◌+◌, ◌-◌, ◌^◌, List, [], ◌∷◌, ◌++◌, Option, none, some, Bool, true, false, not,
  ◌&&◌, ◌||◌, if◌then◌else◌, ltb, leb, ◌==◌, Text, codes, text_eq, has_prefix, contains_any, length,
  get_or, take, drop, join,
}
use adbq.Prelude.Int.{int_eq, ℤ, pos, negsuc}
use adbq.Strings.{fields, split, trim_space, trim_right_by, drop_while, contains, to_lower}
use adbq.Decimal.{atoi, is_digit, read_nat}
use adbq.LogcatFeed.{LogEntry, ProcOwner}

abbrev pub max_msg_len : ℕ
max_msg_len = 8192

-- " …[truncated]" in UTF-8
abbrev pub truncated_mark : Text
truncated_mark = b' ' ∷ 226 ∷ 128 ∷ 166 ∷ codes "[truncated]"

-- `utf8.RuneStart`: not a continuation byte
abbrev pub rune_start : ℕ → Bool
rune_start b = not (leb 128 b && ltb b 192)

-- `for cut > 0 && !utf8.RuneStart(s[cut]) { cut-- }`
unfoldable pub back_off : Text → ℕ → ℕ
back_off s zero = 0
back_off s (suc cut) =
    let rest = back_off s cut in if rune_start (get_or s (suc cut) 0) then suc cut else rest

unfoldable pub trunc_msg : Text → Text
trunc_msg s =
    if leb (length s) max_msg_len then s else take (back_off s max_msg_len) s ++ truncated_mark

all_digits : Text → Bool
all_digits [] = true
all_digits (c ∷ s) = is_digit c && all_digits s

unfoldable pub is_all_digits : Text → Bool
unfolding all_digits
is_all_digits s = not (text_eq s []) && all_digits s

unfoldable pub is_log_level : Text → Bool
is_log_level (c ∷ []) =
    c == b'V'
    || c == b'D'
    || c == b'I'
    || c == b'W'
    || c == b'E'
    || c == b'F'
    || c == b'A'
    || c == b'S'
is_log_level lvl = false

is_offset : Text → Bool
unfolding is_all_digits
is_offset [] = false
is_offset (c ∷ s) = length (c ∷ s) == 5 && (c == b'+' || c == b'-') && is_all_digits s

unfoldable pub looks_like_stamp_tail : Text → Bool
unfolding is_offset
looks_like_stamp_tail tok = contains_any tok (codes ":.") || is_offset tok

abbrev pub is_gap : ℕ → Bool
is_gap c = c == b' ' || c == b'\t'

-- `skipFields` of internal/adb/strutil.go
unfoldable pub skip_fields : ℕ → Text → Text
skip_fields zero s = drop_while is_gap s
skip_fields (suc n) s =
    let t = drop_while is_gap s in
    let rest = skip_fields n (drop_while (λ c. not (is_gap c)) t) in
    if contains_any t (codes " \t") then rest else []

-- `strings.Cut(s, ": ")`
unfoldable pub cut_colon : Text → Option (Text × Text)
cut_colon [] = none
cut_colon (c ∷ s) =
    let rest = cut_colon s in
    if has_prefix (c ∷ s) (codes ": ")
    then some ([], drop 1 s)
    else elim rest [ none ↦ none | some (l, r) ↦ some (c ∷ l, r) ]

-- `n, _ := strconv.Atoi(s)` of digits: the greatest int64 where the number is too large
int_value : Option ℕ → ℕ
int_value none = 0
int_value (some n) = if ltb n (2 ^ 63) then n else 2 ^ 63 - 1

unfoldable pub digits_value : Text → ℕ
unfolding int_value read_nat
digits_value s = int_value (read_nat s)

tag_of : Text → Option (Text × Text) → Text × Text
tag_of rest none = (rest, [])
tag_of rest (some (before, after)) = (trim_space before, after)

-- the entry whose level stands at field `i + 2`; `before` are the fields in front of `i`
unfoldable pub entry_at : Text → ℕ → List Text → Text → Text → Text → LogEntry
unfolding digits_value skip_fields cut_colon tag_of trunc_msg
entry_at line i before pid tid lvl =
    let rest = trim_space (skip_fields (i + 3) line) in
    let (tag, msg) = tag_of rest (cut_colon rest) in
    record {
      time = join before (codes " ");
      pid = digits_value pid;
      tid = digits_value tid;
      level = lvl;
      tag = tag;
      msg = trunc_msg msg;
      proc = [];
      app = false;
    }

-- the loop over `i`: the fields in front of it, the one just before it, and those from it on
unfoldable pub scan_fields : Text → ℕ → List Text → Text → List Text → Option LogEntry
unfolding looks_like_stamp_tail is_all_digits is_log_level entry_at
scan_fields line i before prev (pid ∷ tid ∷ lvl ∷ more) =
    let rest = scan_fields line (i + 1) (before ++ pid ∷ []) pid (tid ∷ lvl ∷ more) in
    if not (looks_like_stamp_tail prev)
    then rest
    else if not (is_all_digits pid) || not (is_all_digits tid)
    then rest
    else if not (is_log_level lvl)
    then rest
    else some (entry_at line i before pid tid lvl)
scan_fields line i before prev few = none

from_first : Text → List Text → Option LogEntry
unfolding scan_fields
from_first line [] = none
from_first line (f ∷ fs) = scan_fields line 1 (f ∷ []) f fs

unfoldable pub parse_threadtime : Text → Option LogEntry
unfolding from_first
parse_threadtime line = if ltb (length (fields line)) 5 then none else from_first line (fields line)

-- what `pump` makes of a line
pub data LineKind : Type 0 where
  entry : LogEntry → LineKind
  noise : LineKind
  more : Text → LineKind

abbrev pub is_blank_end : ℕ → Bool
is_blank_end c = c == b' ' || c == b'\r'

abbrev pub is_blank : ℕ → Bool
is_blank c = c == b' '

rest_kind : Text → LineKind
rest_kind t =
    if text_eq t [] || has_prefix (drop_while is_blank t) (codes "--------- beginning of")
    then noise
    else more (drop_while is_blank t)

kind_or : Option LogEntry → Text → LineKind
unfolding rest_kind
kind_or (some e) line = entry e
kind_or none line = rest_kind (trim_right_by is_blank_end line)

unfoldable pub kind_of : Text → LineKind
unfolding kind_or parse_threadtime
kind_of line = kind_or (parse_threadtime line) line

-- a continuation of the entry `last`
unfoldable pub continued : LogEntry → Text → LogEntry
unfolding trunc_msg
continued last t = record last { msg = trunc_msg (codes "    " ++ t); proc = []; app = false }

-- the entries that are sent for a line, and what `last` is after it
unfoldable pub pump_line : Option LogEntry → LineKind → List LogEntry × Option LogEntry
unfolding continued
pump_line last (entry e) = (e ∷ [], some e)
pump_line last noise = ([], last)
pump_line none (more t) = ([], none)
pump_line (some e) (more t) = (continued e t ∷ [], some e)

unfoldable pub pump : Option LogEntry → List Text → List LogEntry
unfolding pump_line kind_of
pump last [] = []
pump last (line ∷ lines) =
    let (sent, last') = pump_line last (kind_of line) in sent ++ pump last' lines

-- `looksLikeRejectedFlag`
any_in : Text → List Text → Bool
any_in low [] = false
any_in low (m ∷ ms) = contains low m || any_in low ms

unfoldable pub looks_like_rejected_flag : Text → Bool
unfolding any_in
looks_like_rejected_flag msg = any_in (to_lower msg) (
    codes "unknown option"
    ∷ codes "invalid option"
    ∷ codes "bad -"
    ∷ codes "usage:"
    ∷ codes "unrecognized"
    ∷ [])

-- a process table, as a function of the pid
abbrev pub ProcTable : Type 0
ProcTable = ℤ → Option ProcOwner

row_of : ProcTable → Option ℤ → Option ℤ → List Text → ProcTable
unfolding int_eq
row_of tbl (some pid) (some uid) name =
    λ k. if int_eq pid k then some (record { name = join name (codes " "); uid = uid }) else tbl k
row_of tbl p u name = tbl

unfoldable pub proc_row : ProcTable → List Text → ProcTable
unfolding row_of
proc_row tbl (pid ∷ uid ∷ name) = row_of tbl (atoi pid) (atoi uid) name
proc_row tbl few = tbl

proc_rows : ProcTable → List Text → ProcTable
unfolding proc_row
proc_rows tbl [] = tbl
proc_rows tbl (ln ∷ lns) = proc_rows (proc_row tbl (fields ln)) lns

unfoldable pub parse_proc_table : Text → ProcTable
unfolding proc_rows
parse_proc_table out = proc_rows (λ k. none) (split b'\n' out)
