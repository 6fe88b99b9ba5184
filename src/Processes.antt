-- ===== src/Processes.antt =====
-- internal/adb/procs.go: the process list that is read from a device's procfs. An int64 is a ℤ within
-- its range, and what wraps around is written out. A percentage, a float64 in the program, is the
-- fraction that it rounds.
pub mod Int64
pub mod Top
pub mod StatLine
mod Examples
use adbq.Prelude.{
  ℕ, zero, suc, ◌+◌, ◌-◌, ◌*◌, ◌/◌, ◌%◌, ◌^◌, List, [], ◌∷◌, ◌++◌, Option, none, some, Bool, true,
  false, not, ◌&&◌, ◌||◌, if◌then◌else◌, ltb, leb, ◌==◌, Text, codes, text_eq, has_prefix, length,
  get_or, drop,
}
use adbq.Prelude.Int.{int_eq, ℤ, pos, negsuc}
use adbq.Strings.{fields, split, trim_space, cut_byte, cons_first}
use adbq.Decimal.{decimal, atoi, uint_value}
use adbq.Processes.Int64.{add64, sub64, mul64, of_uint64, quot64, int_value, is_positive}

-- `strings.Split(out, "@@@")`: the second argument counts the bytes of a separator to skip
unfoldable pub cut_marks : ℕ → Text → List Text
cut_marks skip [] = [] ∷ []
cut_marks (suc skip) (c ∷ s) = cut_marks skip s
cut_marks zero (c ∷ s) =
    let after = cut_marks 2 s in
    let rest = cut_marks zero s in
    if has_prefix (c ∷ s) (codes "@@@") then [] ∷ after else cons_first c rest

-- `splitProcfsSections`: the part with a number, trimmed, and "" for one that is missing
unfoldable pub section : Text → ℕ → Text
unfolding cut_marks cons_first trim_space
section out i = trim_space (get_or (cut_marks 0 out) i [])

-- `map[int]int` as a function
abbrev pub PidMap : Type 0
PidMap = ℤ → Option ℤ

uid_pair : PidMap → Option ℤ → Option ℤ → PidMap
unfolding int_eq
uid_pair m (some pid) (some uid) = λ k. if int_eq pid k then some uid else m k
uid_pair m p u = m

uid_row : PidMap → List Text → PidMap
unfolding uid_pair
uid_row m (pid ∷ uid ∷ more) = uid_pair m (atoi pid) (atoi uid)
uid_row m few = m

uid_rows : PidMap → List Text → PidMap
unfolding uid_row
uid_rows m [] = m
uid_rows m (ln ∷ lns) = uid_rows (uid_row m (fields ln)) lns

unfoldable pub parse_uid_section : Text → PidMap
unfolding uid_rows
parse_uid_section sec = uid_rows (λ k. none) (split b'\n' sec)

known_user : ℕ → Text
known_user uid =
    if uid == 0
    then codes "root"
    else if uid == 1000
    then codes "system"
    else if uid == 1001
    then codes "radio"
    else if uid == 1013
    then codes "media"
    else if uid == 2000
    then codes "shell"
    else if leb 10000 uid && leb 10000 (uid % 100000)
    then b'u' ∷ (decimal (uid / 100000) ++ (codes "_a" ++ decimal (uid % 100000 - 10000)))
    else decimal uid

unfoldable pub android_user_for_uid : ℤ → Text
unfolding known_user
android_user_for_uid (negsuc n) = []
android_user_for_uid (pos uid) = known_user uid

-- a number that cannot be read is skipped
sum_row : ℤ → List Text → ℤ
unfolding add64
sum_row total [] = total
sum_row total (f ∷ fs) = sum_row (elim (atoi f) [ none ↦ total | some n ↦ add64 total n ]) fs

is_number : Option ℤ → Bool
is_number none = false
is_number (some n) = true

stat_row : ℤ × ℕ → List Text → ℤ × ℕ
unfolding sum_row is_number
stat_row (total, ncpu) [] = (total, ncpu)
stat_row (total, ncpu) (f ∷ fs) =
    if text_eq f (codes "cpu")
    then (sum_row total fs, ncpu)
    else if has_prefix f (codes "cpu") && ltb 3 (length f) && is_number (atoi (drop 3 f))
    then (total, ncpu + 1)
    else (total, ncpu)

stat_rows : ℤ × ℕ → List Text → ℤ × ℕ
unfolding stat_row
stat_rows acc [] = acc
stat_rows acc (ln ∷ lns) = stat_rows (stat_row acc (fields ln)) lns

-- total jiffies and the count of processors
unfoldable pub parse_proc_stat : Text → ℤ × ℕ
unfolding stat_rows
parse_proc_stat stat = stat_rows (pos 0, 0) (split b'\n' stat)

mem_of : List Text → Option ℤ
mem_of (label ∷ n ∷ more) = atoi n
mem_of few = none

mem_rows : List Text → ℤ
unfolding mem_of
mem_rows [] = pos 0
mem_rows (ln ∷ lns) =
    let rest = mem_rows lns in
    if not (has_prefix ln (codes "MemTotal:"))
    then rest
    else elim (mem_of (fields ln)) [ none ↦ rest | some n ↦ n ]

unfoldable pub parse_mem_total_kb : Text → ℤ
unfolding mem_rows
parse_mem_total_kb mem = mem_rows (split b'\n' mem)

pub record ProcStat : Type 0 where
  pub pid : ℤ
  pub comm : Text
  pub state : Text
  pub utime : ℤ
  pub stime : ℤ
  pub vsize : ℤ
  pub rss_pages : ℤ

-- what stands in front of the last `b` and behind it
unfoldable pub cut_last : ℕ → Text → Option (Text × Text)
cut_last b [] = none
cut_last b (c ∷ s) = elim (cut_last b s) [
  | some (l, r) ↦ some (c ∷ l, r)
  | none ↦ if c == b then some ([], s) else none
]

stat_fields : ℤ → Text → List Text → Option ProcStat
unfolding int_value of_uint64
stat_fields pid comm rest =
    if ltb (length rest) 22
    then none
    else some (record {
      pid = pid;
      comm = comm;
      state = get_or rest 0 [];
      utime = int_value (get_or rest 11 []);
      stime = int_value (get_or rest 12 []);
      vsize = of_uint64 (uint_value (get_or rest 20 []));
      rss_pages = int_value (get_or rest 21 []);
    })

behind_comm : Option ℤ → Text → Text → Option ProcStat
unfolding stat_fields
behind_comm none comm rest = none
behind_comm (some pid) comm rest = stat_fields pid comm (fields (trim_space rest))

behind_open : Text → Option (Text × Text) → Option ProcStat
unfolding behind_comm
behind_open before none = none
behind_open before (some (comm, rest)) = behind_comm (atoi (trim_space before)) comm rest

from_open : Option (Text × Text) → Option ProcStat
unfolding behind_open cut_last
from_open none = none
from_open (some (before, after)) = behind_open before (cut_last b')' after)

-- a last `)` in front of the first `(` is refused, as is none
unfoldable pub parse_proc_stat_line : Text → Option ProcStat
unfolding from_open cut_byte
parse_proc_stat_line line = from_open (cut_byte b'(' (trim_space line))
