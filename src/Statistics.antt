-- ===== src/Statistics.antt =====
-- internal/adb/stats.go: the gauges of a device. A float64 is a value of `F`, behind what the code does
-- with it; the busy percentage of the processors is the fraction that it rounds.
pub mod Scan
pub mod Slow
pub mod Snapshot
pub mod Reading
pub mod Gauges
pub mod Refresh
mod Examples
use adbq.Prelude.{
  ℕ, ◌+◌, ◌-◌, ◌*◌, ◌^◌, List, [], ◌∷◌, ◌++◌, Option, none, some, Bool, true, false, not, ◌&&◌,
  ◌||◌, if◌then◌else◌, ltb, leb, ◌==◌, Text, codes, text_eq, has_prefix, get_or, reverse,
}
use adbq.Prelude.Int.{ℤ, pos, negsuc}
use adbq.Decimal.{is_digit}
use adbq.Strings.{fields, split, trim_space, trim_prefix, contains}
use adbq.Processes.{cut_marks}
use adbq.Processes.Int64.{add64, sub64, int_value}
use adbq.Processes.Top.{Ratio, nothing}

-- `strconv.ParseFloat` where it succeeds, the product with a fraction, and `int64(f)`
pub record Floats (F : Type 0) : Type 0 where
  pub zero_float : F
  pub parse_float : Text → Option F
  pub times : F → ℕ → ℕ → F
  pub to_int64 : F → ℤ

-- `section(i)` of the outputs, which is not trimmed
unfoldable pub part_of : Text → ℕ → Text
part_of out i = get_or (cut_marks 0 out) i []

-- `atoi` and `atoi64`
unfoldable pub atoi64 : Text → ℤ
atoi64 s = int_value (trim_space s)

-- the first run of digits
digits_from : Text → Text
digits_from [] = []
digits_from (c ∷ s) = let rest = digits_from s in if is_digit c then c ∷ rest else []

unfoldable pub extract_num : Text → Text
unfolding digits_from
extract_num [] = []
extract_num (c ∷ s) = let rest = extract_num s in if is_digit c then digits_from (c ∷ s) else rest

pub record CpuSample : Type 0 where
  pub total : ℤ
  pub idle : ℤ

sum_fields : ℤ → List Text → ℤ
sum_fields total [] = total
sum_fields total (f ∷ fs) = sum_fields (add64 total (atoi64 f)) fs

-- of the words of the aggregate line
cpu_sample_of : List Text → Option CpuSample
unfolding sum_fields
cpu_sample_of (cpu ∷ user ∷ nice ∷ system ∷ idle ∷ []) =
    some
      (record { total = sum_fields (pos 0) (user ∷ nice ∷ system ∷ idle ∷ []); idle = atoi64 idle })
cpu_sample_of (cpu ∷ user ∷ nice ∷ system ∷ idle ∷ iowait ∷ more) = some (record {
  total = sum_fields (pos 0) (user ∷ nice ∷ system ∷ idle ∷ iowait ∷ more);
  idle = add64 (atoi64 idle) (atoi64 iowait);
})
cpu_sample_of few = none

cpu_sample_in : List Text → Option CpuSample
unfolding cpu_sample_of
cpu_sample_in [] = none
cpu_sample_in (ln ∷ lns) =
    let rest = cpu_sample_in lns in
    if has_prefix ln (codes "cpu ") then cpu_sample_of (fields ln) else rest

unfoldable pub parse_cpu_sample : Text → Option CpuSample
unfolding cpu_sample_in
parse_cpu_sample out = cpu_sample_in (split b'\n' out)

-- `100 * (1 - idle/total)`, held between 0 and 100
busy_part : ℕ → ℤ → ℕ
busy_part total (pos idle) = total - idle
busy_part total (negsuc n) = total

-- `none` where the field is left as it is
busy_of : ℤ → ℤ → Option Ratio
unfolding busy_part
busy_of (pos (ℕ.suc n)) idle =
    some (record { part = pos (busy_part (ℕ.suc n) idle); whole = pos (ℕ.suc n) })
busy_of total idle = none

unfoldable pub cpu_percent : Option CpuSample → Option CpuSample → Option Ratio
unfolding busy_of
cpu_percent (some a) (some b) = busy_of (sub64 b.total a.total) (sub64 b.idle a.idle)
cpu_percent a b = none

-- the last row behind the header that is not blank
last_row : List Text → Text
last_row [] = []
last_row (r ∷ rs) = let rest = last_row rs in if text_eq (trim_space r) [] then rest else r

module _ {F : Type 0} (fl : Floats F) where
  kb_of : Option F → ℕ → ℕ → ℤ
  kb_of none m d = pos 0
  kb_of (some v) m d = fl.to_int64 (fl.times v m d)

  -- the last byte of the text, which may be a unit, and the rest turned around
  with_unit : ℕ → Text → ℤ
  unfolding kb_of
  with_unit last front =
      let less = fl.parse_float (reverse front) in
      let whole = fl.parse_float (reverse (last ∷ front)) in
      if last == b'K' || last == b'k'
      then kb_of less 1 1
      else if last == b'M' || last == b'm'
      then kb_of less 1024 1
      else if last == b'G' || last == b'g'
      then kb_of less (1024 * 1024) 1
      else if last == b'T' || last == b't'
      then kb_of less (1024 * 1024 * 1024) 1
      else if last == b'B' || last == b'b'
      then kb_of less 1 1024
      else kb_of whole 1 1024

  unit_last : Text → ℤ
  unfolding with_unit
  unit_last [] = pos 0
  unit_last (last ∷ front) = with_unit last front

  unfoldable pub human_to_kb : Text → ℤ
  unfolding unit_last
  human_to_kb s = unit_last (reverse (trim_space s))

  df_row : Bool → List Text → Option (ℤ × ℤ)
  unfolding human_to_kb
  df_row human (fs ∷ total ∷ used ∷ free ∷ more) =
      some (if human then (human_to_kb total, human_to_kb free) else (atoi64 total, atoi64 free))
  df_row human few = none

  df_lines : List Text → Option (ℤ × ℤ)
  unfolding df_row last_row
  df_lines (header ∷ r ∷ rs) =
      df_row
        (contains header (codes "Blksize")
          || (contains header (codes "Size") && contains header (codes "Free")))
        (fields (last_row (reverse (r ∷ rs))))
  df_lines few = none

  unfoldable pub parse_data_df : Text → Option (ℤ × ℤ)
  unfolding df_lines
  parse_data_df out = df_lines (split b'\n' (trim_space out))
