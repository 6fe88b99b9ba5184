-- ===== src/Statistics/Slow.antt =====
-- The slow half of the gauges in internal/adb/stats.go: the battery and the storage.
use adbq.Prelude.{
  ℕ, ◌*◌, ◌^◌, List, [], ◌∷◌, Option, none, some, Bool, true, false, ◌||◌, if◌then◌else◌, Text,
  codes, has_prefix, join,
}
use adbq.Prelude.Int.{ℤ, pos}
use adbq.Strings.{split, trim_space, trim_prefix, contains}
use adbq.Statistics.{Floats, part_of, atoi64, parse_data_df}

pub record StatsSlow : Type 0 where
  pub battery_found : Bool
  pub battery_level : ℤ
  pub battery_temp : ℤ
  pub battery_voltage : ℤ
  pub charging : Bool
  pub storage_total_kb : ℤ
  pub storage_free_kb : ℤ

abbrev pub no_slow : StatsSlow
no_slow = record {
  battery_found = false;
  battery_level = pos 0;
  battery_temp = pos 0;
  battery_voltage = pos 0;
  charging = false;
  storage_total_kb = pos 0;
  storage_free_kb = pos 0;
}

abbrev pub stats_slow_cmd : Text
stats_slow_cmd =
    join (codes "dumpsys battery" ∷ codes "df /data 2>/dev/null" ∷ []) (codes "; echo '@@@'; ")

-- thirty seconds
abbrev pub stats_slow_ttl : ℕ
stats_slow_ttl = 30 * 10 ^ 9

abbrev pub slow_fact : Text
slow_fact = codes "storage.stats.slow"

-- the number behind a label
after_label : Text → Text → ℤ
after_label t label = atoi64 (trim_prefix t label)

battery_line : Text → StatsSlow → StatsSlow
unfolding after_label
battery_line t s =
    if has_prefix t (codes "level:")
    then record s { battery_level = after_label t (codes "level:"); battery_found = true }
    else if has_prefix t (codes "temperature:")
    then record s { battery_temp = after_label t (codes "temperature:") }
    else if has_prefix t (codes "voltage:")
    then record s { battery_voltage = after_label t (codes "voltage:") }
    else if (has_prefix t (codes "AC powered:")
        || (has_prefix t (codes "USB powered:") || has_prefix t (codes "Wireless powered:")))
    then record s { charging = contains t (codes "true") || s.charging }
    else s

battery_lines : List Text → StatsSlow → StatsSlow
unfolding battery_line
battery_lines [] s = s
battery_lines (ln ∷ lns) s = battery_lines lns (battery_line (trim_space ln) s)

with_storage : Option (ℤ × ℤ) → StatsSlow → StatsSlow
with_storage none s = s
with_storage (some (total, free)) s = record s { storage_total_kb = total; storage_free_kb = free }

module _ {F : Type 0} (fl : Floats F) where
  unfoldable pub parse_stats_slow : Text → StatsSlow
  unfolding battery_lines with_storage
  parse_stats_slow out =
      with_storage (parse_data_df fl (part_of out 1))
        (battery_lines (split b'\n' (part_of out 0)) no_slow)
