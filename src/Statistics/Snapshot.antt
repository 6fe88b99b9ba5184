-- ===== src/Statistics/Snapshot.antt =====
-- The parsers of internal/adb/stats.go: what the batched commands of `GetStats` print.
use adbq.Prelude.{
  ℕ, List, [], ◌∷◌, ◌++◌, Option, none, some, Bool, true, false, ◌||◌, if◌then◌else◌, Text, codes,
  text_eq, has_prefix, join,
}
use adbq.Prelude.Int.{ℤ, pos}
use adbq.Strings.{fields, split, trim_space, trim_prefix, to_lower}
use adbq.Root.{Reply}
use adbq.Processes.{section}
use adbq.Processes.Int64.{add64, quot64}
use adbq.Processes.Top.{Ratio, nothing}
use adbq.Statistics.{Floats, part_of, atoi64, extract_num, parse_cpu_sample, cpu_percent}

-- `BatteryTemp` is in tenths, as it is read
pub record Stats (F : Type 0) : Type 0 where
  pub battery_level : ℤ
  pub battery_temp : ℤ
  pub battery_voltage : ℤ
  pub charging : Bool
  pub mem_total_kb : ℤ
  pub mem_avail_kb : ℤ
  pub cpu_percent : Ratio
  pub load_avg1 : F
  pub storage_total_kb : ℤ
  pub storage_free_kb : ℤ
  pub uptime_seconds : ℤ
  pub net_rx_bytes : ℤ
  pub net_tx_bytes : ℤ

abbrev mark : Text
mark = codes "; echo '@@@'; "

abbrev pub stats_fast_cmd : Text
stats_fast_cmd =
    join
      (codes "cat /proc/stat"
        ∷ codes "sleep 0.3; cat /proc/stat"
        ∷ codes "cat /proc/meminfo"
        ∷ codes "cat /proc/loadavg 2>/dev/null"
        ∷ codes "cat /proc/uptime"
        ∷ codes "cat /proc/net/dev 2>/dev/null"
        ∷ [])
      mark

abbrev pub battery_cmd : Text
battery_cmd =
    codes "for f in capacity temp voltage_now status; do cat /sys/class/power_supply/battery"
    ++ codes "/$f 2>/dev/null; echo '@@@'; done"

-- what is read of /proc/meminfo: the available memory if there is a line for it
pub record MemRead : Type 0 where
  pub total : ℤ
  pub avail : Option ℤ
  pub free : ℤ
  pub buffers : ℤ
  pub cached : ℤ

is_zero : ℤ → Bool
is_zero (pos ℕ.zero) = true
is_zero z = false

mem_line : Text → MemRead → MemRead
unfolding is_zero
mem_line t m =
    let n = atoi64 (extract_num t) in
    if has_prefix t (codes "MemTotal:")
    then (if is_zero m.total then record m { total = n } else m)
    else if has_prefix t (codes "MemAvailable:")
    then record m { avail = some n }
    else if has_prefix t (codes "MemFree:")
    then record m { free = n }
    else if has_prefix t (codes "Buffers:")
    then record m { buffers = n }
    else if has_prefix t (codes "Cached:")
    then record m { cached = n }
    else m

mem_lines : List Text → MemRead → MemRead
unfolding mem_line
mem_lines [] m = m
mem_lines (ln ∷ lns) m = mem_lines lns (mem_line (trim_space ln) m)

avail_of : MemRead → Option ℤ → ℤ
avail_of m (some n) = n
avail_of m none = add64 (add64 m.free m.buffers) m.cached

-- received and sent, of the words behind `wlan0:`
net_of : List Text → Option (ℤ × ℤ)
net_of (rx ∷ b ∷ c ∷ d ∷ e ∷ f ∷ g ∷ h ∷ tx ∷ more) = some (atoi64 rx, atoi64 tx)
net_of few = none

net_in : List Text → Option (ℤ × ℤ)
unfolding net_of
net_in [] = none
net_in (ln ∷ lns) =
    let rest = net_in lns in
    let t = trim_space ln in
    if has_prefix t (codes "wlan0:") then net_of (fields (trim_prefix t (codes "wlan0:"))) else rest

unfoldable pub or_ratio : Option Ratio → Ratio → Ratio
or_ratio none r = r
or_ratio (some r') r = r'

abbrev pub is_some : Option Text → Bool
is_some none = false
is_some (some e) = true

module _ {F : Type 0} (fl : Floats F) where
  abbrev pub no_stats : Stats F
  no_stats = record {
    battery_level = pos 0;
    battery_temp = pos 0;
    battery_voltage = pos 0;
    charging = false;
    mem_total_kb = pos 0;
    mem_avail_kb = pos 0;
    cpu_percent = nothing;
    load_avg1 = fl.zero_float;
    storage_total_kb = pos 0;
    storage_free_kb = pos 0;
    uptime_seconds = pos 0;
    net_rx_bytes = pos 0;
    net_tx_bytes = pos 0;
  }

  -- the first word as a float, if it is one
  first_float : List Text → Option F
  first_float [] = none
  first_float (f ∷ fs) = fl.parse_float f

  unfoldable pub with_load : Option F → Stats F → Stats F
  with_load none s = s
  with_load (some v) s = record s { load_avg1 = v }

  unfoldable pub with_uptime : Option F → Stats F → Stats F
  with_uptime none s = s
  with_uptime (some v) s = record s { uptime_seconds = fl.to_int64 v }

  unfoldable pub with_net : Option (ℤ × ℤ) → Stats F → Stats F
  with_net none s = s
  with_net (some (rx, tx)) s = record s { net_rx_bytes = rx; net_tx_bytes = tx }

  unfoldable pub with_mem : MemRead → Stats F → Stats F
  unfolding avail_of
  with_mem m s = record s { mem_total_kb = m.total; mem_avail_kb = avail_of m m.avail }

  unfoldable pub apply_stats_fast : Text → Stats F → Stats F
  unfolding with_net net_in with_uptime with_load first_float with_mem mem_lines or_ratio
  apply_stats_fast out s =
      let cpu = cpu_percent (parse_cpu_sample (part_of out 0)) (parse_cpu_sample (part_of out 1)) in
      let mem = mem_lines (split b'\n' (part_of out 2)) (record {
        total = s.mem_total_kb;
        avail = none;
        free = pos 0;
        buffers = pos 0;
        cached = pos 0;
      }) in
      with_net (net_in (split b'\n' (part_of out 5))) (
        with_uptime (first_float (fields (part_of out 4))) (
          with_load (first_float (fields (part_of out 3)))
            (with_mem mem (record s { cpu_percent = or_ratio cpu s.cpu_percent }))))

  or_number : Text → ℤ → ℤ
  or_number [] old = old
  or_number (c ∷ v) old = atoi64 (c ∷ v)

  or_millivolts : Text → ℤ → ℤ
  or_millivolts [] old = old
  or_millivolts (c ∷ v) old = quot64 (atoi64 (c ∷ v)) 1000

  -- `readBatterySysfs` of what the device answers
  unfoldable pub with_battery_sysfs : Reply → Stats F → Stats F
  unfolding or_number or_millivolts
  with_battery_sysfs r s =
      let st = to_lower (section r.out 3) in
      if is_some r.err then s else record s {
        battery_level = or_number (section r.out 0) s.battery_level;
        battery_temp = or_number (section r.out 1) s.battery_temp;
        battery_voltage = or_millivolts (section r.out 2) s.battery_voltage;
        charging = text_eq st (codes "charging") || (text_eq st (codes "full") || s.charging);
      }
