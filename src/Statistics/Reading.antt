-- ===== src/Statistics/Reading.antt =====
-- `GetStats` of internal/adb/stats.go: the capabilities, the slow half, which the client's facts keep, and
-- the fast half.
use adbq.Prelude.{ℕ, Option, none, some, Bool, true, false, if◌then◌else◌, Text}
use adbq.FactStore.{Capabilities, Client}
use adbq.FactStore.Resolver.{Answer, ok, failed, cached_read}
use adbq.Root.{Reply}
use adbq.Processes.Int64.{is_positive}
use adbq.Statistics.{Floats}
use adbq.Statistics.Scan.{read_capabilities}
use adbq.Statistics.Slow.{StatsSlow, stats_slow_cmd, stats_slow_ttl, slow_fact, parse_stats_slow}
use adbq.Statistics.Snapshot.{
  Stats, no_stats, is_some, stats_fast_cmd, battery_cmd, apply_stats_fast, with_battery_sysfs,
}

module _ {F D : Type 0} (fl : Floats F) (shell : Text → D → Reply × D) (serial : Text) where
  slow_answer : Option Text → Text → Answer StatsSlow
  unfolding parse_stats_slow
  slow_answer (some e) out = failed e
  slow_answer none out = ok (parse_stats_slow fl out)

  unfoldable pub read_slow : D → Answer StatsSlow × D
  unfolding slow_answer
  read_slow d = let (r, d') = shell stats_slow_cmd d in (slow_answer r.err r.out, d')

  unfoldable pub with_slow : Answer StatsSlow → Stats F → Stats F
  with_slow (ok slow) s = record s {
    battery_level = slow.battery_level;
    battery_temp = slow.battery_temp;
    battery_voltage = slow.battery_voltage;
    charging = slow.charging;
    storage_total_kb =
        if is_positive slow.storage_total_kb then slow.storage_total_kb else s.storage_total_kb;
    storage_free_kb = slow.storage_free_kb;
  }
  with_slow a s = s

  unfoldable pub found_battery : Answer StatsSlow → Bool
  found_battery (ok slow) = slow.battery_found
  found_battery a = false

  unfoldable pub or_sysfs : Bool → Stats F × D → Stats F × D
  unfolding with_battery_sysfs
  or_sysfs true (s, d) = (s, d)
  or_sysfs false (s, d) = let (r, d') = shell battery_cmd d in (with_battery_sysfs fl r s, d')

  unfoldable pub with_fast : Client StatsSlow → Stats F × D → Stats F × Client StatsSlow × D
  unfolding apply_stats_fast
  with_fast c (s, d) =
      let (r, d') = shell stats_fast_cmd d in
      (if is_some r.err then s else apply_stats_fast fl r.out s, c, d')

  unfoldable pub after_slow :
      Capabilities → Answer StatsSlow × Client StatsSlow × D → Stats F × Client StatsSlow × D
  unfolding with_slow found_battery or_sysfs with_fast
  after_slow caps (a, c, d) = with_fast c (
      or_sysfs (found_battery a) (
        with_slow a (record (no_stats fl) {
          mem_total_kb = caps.mem_total_kb;
          storage_total_kb = caps.storage_total_kb;
        }),
        d,
      ))

  unfoldable pub after_caps :
      ℕ → ℕ → Capabilities × Client StatsSlow × D → Stats F × Client StatsSlow × D
  unfolding after_slow read_slow
  after_caps now written (caps, c, d) =
      after_slow caps (cached_read c d serial slow_fact stats_slow_ttl now written read_slow)

  -- the clock at the look into the cache, and at the keeping of what was read
  unfoldable pub get_stats : ℕ → ℕ → Client StatsSlow → D → Stats F × Client StatsSlow × D
  unfolding after_caps
  get_stats now written c d = after_caps now written (read_capabilities fl shell serial c d)
