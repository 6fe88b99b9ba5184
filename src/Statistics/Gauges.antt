-- ===== src/Statistics/Gauges.antt =====
-- The busy percentage of the processors, for whatever the device answers.
use adbq.Prelude.{
  ℕ, zero, suc, ◌≤◌, ◌<◌, ◌≡◌, refl, arith, Option, none, some, Bool, true, false, if_both, Text,
}
use adbq.Prelude.Int.{ℤ, pos, negsuc}
use adbq.FactStore.{Capabilities, Client}
use adbq.FactStore.Resolver.{Answer, ok, unsupported, failed, cached_read}
use adbq.Root.{Reply}
use adbq.Processes.Int64.{sub64}
use adbq.Processes.Top.{Ratio}
use adbq.Statistics.{Floats, CpuSample, busy_part, busy_of, cpu_percent, parse_cpu_sample, part_of}
use adbq.Statistics.Scan.{read_capabilities}
use adbq.Statistics.Slow.{StatsSlow, slow_fact, stats_slow_ttl}
use adbq.Statistics.Snapshot.{
  Stats, no_stats, is_some, stats_fast_cmd, battery_cmd, or_ratio, with_net, with_uptime, with_load,
  with_mem, apply_stats_fast, with_battery_sysfs,
}
use adbq.Statistics.Reading.{
  read_slow, found_battery, with_slow, or_sysfs, with_fast, after_slow, after_caps, get_stats,
}

-- a part of a whole that is not nothing
Part : ℤ → ℤ → Type 0
Part (pos p) (pos w) = (p ≤ w) × (0 < w)
Part part whole = ⊥

pub IsPercent : Ratio → Type 0
unfolding Part
IsPercent r = Part r.part r.whole

AllPercent : Option Ratio → Type 0
unfolding IsPercent
AllPercent none = Unit
AllPercent (some r) = IsPercent r

busy_part-le : (total : ℕ) (idle : ℤ) → busy_part total idle ≤ total
unfolding busy_part
busy_part-le total (pos idle) = omega arith
busy_part-le total (negsuc n) = omega arith

busy_of-AllPercent : (total idle : ℤ) → AllPercent (busy_of total idle)
unfolding busy_of AllPercent IsPercent Part
busy_of-AllPercent (pos zero) idle = tt
busy_of-AllPercent (pos (suc n)) idle = (busy_part-le (suc n) idle, omega arith)
busy_of-AllPercent (negsuc n) idle = tt

cpu_percent-AllPercent : (a b : Option CpuSample) → AllPercent (cpu_percent a b)
unfolding cpu_percent AllPercent
cpu_percent-AllPercent (some a) (some b) =
    busy_of-AllPercent (sub64 b.total a.total) (sub64 b.idle a.idle)
cpu_percent-AllPercent (some a) none = tt
cpu_percent-AllPercent none b = tt

or_ratio-IsPercent :
    (o : Option Ratio) (r : Ratio) → AllPercent o → IsPercent r → IsPercent (or_ratio o r)
unfolding or_ratio AllPercent
or_ratio-IsPercent none r all h = h
or_ratio-IsPercent (some r') r all h = all

module _ {F : Type 0} (fl : Floats F) where
  with_net-percent :
      (o : Option (ℤ × ℤ)) (s : Stats F) → (with_net fl o s).cpu_percent ≡ s.cpu_percent
  unfolding with_net
  with_net-percent none s = refl
  with_net-percent (some (rx, tx)) s = refl

  with_uptime-percent :
      (o : Option F) (s : Stats F) → (with_uptime fl o s).cpu_percent ≡ s.cpu_percent
  unfolding with_uptime
  with_uptime-percent none s = refl
  with_uptime-percent (some v) s = refl

  with_load-percent : (o : Option F) (s : Stats F) → (with_load fl o s).cpu_percent ≡ s.cpu_percent
  unfolding with_load
  with_load-percent none s = refl
  with_load-percent (some v) s = refl

  apply_stats_fast-percent :
      (out : Text) (s : Stats F)
      → (apply_stats_fast fl out s).cpu_percent
        ≡ or_ratio
            (cpu_percent (parse_cpu_sample (part_of out 0)) (parse_cpu_sample (part_of out 1)))
            s.cpu_percent
  unfolding apply_stats_fast with_mem
  apply_stats_fast-percent out s =
      rw (with_net-percent, with_uptime-percent, with_load-percent) refl

  with_battery_sysfs-percent :
      (r : Reply) (s : Stats F) → (with_battery_sysfs fl r s).cpu_percent ≡ s.cpu_percent
  unfolding with_battery_sysfs
  with_battery_sysfs-percent r s =
      if_both (λ (t : Stats F). t.cpu_percent ≡ s.cpu_percent) (is_some r.err) s _ (λ e. refl)
        (λ e. refl)

  module _ {D : Type 0} (shell : Text → D → Reply × D) (serial : Text) where
    with_fast-IsPercent :
        (c : Client StatsSlow) (s : Stats F) (d : D)
        → IsPercent s.cpu_percent
        → IsPercent (with_fast fl shell serial c (s, d)).0.cpu_percent
    unfolding with_fast
    with_fast-IsPercent c s d h =
        let out = (shell stats_fast_cmd d).0.out in
        let cpu =
          cpu_percent (parse_cpu_sample (part_of out 0)) (parse_cpu_sample (part_of out 1)) in
        if_both (λ (t : Stats F). IsPercent t.cpu_percent) (is_some (shell stats_fast_cmd d).0.err)
          s (apply_stats_fast fl out s) (λ e. h)
          (λ e.
            rw (apply_stats_fast-percent out s)
              (or_ratio-IsPercent cpu s.cpu_percent (cpu_percent-AllPercent _ _) h))

    or_sysfs-percent :
        (b : Bool) (s : Stats F) (d : D)
        → (or_sysfs fl shell serial b (s, d)).0.cpu_percent ≡ s.cpu_percent
    unfolding or_sysfs
    or_sysfs-percent true s d = refl
    or_sysfs-percent false s d = with_battery_sysfs-percent (shell battery_cmd d).0 s

    with_slow-percent :
        (a : Answer StatsSlow) (s : Stats F)
        → (with_slow fl shell serial a s).cpu_percent ≡ s.cpu_percent
    unfolding with_slow
    with_slow-percent (ok slow) s = refl
    with_slow-percent unsupported s = refl
    with_slow-percent (failed e) s = refl

    no_stats-IsPercent : IsPercent (no_stats fl).cpu_percent
    unfolding IsPercent Part
    no_stats-IsPercent = (omega arith, omega arith)

    after_slow-IsPercent :
        (caps : Capabilities) (a : Answer StatsSlow) (c : Client StatsSlow) (d : D)
        → IsPercent (after_slow fl shell serial caps (a, c, d)).0.cpu_percent
    unfolding after_slow
    after_slow-IsPercent caps a c d =
        let s0 = record (no_stats fl) {
          mem_total_kb = caps.mem_total_kb;
          storage_total_kb = caps.storage_total_kb;
        } in
        let s1 = with_slow fl shell serial a s0 in
        let (s2, d') = or_sysfs fl shell serial (found_battery fl shell serial a) (s1, d) in
        with_fast-IsPercent c s2 d' (
          rw (or_sysfs-percent (found_battery fl shell serial a) s1 d, with_slow-percent a s0)
            no_stats-IsPercent)

    -- Whatever a device answers to the commands of a refresh of the gauges, whatever the client has
    -- kept of it and at whatever times, the busy percentage that `GetStats` gives is a fraction of a
    -- whole that is not zero, and between 0 and 100: also where the counters of the two samples go
    -- backwards, wrap around, or are not numbers.
    pub get_stats-IsPercent :
        (now written : ℕ) (c : Client StatsSlow) (d : D)
        → IsPercent (get_stats fl shell serial now written c d).0.cpu_percent
    unfolding get_stats after_caps
    get_stats-IsPercent now written c d =
        let (caps, c', d') = read_capabilities fl shell serial c d in
        let (a, c'', d'') =
          cached_read c' d' serial slow_fact stats_slow_ttl now written
            (read_slow fl shell serial) in
        after_slow-IsPercent caps a c'' d''
