-- ===== src/Statistics/Refresh.antt =====
-- What a refresh of the gauges costs, and when it reads the slow half again.
use adbq.Prelude.{
  ℕ, ◌+◌, ◌≤◌, ◌≡◌, refl, ap, ◌∙◌, arith, [], ◌∷◌, Option, none, some, Bool, true, false, if_both,
  Text, text_eq, text_eq_iff, Lacks, inl,
}
use adbq.Prelude.Int.{ℤ}
use adbq.Dict.{lookup}
use adbq.FactStore.{Capabilities, Client, nul, cached_fact, remember_fact, invalidate_fact_prefix}
use adbq.FactStore.Domains.{Domain, domain_of, special_drop, invalidate_domains}
use adbq.FactStore.Store.{cached_fact-remember_fact}
use adbq.FactStore.Invalidation.{cached_fact-invalidate_domains}
use adbq.FactStore.Resolver.{ok, serve_or_read, keep_read, cached_read}
use adbq.Root.{Reply}
use adbq.Statistics.{Floats}
use adbq.Statistics.Scan.{known_or_probed, read_capabilities}
use adbq.Statistics.Slow.{StatsSlow, stats_slow_ttl, slow_fact}
use adbq.Statistics.Snapshot.{
  Stats, no_stats, is_some, stats_fast_cmd, with_net, with_uptime, with_load, with_mem,
  apply_stats_fast,
}
use adbq.Statistics.Reading.{
  read_slow, with_slow, found_battery, or_sysfs, with_fast, after_slow, after_caps, get_stats,
}

module _ {F : Type 0} (fl : Floats F) where
  with_net-battery :
      (o : Option (ℤ × ℤ)) (s : Stats F) → (with_net fl o s).battery_level ≡ s.battery_level
  unfolding with_net
  with_net-battery none s = refl
  with_net-battery (some (rx, tx)) s = refl

  with_uptime-battery :
      (o : Option F) (s : Stats F) → (with_uptime fl o s).battery_level ≡ s.battery_level
  unfolding with_uptime
  with_uptime-battery none s = refl
  with_uptime-battery (some v) s = refl

  with_load-battery :
      (o : Option F) (s : Stats F) → (with_load fl o s).battery_level ≡ s.battery_level
  unfolding with_load
  with_load-battery none s = refl
  with_load-battery (some v) s = refl

  -- the fast half leaves the battery alone
  apply_stats_fast-battery :
      (out : Text) (s : Stats F) → (apply_stats_fast fl out s).battery_level ≡ s.battery_level
  unfolding apply_stats_fast with_mem
  apply_stats_fast-battery out s =
      rw (with_net-battery, with_uptime-battery, with_load-battery) refl

  module _ {D : Type 0} (shell : Text → D → Reply × D) (serial : Text) (caps : Capabilities) where
    -- what the interface shows of the battery, the client afterwards, and the device
    abbrev pub Shows : ℤ → Client StatsSlow → D → Stats F × Client StatsSlow × D → Type 0
    Shows level c d (s, c', d') = (s.battery_level ≡ level) × (c' ≡ c) × (d' ≡ d)

    with_fast-Shows :
        (s : Stats F) (c : Client StatsSlow) (d : D)
        → Shows s.battery_level c (shell stats_fast_cmd d).1 (with_fast fl shell serial c (s, d))
    unfolding with_fast
    with_fast-Shows s c d =
        let r = (shell stats_fast_cmd d).0 in
        (
          if_both (λ (t : Stats F). t.battery_level ≡ s.battery_level) (is_some r.err) s
              (apply_stats_fast fl r.out s) (λ e. refl) (λ e. apply_stats_fast-battery r.out s),
          refl,
          refl,
        )

    -- a battery that was found is not read again
    or_sysfs-Shows :
        (found : Bool) (s : Stats F) (c : Client StatsSlow) (d : D)
        → found ≡ true
        → Shows s.battery_level c
            (shell stats_fast_cmd d).1
            (with_fast fl shell serial c (or_sysfs fl shell serial found (s, d)))
    unfolding or_sysfs
    or_sysfs-Shows true s c d e = with_fast-Shows s c d
    or_sysfs-Shows false s c d e = cc

    after_slow-Shows :
        (slow : StatsSlow) (c : Client StatsSlow) (d : D)
        → slow.battery_found ≡ true
        → Shows slow.battery_level c
            (shell stats_fast_cmd d).1
            (after_slow fl shell serial caps (ok slow, c, d))
    unfolding after_slow with_slow found_battery
    after_slow-Shows slow c d found =
        or_sysfs-Shows slow.battery_found
          (with_slow fl shell serial (ok slow) (record (no_stats fl) {
            mem_total_kb = caps.mem_total_kb;
            storage_total_kb = caps.storage_total_kb;
          }))
          c d found

    served :
        (slow : StatsSlow) (now written : ℕ) (c : Client StatsSlow) (d : D)
        → lookup serial c.caps ≡ some caps
        → cached_fact c slow_fact serial [] stats_slow_ttl now ≡ some (some slow)
        → slow.battery_found ≡ true
        → Shows slow.battery_level c
            (shell stats_fast_cmd d).1
            (get_stats fl shell serial now written c d)
    unfolding get_stats after_caps read_capabilities known_or_probed cached_read serve_or_read
    served slow now written c d known hit found = rw (known, hit) (after_slow-Shows slow c d found)

    reread :
        (slow : StatsSlow) (now written : ℕ) (c : Client StatsSlow) (d d1 : D)
        → lookup serial c.caps ≡ some caps
        → cached_fact c slow_fact serial [] stats_slow_ttl now ≡ none
        → read_slow fl shell serial d ≡ (ok slow, d1)
        → slow.battery_found ≡ true
        → Shows slow.battery_level
            (remember_fact c slow_fact serial [] written slow)
            (shell stats_fast_cmd d1).1
            (get_stats fl shell serial now written c d)
    unfolding get_stats after_caps read_capabilities known_or_probed cached_read serve_or_read
        keep_read
    reread slow now written c d d1 known miss read found =
        rw (known, miss, read)
          (after_slow-Shows slow (remember_fact c slow_fact serial [] written slow) d1 found)

    drop_slow-caps :
        (c : Client StatsSlow) → (invalidate_domains c serial (Domain.storage ∷ [])).caps ≡ c.caps
    unfolding invalidate_domains invalidate_fact_prefix special_drop
    drop_slow-caps c = refl

    slow_domain : domain_of slow_fact ≡ some Domain.storage
    unfolding domain_of text_eq
    slow_domain = refl

    remember_fact-caps :
        (c : Client StatsSlow) (written : ℕ) (v : StatsSlow)
        → (remember_fact c slow_fact serial [] written v).caps ≡ c.caps
    unfolding remember_fact
    remember_fact-caps c written v = refl

    -- a kept slow half is served for thirty seconds
    kept-hit :
        (c : Client StatsSlow) (slow : StatsSlow) (written later : ℕ)
        → later ≤ written + stats_slow_ttl
        → cached_fact
            (remember_fact c slow_fact serial [] written slow)
            slow_fact
            serial
            []
            stats_slow_ttl
            later
          ≡ some (some slow)
    kept-hit c slow written later soon = ground (
      arith,
      cached_fact-remember_fact c slow_fact serial [] [] slow written stats_slow_ttl later,
      text_eq_iff [] [],
    )

    -- Once the client knows the device's capabilities and a refresh of the gauges has read a slow half
    -- with a battery in it, whatever that refresh showed and whatever the device does since: a refresh
    -- within thirty seconds of the time it was kept shows the kept battery level, runs the fast command
    -- and nothing else, and leaves the client as it is; and a refresh after `InvalidateDomains` of the
    -- storage facts reads the slow half again, shows the battery level it finds if it finds one, and
    -- keeps it. The serial has no NUL byte.
    pub get_stats-get_stats :
        (slow slow2 : StatsSlow) (now written later again written2 : ℕ) (c : Client StatsSlow)
        (d d1 d2 d3 : D)
        → Lacks nul serial
        → lookup serial c.caps ≡ some caps
        → cached_fact c slow_fact serial [] stats_slow_ttl now ≡ none
        → read_slow fl shell serial d ≡ (ok slow, d1)
        → slow.battery_found ≡ true
        → later ≤ written + stats_slow_ttl
        → read_slow fl shell serial d2 ≡ (ok slow2, d3)
        → slow2.battery_found ≡ true
        → let c' = (get_stats fl shell serial now written c d).1 in
          let dropped = invalidate_domains c' serial (Domain.storage ∷ []) in
          Shows slow.battery_level c'
            (shell stats_fast_cmd d2).1
            (get_stats fl shell serial later again c' d2)
          × Shows slow2.battery_level
              (remember_fact dropped slow_fact serial [] written2 slow2)
              (shell stats_fast_cmd d3).1
              (get_stats fl shell serial later written2 dropped d2)
    get_stats-get_stats slow slow2 now written later again written2 c d d1 d2 d3 lacks known miss
          read found soon read2 found2 =
        let (shown, kept, left) = reread slow now written c d d1 known miss read found in
        let held = remember_fact c slow_fact serial [] written slow in
        let dropped = invalidate_domains held serial (Domain.storage ∷ []) in
        let held_caps = ap (lookup serial) (remember_fact-caps c written slow) ∙ known in
        rw kept (
          served slow later again held d2 held_caps (kept-hit c slow written later soon) found,
          reread slow2 later written2 dropped d2 d3
              (ap (lookup serial) (drop_slow-caps held) ∙ held_caps)
              (cached_fact-invalidate_domains held serial (Domain.storage ∷ []) slow_fact
                Domain.storage slow_domain (inl refl) lacks [] stats_slow_ttl later)
              read2 found2,
        )
