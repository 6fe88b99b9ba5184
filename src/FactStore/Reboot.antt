-- ===== src/FactStore/Reboot.antt =====
-- After a reboot nothing is left of what was cached for the device.
use adbq.Prelude.{ℕ, ◌≡◌, arith, List, [], ◌∷◌, none, some, ◌⊎◌, inl, inr, Text, Lacks}
use adbq.Dict.{lookup, lookup-remove_self}
use adbq.FactStore.{
  Client, nul, cached_fact, invalidate_fact_prefix, invalidate_capabilities, forget_root_probe,
}
use adbq.FactStore.Domains.{
  Domain, special_drop, invalidate_domains, all_domains, domain_reboot, domain_of, dotted,
}
use adbq.FactStore.Invalidation.{Among, cached_fact-invalidate_domains}

Among-all : (d : Domain) → Among d all_domains
unfolding all_domains
Among-all Domain.apps = ground arith
Among-all d = ground arith

module _ {ℓ} {V : Type ℓ} where
  -- what the device's root and capability bookkeeping still hold
  abbrev Forgotten : Client V → Text → Type 0
  Forgotten c serial =
      (lookup serial c.caps ≡ none)
      × (lookup serial c.su_styles ≡ none)
      × (lookup serial c.su_failed_at ≡ none)
      × (lookup serial c.adb_rooted ≡ none)

  special_drop-root :
      (c : Client V) (serial : Text) → Forgotten (special_drop c serial Domain.root) serial
  unfolding special_drop invalidate_capabilities forget_root_probe
  special_drop-root c serial = (
    lookup-remove_self serial c.caps,
    lookup-remove_self serial c.su_styles,
    lookup-remove_self serial c.su_failed_at,
    lookup-remove_self serial c.adb_rooted,
  )

  special_drop-Forgotten :
      (c : Client V) (serial : Text) (d : Domain)
      → Forgotten c serial
      → Forgotten (special_drop c serial d) serial
  special_drop-Forgotten c serial Domain.root h = special_drop-root c serial
  special_drop-Forgotten c serial Domain.props (hc, hs, hf, hr) =
      unfold special_drop invalidate_capabilities in (lookup-remove_self serial c.caps, hs, hf, hr)
  special_drop-Forgotten c serial d h = unfold special_drop in h

  prefix-Forgotten :
      (c : Client V) (serial p : Text)
      → Forgotten c serial
      → Forgotten (invalidate_fact_prefix c serial p) serial
  unfolding invalidate_fact_prefix
  prefix-Forgotten c serial p h = h

  invalidate_domains-Forgotten :
      (c : Client V) (serial : Text) (ds : List Domain)
      → Among Domain.root ds ⊎ Forgotten c serial
      → Forgotten (invalidate_domains c serial ds) serial
  unfolding invalidate_domains
  invalidate_domains-Forgotten c serial [] (inl h) = absurd h
  invalidate_domains-Forgotten c serial [] (inr h) = h
  invalidate_domains-Forgotten c serial (d ∷ ds) (inl (inl e)) =
      invalidate_domains-Forgotten
        (invalidate_fact_prefix (special_drop c serial d) serial (dotted d)) serial ds
        (inr (
          prefix-Forgotten (special_drop c serial d) serial (dotted d)
            (rw (← e) (special_drop-root c serial))))
  invalidate_domains-Forgotten c serial (d ∷ ds) (inl (inr h)) =
      invalidate_domains-Forgotten
        (invalidate_fact_prefix (special_drop c serial d) serial (dotted d)) serial ds (inl h)
  invalidate_domains-Forgotten c serial (d ∷ ds) (inr h) =
      invalidate_domains-Forgotten
        (invalidate_fact_prefix (special_drop c serial d) serial (dotted d)) serial ds
        (inr (
          prefix-Forgotten (special_drop c serial d) serial (dotted d)
            (special_drop-Forgotten c serial d h)))

  -- After a reboot's invalidation nothing that was cached for the device survives, if its serial
  -- has no NUL byte: no fact that belongs to a domain is served, and the capability scan, the su
  -- style, the time of the last failed probe and the `adb root` latch are gone.
  pub invalidate_domains-reboot :
      (c : Client V) (serial fact : Text) (d : Domain) (fresh_key : Text) (ttl now : ℕ)
      → Lacks nul serial
      → domain_of fact ≡ some d
      → (cached_fact (invalidate_domains c serial domain_reboot) fact serial fresh_key ttl now
          ≡ none)
        × (lookup serial (invalidate_domains c serial domain_reboot).caps ≡ none)
        × (lookup serial (invalidate_domains c serial domain_reboot).su_styles ≡ none)
        × (lookup serial (invalidate_domains c serial domain_reboot).su_failed_at ≡ none)
        × (lookup serial (invalidate_domains c serial domain_reboot).adb_rooted ≡ none)
  unfolding domain_reboot
  invalidate_domains-reboot c serial fact d fresh_key ttl now lacks e =
      let (caps, style, failed, latch) =
        invalidate_domains-Forgotten c serial all_domains (inl (Among-all Domain.root)) in
      (
        cached_fact-invalidate_domains c serial all_domains fact d e (Among-all d) lacks fresh_key
            ttl now,
        caps,
        style,
        failed,
        latch,
      )
