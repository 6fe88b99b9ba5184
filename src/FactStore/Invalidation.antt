-- ===== src/FactStore/Invalidation.antt =====
-- What an invalidation drops, and what it leaves.
use adbq.Prelude.{
  ℕ, ◌≡◌, ◌≢◌, refl, arith, List, [], ◌∷◌, none, some, Bool, true, false, ◌&&◌, ◌||◌, ◌⊎◌, inl, inr,
  Bool-cases, if◌then◌else◌, Text, text_eq, text_eq_iff, has_prefix, Lacks,
}
use adbq.Dict.{lookup, lookup-remove_where}
use adbq.FactStore.{
  Client, nul, fact_key, cached_fact, invalidate_facts, invalidate_fact_prefix,
  invalidate_capabilities, forget_root_probe, is_of_prefix, is_of_serial,
}
use adbq.FactStore.Keys.{is_of_prefix-fact_key, is_of_serial-fact_key}
use adbq.FactStore.Domains.{
  Domain, special_drop, invalidate_domains, domain_of, domain_of_iff, dotted, dotted-Lacks,
}

-- `d` is one of the list
abbrev pub Among : Domain → List Domain → Type 0
Among d [] = ⊥
Among d (e ∷ ds) = (d ≡ e) ⊎ Among d ds

-- the fact belongs to none of the list
abbrev pub Outside : Text → List Domain → Type 0
Outside fact [] = Unit
Outside fact (d ∷ ds) = (domain_of fact ≢ some d) × Outside fact ds

covers : List Domain → Text → Bool
covers [] fact = false
covers (d ∷ ds) fact = has_prefix fact (dotted d) || covers ds fact

covers-Among :
    (ds : List Domain) (fact : Text) (d : Domain)
    → domain_of fact ≡ some d
    → Among d ds
    → covers ds fact ≡ true
unfolding covers
covers-Among [] fact d e h = absurd h
covers-Among (x ∷ ds) fact d e (inl same) = ground (arith, (domain_of_iff fact d).0 e)
covers-Among (x ∷ ds) fact d e (inr h) = ground (arith, covers-Among ds fact d e h)

covers-Outside : (ds : List Domain) (fact : Text) → Outside fact ds → covers ds fact ≡ false
unfolding covers
covers-Outside [] fact h = refl
covers-Outside (d ∷ ds) fact (h, hs) = elim (Bool-cases (has_prefix fact (dotted d))) [
  | inl e ↦ absurd (h ((domain_of_iff fact d).1 e))
  | inr ne ↦ rw ne (covers-Outside ds fact hs)
]

module _ {ℓ} {V : Type ℓ} where
  special-facts :
      (c : Client V) (serial : Text) (d : Domain) → (special_drop c serial d).facts ≡ c.facts
  unfolding special_drop invalidate_capabilities forget_root_probe
  special-facts c serial Domain.props = refl
  special-facts c serial Domain.root = refl
  special-facts c serial d = refl

  lookup-prefix :
      (c : Client V) (fact s t : Text) (d : Domain)
      → Lacks nul s
      → Lacks nul t
      → lookup (fact_key fact t) (invalidate_fact_prefix c s (dotted d)).facts ≡ (
          if has_prefix fact (dotted d) && text_eq t s
          then none
          else lookup (fact_key fact t) c.facts)
  unfolding invalidate_fact_prefix
  lookup-prefix c fact s t d hs ht = rw (
    lookup-remove_where (fact_key fact t) (is_of_prefix s (dotted d)) c.facts,
    is_of_prefix-fact_key fact t s (dotted d) (dotted-Lacks d) ht hs,
  )

  lookup-invalidate_domains :
      (c : Client V) (fact s t : Text) (ds : List Domain)
      → Lacks nul s
      → Lacks nul t
      → lookup (fact_key fact t) (invalidate_domains c s ds).facts
        ≡ (if covers ds fact && text_eq t s then none else lookup (fact_key fact t) c.facts)
  unfolding invalidate_domains covers
  lookup-invalidate_domains c fact s t [] hs ht = refl
  lookup-invalidate_domains c fact s t (d ∷ ds) hs ht =
      let c' = special_drop c s d in
      ground (
        arith,
        lookup-invalidate_domains (invalidate_fact_prefix c' s (dotted d)) fact s t ds hs ht,
        lookup-prefix c' fact s t d hs ht,
        special-facts c s d,
      )

  -- After `InvalidateDomains` for a device whose serial has no NUL byte, no fact of a named
  -- domain of that device is served from the cache, under any freshness key, time to live and
  -- time, whatever the cache held.
  pub cached_fact-invalidate_domains :
      (c : Client V) (serial : Text) (ds : List Domain) (fact : Text) (d : Domain)
      → domain_of fact ≡ some d
      → Among d ds
      → Lacks nul serial
      → (fresh_key : Text) (ttl now : ℕ)
      → cached_fact (invalidate_domains c serial ds) fact serial fresh_key ttl now ≡ none
  unfolding cached_fact
  cached_fact-invalidate_domains c serial ds fact d e among lacks fresh_key ttl now = rw (
    lookup-invalidate_domains c fact serial serial ds lacks lacks,
    covers-Among ds fact d e among,
    (text_eq_iff serial serial).1 refl,
  )

  -- `InvalidateDomains` leaves the facts of the domains that it does not name, and all facts of
  -- the other devices, as they were: what is served for them, and which strategies are ruled out.
  -- The serials have no NUL byte.
  pub lookup-invalidate_domains_other :
      (c : Client V) (serial other : Text) (ds : List Domain) (fact : Text)
      → Outside fact ds ⊎ (other ≢ serial)
      → Lacks nul serial
      → Lacks nul other
      → lookup (fact_key fact other) (invalidate_domains c serial ds).facts
        ≡ lookup (fact_key fact other) c.facts
  lookup-invalidate_domains_other c serial other ds fact (inl out) hs ho =
      rw (lookup-invalidate_domains c fact serial other ds hs ho, covers-Outside ds fact out)
  lookup-invalidate_domains_other c serial other ds fact (inr ne) hs ho =
      ground
        (arith, lookup-invalidate_domains c fact serial other ds hs ho, text_eq_iff other serial)

  -- A disconnect drops every fact of the device that has a name, strategies ruled out included,
  -- and no fact of another device, as long as the serials have no NUL byte.
  pub lookup-invalidate_facts :
      (c : Client V) (serial other : Text) (b : ℕ) (fact : Text)
      → Lacks nul serial
      → Lacks nul other
      → lookup (fact_key (b ∷ fact) other) (invalidate_facts c serial).facts
        ≡ (if text_eq other serial then none else lookup (fact_key (b ∷ fact) other) c.facts)
  unfolding invalidate_facts
  lookup-invalidate_facts c serial other b fact hs ho = rw (
    lookup-remove_where (fact_key (b ∷ fact) other) (is_of_serial serial) c.facts,
    is_of_serial-fact_key b fact other serial ho hs,
  )
