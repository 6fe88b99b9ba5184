-- ===== src/FactStore/Store.antt =====
-- What one write to the fact map changes for later reads.
use adbq.Prelude.{
  ℕ, ◌-◌, ◌≡◌, refl, arith, ◌∷◌, none, some, false, not, ◌&&◌, if◌then◌else◌, ltb, Text, text_eq,
  Option-cases, inl, inr,
}
use adbq.Dict.{lookup, lookup-insert_self}
use adbq.FactStore.{
  Client, fact_key, cached_fact, remember_fact, rule_out_strategy, ruled_out_strategies, invalidate,
  drop_value,
}

module _ {ℓ} {V : Type ℓ} (c : Client V) (fact serial : Text) where
  -- A remembered value is served again under the same freshness key, for as long as the time to live.
  pub cached_fact-remember_fact :
      (fresh_key key' : Text) (v : V) (written ttl now : ℕ)
      → cached_fact (remember_fact c fact serial fresh_key written v) fact serial key' ttl now
        ≡ (if text_eq fresh_key key' && not (ltb ttl (now - written)) then some (some v) else none)
  unfolding cached_fact remember_fact
  cached_fact-remember_fact fresh_key key' v written ttl now = rw lookup-insert_self (ground arith)

  pub ruled_out-remember_fact :
      (fresh_key : Text) (v : V) (written : ℕ)
      → ruled_out_strategies (remember_fact c fact serial fresh_key written v) fact serial
        ≡ ruled_out_strategies c fact serial
  unfolding ruled_out_strategies remember_fact
  ruled_out-remember_fact fresh_key v written = rw (ruled_out_strategies, lookup-insert_self)

  pub ruled_out-rule_out_strategy :
      (name : Text)
      → ruled_out_strategies (rule_out_strategy c fact serial name) fact serial
        ≡ name ∷ ruled_out_strategies c fact serial
  unfolding ruled_out_strategies rule_out_strategy
  ruled_out-rule_out_strategy name = rw (ruled_out_strategies, lookup-insert_self)

  -- `Resolver.Invalidate` makes the next read a miss, and keeps what the device cannot do.
  invalidate_lem :
      (fresh_key : Text) (ttl now : ℕ)
      → (cached_fact (invalidate c fact serial) fact serial fresh_key ttl now ≡ none)
        × (ruled_out_strategies (invalidate c fact serial) fact serial
            ≡ ruled_out_strategies c fact serial)
  unfolding invalidate cached_fact ruled_out_strategies
  invalidate_lem fresh_key ttl now = elim (Option-cases (lookup (fact_key fact serial) c.facts)) [
    | inl e ↦ rw (e, drop_value, e) (refl, refl)
    | inr (st, e) ↦
        ground (arith, e, lookup-insert_self k (record st { cached = false; val = none }) c.facts)
  ]
    where
      k : Text
      k = fact_key fact serial
