-- ===== src/FactStore/Resolver/Remembered.antt =====
-- What `Resolve` leaves behind for later calls: the value of a costly strategy, and the names of
-- the strategies that the device will never support.
use adbq.Prelude.{
  ℕ, ◌+◌, ◌≤◌, ◌≡◌, ◌≢◌, refl, sym, ap, ◌∙◌, arith, List, [], ◌∷◌, ◌++◌, Bool, true, Text,
  text_eq_iff, inl, inr, Option, none, some, Bool-cases,
}
use mathlib.Core.Path.{subst}
use adbq.Dict.{lookup}
use adbq.FactStore.{
  Client, Capabilities, fact_ttl, cached_fact, remember_fact, ruled_out_strategies,
}
use adbq.FactStore.Store.{cached_fact-remember_fact, ruled_out-remember_fact}
use adbq.FactStore.Resolver.{
  Answer, ok, Strategy, Resolved, value, no_strategy, member, scanned, capabilities, eligible,
  eligible_from, run_eligible, or_zero_value, serve_or_run, resolve, cached_read, serve_or_read,
  keep_read, ok, unsupported, failed,
}
use adbq.FactStore.Resolver.Loop.{
  Outcome, found, exhausted, OutcomeOf, rule_out_all, try_all-Outcome, ruled_out-rule_out_all,
}
use adbq.FactStore.Resolver.Gates.{AllEligible, eligible_from-AllEligible}

module _ {ℓ} {V : Type ℓ} where
  scanned-facts :
      (c : Client V) (serial : Text) (probed : Capabilities) (o : Option Capabilities)
      → (scanned c serial probed o).1.facts ≡ c.facts
  unfolding scanned
  scanned-facts c serial probed none = ground arith
  scanned-facts c serial probed (some caps) = refl

module _ {ℓ κ} {D : Type ℓ} {V : Type κ} where
  abbrev pub AllCostly : List (Strategy D V) → Type 0
  AllCostly [] = Unit
  AllCostly (s ∷ ss) = (s.requires.costly ≡ true) × AllCostly ss

  -- no strategy of the list has the name
  abbrev pub NoneNamed : Text → List (Strategy D V) → Type 0
  NoneNamed n [] = Unit
  NoneNamed n (s ∷ ss) = (s.name ≢ n) × NoneNamed n ss

  AllCostly-middle :
      (pre : List (Strategy D V)) (s : Strategy D V) (post : List (Strategy D V))
      → AllCostly (pre ++ s ∷ post)
      → s.requires.costly ≡ true
  AllCostly-middle [] s post (h, _) = h
  AllCostly-middle (p ∷ pre) s post (_, h) = AllCostly-middle pre s post h

  AllCostly-eligible_from :
      (caps : Capabilities) (rooted : Bool) (out : List Text) (ss : List (Strategy D V))
      → AllCostly ss
      → AllCostly (eligible_from caps rooted out ss)
  unfolding eligible_from
  AllCostly-eligible_from caps rooted out [] h = tt
  AllCostly-eligible_from caps rooted out (s ∷ ss) (h, hs) =
      ground (arith, AllCostly-eligible_from caps rooted out ss hs)

  AllEligible-NoneNamed :
      (caps : Capabilities) (rooted : Bool) (out : List Text) (n : Text) (ss : List (Strategy D V))
      → member n out ≡ true
      → AllEligible caps rooted out ss
      → NoneNamed n ss
  AllEligible-NoneNamed caps rooted out n [] h all = tt
  AllEligible-NoneNamed caps rooted out n (s ∷ ss) h (fresh, meets, all) =
      (λ same. cc, AllEligible-NoneNamed caps rooted out n ss h all)

module _ {ℓ κ} {D : Type ℓ} {V : Type κ} (fact serial fresh_key : Text) (written : ℕ) where
  -- the names that a call newly ruled out
  abbrev pub ruled_by :
      {ss : List (Strategy D V)} {c : Client V} {d : D} {r : Resolved V} {c' : Client V} {d' : D}
      → Outcome fact serial fresh_key written ss c d r c' d'
      → List Text
  ruled_by (found pre s post ns v whole row last) = ns
  ruled_by (exhausted ns e row) = ns

  ruled_by-ruled_out :
      {ss : List (Strategy D V)} {c : Client V} {d : D} {r : Resolved V} {c' : Client V} {d' : D}
      (o : Outcome fact serial fresh_key written ss c d r c' d') (n : Text)
      → member n (ruled_by o) ≡ true
      → member n (ruled_out_strategies c' fact serial) ≡ true
  ruled_by-ruled_out {c} (found pre s post ns v whole row last) n h =
      let base = ruled_out-rule_out_all fact serial ns c n (inl h) in
      elim (Bool-cases s.requires.costly) [
        | inl yes_costly ↦
            rw
              (
                yes_costly,
                ruled_out-remember_fact (rule_out_all fact serial ns c) fact serial fresh_key v
                    written,
              )
              base
        | inr cheap ↦ rw cheap base
      ]
  ruled_by-ruled_out {c} (exhausted ns e row) n h =
      ruled_out-rule_out_all fact serial ns c n (inl h)

  -- A strategy that answered `ErrUnsupported` during a call is not among those that any later call
  -- tries on that device, whatever its capabilities and root are then.
  pub eligible-NoneNamed :
      {ss : List (Strategy D V)} {c : Client V} {d : D} {r : Resolved V} {c' : Client V} {d' : D}
      (o : Outcome fact serial fresh_key written ss c d r c' d') (n : Text)
      → member n (ruled_by o) ≡ true
      → (strategies : List (Strategy D V)) (zero_value : V) (probed : Capabilities) (rooted : Bool)
      → NoneNamed n (eligible fact strategies zero_value c' serial probed rooted).0
  unfolding eligible capabilities ruled_out_strategies
  eligible-NoneNamed {c' = c'} o n h strategies zero_value probed rooted =
      let scan = scanned c' serial probed (lookup serial c'.caps) in
      AllEligible-NoneNamed scan.0 rooted (ruled_out_strategies scan.1 fact serial) n _
        (rw (ruled_out_strategies, scanned-facts c' serial probed (lookup serial c'.caps))
          (ruled_by-ruled_out o n h))
        (eligible_from-AllEligible scan.0 rooted (ruled_out_strategies scan.1 fact serial)
          strategies)

  remembers :
      {ss : List (Strategy D V)} {c : Client V} {d : D} {r : Resolved V} {c' : Client V} {d' : D}
      (v : V)
      → Outcome fact serial fresh_key written ss c d r c' d'
      → AllCostly ss
      → r ≡ value v
      → (c₀ : Client V) × (c' ≡ remember_fact c₀ fact serial fresh_key written v)
  remembers {c} v (found pre s post ns w whole row last) costly e =
      let costly_s = AllCostly-middle pre s post (subst AllCostly whole costly) in
      (rule_out_all fact serial ns c, ground (arith, costly_s))
  remembers v (exhausted ns err row) costly e = cc

module _ {ℓ κ} {D : Type ℓ} {V : Type κ} (fact serial fresh_key : Text)
    (strategies : List (Strategy D V)) (zero_value : V) where
  abbrev ask : Client V → D → Capabilities → Bool → ℕ → ℕ → Resolved V × Client V × D
  ask c d probed rooted now written =
      resolve fact strategies zero_value c d serial fresh_key probed rooted now written

  run_eligible-remembers :
      (ss : List (Strategy D V)) (c : Client V) (d : D) (written : ℕ) (v : V) (c' : Client V)
      (d' : D)
      → AllCostly ss
      → run_eligible fact strategies zero_value serial fresh_key written ss c d ≡ (value v, c', d')
      → (c₀ : Client V) × (c' ≡ remember_fact c₀ fact serial fresh_key written v)
  unfolding run_eligible
  run_eligible-remembers [] c d written v c' d' costly e = cc
  run_eligible-remembers (s ∷ ss) c d written v c' d' costly e =
      remembers fact serial fresh_key written v
        (subst (OutcomeOf fact serial fresh_key written (s ∷ ss) c d) e
          (try_all-Outcome fact serial fresh_key written (s ∷ ss) c d no_strategy))
        costly refl

  resolve-hit :
      (c : Client V) (d : D) (probed : Capabilities) (rooted : Bool) (now written : ℕ) (v : V)
      → cached_fact c fact serial fresh_key fact_ttl now ≡ some (some v)
      → ask c d probed rooted now written ≡ (value v, c, d)
  unfolding resolve serve_or_run or_zero_value
  resolve-hit c d probed rooted now written v hit =
      ap (λ o. serve_or_run fact strategies zero_value o c d serial fresh_key probed rooted written)
        hit

  resolve-miss :
      (c : Client V) (d : D) (probed : Capabilities) (rooted : Bool) (now written : ℕ)
      → cached_fact c fact serial fresh_key fact_ttl now ≡ none
      → let (ss, c') = eligible fact strategies zero_value c serial probed rooted in
        ask c d probed rooted now written
        ≡ run_eligible fact strategies zero_value serial fresh_key written ss c' d
  unfolding resolve serve_or_run
  resolve-miss c d probed rooted now written miss =
      ap (λ o. serve_or_run fact strategies zero_value o c d serial fresh_key probed rooted written)
        miss

  AllCostly-eligible :
      (c : Client V) (probed : Capabilities) (rooted : Bool)
      → AllCostly strategies
      → AllCostly (eligible fact strategies zero_value c serial probed rooted).0
  unfolding eligible
  AllCostly-eligible c probed rooted costly =
      AllCostly-eligible_from (capabilities c serial probed).0 rooted
        (ruled_out_strategies (capabilities c serial probed).1 fact serial) strategies costly

  served :
      (c₀ : Client V) (v : V) (written later : ℕ)
      → later ≤ written + fact_ttl
      → cached_fact
          (remember_fact c₀ fact serial fresh_key written v)
          fact
          serial
          fresh_key
          fact_ttl
          later
        ≡ some (some v)
  served c₀ v written later soon = ground (
    arith,
    cached_fact-remember_fact c₀ fact serial fresh_key fresh_key v written fact_ttl later,
    text_eq_iff fresh_key fresh_key,
  )

  -- A resolver of costly strategies that had to ask the device and got a value answers the next call
  -- under the same freshness key, up to ten minutes after, with that value: no strategy runs, and
  -- the client is as it was.
  pub resolve-resolve :
      (c : Client V) (d : D) (probed : Capabilities) (rooted : Bool) (now written : ℕ) (v : V)
      (c' : Client V) (d' : D)
      → AllCostly strategies
      → cached_fact c fact serial fresh_key fact_ttl now ≡ none
      → ask c d probed rooted now written ≡ (value v, c', d')
      → (probed' : Capabilities) (rooted' : Bool) (later written' : ℕ) → later ≤ written + fact_ttl
      → ask c' d' probed' rooted' later written' ≡ (value v, c', d')
  resolve-resolve c d probed rooted now written v c' d' costly miss e probed' rooted' later written'
        soon =
      let (ss, c₁) = eligible fact strategies zero_value c serial probed rooted in
      let (c₀, kept) =
        run_eligible-remembers ss c₁ d written v c' d' (AllCostly-eligible c probed rooted costly)
          (sym (resolve-miss c d probed rooted now written miss) ∙ e) in
      resolve-hit c' d' probed' rooted' later written' v (rw kept (served c₀ v written later soon))

module _ {ℓ κ} {D : Type ℓ} {V : Type κ} (c : Client V) (d : D) (serial fact : Text)
    (ttl now written : ℕ) (read : D → Answer V × D)
    (miss : cached_fact c fact serial [] ttl now ≡ none) where
  cached_read-miss :
      cached_read c d serial fact ttl now written read ≡ keep_read c serial fact written (read d)
  unfolding cached_read serve_or_read
  cached_read-miss = ap (λ o. serve_or_read o c d serial fact written read) miss

  -- A cached read that misses returns what the device was read to hold, and a call within the time to
  -- live returns it again, without reading and without changing the client.
  pub cached_read-cached_read :
      (v : V) (d' : D) (later written' : ℕ) (read' : D → Answer V × D)
      → read d ≡ (ok v, d')
      → later ≤ written + ttl
      → let (answer, c', d'') = cached_read c d serial fact ttl now written read in
        (answer ≡ ok v)
        × (cached_read c' d'' serial fact ttl later written' read' ≡ (ok v, c', d''))
  cached_read-cached_read v d' later written' read' run soon =
      rw (cached_read-miss, run) (unfold keep_read in (refl, again))
    where
      kept : Client V
      kept = remember_fact c fact serial [] written v

      hit : cached_fact kept fact serial [] ttl later ≡ some (some v)
      hit = ground (
        arith,
        cached_fact-remember_fact c fact serial [] [] v written ttl later,
        text_eq_iff [] [],
      )

      again : cached_read kept d' serial fact ttl later written' read' ≡ (ok v, kept, d')
      again =
          unfold cached_read serve_or_read in
          ap (λ o. serve_or_read o kept d' serial fact written' read') hit

  -- A cached read that misses and fails leaves the client as it was.
  pub cached_read-failed :
      (answer : Answer V) (d' : D)
      → read d ≡ (answer, d')
      → ((v : V) → answer ≢ ok v)
      → cached_read c d serial fact ttl now written read ≡ (answer, c, d')
  cached_read-failed (ok v) d' run bad = absurd (bad v refl)
  cached_read-failed unsupported d' run bad = rw (cached_read-miss, run) (unfold keep_read in refl)
  cached_read-failed (failed e) d' run bad = rw (cached_read-miss, run) (unfold keep_read in refl)
