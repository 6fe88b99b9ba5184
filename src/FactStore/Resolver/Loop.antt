-- ===== src/FactStore/Resolver/Loop.antt =====
-- What the loop of `Resolve` does, said once for all lists: it runs a row of strategies that give no
-- value, and stops at the first that gives one or at the end.
use adbq.Prelude.{
  ℕ, ◌≡◌, refl, ap, arith, List, [], ◌∷◌, ◌++◌, true, Text, ◌⊎◌, inl, inr, if◌then◌else◌,
}
use adbq.FactStore.{Client, remember_fact, rule_out_strategy, ruled_out_strategies}
use adbq.FactStore.Store.{ruled_out-rule_out_strategy}
use adbq.FactStore.Resolver.{
  Answer, ok, unsupported, failed, Strategy, Resolved, value, error, FactError, last_unsupported,
  last_failed, member, kept, try_all,
}

module _ {ℓ κ} {D : Type ℓ} {V : Type κ} where
  -- the strategies of the list, run in turn from one device state to another, give no value; the
  -- names are those that answered `ErrUnsupported`, in order
  pub data Trail : List (Strategy D V) → D → List Text → D → Type (ℓ ⊔ κ) where
    done : (d : D) → Trail [] d [] d
    transient :
        (s : Strategy D V) {ss : List (Strategy D V)} {d d' d'' : D} {ns : List Text} (e : Text)
        → s.run d ≡ (failed e, d')
        → Trail ss d' ns d''
        → Trail (s ∷ ss) d ns d''
    permanent :
        (s : Strategy D V) {ss : List (Strategy D V)} {d d' d'' : D} {ns : List Text}
        → s.run d ≡ (unsupported, d')
        → Trail ss d' ns d''
        → Trail (s ∷ ss) d (s.name ∷ ns) d''

module _ {κ} {V : Type κ} (fact serial : Text) where
  abbrev pub rule_out_all : List Text → Client V → Client V
  rule_out_all [] c = c
  rule_out_all (n ∷ ns) c = rule_out_all ns (rule_out_strategy c fact serial n)

module _ {ℓ κ} {D : Type ℓ} {V : Type κ} (fact serial fresh_key : Text) (now : ℕ) where
  -- A row without a value, and then, if the list goes on, the strategy that gives one.
  pub data Outcome (ss : List (Strategy D V)) (c : Client V) (d : D)
      : Resolved V → Client V → D → Type (ℓ ⊔ κ) where
    found :
        (pre : List (Strategy D V)) (s : Strategy D V) (post : List (Strategy D V)) (ns : List Text)
        {d₁ d' : D} (v : V)
        → ss ≡ pre ++ s ∷ post
        → Trail pre d ns d₁
        → s.run d₁ ≡ (ok v, d')
        → Outcome ss c d
            (value v)
            (if s.requires.costly
              then remember_fact (rule_out_all fact serial ns c) fact serial fresh_key now v
              else rule_out_all fact serial ns c)
            d'
    exhausted :
        (ns : List Text) {d' : D} (e : FactError)
        → Trail ss d ns d'
        → Outcome ss c d (error e) (rule_out_all fact serial ns c) d'

  skip :
      (s : Strategy D V) {ss : List (Strategy D V)} {c : Client V} {d d' d'' : D} {r : Resolved V}
      {c' : Client V} (e : Text)
      → s.run d ≡ (failed e, d')
      → Outcome ss c d' r c' d''
      → Outcome (s ∷ ss) c d r c' d''
  skip s e run (found pre t post ns v whole row last) =
      found (s ∷ pre) t post ns v (ap (λ l. s ∷ l) whole) (transient s e run row) last
  skip s e run (exhausted ns err row) = exhausted ns err (transient s e run row)

  rule :
      (s : Strategy D V) {ss : List (Strategy D V)} {c : Client V} {d d' d'' : D} {r : Resolved V}
      {c' : Client V}
      → s.run d ≡ (unsupported, d')
      → Outcome ss (rule_out_strategy c fact serial s.name) d' r c' d''
      → Outcome (s ∷ ss) c d r c' d''
  rule s run (found pre t post ns v whole row last) =
      found (s ∷ pre) t post (s.name ∷ ns) v (ap (λ l. s ∷ l) whole) (permanent s run row) last
  rule s run (exhausted ns err row) = exhausted (s.name ∷ ns) err (permanent s run row)

  module _ (s : Strategy D V) (ss : List (Strategy D V)) (c : Client V) (d d' : D)
      (last : FactError) where
    abbrev go : List (Strategy D V) → Client V → D → FactError → Resolved V × Client V × D
    go = try_all fact serial fresh_key now

    try_all-ok :
        (v : V)
        → s.run d ≡ (ok v, d')
        → go (s ∷ ss) c d last ≡ (value v, kept fact serial fresh_key now s v c, d')
    unfolding try_all
    try_all-ok v run = rw (ap (λ (p : Answer V × D). p.0) run, ap (λ (p : Answer V × D). p.1) run)

    try_all-unsupported :
        s.run d ≡ (unsupported, d')
        → go (s ∷ ss) c d last ≡ go ss (rule_out_strategy c fact serial s.name) d' last_unsupported
    unfolding try_all
    try_all-unsupported run =
        rw (ap (λ (p : Answer V × D). p.0) run, ap (λ (p : Answer V × D). p.1) run)

    try_all-failed :
        (e : Text) → s.run d ≡ (failed e, d') → go (s ∷ ss) c d last ≡ go ss c d' (last_failed e)
    unfolding try_all
    try_all-failed e run =
        rw (ap (λ (p : Answer V × D). p.0) run, ap (λ (p : Answer V × D). p.1) run)

  abbrev pub OutcomeOf :
      List (Strategy D V) → Client V → D → Resolved V × Client V × D → Type (ℓ ⊔ κ)
  OutcomeOf ss c d out = Outcome ss c d out.0 out.1 out.2

  -- The loop of `Resolve` runs the strategies in order, stopping at the first that gives a value: those in
  -- front of it gave none, exactly those that answered `ErrUnsupported` are newly ruled out, and the
  -- value is remembered if its strategy is costly. Without such a strategy all of them were run, the
  -- same names are ruled out, and nothing is remembered.
  pub try_all-Outcome :
      (ss : List (Strategy D V)) (c : Client V) (d : D) (last : FactError)
      → OutcomeOf ss c d (try_all fact serial fresh_key now ss c d last)
  try_all-Outcome [] c d last = unfold try_all in exhausted [] last (done d)
  try_all-Outcome (s ∷ ss) c d last =
      split (s.run d).0 (s.run d).1 refl
        (try_all-Outcome ss (rule_out_strategy c fact serial s.name) (s.run d).1 last_unsupported)
        (λ e. try_all-Outcome ss c (s.run d).1 (last_failed e))
    where
      all : List (Strategy D V) → Client V → D → FactError → Resolved V × Client V × D
      all = try_all fact serial fresh_key now

      split :
          (a : Answer V) (d' : D)
          → s.run d ≡ (a, d')
          → OutcomeOf ss
              (rule_out_strategy c fact serial s.name)
              d'
              (all ss (rule_out_strategy c fact serial s.name) d' last_unsupported)
          → ((e : Text) → OutcomeOf ss c d' (all ss c d' (last_failed e)))
          → OutcomeOf (s ∷ ss) c d (all (s ∷ ss) c d last)
      split (ok v) d' run out more =
          rw (try_all-ok s ss c d d' last v run)
            (unfold kept in found [] s ss [] v refl (done d) run)
      split unsupported d' run out more =
          rw (try_all-unsupported s ss c d d' last run) (rule s run out)
      split (failed e) d' run out more =
          rw (try_all-failed s ss c d d' last e run) (skip s e run (more e))

-- A name that was ruled out stays ruled out.
module _ {κ} {V : Type κ} (fact serial : Text) where
  pub ruled_out-rule_out_all :
      (ns : List Text) (c : Client V) (n : Text)
      → (member n ns ≡ true) ⊎ (member n (ruled_out_strategies c fact serial) ≡ true)
      → member n (ruled_out_strategies (rule_out_all fact serial ns c) fact serial) ≡ true
  ruled_out-rule_out_all [] c n (inl h) = unfold member in cc
  ruled_out-rule_out_all [] c n (inr h) = h
  ruled_out-rule_out_all (m ∷ ns) c n h =
      ruled_out-rule_out_all ns (rule_out_strategy c fact serial m) n
        (rw (ruled_out-rule_out_strategy c fact serial m) (moved h))
    where
      moved :
          (member n (m ∷ ns) ≡ true) ⊎ (member n (ruled_out_strategies c fact serial) ≡ true)
          → (member n ns ≡ true) ⊎ (member n (m ∷ ruled_out_strategies c fact serial) ≡ true)
      moved k = unfold member in ground arith
