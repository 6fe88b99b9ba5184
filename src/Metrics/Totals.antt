-- ===== src/Metrics/Totals.antt =====
-- The counters add up.
use adbq.Prelude.{
  ℕ, zero, suc, ◌+◌, ◌/◌, ◌^◌, ◌≤◌, ◌<◌, ◌≡◌, refl, ◌∙◌, arith, List, [], ◌∷◌, ◌++◌, some, inl, inr,
  Bool-cases, if◌then◌else◌, Text, codes, text_eq, length, get_or, length-set,
}
use adbq.Dict.{Dict, lookup, insert}
use adbq.Metrics.{
  SpawnKind, spawn_one_shot, spawn_stream, Metrics, first_above, bucket_index,
  duration_bucket_bounds, counted, or_none, bumped, spawn_key_for, record_spawn,
}

abbrev pub sum : List ℕ → ℕ
sum [] = 0
sum (n ∷ ns) = n + sum ns

abbrev pub total : Dict ℕ → ℕ
total [] = 0
total ((k, n) ∷ m) = n + total m

-- each one-shot is in one bucket, each process under one command
pub record Balanced (m : Metrics) : Type 0 where
  pub slots : length m.buckets ≡ 7
  pub durations : sum m.buckets ≡ m.one_shots
  pub commands : total m.by_cmd ≡ m.one_shots + m.streams

first_above-le : (ms : ℕ) (bounds : List ℕ) → first_above ms bounds ≤ length bounds
unfolding first_above
first_above-le ms [] = omega arith
first_above-le ms (bound ∷ bounds) = ground (arith, first_above-le ms bounds)

sum-bumped : (i : ℕ) (bs : List ℕ) → i < length bs → sum (bumped i bs) ≡ sum bs + 1
unfolding bumped
sum-bumped i [] lt = absurd (omega arith)
sum-bumped zero (n ∷ ns) lt = omega arith
sum-bumped (suc i) (n ∷ ns) lt = omega (arith, sum-bumped i ns (omega arith))

module _ (key j : Text) (v n : ℕ) (m : Dict ℕ) where
  insert-cons :
      insert key v ((j, n) ∷ m) ≡ (if text_eq j key then (key, v) ∷ m else (j, n) ∷ insert key v m)
  unfolding insert
  insert-cons = refl

  lookup-cons : lookup key ((j, n) ∷ m) ≡ (if text_eq j key then some n else lookup key m)
  unfolding lookup
  lookup-cons = refl

-- a new value replaces the old one, if there was one
total-insert :
    (key : Text) (v : ℕ) (m : Dict ℕ)
    → total (insert key v m) + or_none (lookup key m) ≡ total m + v
total-insert key v [] = unfold insert lookup or_none in omega arith
total-insert key v ((j, n) ∷ m) = elim (Bool-cases (text_eq j key)) [
  | inl e ↦ rw (insert-cons key j v n m, lookup-cons key j v n m, e) (unfold or_none in omega arith)
  | inr e ↦
      rw (insert-cons key j v n m, lookup-cons key j v n m, e) (omega (arith, total-insert key v m))
]

total-counted : (key : Text) (m : Dict ℕ) → total (counted key m) ≡ total m + 1
unfolding counted
total-counted key m = omega (arith, total-insert key (or_none (lookup key m) + 1) m)

-- No process is counted twice or lost: recording keeps the sum of the histogram at the number of
-- one-shots, and the sum over the commands at the number of all processes.
pub record_spawn-Balanced :
    (kind : SpawnKind) (args : List Text) (d : ℕ) (m : Metrics)
    → Balanced m
    → Balanced (record_spawn kind args d m)
unfolding record_spawn
record_spawn-Balanced spawn_stream args d m h = record {
  slots = h.slots;
  durations = h.durations;
  commands =
      omega (arith, total-counted (codes "(stream) " ++ spawn_key_for args) m.by_cmd, h.commands);
}
record_spawn-Balanced spawn_one_shot args d m h =
    let i = bucket_index d in
    let below : i < length m.buckets =
      (unfold bucket_index in
        omega (arith, first_above-le (d / 10 ^ 6) duration_bucket_bounds, h.slots)) in
    record {
      slots = unfold bumped in (length-set m.buckets i (get_or m.buckets i 0 + 1) ∙ h.slots);
      durations = omega (arith, sum-bumped i m.buckets below, h.durations);
      commands = omega (arith, total-counted (spawn_key_for args) m.by_cmd, h.commands);
    }
