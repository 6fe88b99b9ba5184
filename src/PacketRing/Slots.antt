-- ===== src/PacketRing/Slots.antt =====
-- Where the slots of a ring lie: numbers that are less than a whole round apart do not collide.
use native.Mathlib.Decide.{dec_lt}
use native.Mathlib.Nat.{mod-add-mod, mod-eq_of_lt, mod-eq-sub-mod, mod-lt}
use adbq.Prelude.{ℕ, ◌+◌, ◌-◌, ◌%◌, ◌<◌, ◌≢◌, arith, ap, ◌∙◌}

-- Fewer than `n` steps from a slot do not come back to it.
step-mod-ne : (n s d : ℕ) → s < n → 0 < d → d < n → (s + d) % n ≢ s
step-mod-ne n s d hs hd hn = elim (dec_lt (s + d) n) [
  | yes p ↦ omega (arith, mod-eq_of_lt p)
  | no p ↦ omega (
    arith,
    mod-eq-sub-mod {n = s + d} {m = n} (omega arith),
    mod-eq_of_lt {n = s + d - n} {m = n} (omega arith),
  )
]

pub slots_apart : (n k m : ℕ) → k < m → m < k + n → m % n ≢ k % n
slots_apart n k m h h' e =
    step-mod-ne n (k % n) (m - k) (mod-lt k (omega arith)) (omega arith) (omega arith)
      (mod-add-mod k n (m - k) ∙ (ap (λ t. t % n) (omega arith) ∙ e))
