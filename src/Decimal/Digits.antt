-- ===== src/Decimal/Digits.antt =====
-- What is printed has only digits.
use adbq.Prelude.{
  ℕ, zero, suc, ◌+◌, ◌/◌, ◌%◌, ◌≤◌, arith, [], ◌∷◌, Option, none, some, ◌==◌, Text, Bool-cases, inl,
  inr,
}
use adbq.Decimal.{fill, decimal}

abbrev pub AllDigits : Text → Type 0
AllDigits [] = Unit
AllDigits (c ∷ s) = (b'0' ≤ c) × (c ≤ b'9') × AllDigits s

abbrev Printed : Option Text → Type 0
Printed none = Unit
Printed (some s) = AllDigits s

fill-Printed : (left n : ℕ) (out : Text) → AllDigits out → Printed (fill left n out)
unfolding fill
fill-Printed zero n out h = elim (Bool-cases (n == 0)) [ inl e ↦ rw e h | inr e ↦ rw e tt ]
fill-Printed (suc left) n out h = elim (Bool-cases (n == 0)) [
  | inl e ↦ rw e h
  | inr e ↦ rw e (fill-Printed left (n / 10) ((b'0' + n % 10) ∷ out) (omega arith, omega arith, h))
]

or_empty-AllDigits : (o : Option Text) → Printed o → AllDigits (elim o [ none ↦ [] | some s ↦ s ])
or_empty-AllDigits none h = tt
or_empty-AllDigits (some s) h = h

pub decimal-AllDigits : (n : ℕ) → AllDigits (decimal n)
unfolding decimal
decimal-AllDigits zero = (omega arith, omega arith, tt)
decimal-AllDigits (suc n) = or_empty-AllDigits (fill 20 (suc n) []) (fill-Printed 20 (suc n) [] tt)
