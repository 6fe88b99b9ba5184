-- ===== src/Prelude/Int.antt =====
-- Go's signed integers where a program value can be negative: `negsuc n` is -(n + 1).
use Prim.Native.Nat.{ℕ}
use mathlib.Core.Path.{◌≡◌, ap}
use mathlib.Core.Bool.{Bool, true, false}
use native.Mathlib.Omega.{arith}
use adbq.Prelude.Tests.{◌==◌, ==_iff}

pub data ℤ : Type 0 where
  pos : ℕ → ℤ
  negsuc : ℕ → ℤ

unfoldable pub int_eq : ℤ → ℤ → Bool
int_eq (pos a) (pos b) = a == b
int_eq (negsuc a) (negsuc b) = a == b
int_eq a b = false

pub int_eq-inv : (a b : ℤ) → int_eq a b ≡ true → a ≡ b
unfolding int_eq
int_eq-inv (pos a) (pos b) h = ap pos ((==_iff a b).0 h)
int_eq-inv (negsuc a) (negsuc b) h = ap negsuc ((==_iff a b).0 h)
int_eq-inv (pos a) (negsuc b) h = cc
int_eq-inv (negsuc a) (pos b) h = cc

pub int_eq_refl : (a : ℤ) → int_eq a a ≡ true
unfolding int_eq
int_eq_refl (pos n) = ground arith
int_eq_refl (negsuc n) = ground arith
