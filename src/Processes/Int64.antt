-- ===== src/Processes/Int64.antt =====
-- The arithmetic of int64, and `strconv.ParseInt` where the error is dropped.
use adbq.Prelude.{
  ℕ, zero, suc, ◌+◌, ◌-◌, ◌*◌, ◌/◌, ◌%◌, ◌^◌, [], ◌∷◌, Bool, true, false, ltb, leb, ◌==◌,
  if◌then◌else◌, Text,
}
use adbq.Prelude.Int.{ℤ, pos, negsuc}
use adbq.Decimal.{uint_value}

-- the bits of an int64, and `int64(u)`
unfoldable pub bits : ℤ → ℕ
bits (pos n) = n % 2 ^ 64
bits (negsuc n) = (2 ^ 64 - 1 - n % 2 ^ 64) % 2 ^ 64

unfoldable pub of_uint64 : ℕ → ℤ
of_uint64 u = if ltb u (2 ^ 63) then pos u else negsuc (2 ^ 64 - 1 - u)

unfoldable pub add64 : ℤ → ℤ → ℤ
unfolding bits of_uint64
add64 a b = of_uint64 ((bits a + bits b) % 2 ^ 64)

unfoldable pub sub64 : ℤ → ℤ → ℤ
unfolding bits of_uint64
sub64 a b = of_uint64 ((bits a + (2 ^ 64 - bits b)) % 2 ^ 64)

unfoldable pub mul64 : ℤ → ℕ → ℤ
unfolding bits of_uint64
mul64 a b = of_uint64 ((bits a * b) % 2 ^ 64)

neg : ℕ → ℤ
neg zero = pos zero
neg (suc n) = negsuc n

-- Go's division by a positive number rounds to zero
unfoldable pub quot64 : ℤ → ℕ → ℤ
unfolding neg
quot64 (pos n) d = pos (n / d)
quot64 (negsuc n) d = neg ((n + 1) / d)

clamp : Bool → ℕ → ℤ
unfolding neg
clamp true u = if ltb (2 ^ 63) u then negsuc (2 ^ 63 - 1) else neg u
clamp false u = if leb (2 ^ 63) u then pos (2 ^ 63 - 1) else pos u

-- `n, _ := strconv.ParseInt(s, 10, 64)`: 0 for a text that is no number, the nearest int64 for one
-- that is out of range
unfoldable pub int_value : Text → ℤ
unfolding clamp uint_value
int_value [] = pos 0
int_value (c ∷ s) =
    if c == b'-'
    then clamp true (uint_value s)
    else if c == b'+'
    then clamp false (uint_value s)
    else clamp false (uint_value (c ∷ s))

unfoldable pub is_positive : ℤ → Bool
is_positive (pos (suc n)) = true
is_positive z = false
