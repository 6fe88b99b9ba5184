-- ===== src/Decimal.antt =====
-- Decimal numerals: `itoa` of internal/adb/tasks.go, and `strconv.Atoi`, which the parsers call.
-- An int64 is a ℤ within its range; the buffer of `itoa` has twenty bytes, and writing in front of
-- it would be a run-time fault, `none`.
pub mod RoundTrip
pub mod Digits
pub mod Unsigned
mod Examples
use adbq.Prelude.{
  ℕ, zero, suc, ◌+◌, ◌-◌, ◌*◌, ◌/◌, ◌%◌, ◌^◌, List, [], ◌∷◌, Option, none, some, Bool, ◌&&◌,
  if◌then◌else◌, ltb, leb, ◌==◌, Text, codes,
}
use adbq.Prelude.Int.{ℤ, pos, negsuc}

-- `for n > 0 { i--; buf[i] = byte('0' + n%10); n /= 10 }` with `left` bytes of the buffer left
unfoldable pub fill : ℕ → ℕ → Text → Option Text
fill zero n out = if n == 0 then some out else none
fill (suc left) n out =
    let rest = fill left (n / 10) ((b'0' + n % 10) ∷ out) in if n == 0 then some out else rest

-- the sign takes a byte too
signed : Option Text → Option Text
signed none = none
signed (some s) = some (b'-' ∷ s)

-- `-n` of the least int64 is itself, so its loop makes no round
unfoldable pub itoa : ℤ → Option Text
unfolding fill signed
itoa (pos zero) = some (codes "0")
itoa (pos (suc n)) = fill 20 (suc n) []
itoa (negsuc n) = signed (if n + 1 == 2 ^ 63 then fill 19 0 [] else fill 19 (n + 1) [])

-- the digits of a natural number, as `%d` prints a non-negative int
unfoldable pub decimal : ℕ → Text
unfolding itoa
decimal n = elim (itoa (pos n)) [ none ↦ [] | some s ↦ s ]

abbrev pub is_digit : ℕ → Bool
is_digit c = leb b'0' c && leb c b'9'

-- digits after the number `n`; `none` for any other byte
unfoldable pub read_digits : ℕ → Text → Option ℕ
read_digits n [] = some n
read_digits n (c ∷ s) =
    let rest = read_digits (n * 10 + (c - b'0')) s in if is_digit c then rest else none

-- one digit or more
unfoldable pub read_nat : Text → Option ℕ
unfolding read_digits
read_nat [] = none
read_nat (c ∷ s) = read_digits 0 (c ∷ s)

in_range : ℕ → Option ℕ → Option ℕ
in_range limit none = none
in_range limit (some n) = if ltb n limit then some n else none

neg : ℕ → ℤ
neg zero = pos zero
neg (suc n) = negsuc n

signed_int : Bool → Option ℕ → Option ℤ
unfolding neg
signed_int minus none = none
signed_int minus (some n) = some (if minus then neg n else pos n)

-- `strconv.Atoi`: a sign or none, then digits, in the range of int64
unfoldable pub atoi : Text → Option ℤ
unfolding read_nat in_range signed_int
atoi [] = none
atoi (c ∷ s) =
    if c == b'-'
    then signed_int Bool.true (in_range (2 ^ 63 + 1) (read_nat s))
    else if c == b'+'
    then signed_int Bool.false (in_range (2 ^ 63) (read_nat s))
    else signed_int Bool.false (in_range (2 ^ 63) (read_nat (c ∷ s)))

-- `strconv.ParseUint(s, 10, 64)`: no sign
unfoldable pub parse_uint : Text → Option ℕ
unfolding read_nat in_range
parse_uint s = in_range (2 ^ 64) (read_nat s)

-- `n, _ := strconv.ParseUint(s, 10, 64)`: 0 for a text that is no number, the greatest uint64 for
-- one that is too large
unfoldable pub uint_loop : ℕ → Text → ℕ
uint_loop n [] = n
uint_loop n (c ∷ s) =
    let m = n * 10 + (c - b'0') in
    let rest = uint_loop m s in
    if is_digit c then (if leb (2 ^ 64) m then 2 ^ 64 - 1 else rest) else 0

unfoldable pub uint_value : Text → ℕ
unfolding uint_loop
uint_value [] = 0
uint_value (c ∷ s) = uint_loop 0 (c ∷ s)
