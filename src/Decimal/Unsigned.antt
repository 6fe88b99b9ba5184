-- ===== src/Decimal/Unsigned.antt =====
-- The counters of a listing, printed with `%d`, are read back by `strconv.ParseUint`.
use adbq.Prelude.{
  ℕ, zero, suc, ◌+◌, ◌-◌, ◌*◌, ◌^◌, ◌<◌, ◌≤◌, ◌≡◌, refl, ◌∙◌, arith, [], ◌∷◌, some, true, false,
  leb, Text,
}
use adbq.Prelude.Int.{pos}
use adbq.Decimal.{itoa, decimal, is_digit, read_digits, uint_loop, uint_value, atoi}
use adbq.Decimal.RoundTrip.{fill_lem, atoi-itoa}

digit_step :
    (m n c : ℕ) (s : Text)
    → read_digits m (c ∷ s) ≡ some n
    → (is_digit c ≡ true) × (read_digits (m * 10 + (c - b'0')) s ≡ some n)
unfolding read_digits
digit_step m n c s h = ground arith

read_digits-grows : (m n : ℕ) (s : Text) → read_digits m s ≡ some n → m ≤ n
read_digits-grows m n [] h = unfold read_digits in ground arith
read_digits-grows m n (c ∷ s) h =
    let below = read_digits-grows (m * 10 + (c - b'0')) n s (digit_step m n c s h).1 in
    omega (arith, below)

uint_loop-read_digits :
    (m n : ℕ) (s : Text) → n < 2 ^ 64 → read_digits m s ≡ some n → uint_loop m s ≡ n
unfolding uint_loop
uint_loop-read_digits m n [] lt h = unfold read_digits in ground arith
uint_loop-read_digits m n (c ∷ s) lt h =
    let (digit, rest) = digit_step m n c s h in
    let next = m * 10 + (c - b'0') in
    let fits : leb (2 ^ 64) next ≡ false = ground (arith, read_digits-grows next n s rest) in
    rw (digit, fits) (uint_loop-read_digits next n s lt rest)

digits_value : (s : Text) (n : ℕ) → n < 2 ^ 64 → read_digits 0 s ≡ some n → uint_value s ≡ n
unfolding uint_value
digits_value [] n lt h = unfold read_digits in ground arith
digits_value (c ∷ s) n lt h = uint_loop-read_digits 0 n (c ∷ s) lt h

decimal_of : (n : ℕ) (s : Text) → itoa (pos n) ≡ some s → decimal n ≡ s
unfolding decimal
decimal_of n s e = rw (decimal, e) refl

pub read_digits-decimal : (n : ℕ) → n < 2 ^ 64 → read_digits 0 (decimal n) ≡ some n
read_digits-decimal zero lt = unfold decimal read_digits in refl
read_digits-decimal (suc n) lt =
    let (s, filled, whole) = fill_lem 20 (suc n) [] (omega arith) in
    rw (decimal_of (suc n) s (unfold itoa in filled)) (whole ∙ (unfold read_digits in refl))

-- what is printed has a first byte
pub decimal-cons : (n : ℕ) → n < 2 ^ 64 → (c : ℕ) × (s : Text) × (decimal n ≡ c ∷ s)
decimal-cons zero lt = (b'0', [], (unfold decimal in refl))
decimal-cons (suc n) lt = first (decimal (suc n)) refl
  where
    first : (t : Text) → decimal (suc n) ≡ t → (c : ℕ) × (s : Text) × (t ≡ c ∷ s)
    first [] e =
        let none_read = rw e at (read_digits-decimal (suc n) lt) in
        absurd (unfold read_digits in ground arith)
    first (c ∷ s) e = (c, s, refl)

-- A uint64 that is printed with `%d` and parsed is itself.
pub uint_value-decimal : (n : ℕ) → n < 2 ^ 64 → uint_value (decimal n) ≡ n
uint_value-decimal zero lt = unfold decimal uint_value uint_loop in refl
uint_value-decimal (suc n) lt =
    let (s, filled, whole) = fill_lem 20 (suc n) [] (omega arith) in
    rw (decimal_of (suc n) s (unfold itoa in filled))
      (digits_value s (suc n) lt (whole ∙ (unfold read_digits in refl)))

-- An int that is printed with `%d` and parsed is itself.
pub atoi-decimal : (n : ℕ) → n < 2 ^ 63 → atoi (decimal n) ≡ some (pos n)
atoi-decimal n lt =
    let (s, printed, read) = atoi-itoa (pos n) lt in rw (decimal_of n s printed) read
