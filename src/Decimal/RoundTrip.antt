-- ===== src/Decimal/RoundTrip.antt =====
-- What is printed is read back.
use adbq.Prelude.{
  ℕ, zero, suc, ◌+◌, ◌/◌, ◌%◌, ◌^◌, ◌<◌, ◌≤◌, ◌≡◌, refl, ◌∙◌, arith, [], ◌∷◌, some, ◌==◌, Text,
  codes, Bool-cases, inl, inr, true,
}
use native.Mathlib.Nat.{pow-suc}
use native.Mathlib.Numerals.{add-one}
use adbq.Prelude.Int.{ℤ, pos, negsuc}
use adbq.Decimal.{fill, itoa, is_digit, read_digits, atoi}

-- enough bytes for the digits: the loop ends, and its digits are read as the number
pub fill_lem :
    (left n : ℕ) (out : Text)
    → n < 10 ^ left
    → (s : Text) × (fill left n out ≡ some s) × (read_digits 0 s ≡ read_digits n out)
unfolding fill
fill_lem zero n out h = (out, ground arith, ground arith)
fill_lem (suc left) n out h = elim (Bool-cases (n == 0)) [
  | inl e ↦ let same : n ≡ 0 = ground arith in (out, rw e, rw same)
  | inr ne ↦
      let (s, filled, whole) =
        fill_lem left (n / 10) ((b'0' + n % 10) ∷ out) (omega (arith, pow-suc 10 left)) in
      (s, rw ne filled, rw whole (unfold read_digits in ground arith))
]

-- text that reads as a positive number starts with a digit
atoi_plain :
    (s : Text) (n : ℕ)
    → read_digits 0 s ≡ some (suc n)
    → suc n < 2 ^ 63
    → atoi s ≡ some (pos (suc n))
unfolding atoi
atoi_plain [] n h lt = unfold read_digits in cc
atoi_plain (c ∷ s) n h lt = ground (arith, digit_first c s)
  where
    digit_first : (c : ℕ) (s : Text) → read_digits 0 (c ∷ s) ≡ some (suc n) → is_digit c ≡ true
    digit_first c s h = unfold read_digits in ground arith

atoi_minus :
    (s : Text) (n : ℕ)
    → read_digits 0 s ≡ some (suc n)
    → suc n ≤ 2 ^ 63
    → atoi (b'-' ∷ s) ≡ some (negsuc n)
unfolding atoi
atoi_minus [] n h le = unfold read_digits in cc
atoi_minus (c ∷ s) n h le = ground arith

-- an int64 other than the least
abbrev pub IsInt64 : ℤ → Type 0
IsInt64 (pos n) = n < 2 ^ 63
IsInt64 (negsuc n) = n + 1 < 2 ^ 63

-- `itoa` prints every int64 but the least without leaving its twenty bytes, and `strconv.Atoi`
-- reads the printed text back as that number.
pub atoi-itoa : (z : ℤ) → IsInt64 z → (s : Text) × (itoa z ≡ some s) × (atoi s ≡ some z)
unfolding itoa
atoi-itoa (pos zero) h = (codes "0", refl, unfold atoi read_digits in refl)
atoi-itoa (pos (suc n)) h =
    let (s, filled, whole) = fill_lem 20 (suc n) [] (omega arith) in
    (s, filled, atoi_plain s n (whole ∙ (unfold read_digits in refl)) h)
atoi-itoa (negsuc n) h =
    let (s, filled, whole) = fill_lem 19 (suc n) [] (omega arith) in
    (
      b'-' ∷ s,
      ground (arith, filled, add-one n),
      atoi_minus s n (whole ∙ (unfold read_digits in refl)) (omega arith),
    )

-- Printing is one-to-one on those numbers.
pub itoa-injective : (a b : ℤ) → IsInt64 a → IsInt64 b → itoa a ≡ itoa b → a ≡ b
itoa-injective a b ha hb e =
    let (s, printed_a, read_a) = atoi-itoa a ha in let (t, printed_b, read_b) = atoi-itoa b hb in cc
