-- ===== src/Strings/Cut.antt =====
-- Cutting a text at a byte, and cutting off its end.
use adbq.Prelude.{
  ℕ, ◌≡◌, refl, ap, ◌∙◌, arith, [], ◌∷◌, ◌++◌, some, true, false, ◌==◌, length, length-append, take,
  Text, Lacks, has_suffix-append,
}
use adbq.Strings.{cut_byte, trim_suffix}

pub cut_byte-append : (b : ℕ) (s t : Text) → Lacks b s → cut_byte b (s ++ b ∷ t) ≡ some (s, t)
unfolding cut_byte
cut_byte-append b [] t h = let same : (b == b) ≡ true = ground arith in rw same
cut_byte-append b (c ∷ s) t (ne, h) =
    let other : (c == b) ≡ false = ground arith in rw (other, cut_byte-append b s t h)

take-own : (xs ys : Text) → take (length xs) (xs ++ ys) ≡ xs
take-own [] ys = refl
take-own (x ∷ xs) ys = ap (λ t. x ∷ t) (take-own xs ys)

pub trim_suffix-append : (s p : Text) → trim_suffix (s ++ p) p ≡ s
unfolding trim_suffix
trim_suffix-append s p =
    rw (has_suffix-append s p)
      (ap (λ n. take n (s ++ p)) (omega (arith, length-append s p)) ∙ take-own s p)
