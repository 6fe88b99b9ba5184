-- ===== src/FactStore/Keys.antt =====
-- Which keys the two deletion tests pick: the fact and the serial can be read back from a key,
-- as long as a serial holds no NUL byte.
use adbq.Prelude.{
  ℕ, ◌≡◌, refl, ap, arith, [], ◌∷◌, ◌++◌, ◌&&◌, inl, inr, Bool-cases, Text, text_eq, text_eq_iff,
  has_prefix, has_suffix, has_suffix-append, has_suffix-inv, split_unique, Lacks, length,
  length-append,
}
use adbq.FactStore.{fact_key, nul, is_of_serial, is_of_prefix}

has_suffix-fact_key :
    (fact a b : Text)
    → Lacks nul a
    → Lacks nul b
    → has_suffix (fact_key fact a) (nul ∷ b) ≡ text_eq a b
unfolding fact_key
has_suffix-fact_key fact a b ha hb = elim (Bool-cases (text_eq a b)) [
  | inl e ↦
      let same : a ≡ b = (text_eq_iff a b).0 e in rw (e, same) (has_suffix-append fact (nul ∷ b))
  | inr ne ↦ elim (Bool-cases (has_suffix (fact ++ nul ∷ a) (nul ∷ b))) [
    | inl e ↦
        let (r, whole) = has_suffix-inv (fact ++ nul ∷ a) (nul ∷ b) e in
        let (_, same) = split_unique nul fact r a b ha hb whole in cc ((text_eq_iff a b).1 same)
    | inr e ↦ cc
  ]
]

has_prefix-fact_key :
    (fact a p : Text) → Lacks nul p → has_prefix (fact_key fact a) p ≡ has_prefix fact p
unfolding fact_key has_prefix
has_prefix-fact_key fact a [] h = refl
has_prefix-fact_key [] a (c ∷ p) (hc, h) = ground arith
has_prefix-fact_key (d ∷ fact) a (c ∷ p) (hc, h) = ground (arith, has_prefix-fact_key fact a p h)

pub is_of_prefix-fact_key :
    (fact a b p : Text)
    → Lacks nul p
    → Lacks nul a
    → Lacks nul b
    → is_of_prefix b p (fact_key fact a) ≡ (has_prefix fact p && text_eq a b)
is_of_prefix-fact_key fact a b p hp ha hb =
    rw (has_prefix-fact_key fact a p hp, has_suffix-fact_key fact a b ha hb)

-- A fact with a name is dropped with its device, and with no other.
pub is_of_serial-fact_key :
    (c : ℕ) (fact a b : Text)
    → Lacks nul a
    → Lacks nul b
    → is_of_serial b (fact_key (c ∷ fact) a) ≡ text_eq a b
is_of_serial-fact_key c fact a b ha hb = elim (Bool-cases (text_eq a b)) [
  | inl e ↦
      let same : a ≡ b = (text_eq_iff a b).0 e in
      rw (has_suffix-fact_key (c ∷ fact) a b ha hb, e)
        (unfold fact_key in
          ground (arith, length-append fact (nul ∷ a), ap (length {0} {A = ℕ}) same))
  | inr ne ↦ rw (has_suffix-fact_key (c ∷ fact) a b ha hb, ne) (ground arith)
]
