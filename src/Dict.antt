-- ===== src/Dict.antt =====
-- A Go map keyed by a string, as an association list. What the program asks of a map does not
-- depend on its order, so clients use the laws below.
use adbq.Prelude.{
  ◌≡◌, refl, arith, List, [], ◌∷◌, Option, none, some, Bool, if◌then◌else◌, Text, text_eq,
  text_eq_iff,
}

abbrev pub Dict {ℓ} : Type ℓ → Type ℓ
Dict V = List (Text × V)

module _ {ℓ} {V : Type ℓ} where
  -- `m[k]`, with `none` for a missing key
  unfoldable pub lookup : Text → Dict V → Option V
  lookup k [] = none
  lookup k ((j, v) ∷ m) = if text_eq j k then some v else lookup k m

  -- `m[k] = v`
  unfoldable pub insert : Text → V → Dict V → Dict V
  insert k v [] = (k, v) ∷ []
  insert k v ((j, w) ∷ m) = if text_eq j k then (k, v) ∷ m else (j, w) ∷ insert k v m

  -- `for k := range m { if p(k) { delete(m, k) } }`
  unfoldable pub remove_where : (Text → Bool) → Dict V → Dict V
  remove_where p [] = []
  remove_where p ((j, w) ∷ m) = let rest = remove_where p m in if p j then rest else (j, w) ∷ rest

  -- `delete(m, k)`
  unfoldable pub remove : Text → Dict V → Dict V
  unfolding remove_where
  remove k m = remove_where (λ j. text_eq j k) m

  pub lookup-insert :
      (j k : Text) (v : V) (m : Dict V)
      → lookup j (insert k v m) ≡ (if text_eq k j then some v else lookup j m)
  unfolding lookup insert
  lookup-insert j k v [] = refl
  lookup-insert j k v ((i, w) ∷ m) =
      ground (arith, text_eq_iff i k, text_eq_iff i j, text_eq_iff k j, lookup-insert j k v m)

  pub lookup-remove_where :
      (j : Text) (p : Text → Bool) (m : Dict V)
      → lookup j (remove_where p m) ≡ (if p j then none else lookup j m)
  unfolding lookup remove_where
  lookup-remove_where j p [] = ground arith
  lookup-remove_where j p ((i, w) ∷ m) = ground (arith, text_eq_iff i j, lookup-remove_where j p m)

  pub lookup-remove :
      (j k : Text) (m : Dict V) → lookup j (remove k m) ≡ (if text_eq j k then none else lookup j m)
  unfolding remove
  lookup-remove j k m = lookup-remove_where j (λ i. text_eq i k) m

  pub lookup-remove_self : (k : Text) (m : Dict V) → lookup k (remove k m) ≡ none
  lookup-remove_self k m = rw (lookup-remove k k m, (text_eq_iff k k).1 refl)

  pub lookup-insert_self : (k : Text) (v : V) (m : Dict V) → lookup k (insert k v m) ≡ some v
  lookup-insert_self k v m = rw (lookup-insert k k v m, (text_eq_iff k k).1 refl)
