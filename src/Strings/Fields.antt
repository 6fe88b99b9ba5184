-- ===== src/Strings/Fields.antt =====
-- `strings.Fields` gives back words that were joined by spaces.
use adbq.Prelude.{
  ℕ, zero, suc, replicate, ap, ◌∙◌, ◌≡◌, refl, List, [], ◌∷◌, ◌++◌, Bool, true, false, Text, codes,
  join,
}
use adbq.Strings.{is_space, split_by, cons_first, non_empty, fields}

-- a word: some bytes, none of them white space
abbrev pub NoSpace : Text → Type 0
NoSpace [] = Unit
NoSpace (c ∷ s) = (is_space c ≡ false) × NoSpace s

abbrev pub IsWord : Text → Type 0
IsWord [] = ⊥
IsWord (c ∷ s) = NoSpace (c ∷ s)

abbrev pub AllWords : List Text → Type 0
AllWords [] = Unit
AllWords (w ∷ ws) = IsWord w × AllWords ws

module _ (p : ℕ → Bool) where
  abbrev pub NoneOf : Text → Type 0
  NoneOf [] = Unit
  NoneOf (c ∷ s) = (p c ≡ false) × NoneOf s

  pub split_by-NoneOf : (s : Text) → NoneOf s → split_by p s ≡ s ∷ []
  unfolding split_by cons_first
  split_by-NoneOf [] h = refl
  split_by-NoneOf (c ∷ s) (h, hs) = rw (h, split_by-NoneOf s hs)

  -- the first part ends at the first byte that passes the test
  pub split_by-append :
      (s : Text) (b : ℕ) (t : Text)
      → NoneOf s
      → p b ≡ true
      → split_by p (s ++ b ∷ t) ≡ s ∷ split_by p t
  unfolding split_by cons_first
  split_by-append [] b t h e = rw e
  split_by-append (c ∷ s) b t (h, hs) e = rw (h, split_by-append s b t hs e)

NoSpace-NoneOf : (s : Text) → NoSpace s → NoneOf is_space s
NoSpace-NoneOf [] h = tt
NoSpace-NoneOf (c ∷ s) (h, hs) = (h, NoSpace-NoneOf s hs)

pub IsWord-NoneOf : (w : Text) → IsWord w → NoneOf is_space w
IsWord-NoneOf [] h = absurd h
IsWord-NoneOf (c ∷ s) h = NoSpace-NoneOf (c ∷ s) h

pub non_empty-word : (w : Text) (ws : List Text) → IsWord w → non_empty (w ∷ ws) ≡ w ∷ non_empty ws
unfolding non_empty
non_empty-word [] ws h = absurd h
non_empty-word (c ∷ s) ws h = refl

pub fields-join : (ws : List Text) → AllWords ws → fields (join ws (codes " ")) ≡ ws
unfolding fields join
fields-join [] h = refl
fields-join (w ∷ []) (h, _) =
    rw (split_by-NoneOf is_space w (IsWord-NoneOf w h), non_empty-word w [] h)
      (unfold non_empty in refl)
fields-join (w ∷ v ∷ ws) (h, hs) = rw (
  split_by-append is_space w b' ' (join (v ∷ ws) (codes " ")) (IsWord-NoneOf w h) refl,
  non_empty-word w _ h,
  fields-join (v ∷ ws) hs,
)

pub fields-spaces : (n : ℕ) (s : Text) → fields (replicate n b' ' ++ s) ≡ fields s
unfolding fields split_by non_empty
fields-spaces zero s = refl
fields-spaces (suc n) s = fields-spaces n s

pub fields-word : (w t : Text) → IsWord w → fields (w ++ b' ' ∷ t) ≡ w ∷ fields t
unfolding fields
fields-word w t h =
    ap non_empty (split_by-append is_space w b' ' t (IsWord-NoneOf w h) refl)
    ∙ non_empty-word w (split_by is_space t) h
