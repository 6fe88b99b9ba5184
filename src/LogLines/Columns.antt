-- ===== src/LogLines/Columns.antt =====
-- Columns that are padded with spaces: what `strings.Fields` and `skipFields` make of them.
use adbq.Prelude.{
  ℕ, zero, suc, ◌≡◌, refl, ap, ◌∙◌, arith, List, [], ◌∷◌, ◌++◌, true, false, not, replicate, length,
  Text, codes, contains_any, has_byte,
}
use adbq.Strings.{is_space, fields, drop_while}
use adbq.Strings.Fields.{NoSpace, IsWord, AllWords, fields-spaces, fields-word}
use adbq.Strings.Lines.{IsWord-NoSpace}
use adbq.LogLines.{is_gap, skip_fields}

-- each word behind some spaces and in front of one
abbrev pub columns : List (ℕ × Text) → Text → Text
columns [] rest = rest
columns ((n, w) ∷ cs) rest = replicate n b' ' ++ (w ++ b' ' ∷ columns cs rest)

abbrev pub words_of : List (ℕ × Text) → List Text
words_of [] = []
words_of ((n, w) ∷ cs) = w ∷ words_of cs

pub fields-columns :
    (cs : List (ℕ × Text)) (rest : Text)
    → AllWords (words_of cs)
    → fields (columns cs rest) ≡ words_of cs ++ fields rest
fields-columns [] rest h = refl
fields-columns ((n, w) ∷ cs) rest (hw, h) =
    fields-spaces n (w ++ b' ' ∷ columns cs rest)
    ∙ (fields-word w (columns cs rest) hw ∙ ap (λ ws. w ∷ ws) (fields-columns cs rest h))

drop_gap-spaces :
    (n : ℕ) (s : Text) → drop_while is_gap (replicate n b' ' ++ s) ≡ drop_while is_gap s
unfolding drop_while
drop_gap-spaces zero s = refl
drop_gap-spaces (suc n) s = drop_gap-spaces n s

no_gap : (c : ℕ) → is_space c ≡ false → is_gap c ≡ false
no_gap c h = ground arith

drop_gap-word : (w t : Text) → IsWord w → drop_while is_gap (w ++ t) ≡ w ++ t
unfolding drop_while
drop_gap-word [] t h = absurd h
drop_gap-word (c ∷ w) t (hc, h) = rw (no_gap c hc)

drop_word : (w t : Text) → NoSpace w → drop_while (λ c. not (is_gap c)) (w ++ b' ' ∷ t) ≡ b' ' ∷ t
unfolding drop_while
drop_word [] t h = refl
drop_word (c ∷ w) t (hc, h) = rw (no_gap c hc, drop_word w t h)

has_gap : (w t : Text) → contains_any (w ++ b' ' ∷ t) (codes " \t") ≡ true
unfolding contains_any has_byte
has_gap [] t = refl
has_gap (c ∷ w) t = ground (arith, has_gap w t)

skip_fields-space : (n : ℕ) (t : Text) → skip_fields n (b' ' ∷ t) ≡ skip_fields n t
unfolding skip_fields drop_while
skip_fields-space zero t = refl
skip_fields-space (suc n) t = refl

pub skip_fields-columns :
    (cs : List (ℕ × Text)) (rest : Text)
    → AllWords (words_of cs)
    → skip_fields (length cs) (columns cs rest) ≡ drop_while is_gap rest
unfolding skip_fields
skip_fields-columns [] rest h = refl
skip_fields-columns ((n, w) ∷ cs) rest (hw, h) =
    rw
      (
        drop_gap-spaces n (w ++ b' ' ∷ columns cs rest),
        drop_gap-word w (b' ' ∷ columns cs rest) hw,
        has_gap w (columns cs rest),
        drop_word w (columns cs rest) (IsWord-NoSpace w hw),
      )
      (skip_fields-space (length cs) (columns cs rest) ∙ skip_fields-columns cs rest h)
