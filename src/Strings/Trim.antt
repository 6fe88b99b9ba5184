-- ===== src/Strings/Trim.antt =====
-- `strings.TrimSpace` leaves words that are joined by spaces as they are.
use mathlib.Core.Path.{subst}
use mathlib.Core.List.{reverse-append, reverse-reverse}
use adbq.Prelude.{
  ◌≡◌, refl, ap, ◌∙◌, sym, List, [], ◌∷◌, ◌++◌, append-nil, append_assoc, false, Text, codes, join,
  reverse,
}
use adbq.Strings.{is_space, drop_while, trim_right_by, trim_space}
use adbq.Strings.Fields.{NoSpace, IsWord, AllWords}

NoSpace-append : (s t : Text) → NoSpace s → NoSpace t → NoSpace (s ++ t)
NoSpace-append [] t hs ht = ht
NoSpace-append (c ∷ s) t (hc, hs) ht = (hc, NoSpace-append s t hs ht)

NoSpace-reverse : (s : Text) → NoSpace s → NoSpace (reverse s)
NoSpace-reverse [] h = tt
NoSpace-reverse (c ∷ s) (hc, h) =
    subst NoSpace (sym (reverse-append (c ∷ []) s))
      (NoSpace-append (reverse s) (c ∷ []) (NoSpace-reverse s h) (hc, tt))

-- the start of a text, if it has one, is no white space
abbrev pub Starts : Text → Type 0
Starts [] = ⊥
Starts (c ∷ s) = is_space c ≡ false

pub drop_while-Starts : (s : Text) → Starts s → drop_while is_space s ≡ s
unfolding drop_while
drop_while-Starts [] h = absurd h
drop_while-Starts (c ∷ s) h = rw h refl

pub Starts-word : (w t : Text) → IsWord w → Starts (w ++ t)
Starts-word [] t h = absurd h
Starts-word (c ∷ w) t (hc, h) = hc

NoSpace-Starts : (s t : Text) → NoSpace s → Starts t → Starts (s ++ t)
NoSpace-Starts [] t h ht = ht
NoSpace-Starts (c ∷ s) t (hc, h) ht = hc

reverse-Starts : (w t : Text) → IsWord w → Starts (reverse w ++ t)
reverse-Starts [] t h = absurd h
reverse-Starts (c ∷ w) t (hc, h) =
    subst (λ l. Starts (l ++ t)) (sym (reverse-append (c ∷ []) w))
      (subst Starts (sym (append_assoc (reverse w) (c ∷ []) t))
        (NoSpace-Starts (reverse w) (c ∷ t) (NoSpace-reverse w h) hc))

pub trim_right-Starts : (s : Text) → Starts (reverse s) → trim_right_by is_space s ≡ s
unfolding trim_right_by
trim_right-Starts s h = ap reverse (drop_while-Starts (reverse s) h) ∙ reverse-reverse s

-- what a row of words ends with
pub back-Starts :
    (w : Text) (ws : List Text) (t : Text)
    → AllWords (w ∷ ws)
    → Starts (reverse (join (w ∷ ws) (codes " ")) ++ t)
unfolding join
back-Starts w [] t (h, _) = reverse-Starts w t h
back-Starts w (x ∷ ws) t (h, hs) =
    let tail = join (x ∷ ws) (codes " ") in
    subst (λ l. Starts (l ++ t)) (sym (reverse-append w (codes " " ++ tail)))
      (subst Starts (sym (append_assoc (reverse (codes " " ++ tail)) (reverse w) t)) (
        subst (λ l. Starts (l ++ (reverse w ++ t))) (sym (reverse-append (codes " ") tail))
          (subst Starts (sym (append_assoc (reverse tail) (codes " ") (reverse w ++ t)))
            (back-Starts x ws (codes " " ++ (reverse w ++ t)) hs))))

pub front-Starts :
    (w : Text) (ws : List Text) → AllWords (w ∷ ws) → Starts (join (w ∷ ws) (codes " "))
unfolding join
front-Starts [] ws (h, _) = absurd h
front-Starts (c ∷ w) [] ((hc, h), _) = hc
front-Starts (c ∷ w) (x ∷ ws) ((hc, h), _) = hc

-- words that are joined have no blanks at their ends
pub trim_space-join :
    (w : Text) (ws : List Text)
    → AllWords (w ∷ ws)
    → trim_space (join (w ∷ ws) (codes " ")) ≡ join (w ∷ ws) (codes " ")
unfolding trim_space
trim_space-join w ws h =
    let s = join (w ∷ ws) (codes " ") in
    ap (trim_right_by is_space) (drop_while-Starts s (front-Starts w ws h))
    ∙ trim_right-Starts s (subst Starts (append-nil (reverse s)) (back-Starts w ws [] h))

-- a blank at the end is trimmed
pub trim_space-blank_end : (s : Text) → Starts s → trim_space (s ++ b' ' ∷ []) ≡ trim_space s
unfolding trim_space
trim_space-blank_end [] h = absurd h
trim_space-blank_end (c ∷ s) h =
    ap (trim_right_by is_space) (drop_while-Starts (c ∷ s ++ b' ' ∷ []) h)
    ∙ (blank_end ∙ sym (ap (trim_right_by is_space) (drop_while-Starts (c ∷ s) h)))
  where
    blank_end : trim_right_by is_space (c ∷ s ++ b' ' ∷ []) ≡ trim_right_by is_space (c ∷ s)
    blank_end =
        unfold trim_right_by drop_while in
        ap (λ t. reverse (drop_while is_space t)) (reverse-append (c ∷ s) (b' ' ∷ []))

-- the end of a text, if it has one, is no white space
abbrev pub Ends : Text → Type 0
Ends s = Starts (reverse s)

pub Starts-append : (s t : Text) → Starts s → Starts (s ++ t)
Starts-append [] t h = absurd h
Starts-append (c ∷ s) t h = h

pub Ends-append : (s t : Text) → Ends t → Ends (s ++ t)
Ends-append s t h =
    subst Starts (sym (reverse-append s t)) (Starts-append (reverse t) (reverse s) h)

pub trim_space-Ends : (s : Text) → Starts s → Ends s → trim_space s ≡ s
unfolding trim_space
trim_space-Ends s h k = ap (trim_right_by is_space) (drop_while-Starts s h) ∙ trim_right-Starts s k

pub trim_space-blank_front : (s : Text) → trim_space (b' ' ∷ s) ≡ trim_space s
unfolding trim_space drop_while
trim_space-blank_front s = refl

pub IsWord-Ends : (w : Text) → IsWord w → Ends w
IsWord-Ends w h = subst Starts (append-nil (reverse w)) (reverse-Starts w [] h)
