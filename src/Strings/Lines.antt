-- ===== src/Strings/Lines.antt =====
-- A row of words that are joined by spaces is one line.
use mathlib.Core.Path.{subst}
use adbq.Prelude.{arith, List, [], ◌∷◌, ◌++◌, append-nil, ◌==◌, Text, codes, join}
use adbq.Strings.Fields.{NoSpace, IsWord, AllWords, NoneOf}

pub IsWord-NoSpace : (w : Text) → IsWord w → NoSpace w
IsWord-NoSpace [] h = absurd h
IsWord-NoSpace (c ∷ w) h = h

abbrev pub OneLine : Text → Type 0
OneLine s = NoneOf (λ c. c == b'\n') s

pub OneLine-append : (s t : Text) → NoSpace s → OneLine t → OneLine (s ++ t)
OneLine-append [] t h ht = ht
OneLine-append (c ∷ s) t (hc, h) ht = (ground arith, OneLine-append s t h ht)

pub OneLine-join : (ws : List Text) → AllWords ws → OneLine (join ws (codes " "))
unfolding join
OneLine-join [] h = tt
OneLine-join (w ∷ []) (h, _) =
    subst OneLine (append-nil w) (OneLine-append w [] (IsWord-NoSpace w h) tt)
OneLine-join (w ∷ x ∷ ws) (h, hs) =
    OneLine-append w (codes " " ++ join (x ∷ ws) (codes " ")) (IsWord-NoSpace w h)
      (ground arith, OneLine-join (x ∷ ws) hs)
