-- ===== src/Strings.antt =====
-- What the parsers use of Go's `strings` package, over bytes. White space is the ASCII one; the
-- two Latin-1 spaces that Go also knows are two bytes each in UTF-8 and are kept.
pub mod Fields
pub mod Trim
pub mod Cut
pub mod Lines
use adbq.Prelude.{
  ℕ, suc, List, [], ◌∷◌, ◌++◌, Option, none, some, Bool, true, false, not, ◌&&◌, ◌||◌,
  if◌then◌else◌, ◌==◌, leb, ◌-◌, ◌+◌, Text, codes, reverse, text_eq, has_prefix, has_suffix, drop,
  length, take, map,
}

abbrev pub is_space : ℕ → Bool
is_space c = c == b' ' || c == 9 || c == 10 || c == 11 || c == 12 || c == 13

-- drop bytes from the left while the test holds
unfoldable pub drop_while : (ℕ → Bool) → Text → Text
drop_while p [] = []
drop_while p (c ∷ s) = let rest = drop_while p s in if p c then rest else c ∷ s

unfoldable pub trim_right_by : (ℕ → Bool) → Text → Text
unfolding drop_while
trim_right_by p s = reverse (drop_while p (reverse s))

-- `strings.TrimSpace`
unfoldable pub trim_space : Text → Text
unfolding trim_right_by
trim_space s = trim_right_by is_space (drop_while is_space s)

-- a byte in front of the first part
unfoldable pub cons_first : ℕ → List Text → List Text
cons_first c [] = (c ∷ []) ∷ []
cons_first c (w ∷ ws) = (c ∷ w) ∷ ws

-- the parts between the bytes that pass the test; there is always one
unfoldable pub split_by : (ℕ → Bool) → Text → List Text
unfolding cons_first
split_by p [] = [] ∷ []
split_by p (c ∷ s) = let rest = split_by p s in if p c then [] ∷ rest else cons_first c rest

-- `strings.Split(s, sep)` for one byte
unfoldable pub split : ℕ → Text → List Text
unfolding split_by
split sep s = split_by (λ c. c == sep) s

unfoldable pub non_empty : List Text → List Text
non_empty [] = []
non_empty ([] ∷ ws) = non_empty ws
non_empty ((c ∷ w) ∷ ws) = (c ∷ w) ∷ non_empty ws

-- `strings.Fields`
unfoldable pub fields : Text → List Text
unfolding split_by non_empty
fields s = non_empty (split_by is_space s)

-- `strings.TrimPrefix`, `strings.TrimSuffix`
unfoldable pub trim_prefix : Text → Text → Text
trim_prefix s p = if has_prefix s p then drop (length p) s else s

unfoldable pub trim_suffix : Text → Text → Text
trim_suffix s p = if has_suffix s p then take (length s - length p) s else s

-- what stands in front of the first `b` and behind it
unfoldable pub cut_byte : ℕ → Text → Option (Text × Text)
cut_byte b [] = none
cut_byte b (c ∷ s) =
    let rest = cut_byte b s in
    if c == b then some ([], s) else elim rest [ none ↦ none | some (l, r) ↦ some (c ∷ l, r) ]

-- `strings.ToUpper` and `strings.ToLower`, on ASCII
abbrev pub upper_byte : ℕ → ℕ
upper_byte c = if leb b'a' c && leb c b'z' then c - 32 else c

unfoldable pub to_upper : Text → Text
to_upper s = map upper_byte s

-- `strings.Contains(s, p)`
unfoldable pub contains : Text → Text → Bool
contains [] p = has_prefix [] p
contains (c ∷ s) p = has_prefix (c ∷ s) p || contains s p

unfoldable pub to_lower : Text → Text
to_lower [] = []
to_lower (c ∷ s) = (if leb b'A' c && leb c b'Z' then c + 32 else c) ∷ to_lower s
