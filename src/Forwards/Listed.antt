-- ===== src/Forwards/Listed.antt =====
-- The list of reverses, with the tag in front of each row and without it.
use adbq.Prelude.{
  ◌≡◌, refl, ap, ◌∙◌, arith, List, [], ◌∷◌, ◌++◌, ◌==◌, Text, codes, text_eq, join, map,
}
use adbq.Strings.{split, split_by, fields}
use adbq.Strings.Fields.{IsWord, AllWords, split_by-append, fields-join}
use adbq.Strings.Lines.{OneLine-join}
use adbq.Forwards.{Forward, reverse_row, reverse_rows, parse_reverse_list}

-- a row as it is printed: its words, and a newline
pub print_rows : List (List Text) → Text
print_rows [] = []
print_rows (ws ∷ rows) = join ws (codes " ") ++ b'\n' ∷ print_rows rows

abbrev AllRows : List (List Text) → Type 0
AllRows [] = Unit
AllRows (ws ∷ rows) = AllWords ws × AllRows rows

-- what the rows say, one by one
read_rows : Text → List (List Text) → List Forward
read_rows serial [] = []
read_rows serial (ws ∷ rows) = reverse_row serial ws ++ read_rows serial rows

parse_reverse_list-print_rows :
    (serial : Text) (rows : List (List Text))
    → AllRows rows
    → parse_reverse_list (print_rows rows) serial ≡ read_rows serial rows
unfolding parse_reverse_list split print_rows read_rows
parse_reverse_list-print_rows serial [] h = unfold split_by fields in refl
parse_reverse_list-print_rows serial (ws ∷ rows) (h, hs) =
    ap (reverse_rows serial) (
      split_by-append (λ c. c == b'\n') (join ws (codes " ")) b'\n' (print_rows rows)
        (OneLine-join ws h) refl)
    ∙ (rw (fields-join ws h, parse_reverse_list-print_rows serial rows hs) refl)

abbrev pub AllMappings : List (Text × Text) → Type 0
AllMappings [] = Unit
AllMappings ((remote, local) ∷ ms) = IsWord remote × IsWord local × AllMappings ms

abbrev pub tagged : Text × Text → List Text
tagged (remote, local) = codes "(reverse)" ∷ remote ∷ local ∷ []

abbrev pub untagged : Text × Text → List Text
untagged (remote, local) = remote ∷ local ∷ []

abbrev pub reverse_of : Text → Text × Text → Forward
reverse_of serial (remote, local) = record { serial = serial; local = local; remote = remote }

tagged-AllRows : (ms : List (Text × Text)) → AllMappings ms → AllRows (map tagged ms)
tagged-AllRows [] h = tt
tagged-AllRows ((remote, local) ∷ ms) (hr, hl, h) =
    ((ground arith, (hr, (hl, tt))), tagged-AllRows ms h)

untagged-AllRows : (ms : List (Text × Text)) → AllMappings ms → AllRows (map untagged ms)
untagged-AllRows [] h = tt
untagged-AllRows ((remote, local) ∷ ms) (hr, hl, h) = ((hr, (hl, tt)), untagged-AllRows ms h)

read_rows-tagged :
    (serial : Text) (ms : List (Text × Text))
    → read_rows serial (map tagged ms) ≡ map (reverse_of serial) ms
unfolding read_rows reverse_row text_eq
read_rows-tagged serial [] = refl
read_rows-tagged serial ((remote, local) ∷ ms) =
    ap (λ l. reverse_of serial (remote, local) ∷ l) (read_rows-tagged serial ms)

read_rows-untagged :
    (serial : Text) (ms : List (Text × Text)) → read_rows serial (map untagged ms) ≡ []
unfolding read_rows reverse_row
read_rows-untagged serial [] = refl
read_rows-untagged serial ((remote, local) ∷ ms) = read_rows-untagged serial ms

-- A list of reverses is read in full and in order if each row has the tag `(reverse)` in front of its two
-- words; of a list whose rows have only the two words, the other form that the code allows for, no row is
-- read, since a row of fewer than three fields is skipped before the tag is looked for.
pub parse_reverse_list-mappings :
    (serial : Text) (ms : List (Text × Text))
    → AllMappings ms
    → (parse_reverse_list (print_rows (map tagged ms)) serial ≡ map (reverse_of serial) ms)
      × (parse_reverse_list (print_rows (map untagged ms)) serial ≡ [])
parse_reverse_list-mappings serial ms h = (
  parse_reverse_list-print_rows serial (map tagged ms) (tagged-AllRows ms h)
      ∙ read_rows-tagged serial ms,
  parse_reverse_list-print_rows serial (map untagged ms) (untagged-AllRows ms h)
      ∙ read_rows-untagged serial ms,
)
