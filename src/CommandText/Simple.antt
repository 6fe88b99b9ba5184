-- ===== src/CommandText/Simple.antt =====
-- A rendered line begins with the program: no assignment and no reserved word stands in front.
use adbq.Prelude.{
  ◌≡◌, refl, arith, List, [], ◌∷◌, ◌++◌, map, append-nil, false, ◌||◌, text_eq, Text, codes, inl,
  inr, Bool-cases, has_byte, contains_any, join, covered, has_byte-covered, contains_any-cons,
}
use adbq.CommandText.Shell.{blanks, assigns, is_name_byte, first_word, one_of, reserved}
use adbq.CommandText.{mangled, single_quoted, quote_arg, host_command_text}

-- nothing, or a blank and more
EndsWord : Text → Type 0
EndsWord [] = Unit
EndsWord (c ∷ s) = c ≡ b' '

assigns-append : (w t : Text) → assigns w ≡ false → EndsWord t → assigns (w ++ t) ≡ false
unfolding assigns is_name_byte EndsWord
assigns-append [] [] h e = refl
assigns-append [] (c ∷ t) h e = rw e refl
assigns-append (c ∷ w) t h e = elim (Bool-cases (assigns w)) [
  | inl a ↦ ground (arith, a)
  | inr a ↦ ground (arith, assigns-append w t a e)
]

first_word-append :
    (w t : Text) → contains_any w mangled ≡ false → EndsWord t → first_word (w ++ t) ≡ w
unfolding first_word EndsWord has_byte
first_word-append [] [] h e = refl
first_word-append [] (c ∷ t) h e = rw e refl
first_word-append (c ∷ w) t h e =
    let (plain_c, plain_w) = contains_any-cons c w mangled h in
    let b = has_byte-covered blanks mangled c (unfold covered in refl) plain_c in
    rw (b, first_word-append w t plain_w e)

-- a line that starts with a quote, and one that starts with a bare word
quoted-simple : (s : Text) → assigns (b'\'' ∷ s) || reserved (first_word (b'\'' ∷ s)) ≡ false
unfolding assigns is_name_byte reserved one_of first_word has_byte text_eq
quoted-simple s = refl

front-simple :
    (bin t : Text)
    → assigns bin ≡ false
    → reserved bin ≡ false
    → EndsWord t
    → assigns (quote_arg bin ++ t) || reserved (first_word (quote_arg bin ++ t)) ≡ false
unfolding quote_arg single_quoted
front-simple [] t a r e = quoted-simple (b'\'' ∷ t)
front-simple (c ∷ s) t a r e = elim (Bool-cases (contains_any (c ∷ s) mangled)) [
  | inl m ↦ rw m (quoted-simple _)
  | inr m ↦ rw (m, assigns-append (c ∷ s) t a e, first_word-append (c ∷ s) t m e) r
]

pub line-simple :
    (bin : Text) (args : List Text)
    → assigns bin ≡ false
    → reserved bin ≡ false
    → assigns (host_command_text bin args) || reserved (first_word (host_command_text bin args))
      ≡ false
unfolding host_command_text join EndsWord
line-simple bin [] a r = let h = front-simple bin [] a r tt in (rw append-nil at h)
line-simple bin (x ∷ args) a r =
    front-simple bin (b' ' ∷ join (map quote_arg (x ∷ args)) (codes " ")) a r refl
