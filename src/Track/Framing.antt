-- ===== src/Track/Framing.antt =====
-- What is framed is read back, frame by frame.
use adbq.Prelude.{
  ℕ, zero, suc, ◌+◌, ◌/◌, ◌%◌, ◌≤◌, ◌<◌, ◌≡◌, refl, ap, arith, List, [], ◌∷◌, ◌++◌, append_assoc,
  none, some, false, inl, inr, Bool-cases, ltb, ◌==◌, Text, length, length-append, take, drop,
}
use mathlib.Core.Path.{subst}
use adbq.Track.{
  hex_value, hex_step, parse_hex_len, hex_digit, hex4, framed, read_full, payload, after_header,
  read_adb_frame, collect, frames,
}

hex_value-hex_digit : (n : ℕ) → n < 16 → hex_value (hex_digit n) ≡ some n
unfolding hex_value hex_digit
hex_value-hex_digit n lt = ground arith

parse_hex_len-hex4 : (n : ℕ) → n < 65536 → parse_hex_len (hex4 n) ≡ some n
unfolding parse_hex_len hex4 hex_step
parse_hex_len-hex4 n lt =
    rw
      (
        hex_value-hex_digit (n / 4096 % 16) (omega arith),
        hex_value-hex_digit (n / 256 % 16) (omega arith),
        hex_value-hex_digit (n / 16 % 16) (omega arith),
        hex_value-hex_digit (n % 16) (omega arith),
      )
      (ap some (omega arith))

take-length : (s t : Text) → take (length s) (s ++ t) ≡ s
take-length [] t = refl
take-length (c ∷ s) t = ap (λ l. c ∷ l) (take-length s t)

drop-length : (s t : Text) → drop (length s) (s ++ t) ≡ t
drop-length [] t = refl
drop-length (c ∷ s) t = drop-length s t

pub read_full-append : (s t : Text) → read_full (length s) (s ++ t) ≡ some (s, t)
unfolding read_full
read_full-append s t =
    let fits : ltb (length (s ++ t)) (length s) ≡ false = ground (arith, length-append s t) in
    rw (fits, take-length s t, drop-length s t) refl

payload-append : (s t : Text) → payload (some (length s)) (s ++ t) ≡ some (s, t)
unfolding payload
payload-append [] t = refl
payload-append (c ∷ s) t = elim (Bool-cases (length (c ∷ s) == 0)) [
  | inl e ↦ let bad : suc (length s) ≡ 0 = ground arith in absurd (omega arith)
  | inr e ↦ rw e (read_full-append (c ∷ s) t)
]

length-hex4 : (n : ℕ) → length (hex4 n) ≡ 4
unfolding hex4
length-hex4 n = refl

read_header : (n : ℕ) (t : Text) → read_full 4 (hex4 n ++ t) ≡ some (hex4 n, t)
read_header n t =
    subst (λ k. read_full k (hex4 n ++ t) ≡ some (hex4 n, t)) (length-hex4 n)
      (read_full-append (hex4 n) t)

framed-append :
    (request rest : Text) → framed request ++ rest ≡ hex4 (length request) ++ (request ++ rest)
unfolding framed
framed-append request rest = append_assoc (hex4 (length request)) request rest

-- A text of fewer than 65536 bytes that is sent as a frame is what the reader on the other side gets,
-- and nothing of what follows it is consumed.
pub read_adb_frame-framed :
    (request rest : Text)
    → length request < 65536
    → read_adb_frame (framed request ++ rest) ≡ some (request, rest)
read_adb_frame-framed request rest fits = rw (framed-append request rest) (
    unfold read_adb_frame after_header in
    rw (read_header (length request) (request ++ rest), parse_hex_len-hex4 (length request) fits)
      (payload-append request rest))

-- the frames of a conversation, one after the other
abbrev pub AllShort : List Text → Type 0
AllShort [] = Unit
AllShort (p ∷ ps) = (length p < 65536) × AllShort ps

pub all_framed : List Text → Text → Text
all_framed [] tail = tail
all_framed (p ∷ ps) tail = framed p ++ all_framed ps tail

length-framed : (p rest : Text) → 4 + length rest ≤ length (framed p ++ rest)
length-framed p rest = rw (framed-append p rest) (
    omega (
      arith,
      length-append (hex4 (length p)) (p ++ rest),
      length-append p rest,
      length-hex4 (length p),
    ))

-- enough fuel: one for each four bytes
pub frames-all_framed :
    (ps : List Text) (tail : Text) (fuel : ℕ)
    → AllShort ps
    → read_adb_frame tail ≡ none
    → length (all_framed ps tail) ≤ fuel
    → frames fuel (all_framed ps tail) ≡ ps
unfolding frames all_framed
frames-all_framed [] tail zero h over le = refl
frames-all_framed [] tail (suc fuel) h over le = rw over (unfold collect in refl)
frames-all_framed (p ∷ ps) tail zero (hp, h) over le =
    absurd (omega (arith, length-framed p (all_framed ps tail)))
frames-all_framed (p ∷ ps) tail (suc fuel) (hp, h) over le =
    rw (read_adb_frame-framed p (all_framed ps tail) hp) (
      unfold collect in
      ap (λ l. p ∷ l)
        (frames-all_framed ps tail fuel h over
          (omega (arith, length-framed p (all_framed ps tail)))))
