-- ===== src/LogLines/Messages.antt =====
-- No message that is sent is long, and a cut does not split a UTF-8 sequence.
use adbq.Prelude.{
  ℕ, zero, suc, ◌+◌, ◌≤◌, ◌<◌, ◌≡◌, refl, arith, List, [], ◌∷◌, ◌++◌, Option, none, some, Bool,
  true, false, not, ◌⊎◌, inl, inr, if◌then◌else◌, leb, ltb, codes, text_eq, has_prefix, ◌||◌,
  Bool-cases, Text, get_or, take, length, length-append, length-take,
}
use adbq.LogcatFeed.{LogEntry}
use adbq.Strings.{fields, drop_while, trim_space, trim_right_by}
use adbq.LogLines.{
  skip_fields, tag_of, cut_colon, is_all_digits, is_log_level, looks_like_stamp_tail, is_blank_end,
  is_blank, max_msg_len, truncated_mark, rune_start, back_off, trunc_msg, scan_fields, entry_at,
  from_first, parse_threadtime, LineKind, entry, noise, more, kind_or, rest_kind, kind_of,
  continued, pump_line, pump,
}

leb_le : (a b : ℕ) → leb a b ≡ true → a ≤ b
leb_le a b h = ground arith

leb_lt : (a b : ℕ) → leb a b ≡ false → b < a
leb_lt a b h = ground arith

-- where a cut may be: at the start, or in front of a byte that begins a character
abbrev pub IsCut : Text → ℕ → Type 0
IsCut s cut = (cut ≡ 0) ⊎ (rune_start (get_or s cut 0) ≡ true)

back_off-IsCut : (s : Text) (n : ℕ) → (back_off s n ≤ n) × IsCut s (back_off s n)
unfolding back_off
back_off-IsCut s zero = (omega arith, inl refl)
back_off-IsCut s (suc n) = elim (Bool-cases (rune_start (get_or s (suc n) 0))) [
  | inl e ↦ rw e (omega arith, inr e)
  | inr e ↦ rw e (let (le, cut) = back_off-IsCut s n in (omega (arith, le), cut))
]

-- what the reader of a message sees of it
abbrev pub Shown : Text → Text → Type 0
Shown s t =
    ((length s ≤ max_msg_len) × (t ≡ s))
    ⊎ ((max_msg_len < length s)
        × (cut : ℕ) × (cut ≤ max_msg_len)
        × IsCut s cut
        × (t ≡ take cut s ++ truncated_mark))

pub trunc_msg-Shown : (s : Text) → Shown s (trunc_msg s)
unfolding trunc_msg
trunc_msg-Shown s = elim (Bool-cases (leb (length s) max_msg_len)) [
  | inl e ↦ inl (leb_le (length s) max_msg_len e, rw e refl)
  | inr e ↦
      let (le, cut) = back_off-IsCut s max_msg_len in
      inr (leb_lt (length s) max_msg_len e, back_off s max_msg_len, le, cut, rw e refl)
]

abbrev pub IsShort : Text → Type 0
IsShort t = length t ≤ 8207

Shown-IsShort : (s t : Text) → Shown s t → IsShort t
Shown-IsShort s t (inl (le, e)) = rw e (omega (arith, le))
Shown-IsShort s t (inr (lt, cut, le, _, e)) =
    rw (e, length-append (take cut s) truncated_mark, length-take cut s) (omega (arith, le))

trunc_msg-IsShort : (s : Text) → IsShort (trunc_msg s)
trunc_msg-IsShort s = Shown-IsShort s (trunc_msg s) (trunc_msg-Shown s)

abbrev OptionShort : Option LogEntry → Type 0
OptionShort none = Unit
OptionShort (some e) = IsShort e.msg

OptionShort-if :
    (b : Bool) (x y : Option LogEntry)
    → OptionShort x
    → OptionShort y
    → OptionShort (if b then x else y)
OptionShort-if true x y hx hy = hx
OptionShort-if false x y hx hy = hy

entry_at-IsShort :
    (line : Text) (i : ℕ) (before : List Text) (pid tid lvl : Text)
    → IsShort (entry_at line i before pid tid lvl).msg
unfolding entry_at
entry_at-IsShort line i before pid tid lvl =
    let rest = trim_space (skip_fields (i + 3) line) in
    trunc_msg-IsShort (tag_of rest (cut_colon rest)).1

scan_fields-IsShort :
    (line : Text) (i : ℕ) (before : List Text) (prev : Text) (fs : List Text)
    → OptionShort (scan_fields line i before prev fs)
unfolding scan_fields
scan_fields-IsShort line i before prev [] = tt
scan_fields-IsShort line i before prev (a ∷ []) = tt
scan_fields-IsShort line i before prev (a ∷ b ∷ []) = tt
scan_fields-IsShort line i before prev (pid ∷ tid ∷ lvl ∷ fs) =
    let ih = scan_fields-IsShort line (i + 1) (before ++ pid ∷ []) pid (tid ∷ lvl ∷ fs) in
    OptionShort-if (not (looks_like_stamp_tail prev)) _ _ ih (
      OptionShort-if (not (is_all_digits pid) || not (is_all_digits tid)) _ _ ih (
        OptionShort-if (not (is_log_level lvl)) _ _ ih
          (entry_at-IsShort line i before pid tid lvl)))

parse_threadtime-IsShort : (line : Text) → OptionShort (parse_threadtime line)
unfolding parse_threadtime
parse_threadtime-IsShort line =
    OptionShort-if (ltb (length (fields line)) 5) none (from_first line (fields line)) tt
      (from_first-IsShort (fields line))
  where
    from_first-IsShort : (fs : List Text) → OptionShort (from_first line fs)
    from_first-IsShort [] = tt
    from_first-IsShort (f ∷ fs) = scan_fields-IsShort line 1 (f ∷ []) f fs

abbrev pub AllShort : List LogEntry → Type 0
AllShort [] = Unit
AllShort (e ∷ es) = IsShort e.msg × AllShort es

abbrev KindShort : LineKind → Type 0
KindShort (entry e) = IsShort e.msg
KindShort k = Unit

KindShort-if :
    (b : Bool) (x y : LineKind) → KindShort x → KindShort y → KindShort (if b then x else y)
KindShort-if true x y hx hy = hx
KindShort-if false x y hx hy = hy

rest_kind-KindShort : (t : Text) → KindShort (rest_kind t)
unfolding rest_kind
rest_kind-KindShort t =
    KindShort-if
      (text_eq t [] || has_prefix (drop_while is_blank t) (codes "--------- beginning of")) noise
      (more (drop_while is_blank t)) tt tt

kind_of-KindShort : (line : Text) → KindShort (kind_of line)
unfolding kind_of
kind_of-KindShort line = kinds (parse_threadtime line) (parse_threadtime-IsShort line)
  where
    kinds : (o : Option LogEntry) → OptionShort o → KindShort (kind_or o line)
    kinds (some e) h = h
    kinds none h = rest_kind-KindShort (trim_right_by is_blank_end line)

AllShort-append : (es fs : List LogEntry) → AllShort es → AllShort fs → AllShort (es ++ fs)
AllShort-append [] fs he hf = hf
AllShort-append (e ∷ es) fs (h, he) hf = (h, AllShort-append es fs he hf)

pump_line-AllShort :
    (last : Option LogEntry) (k : LineKind) → KindShort k → AllShort (pump_line last k).0
unfolding pump_line continued
pump_line-AllShort last (entry e) h = (h, tt)
pump_line-AllShort last noise h = tt
pump_line-AllShort none (more t) h = tt
pump_line-AllShort (some e) (more t) h = (trunc_msg-IsShort (codes "    " ++ t), tt)

-- Every entry that `pump` sends has a message of at most 8192 bytes and the mark of a cut, however
-- long the lines of the log are and whatever is in them.
pub pump-AllShort : (last : Option LogEntry) (lines : List Text) → AllShort (pump last lines)
unfolding pump
pump-AllShort last [] = tt
pump-AllShort last (line ∷ lines) =
    let (sent, last') = pump_line last (kind_of line) in
    AllShort-append sent (pump last' lines)
      (pump_line-AllShort last (kind_of line) (kind_of-KindShort line)) (pump-AllShort last' lines)
