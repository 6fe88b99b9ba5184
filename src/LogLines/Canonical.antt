-- ===== src/LogLines/Canonical.antt =====
-- The canonical line of `logcat -v threadtime` is read back.
use adbq.Prelude.{
  ℕ, ◌^◌, ◌≤◌, ◌<◌, ◌≡◌, refl, ap, ◌∙◌, arith, List, [], ◌∷◌, ◌++◌, some, true, false, leb, ◌==◌,
  Text, codes, text_eq, has_prefix, length, join, Lacks,
}
use adbq.Strings.{is_space, fields, drop_while, trim_space}
use adbq.Strings.Fields.{IsWord, AllWords}
use adbq.Strings.Trim.{Starts, Ends, Starts-append, Ends-append, trim_space-Ends}
use adbq.Decimal.{decimal, read_nat}
use adbq.Decimal.Digits.{AllDigits, decimal-AllDigits}
use adbq.Decimal.Unsigned.{read_digits-decimal, decimal-cons}
use adbq.LogcatFeed.{LogEntry}
use adbq.LogLines.{
  max_msg_len, trunc_msg, all_digits, is_all_digits, is_log_level, looks_like_stamp_tail, is_gap,
  skip_fields, cut_colon, int_value, digits_value, tag_of, entry_at, scan_fields, from_first,
  parse_threadtime,
}
use adbq.LogLines.Columns.{columns, words_of, fields-columns, skip_fields-columns}

all_digits-AllDigits : (s : Text) → AllDigits s → all_digits s ≡ true
unfolding all_digits
all_digits-AllDigits [] h = refl
all_digits-AllDigits (c ∷ s) (lo, hi, h) = ground (arith, all_digits-AllDigits s h)

is_all_digits-decimal : (n : ℕ) → n < 2 ^ 63 → is_all_digits (decimal n) ≡ true
unfolding is_all_digits text_eq
is_all_digits-decimal n lt =
    let (c, s, e) = decimal-cons n (omega arith) in
    rw (all_digits-AllDigits (decimal n) (decimal-AllDigits n), e) refl

digits_value-decimal : (n : ℕ) → n < 2 ^ 63 → digits_value (decimal n) ≡ n
unfolding digits_value read_nat
digits_value-decimal n lt =
    let (c, s, e) = decimal-cons n (omega arith) in
    let value = rw e at (read_digits-decimal n (omega arith)) in
    rw (e, value, int_value) (ground arith)

pub decimal-IsWord : (n : ℕ) → n < 2 ^ 63 → IsWord (decimal n)
decimal-IsWord n lt =
    let (c, s, e) = decimal-cons n (omega arith) in rw e (words c s (rw e at (decimal-AllDigits n)))
  where
    words : (c : ℕ) (s : Text) → AllDigits (c ∷ s) → IsWord (c ∷ s)
    words c [] (lo, hi, h) = (ground arith, tt)
    words c (d ∷ s) (lo, hi, h) = (ground arith, words d s h)

cut_colon-tag :
    (tag msg : Text) → Lacks b':' tag → cut_colon (tag ++ (codes ": " ++ msg)) ≡ some (tag, msg)
unfolding cut_colon has_prefix
cut_colon-tag [] msg h = refl
cut_colon-tag (c ∷ tag) msg (ne, h) =
    let other : (c == b':') ≡ false = ground arith in rw (other, cut_colon-tag tag msg h)

drop_gap-Starts : (s : Text) → Starts s → drop_while is_gap s ≡ s
unfolding drop_while
drop_gap-Starts [] h = absurd h
drop_gap-Starts (c ∷ s) h = let no : is_gap c ≡ false = ground arith in rw no

-- what a line of the log holds, and how far its columns are padded
pub record Logged : Type 0 where
  pub date : Text
  pub clock : Text
  pub pid_pad : ℕ
  pub pid : ℕ
  pub tid_pad : ℕ
  pub tid : ℕ
  pub level : ℕ
  pub tag : Text
  pub msg : Text

abbrev pub columns_of : Logged → List (ℕ × Text)
columns_of l =
    (0, l.date)
    ∷ (0, l.clock)
    ∷ (l.pid_pad, decimal l.pid)
    ∷ (l.tid_pad, decimal l.tid)
    ∷ (0, l.level ∷ [])
    ∷ []

abbrev pub tail_of : Logged → Text
tail_of l = l.tag ++ (codes ": " ++ l.msg)

abbrev pub threadtime : Logged → Text
threadtime l = columns (columns_of l) (tail_of l)

pub record WellLogged (l : Logged) : Type 0 where
  pub date_word : IsWord l.date
  pub date_plain : looks_like_stamp_tail l.date ≡ false
  pub clock_word : IsWord l.clock
  pub clock_stamp : looks_like_stamp_tail l.clock ≡ true
  pub pid_fits : l.pid < 2 ^ 63
  pub tid_fits : l.tid < 2 ^ 63
  pub level_letter : is_log_level (l.level ∷ []) ≡ true
  pub tag_starts : Starts l.tag
  pub tag_ends : Ends l.tag
  pub tag_plain : Lacks b':' l.tag
  pub msg_ends : Ends l.msg
  pub msg_fits : length l.msg ≤ max_msg_len

level-space : (c : ℕ) → is_log_level (c ∷ []) ≡ true → is_space c ≡ false
unfolding is_log_level
level-space c h = ground arith

columns-AllWords : (l : Logged) → WellLogged l → AllWords (words_of (columns_of l))
columns-AllWords l w = (
  w.date_word,
  (
    w.clock_word,
    (
      decimal-IsWord l.pid w.pid_fits,
      (decimal-IsWord l.tid w.tid_fits, ((level-space l.level w.level_letter, tt), tt)),
    ),
  ),
)

tail-trim_space : (l : Logged) → WellLogged l → trim_space (tail_of l) ≡ tail_of l
tail-trim_space l w =
    trim_space-Ends (tail_of l) (Starts-append l.tag (codes ": " ++ l.msg) w.tag_starts)
      (Ends-append l.tag (codes ": " ++ l.msg) (Ends-append (codes ": ") l.msg w.msg_ends))

trunc_msg-fits : (s : Text) → length s ≤ max_msg_len → trunc_msg s ≡ s
unfolding trunc_msg
trunc_msg-fits s h = let short : leb (length s) max_msg_len ≡ true = le_leb _ _ h in rw short
  where
    le_leb : (a b : ℕ) → a ≤ b → leb a b ≡ true
    le_leb a b h = ground arith

-- what is read
abbrev pub read_entry : Logged → LogEntry
read_entry l = record {
  time = l.date ++ (codes " " ++ l.clock);
  pid = l.pid;
  tid = l.tid;
  level = l.level ∷ [];
  tag = l.tag;
  msg = l.msg;
  proc = [];
  app = false;
}

entry_at-canonical :
    (l : Logged)
    → WellLogged l
    → entry_at
        (threadtime l)
        2
        (l.date ∷ l.clock ∷ [])
        (decimal l.pid)
        (decimal l.tid)
        (l.level ∷ [])
      ≡ read_entry l
unfolding entry_at join
entry_at-canonical l w =
    let skipped : skip_fields 5 (threadtime l) ≡ tail_of l =
      skip_fields-columns (columns_of l) (tail_of l) (columns-AllWords l w)
      ∙ drop_gap-Starts (tail_of l) (Starts-append l.tag (codes ": " ++ l.msg) w.tag_starts) in
    rw (
      skipped,
      tail-trim_space l w,
      cut_colon-tag l.tag l.msg w.tag_plain,
      tag_of,
      trim_space-Ends l.tag w.tag_starts w.tag_ends,
      trunc_msg-fits l.msg w.msg_fits,
      digits_value-decimal l.pid w.pid_fits,
      digits_value-decimal l.tid w.tid_fits,
    )

scan_fields-canonical :
    (l : Logged) (more : List Text)
    → WellLogged l
    → from_first (threadtime l) (words_of (columns_of l) ++ more) ≡ some (read_entry l)
unfolding from_first scan_fields
scan_fields-canonical l more w =
    rw
      (
        w.date_plain,
        w.clock_stamp,
        is_all_digits-decimal l.pid w.pid_fits,
        is_all_digits-decimal l.tid w.tid_fits,
        w.level_letter,
      )
      (ap some (entry_at-canonical l w))

-- A line of `logcat -v threadtime` is read back: date and clock as the time, the two ids, the level,
-- the tag and the message with its inner spacing, however far the id columns are padded. The date
-- does not look like the end of a stamp and the clock does, the ids are below 2^63, the tag has no
-- colon and no white space at its ends, and the message ends in none and has at most 8192 bytes.
pub parse_threadtime-threadtime :
    (l : Logged) → WellLogged l → parse_threadtime (threadtime l) ≡ some (read_entry l)
unfolding parse_threadtime
parse_threadtime-threadtime l w =
    let split = fields-columns (columns_of l) (tail_of l) (columns-AllWords l w) in
    rw (split) (ground (arith, scan_fields-canonical l (fields (tail_of l)) w))
