-- ===== src/Processes/StatLine.antt =====
-- A line of /proc/PID/stat is read whatever the name of the process is.
use mathlib.Core.Path.{subst}
use adbq.Prelude.{
  ℕ, suc, ◌^◌, ◌≤◌, ◌<◌, ◌≡◌, ◌≢◌, refl, sym, ap, ◌∙◌, arith, List, [], ◌∷◌, ◌++◌, append-nil, none,
  some, true, false, ltb, ◌==◌, Text, codes, length, get_or, join, reverse, Lacks,
}
use adbq.Prelude.Int.{pos}
use adbq.Strings.{trim_space}
use adbq.Strings.Fields.{IsWord, AllWords, fields-join}
use adbq.Strings.Cut.{cut_byte-append}
use adbq.Strings.Trim.{
  Starts, Ends, Starts-append, Ends-append, trim_space-Ends, IsWord-Ends, trim_space-join,
  back-Starts, trim_space-blank_end, trim_space-blank_front,
}
use adbq.Decimal.{decimal, atoi, uint_value}
use adbq.Decimal.Digits.{AllDigits, decimal-AllDigits}
use adbq.Decimal.Unsigned.{atoi-decimal}
use adbq.LogLines.Canonical.{decimal-IsWord}
use adbq.Processes.Int64.{int_value, of_uint64}
use adbq.Processes.{
  ProcStat, cut_last, stat_fields, behind_comm, behind_open, from_open, parse_proc_stat_line,
}

cut_last-Lacks : (b : ℕ) (s : Text) → Lacks b s → cut_last b s ≡ none
unfolding cut_last
cut_last-Lacks b [] h = refl
cut_last-Lacks b (c ∷ s) (ne, h) =
    let other : (c == b) ≡ false = ground arith in rw (cut_last-Lacks b s h, other)

cut_last-append : (b : ℕ) (s t : Text) → Lacks b t → cut_last b (s ++ b ∷ t) ≡ some (s, t)
unfolding cut_last
cut_last-append b [] t h =
    let same : (b == b) ≡ true = ground arith in rw (cut_last-Lacks b t h, same)
cut_last-append b (c ∷ s) t h = rw (cut_last-append b s t h)

digits-Lacks : (b : ℕ) (s : Text) → b < b'0' → AllDigits s → Lacks b s
digits-Lacks b [] lt h = tt
digits-Lacks b (c ∷ s) lt (lo, hi, h) = (omega arith, digits-Lacks b s lt h)

Lacks-space : (b : ℕ) (s : Text) → b ≢ b' ' → Lacks b s → Lacks b (s ++ b' ' ∷ [])
Lacks-space b [] ne h = ((λ e. ne (sym e)), tt)
Lacks-space b (c ∷ s) ne (hc, h) = (hc, Lacks-space b s ne h)

-- what the fields behind the name are read as
abbrev pub stat_of : ℕ → Text → List Text → ProcStat
stat_of pid comm ws = record {
  pid = pos pid;
  comm = comm;
  state = get_or ws 0 [];
  utime = int_value (get_or ws 11 []);
  stime = int_value (get_or ws 12 []);
  vsize = of_uint64 (uint_value (get_or ws 20 []));
  rss_pages = int_value (get_or ws 21 []);
}

unfoldable pub stat_line : ℕ → Text → List Text → Text
stat_line pid comm ws =
    (decimal pid ++ b' ' ∷ []) ++ b'(' ∷ (comm ++ b')' ∷ (b' ' ∷ join ws (codes " ")))

IsWord-Starts : (w : Text) → IsWord w → Starts w
IsWord-Starts [] h = absurd h
IsWord-Starts (c ∷ w) (hc, h) = hc

line-trim_space :
    (pid : ℕ) (comm w : Text) (ws : List Text)
    → pid < 2 ^ 63
    → AllWords (w ∷ ws)
    → trim_space (stat_line pid comm (w ∷ ws)) ≡ stat_line pid comm (w ∷ ws)
unfolding stat_line
line-trim_space pid comm w ws lt h =
    let words = join (w ∷ ws) (codes " ") in
    let front = decimal pid ++ b' ' ∷ [] in
    let ends : Ends words = subst Starts (append-nil (reverse words)) (back-Starts w ws [] h) in
    trim_space-Ends (front ++ b'(' ∷ (comm ++ b')' ∷ (b' ' ∷ words)))
      (Starts-append front (b'(' ∷ (comm ++ b')' ∷ (b' ' ∷ words))) (
        Starts-append (decimal pid) (b' ' ∷ [])
          (IsWord-Starts (decimal pid) (decimal-IsWord pid lt))))
      (Ends-append front (b'(' ∷ (comm ++ b')' ∷ (b' ' ∷ words))) (
        Ends-append (b'(' ∷ []) (comm ++ b')' ∷ (b' ' ∷ words))
          (Ends-append comm (b')' ∷ (b' ' ∷ words)) (Ends-append (b')' ∷ b' ' ∷ []) words ends))))

-- A line of /proc/PID/stat is read whatever the process is called: the name comes back as it is, with
-- its spaces, parentheses and line breaks, and the state, the two times, the sizes and the pid from
-- their columns. There are 22 columns or more behind the name, all words, and no `)` in them; the pid
-- is below 2^63.
pub parse_proc_stat_line-stat_line :
    (pid : ℕ) (comm w : Text) (ws : List Text)
    → pid < 2 ^ 63
    → AllWords (w ∷ ws)
    → Lacks b')' (join (w ∷ ws) (codes " "))
    → 22 ≤ length (w ∷ ws)
    → parse_proc_stat_line (stat_line pid comm (w ∷ ws)) ≡ some (stat_of pid comm (w ∷ ws))
unfolding parse_proc_stat_line stat_line
parse_proc_stat_line-stat_line pid comm w ws lt h lacks many =
    let words = join (w ∷ ws) (codes " ") in
    let front = decimal pid ++ b' ' ∷ [] in
    let pid_read : atoi (trim_space front) ≡ some (pos pid) =
      ap atoi (
        trim_space-blank_end (decimal pid) (IsWord-Starts (decimal pid) (decimal-IsWord pid lt))
        ∙ trim_space-Ends (decimal pid) (IsWord-Starts (decimal pid) (decimal-IsWord pid lt))
            (IsWord-Ends (decimal pid) (decimal-IsWord pid lt)))
      ∙ atoi-decimal pid lt in
    let few : ltb (suc (length ws)) 22 ≡ false = ground arith in
    rw (line-trim_space pid comm w ws lt h) (
      rw
        (
          cut_byte-append b'(' front (comm ++ b')' ∷ (b' ' ∷ words)) (
              Lacks-space b'(' (decimal pid) (λ e. cc)
                (digits-Lacks b'(' (decimal pid) (omega arith) (decimal-AllDigits pid))),
          from_open,
          cut_last-append b')' comm (b' ' ∷ words) ((λ e. cc), lacks),
          behind_open,
          pid_read,
          behind_comm,
          trim_space-blank_front words,
          trim_space-join w ws h,
          fields-join (w ∷ ws) h,
          stat_fields,
          few,
        )
        (unfold of_uint64 in refl))
