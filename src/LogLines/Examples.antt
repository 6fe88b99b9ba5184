-- ===== src/LogLines/Examples.antt =====
-- A line of a log, and a stack trace below an entry.
use adbq.Prelude.{
  ◌≡◌, refl, arith, [], ◌∷◌, none, some, codes, contains_any, has_byte, has_prefix, text_eq,
}
use adbq.Strings.{fields, trim_right_by}
use adbq.Decimal.{decimal}
use adbq.LogLines.{is_log_level, looks_like_stamp_tail, parse_threadtime, pump}
use adbq.LogLines.Canonical.{
  Logged, WellLogged, threadtime, read_entry, parse_threadtime-threadtime,
}
use adbq.LogLines.Groups.{
  Block, AllBelow, AllBlocks, lines_of, sent_of, sent_below, entry_below, pump-sent_of,
}

abbrev started : Logged
started = record {
  date = codes "05-22";
  clock = codes "12:18:04.123";
  pid_pad = 1;
  pid = 1582;
  tid_pad = 0;
  tid = 1612;
  level = b'I';
  tag = codes "Zygote";
  msg = codes "boot  done";
}

line_text : threadtime started ≡ codes "05-22 12:18:04.123  1582 1612 I Zygote: boot  done"
unfolding decimal
line_text = refl

started-WellLogged : WellLogged started
unfolding looks_like_stamp_tail is_log_level contains_any has_byte
started-WellLogged = record {
  date_word = ground arith;
  date_plain = refl;
  clock_word = ground arith;
  clock_stamp = refl;
  pid_fits = omega arith;
  tid_fits = omega arith;
  level_letter = refl;
  tag_starts = refl;
  tag_ends = refl;
  tag_plain = omega arith;
  msg_ends = refl;
  msg_fits = omega arith;
}

parse_threadtime-threadtime_example :
    parse_threadtime (threadtime started) ≡ some (read_entry started)
parse_threadtime-threadtime_example = parse_threadtime-threadtime started started-WellLogged

abbrev trace : Block
trace = record {
  line = threadtime started;
  head = read_entry started;
  below = codes "  at Main" ∷ [] ∷ codes "--------- beginning of crash" ∷ [];
}

trace-AllBelow : AllBelow trace.below
unfolding parse_threadtime fields
trace-AllBelow = (refl, (refl, (refl, tt)))

trace-AllBlocks : AllBlocks (trace ∷ [])
trace-AllBlocks = (parse_threadtime-threadtime started started-WellLogged, trace-AllBelow, tt)

lead : AllBelow (codes "  late" ∷ [])
unfolding parse_threadtime fields
lead = (refl, tt)

pump-sent_of_example : pump none (codes "  late" ∷ lines_of (trace ∷ [])) ≡ sent_of (trace ∷ [])
pump-sent_of_example = pump-sent_of (codes "  late" ∷ []) (trace ∷ []) lead trace-AllBlocks

-- the banner and the empty line are gone
sent_lines :
    sent_below (read_entry started) trace.below
    ≡ entry_below (read_entry started) (codes "at Main") ∷ []
unfolding text_eq trim_right_by has_prefix
sent_lines = refl
