-- ===== src/LogLines/Groups.antt =====
-- Which entry the lines of a wrapped message belong to.
use adbq.Prelude.{
  ◌≡◌, refl, ap, sym, append_assoc, ◌∙◌, List, [], ◌∷◌, ◌++◌, Option, none, some, inl, inr,
  Bool-cases, false, if◌then◌else◌, Text, codes, text_eq, has_prefix,
}
use adbq.Strings.{drop_while, trim_right_by}
use adbq.LogcatFeed.{LogEntry}
use adbq.LogLines.{
  LineKind, noise, more, is_blank_end, is_blank, rest_kind, kind_or, kind_of, continued, pump_line,
  pump, parse_threadtime, trunc_msg,
}

-- an entry's own line, and the lines up to the next entry's
pub record Block : Type 0 where
  pub line : Text
  pub head : LogEntry
  pub below : List Text

-- lines that are no entries
abbrev pub AllBelow : List Text → Type 0
AllBelow [] = Unit
AllBelow (line ∷ ls) = (parse_threadtime line ≡ none) × AllBelow ls

abbrev pub AllBlocks : List Block → Type 0
AllBlocks [] = Unit
AllBlocks (b ∷ bs) = (parse_threadtime b.line ≡ some b.head) × AllBelow b.below × AllBlocks bs

abbrev pub lines_of : List Block → List Text
lines_of [] = []
lines_of (b ∷ bs) = b.line ∷ (b.below ++ lines_of bs)

-- the line without the blanks around it, if anything is left and it is no banner
abbrev pub text_below : Text → Option Text
text_below line =
    let t = trim_right_by is_blank_end line in
    let u = drop_while is_blank t in
    if text_eq t []
    then none
    else if has_prefix u (codes "--------- beginning of")
    then none
    else some u

-- one more entry of the same source and time, indented, without a process
abbrev pub entry_below : LogEntry → Text → LogEntry
entry_below e t = record {
  time = e.time;
  pid = e.pid;
  tid = e.tid;
  level = e.level;
  tag = e.tag;
  msg = trunc_msg (codes "    " ++ t);
  proc = [];
  app = false;
}

abbrev pub entries_below : LogEntry → Option Text → List LogEntry
entries_below e none = []
entries_below e (some t) = entry_below e t ∷ []

abbrev pub sent_below : LogEntry → List Text → List LogEntry
sent_below e [] = []
sent_below e (line ∷ ls) = entries_below e (text_below line) ++ sent_below e ls

abbrev pub sent_of : List Block → List LogEntry
sent_of [] = []
sent_of (b ∷ bs) = b.head ∷ (sent_below b.head b.below ++ sent_of bs)

kind_below : Option Text → LineKind
kind_below none = noise
kind_below (some t) = more t

kind_of-text_below :
    (line : Text) → parse_threadtime line ≡ none → kind_of line ≡ kind_below (text_below line)
unfolding kind_of kind_or rest_kind kind_below
kind_of-text_below line h =
    let t = trim_right_by is_blank_end line in
    rw h (elim (Bool-cases (text_eq t [])) [
      | inl e ↦ rw e refl
      | inr e ↦
          elim (Bool-cases (has_prefix (drop_while is_blank t) (codes "--------- beginning of"))) [
            | inl b ↦ rw (e, b) refl
            | inr b ↦ rw (e, b) refl
          ]
    ])

pump-none :
    (o : Option Text) (line : Text) (lines : List Text)
    → kind_of line ≡ kind_below o
    → pump none (line ∷ lines) ≡ pump none lines
unfolding pump pump_line kind_below
pump-none none line lines k = rw k refl
pump-none (some t) line lines k = rw k refl

pump-some :
    (e : LogEntry) (o : Option Text) (line : Text) (lines : List Text)
    → kind_of line ≡ kind_below o
    → pump (some e) (line ∷ lines) ≡ entries_below e o ++ pump (some e) lines
unfolding pump pump_line kind_below continued
pump-some e none line lines k = rw k refl
pump-some e (some t) line lines k = rw k refl

pump-lead : (lead lines : List Text) → AllBelow lead → pump none (lead ++ lines) ≡ pump none lines
pump-lead [] lines h = refl
pump-lead (line ∷ ls) lines (k, h) =
    pump-none (text_below line) line (ls ++ lines) (kind_of-text_below line k)
    ∙ pump-lead ls lines h

pump-below :
    (e : LogEntry) (below lines : List Text)
    → AllBelow below
    → pump (some e) (below ++ lines) ≡ sent_below e below ++ pump (some e) lines
pump-below e [] lines h = refl
pump-below e (line ∷ ls) lines (k, h) =
    pump-some e (text_below line) line (ls ++ lines) (kind_of-text_below line k)
    ∙ ap (λ es. entries_below e (text_below line) ++ es) (pump-below e ls lines h)
    ∙ sym (append_assoc (entries_below e (text_below line)) (sent_below e ls) (pump (some e) lines))

pump-blocks :
    (last : Option LogEntry) (bs : List Block) → AllBlocks bs → pump last (lines_of bs) ≡ sent_of bs
unfolding pump pump_line kind_of kind_or
pump-blocks last [] h = refl
pump-blocks last (b ∷ bs) (k, hb, h) = rw k (
    ap (λ es. b.head ∷ es)
      (pump-below b.head b.below (lines_of bs) hb
        ∙ ap (λ es. sent_below b.head b.below ++ es) (pump-blocks (some b.head) bs h)))

-- A log is sent block by block. Lines in front of the first entry, which do not parse as entries, are
-- dropped. Then each entry is sent as it was parsed, and each line below it that does not parse as one, up
-- to the next entry, is sent as one more entry with the time, ids, level and tag of that entry, without a
-- process: its message is the line without the blanks around it, indented by four and cut at 8192
-- bytes. A line that is empty but for blanks, or is a banner, is not sent.
pub pump-sent_of :
    (lead : List Text) (bs : List Block)
    → AllBelow lead
    → AllBlocks bs
    → pump none (lead ++ lines_of bs) ≡ sent_of bs
pump-sent_of lead bs hl hb = pump-lead lead (lines_of bs) hl ∙ pump-blocks none bs hb
