-- ===== src/LogcatFeed/Batching.antt =====
-- The batcher against the plain sequence of the lines that pass the filter.
pub mod Sizes
pub mod Quiet
pub mod Clearing
use adbq.Prelude.{
  ℕ, ◌+◌, ◌≤◌, ◌<◌, ◌≡◌, ◌≢◌, refl, ap, ◌∙◌, sym, arith, List, [], ◌∷◌, ◌++◌, append-nil,
  append_assoc, Option, none, some, Bool, true, false, not, ◌&&◌, ◌||◌, inl, inr, Bool-cases,
  if◌then◌else◌, ltb, leb, ◌==◌, Text, codes, text_eq, length,
}
use adbq.Dict.{lookup}
use adbq.LogcatFeed.{
  LogEntry, ProcOwner, Feed, FeedEvent, line, take, tick_event, clear_request, clear_case, refresh,
  set_show_system, set_quiet, say, own_entry, emit_own, pid_key, max_batch, feed_buffer, send,
  flush, forward_line, annotated, ask_once, passes, classify, append_entry, kept, take_from,
  take_line, notice, tick, take_clear, refreshed, step, run, is_nudged, request_refresh,
}

-- the entries of the batches, in order
unfoldable pub all_sent : List (List LogEntry) → List LogEntry
all_sent [] = []
all_sent (b ∷ bs) = b ++ all_sent bs

-- the entries that are not the feed's own
unfoldable pub from_device : List LogEntry → List LogEntry
from_device [] = []
from_device (e ∷ es) =
    let rest = from_device es in if text_eq e.tag (codes "adbq") then rest else e ∷ rest

-- what the UI was sent and what is on its way in the batch
abbrev pub delivered : Feed → List LogEntry
delivered f = from_device (all_sent f.out ++ f.buf)

shown_from : List LogEntry → Feed → List LogEntry
shown_from [] f = []
shown_from (e ∷ rest) f =
    let own = lookup (pid_key e.pid) f.procs in if passes own f then annotated own e ∷ [] else []

-- the entry that an event lets through the filter
shown_by : FeedEvent → Feed → List LogEntry
unfolding shown_from
shown_by take f = shown_from f.lines f
shown_by ev f = []

-- all entries that pass the filter, one by one, without any batch
pub passed : List FeedEvent → Feed → List LogEntry
unfolding shown_by
passed [] f = []
passed (ev ∷ evs) f = shown_by ev f ++ passed evs (step ev f)

-- no clear is served and the feed is not made quiet
abbrev pub Undisturbed : List FeedEvent → Type 0
Undisturbed [] = Unit
Undisturbed (clear_case ∷ evs) = ⊥
Undisturbed (set_quiet v ∷ evs) = (v ≡ false) × Undisturbed evs
Undisturbed (ev ∷ evs) = Undisturbed evs

from_device-append :
    (es bs : List LogEntry) → from_device (es ++ bs) ≡ from_device es ++ from_device bs
unfolding from_device
from_device-append [] bs = refl
from_device-append (e ∷ es) bs = elim (Bool-cases (text_eq e.tag (codes "adbq"))) [
  | inl own ↦ rw own (from_device-append es bs)
  | inr dev ↦ rw dev (ap (λ l. e ∷ l) (from_device-append es bs))
]

pub all_sent-append :
    (bs cs : List (List LogEntry)) → all_sent (bs ++ cs) ≡ all_sent bs ++ all_sent cs
unfolding all_sent
all_sent-append [] cs = refl
all_sent-append (b ∷ bs) cs = rw (all_sent-append bs cs, append_assoc) refl

-- a batch that is sent
sent_after :
    (out : List (List LogEntry)) (b : List LogEntry) → all_sent (out ++ b ∷ []) ≡ all_sent out ++ b
sent_after out b = rw (all_sent-append out (b ∷ [])) (unfold all_sent in rw append-nil refl)

module _ (f : Feed) (loud : f.quiet ≡ false) where
  send-out : (b : List LogEntry) → all_sent (send b f).out ≡ all_sent f.out ++ b
  unfolding send
  send-out [] = rw append-nil refl
  send-out (e ∷ es) = rw loud (sent_after f.out (e ∷ es))

  flush-delivered : delivered (flush f) ≡ delivered f
  unfolding flush
  flush-delivered = rw (append-nil, send-out f.buf) refl

  send-quiet : (b : List LogEntry) → (send b f).quiet ≡ false
  unfolding send
  send-quiet [] = loud
  send-quiet (e ∷ es) = rw loud refl

-- Only the batches, the batch in the making and the switch matter for what is delivered.
record Same (f g : Feed) : Type 0 where
  out : f.out ≡ g.out
  buf : f.buf ≡ g.buf
  quiet : f.quiet ≡ g.quiet

ask_once-Same : (own : Option ProcOwner) (pid : ℕ) (f : Feed) → Same (ask_once own pid f) f
unfolding ask_once request_refresh
ask_once-Same (some own) pid f = record { out = refl; buf = refl; quiet = refl }
ask_once-Same none pid f = elim (Bool-cases (is_nudged pid f.nudged)) [
  | inl e ↦ rw e (record { out = refl; buf = refl; quiet = refl })
  | inr e ↦ rw e (record { out = refl; buf = refl; quiet = refl })
]

append_entry-delivered :
    (e : LogEntry) (f : Feed)
    → f.quiet ≡ false
    → (delivered (append_entry e f) ≡ delivered f ++ from_device (e ∷ []))
      × ((append_entry e f).quiet ≡ false)
unfolding append_entry
append_entry-delivered e f loud =
    let f' = record f { buf = f.buf ++ e ∷ [] } in
    let whole : delivered f' ≡ delivered f ++ from_device (e ∷ []) =
      rw (← append_assoc, from_device-append (all_sent f.out ++ f.buf) (e ∷ [])) refl in
    elim (Bool-cases (leb max_batch (length f'.buf))) [
      | inl full ↦
          rw full (flush-delivered f' loud ∙ whole, unfold flush in send-quiet f' loud f'.buf)
      | inr room ↦ rw room (whole, loud)
    ]

-- What one event adds, and that the feed is still not quiet.
abbrev Adds : List LogEntry → Feed → Feed → Type 0
Adds es f g = (delivered g ≡ delivered f ++ from_device es) × (g.quiet ≡ false)

Adds-Same : (es : List LogEntry) (f g h : Feed) → Same g f → Adds es g h → Adds es f h
Adds-Same es f g h s (d, q) = (rw (s.out, s.buf) at d, q)

kept-Adds :
    (b : Bool) (e : LogEntry) (f : Feed)
    → f.quiet ≡ false
    → Adds (if b then e ∷ [] else []) f (kept b e f)
unfolding kept
kept-Adds true e f loud = append_entry-delivered e f loud
kept-Adds false e f loud = (unfold from_device in rw append-nil refl, loud)

take_from-Adds :
    (lines : List LogEntry) (f : Feed)
    → f.quiet ≡ false
    → Adds (shown_from lines f) f (take_from lines f)
unfolding take_from classify shown_from
take_from-Adds [] f loud = (unfold from_device in rw append-nil refl, loud)
take_from-Adds (e ∷ rest) f loud =
    let f' = record f { lines = rest } in
    let own = lookup (pid_key e.pid) f.procs in
    let asked = ask_once-Same own e.pid f' in
    unfold passes in
    Adds-Same (if passes own f then annotated own e ∷ [] else []) f (ask_once own e.pid f')
      (kept (passes own f) (annotated own e) (ask_once own e.pid f'))
      (record { out = asked.out; buf = asked.buf; quiet = asked.quiet })
      (kept-Adds (passes own f) (annotated own e) (ask_once own e.pid f') (asked.quiet ∙ loud))

-- The feed's own line is not one of the device's.
notice-delivered :
    (n : ℕ) (g : Feed)
    → g.quiet ≡ false
    → g.buf ≡ []
    → delivered (send (notice n ∷ []) g) ≡ delivered g
unfolding send
notice-delivered n g loud no_buf =
    rw
      (
        loud,
        no_buf,
        sent_after g.out (notice n ∷ []),
        append-nil,
        append-nil,
        from_device-append (all_sent g.out) (notice n ∷ []),
      )
      (unfold from_device notice text_eq in rw append-nil refl)

tick-Adds : (f : Feed) → f.quiet ≡ false → Adds [] f (tick f)
unfolding tick
tick-Adds f loud =
    let f' = flush f in
    let quiet' : f'.quiet ≡ false = (unfold flush in send-quiet f loud f.buf) in
    let same : delivered f' ≡ delivered f ++ from_device [] =
      unfold from_device in (flush-delivered f loud ∙ sym (append-nil (delivered f))) in
    let g = record f' { dropped = 0 } in
    elim (Bool-cases (ltb 0 f'.dropped)) [
      | inl e ↦ rw e (
        notice-delivered f'.dropped g quiet' (unfold flush in refl) ∙ same,
        send-quiet g quiet' (notice f'.dropped ∷ []),
      )
      | inr e ↦ rw e (same, quiet')
    ]

nothing : (f g : Feed) → Same g f → f.quiet ≡ false → Adds [] f g
nothing f g s loud =
    (rw (s.out, s.buf) (unfold from_device in sym (append-nil (delivered f))), s.quiet ∙ loud)

forward_line-Same : (e : LogEntry) (f : Feed) → Same (forward_line e f) f
unfolding forward_line
forward_line-Same e f = elim (Bool-cases (ltb (length f.lines) feed_buffer)) [
  | inl room ↦ rw room (record { out = refl; buf = refl; quiet = refl })
  | inr full ↦ rw full (record { out = refl; buf = refl; quiet = refl })
]

emit_own-Adds : (level msg : Text) (f : Feed) → f.quiet ≡ false → Adds [] f (emit_own level msg f)
unfolding emit_own
emit_own-Adds level msg f loud = (
  rw
      (
        sent_after f.out (own_entry level msg ∷ []),
        from_device-append (all_sent f.out ++ own_entry level msg ∷ []) f.buf,
        from_device-append (all_sent f.out) (own_entry level msg ∷ []),
        from_device-append (all_sent f.out) f.buf,
      )
      (unfold from_device text_eq in rw (append-nil, append-nil) refl),
  loud,
)

step-Adds :
    (ev : FeedEvent) (evs : List FeedEvent) (f : Feed)
    → f.quiet ≡ false
    → Undisturbed (ev ∷ evs)
    → Adds (shown_by ev f) f (step ev f) × Undisturbed evs
unfolding step shown_by
step-Adds (line e) evs f loud h = (nothing f (forward_line e f) (forward_line-Same e f) loud, h)
step-Adds take evs f loud h = (unfold take_line in take_from-Adds f.lines f loud, h)
step-Adds tick_event evs f loud h = (tick-Adds f loud, h)
step-Adds clear_request evs f loud h = (
  nothing f (record f { clear = true }) (record { out = refl; buf = refl; quiet = refl }) loud,
  h,
)
step-Adds clear_case evs f loud h = absurd h
step-Adds (refresh none) evs f loud h =
    (unfold refreshed in nothing f f (record { out = refl; buf = refl; quiet = refl }) loud, h)
step-Adds (refresh (some [])) evs f loud h =
    (unfold refreshed in nothing f f (record { out = refl; buf = refl; quiet = refl }) loud, h)
step-Adds (refresh (some (p ∷ tbl))) evs f loud h = (
  unfold refreshed in
      nothing f (record f { procs = p ∷ tbl; nudged = [] })
        (record { out = refl; buf = refl; quiet = refl }) loud,
  h,
)
step-Adds (set_show_system v) evs f loud h =
    (nothing f (record f { sys = v }) (record { out = refl; buf = refl; quiet = refl }) loud, h)
step-Adds (set_quiet v) evs f loud (e, h) = (
  nothing f (record f { quiet = v }) (record { out = refl; buf = refl; quiet = e ∙ sym loud }) loud,
  h,
)
step-Adds (say level msg) evs f loud h = (emit_own-Adds level msg f loud, h)

-- Batching loses, repeats and reorders nothing. Whatever the order of arriving lines, receives,
-- ticks, table refreshes and filter switches, as long as the feed is not quiet and no clear is served:
-- the entries sent so far and those in the batch are, apart from the feed's own, the earlier ones
-- followed by every entry that passed the filter when it was received, in that order.
pub delivered-run :
    (evs : List FeedEvent) (f : Feed)
    → f.quiet ≡ false
    → Undisturbed evs
    → delivered (run evs f) ≡ delivered f ++ from_device (passed evs f)
unfolding run passed
delivered-run [] f loud h = unfold from_device in sym (append-nil (delivered f))
delivered-run (ev ∷ evs) f loud h =
    let ((adds, loud'), h') = step-Adds ev evs f loud h in
    delivered-run evs (step ev f) loud' h'
    ∙ (rw (adds, from_device-append (shown_by ev f) (passed evs (step ev f)), append_assoc) refl)
