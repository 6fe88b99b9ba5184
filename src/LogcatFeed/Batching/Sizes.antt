-- ===== src/LogcatFeed/Batching/Sizes.antt =====
-- The bounds of the feed: its channel, its batch, and what one event carries to the UI.
use adbq.Prelude.{
  ℕ, ◌≤◌, ◌<◌, ◌≡◌, refl, arith, List, [], ◌∷◌, ◌++◌, Option, none, some, Bool, true, false, inl,
  inr, Bool-cases, ltb, leb, length, length-append,
}
use adbq.Dict.{lookup}
use adbq.LogcatFeed.{
  LogEntry, ProcOwner, Feed, FeedEvent, line, take, tick_event, clear_request, clear_case, refresh,
  set_show_system, set_quiet, say, own_entry, emit_own, pid_key, max_batch, feed_buffer, send,
  flush, forward_line, annotated, ask_once, passes, classify, append_entry, kept, take_from,
  take_line, notice, tick, take_clear, refreshed, step, is_nudged, request_refresh,
}

-- batches that were sent: not empty, and no larger than the bound
abbrev pub AllSized : List (List LogEntry) → Type 0
AllSized [] = Unit
AllSized (b ∷ bs) = (0 < length b) × (length b ≤ max_batch) × AllSized bs

pub record Bounded (f : Feed) : Type 0 where
  pub queue : length f.lines ≤ feed_buffer
  pub batch : length f.buf < max_batch
  pub sent : AllSized f.out

AllSized-append :
    (bs : List (List LogEntry)) (b : List LogEntry)
    → 0 < length b
    → length b ≤ max_batch
    → AllSized bs
    → AllSized (bs ++ b ∷ [])
AllSized-append [] b some_entry fits h = (some_entry, fits, tt)
AllSized-append (c ∷ bs) b some_entry fits (hc, hc', h) =
    (hc, hc', AllSized-append bs b some_entry fits h)

send-AllSized :
    (b : List LogEntry) (f : Feed) → length b ≤ max_batch → AllSized f.out → AllSized (send b f).out
unfolding send
send-AllSized [] f fits h = h
send-AllSized (e ∷ es) f fits h = elim (Bool-cases f.quiet) [
  | inl q ↦ rw q h
  | inr l ↦ rw l (AllSized-append f.out (e ∷ es) (omega arith) fits h)
]

-- what is left alone by a send
send-lines :
    (b : List LogEntry) (f : Feed) → ((send b f).lines ≡ f.lines) × ((send b f).buf ≡ f.buf)
unfolding send
send-lines [] f = (refl, refl)
send-lines (e ∷ es) f = elim (Bool-cases f.quiet) [
  | inl q ↦ rw q (refl, refl)
  | inr l ↦ rw l (refl, refl)
]

flush-Bounded :
    (f : Feed)
    → length f.lines ≤ feed_buffer
    → length f.buf ≤ max_batch
    → AllSized f.out
    → Bounded (flush f)
unfolding flush
flush-Bounded f queue batch sent = record {
  queue = rw (send-lines f.buf f).0 queue;
  batch = omega arith;
  sent = send-AllSized f.buf f batch sent;
}

append_entry-Bounded : (e : LogEntry) (f : Feed) → Bounded f → Bounded (append_entry e f)
unfolding append_entry
append_entry-Bounded e f h =
    let f' = record f { buf = f.buf ++ e ∷ [] } in
    let longer = length-append f.buf (e ∷ []) in
    elim (Bool-cases (leb max_batch (length f'.buf))) [
      | inl full ↦ rw full (flush-Bounded f' h.queue (omega (arith, longer, h.batch)) h.sent)
      | inr room ↦ rw room (record { queue = h.queue; batch = ground arith; sent = h.sent })
    ]

ask_once-Bounded :
    (own : Option ProcOwner) (pid : ℕ) (f : Feed) → Bounded f → Bounded (ask_once own pid f)
unfolding ask_once request_refresh
ask_once-Bounded (some own) pid f h = h
ask_once-Bounded none pid f h = elim (Bool-cases (is_nudged pid f.nudged)) [
  | inl e ↦ rw e h
  | inr e ↦ rw e (record { queue = h.queue; batch = h.batch; sent = h.sent })
]

kept-Bounded : (b : Bool) (e : LogEntry) (f : Feed) → Bounded f → Bounded (kept b e f)
unfolding kept
kept-Bounded true e f h = append_entry-Bounded e f h
kept-Bounded false e f h = h

take_from-Bounded :
    (lines : List LogEntry) (f : Feed)
    → length lines ≤ feed_buffer
    → Bounded f
    → Bounded (take_from lines f)
unfolding take_from classify
take_from-Bounded [] f le h = h
take_from-Bounded (e ∷ rest) f le h =
    let f' = record f { lines = rest } in
    let own = lookup (pid_key e.pid) f.procs in
    kept-Bounded (passes own f') (annotated own e) (ask_once own e.pid f') (
      ask_once-Bounded own e.pid f'
        (record { queue = omega arith; batch = h.batch; sent = h.sent }))

tick-Bounded : (f : Feed) → Bounded f → Bounded (tick f)
unfolding tick
tick-Bounded f h =
    let f' = flush f in
    let h' = flush-Bounded f h.queue (omega (arith, h.batch)) h.sent in
    let g = record f' { dropped = 0 } in
    let own = notice f'.dropped ∷ [] in
    elim (Bool-cases (ltb 0 f'.dropped)) [
      | inl e ↦ rw e (record {
        queue = rw (send-lines own g).0 h'.queue;
        batch = rw (send-lines own g).1 h'.batch;
        sent = send-AllSized own g (omega arith) h'.sent;
      })
      | inr e ↦ rw e h'
    ]

forward_line-Bounded : (e : LogEntry) (f : Feed) → Bounded f → Bounded (forward_line e f)
unfolding forward_line
forward_line-Bounded e f h = elim (Bool-cases (ltb (length f.lines) feed_buffer)) [
  | inl room ↦ rw room (record {
    queue = ground (arith, length-append f.lines (e ∷ []));
    batch = h.batch;
    sent = h.sent;
  })
  | inr full ↦ rw full (record { queue = h.queue; batch = h.batch; sent = h.sent })
]

take_clear-Bounded : (f : Feed) → Bounded f → Bounded (take_clear f)
unfolding take_clear
take_clear-Bounded f h = elim (Bool-cases f.clear) [
  | inl e ↦ rw e (record { queue = omega arith; batch = omega arith; sent = h.sent })
  | inr e ↦ rw e (record { queue = h.queue; batch = h.batch; sent = h.sent })
]

-- No event breaks the bounds: the channel holds at most 8192 lines, the batch in the making has
-- fewer than 400 entries after each event, and every batch that the UI gets has 1 to 400 entries.
pub step-Bounded : (ev : FeedEvent) (f : Feed) → Bounded f → Bounded (step ev f)
unfolding step
step-Bounded (line e) f h = forward_line-Bounded e f h
step-Bounded take f h = unfold take_line in take_from-Bounded f.lines f h.queue h
step-Bounded tick_event f h = tick-Bounded f h
step-Bounded clear_request f h = record { queue = h.queue; batch = h.batch; sent = h.sent }
step-Bounded clear_case f h = take_clear-Bounded f h
step-Bounded (refresh none) f h = unfold refreshed in h
step-Bounded (refresh (some [])) f h = unfold refreshed in h
step-Bounded (refresh (some (p ∷ tbl))) f h =
    unfold refreshed in (record { queue = h.queue; batch = h.batch; sent = h.sent })
step-Bounded (set_show_system v) f h = record { queue = h.queue; batch = h.batch; sent = h.sent }
step-Bounded (set_quiet v) f h = record { queue = h.queue; batch = h.batch; sent = h.sent }
step-Bounded (say level msg) f h =
    unfold emit_own in
    (record {
      queue = h.queue;
      batch = h.batch;
      sent = AllSized-append f.out (own_entry level msg ∷ []) (omega arith) (omega arith) h.sent;
    })
