-- ===== src/LogcatFeed/Batching/Clearing.antt =====
-- Where the entries of a batch come from, and what a clear leaves of the ones before it.
use adbq.Prelude.{
  ℕ, ◌≡◌, refl, sym, List, [], ◌∷◌, ◌++◌, append-nil, append_assoc, Option, none, some, Bool, true,
  false, ◌⊎◌, inl, inr, Bool-cases, ltb, leb, Text, codes, length,
}
use adbq.Dict.{lookup}
use adbq.LogcatFeed.{
  LogEntry, ProcOwner, Feed, FeedEvent, line, take, tick_event, clear_request, clear_case, refresh,
  set_show_system, set_quiet, say, own_entry, emit_own, pid_key, max_batch, feed_buffer, send,
  flush, forward_line, annotated, ask_once, passes, classify, append_entry, kept, take_from,
  take_line, notice, tick, take_clear, refreshed, step, run, is_nudged, request_refresh,
}

-- `P` is any property of a message
module _ (P : Text → Type 0) where
  -- the feed's own entry, or one whose message has the property
  abbrev pub From : LogEntry → Type 0
  From e = (e.tag ≡ codes "adbq") ⊎ P e.msg

  abbrev pub AllFrom : List LogEntry → Type 0
  AllFrom [] = Unit
  AllFrom (e ∷ es) = From e × AllFrom es

  abbrev pub AllBatchesFrom : List (List LogEntry) → Type 0
  AllBatchesFrom [] = Unit
  AllBatchesFrom (b ∷ bs) = AllFrom b × AllBatchesFrom bs

  -- the lines that arrive
  abbrev pub AllArriving : List FeedEvent → Type 0
  AllArriving [] = Unit
  AllArriving (line e ∷ evs) = From e × AllArriving evs
  AllArriving (ev ∷ evs) = AllArriving evs

  AllFrom-append :
      (es : List LogEntry) (e : LogEntry) → AllFrom es → From e → AllFrom (es ++ e ∷ [])
  AllFrom-append [] e h he = (he, tt)
  AllFrom-append (d ∷ es) e (hd, h) he = (hd, AllFrom-append es e h he)

  AllBatches-append :
      (bs : List (List LogEntry)) (b : List LogEntry)
      → AllBatchesFrom bs
      → AllFrom b
      → AllBatchesFrom (bs ++ b ∷ [])
  AllBatches-append [] b h hb = (hb, tt)
  AllBatches-append (c ∷ bs) b (hc, h) hb = (hc, AllBatches-append bs b h hb)

  -- since a point where the batches sent were `base`
  record Since (base : List (List LogEntry)) (f : Feed) : Type 0 where
    new : List (List LogEntry)
    out : f.out ≡ base ++ new
    sent : AllBatchesFrom new
    batch : AllFrom f.buf
    queue : AllFrom f.lines

  module _ (base : List (List LogEntry)) where
    send-Since : (b : List LogEntry) (f : Feed) → AllFrom b → Since base f → Since base (send b f)
    unfolding send
    send-Since [] f hb h = h
    send-Since (e ∷ es) f hb h = elim (Bool-cases f.quiet) [
      | inl q ↦
          rw q
            (record { new = h.new; out = h.out; sent = h.sent; batch = h.batch; queue = h.queue })
      | inr l ↦ rw l (record {
        new = h.new ++ (e ∷ es) ∷ [];
        out = rw h.out (append_assoc base h.new ((e ∷ es) ∷ []));
        sent = AllBatches-append h.new (e ∷ es) h.sent hb;
        batch = h.batch;
        queue = h.queue;
      })
    ]

    flush-Since : (f : Feed) → Since base f → Since base (flush f)
    unfolding flush
    flush-Since f h =
        let h' = send-Since f.buf f h.batch h in
        record { new = h'.new; out = h'.out; sent = h'.sent; batch = tt; queue = h'.queue }

    append_entry-Since :
        (e : LogEntry) (f : Feed) → From e → Since base f → Since base (append_entry e f)
    unfolding append_entry
    append_entry-Since e f he h =
        let f' = record f { buf = f.buf ++ e ∷ [] } in
        let h' : Since base f' = record {
          new = h.new;
          out = h.out;
          sent = h.sent;
          batch = AllFrom-append f.buf e h.batch he;
          queue = h.queue;
        } in
        elim (Bool-cases (leb max_batch (length f'.buf))) [
          | inl full ↦ rw full (flush-Since f' h')
          | inr room ↦ rw room h'
        ]

    ask_once-Since :
        (own : Option ProcOwner) (pid : ℕ) (f : Feed)
        → Since base f
        → Since base (ask_once own pid f)
    unfolding ask_once request_refresh
    ask_once-Since (some own) pid f h = h
    ask_once-Since none pid f h = elim (Bool-cases (is_nudged pid f.nudged)) [
      | inl e ↦ rw e h
      | inr e ↦
          rw e
            (record { new = h.new; out = h.out; sent = h.sent; batch = h.batch; queue = h.queue })
    ]

    annotated-From : (own : Option ProcOwner) (e : LogEntry) → From e → From (annotated own e)
    unfolding annotated
    annotated-From none e h = h
    annotated-From (some own) e h = h

    kept-Since :
        (b : Bool) (e : LogEntry) (f : Feed) → From e → Since base f → Since base (kept b e f)
    unfolding kept
    kept-Since true e f he h = append_entry-Since e f he h
    kept-Since false e f he h = h

    take_from-Since :
        (lines : List LogEntry) (f : Feed)
        → AllFrom lines
        → Since base f
        → Since base (take_from lines f)
    unfolding take_from classify
    take_from-Since [] f hl h = h
    take_from-Since (e ∷ rest) f (he, hl) h =
        let f' = record f { lines = rest } in
        let own = lookup (pid_key e.pid) f.procs in
        kept-Since (passes own f') (annotated own e) (ask_once own e.pid f')
          (annotated-From own e he)
          (ask_once-Since own e.pid f'
            (record { new = h.new; out = h.out; sent = h.sent; batch = h.batch; queue = hl }))

    tick-Since : (f : Feed) → Since base f → Since base (tick f)
    unfolding tick
    tick-Since f h =
        let f' = flush f in
        let h' = flush-Since f h in
        let own : AllFrom (notice f'.dropped ∷ []) = (unfold notice in (inl refl, tt)) in
        elim (Bool-cases (ltb 0 f'.dropped)) [
          | inl e ↦ rw e (
              send-Since (notice f'.dropped ∷ []) (record f' { dropped = 0 }) own
                (record {
                  new = h'.new;
                  out = h'.out;
                  sent = h'.sent;
                  batch = h'.batch;
                  queue = h'.queue;
                }))
          | inr e ↦ rw e h'
        ]

    forward_line-Since :
        (e : LogEntry) (f : Feed) → From e → Since base f → Since base (forward_line e f)
    unfolding forward_line
    forward_line-Since e f he h = elim (Bool-cases (ltb (length f.lines) feed_buffer)) [
      | inl room ↦ rw room (record {
        new = h.new;
        out = h.out;
        sent = h.sent;
        batch = h.batch;
        queue = AllFrom-append f.lines e h.queue he;
      })
      | inr full ↦
          rw full
            (record { new = h.new; out = h.out; sent = h.sent; batch = h.batch; queue = h.queue })
    ]

    take_clear-Since : (f : Feed) → Since base f → Since base (take_clear f)
    unfolding take_clear
    take_clear-Since f h = elim (Bool-cases f.clear) [
      | inl e ↦ rw e (record { new = h.new; out = h.out; sent = h.sent; batch = tt; queue = tt })
      | inr e ↦
          rw e
            (record { new = h.new; out = h.out; sent = h.sent; batch = h.batch; queue = h.queue })
    ]

    emit_own-Since :
        (level msg : Text) (f : Feed) → Since base f → Since base (emit_own level msg f)
    unfolding emit_own
    emit_own-Since level msg f h = record {
      new = h.new ++ (own_entry level msg ∷ []) ∷ [];
      out = rw h.out (append_assoc base h.new ((own_entry level msg ∷ []) ∷ []));
      sent = AllBatches-append h.new (own_entry level msg ∷ []) h.sent (inl refl, tt);
      batch = h.batch;
      queue = h.queue;
    }

    -- one event, and what is left to arrive
    step-Since :
        (ev : FeedEvent) (evs : List FeedEvent) (f : Feed)
        → AllArriving (ev ∷ evs)
        → Since base f
        → Since base (step ev f) × AllArriving evs
    unfolding step
    step-Since (line e) evs f (he, later) h = (forward_line-Since e f he h, later)
    step-Since take evs f later h = (unfold take_line in take_from-Since f.lines f h.queue h, later)
    step-Since tick_event evs f later h = (tick-Since f h, later)
    step-Since clear_request evs f later h = (
      record { new = h.new; out = h.out; sent = h.sent; batch = h.batch; queue = h.queue },
      later,
    )
    step-Since clear_case evs f later h = (take_clear-Since f h, later)
    step-Since (refresh none) evs f later h = (unfold refreshed in h, later)
    step-Since (refresh (some [])) evs f later h = (unfold refreshed in h, later)
    step-Since (refresh (some (p ∷ tbl))) evs f later h = (
      unfold refreshed in
          (record { new = h.new; out = h.out; sent = h.sent; batch = h.batch; queue = h.queue }),
      later,
    )
    step-Since (set_show_system v) evs f later h = (
      record { new = h.new; out = h.out; sent = h.sent; batch = h.batch; queue = h.queue },
      later,
    )
    step-Since (set_quiet v) evs f later h = (
      record { new = h.new; out = h.out; sent = h.sent; batch = h.batch; queue = h.queue },
      later,
    )
    step-Since (say level msg) evs f later h = (emit_own-Since level msg f h, later)

    run-Since :
        (evs : List FeedEvent) (f : Feed) → AllArriving evs → Since base f → Since base (run evs f)
    unfolding run
    run-Since [] f later h = h
    run-Since (ev ∷ evs) f later h =
        let (h', later') = step-Since ev evs f later h in run-Since evs (step ev f) later' h'

  -- Nothing from before a clear is shown after it. Once a queued clear is served, whatever then
  -- happens in whatever order, every entry that is sent from then on is either the feed's own or has the
  -- message of a line that arrived since: any property `P` that those messages all have, it has too.
  pub out-take_clear :
      (evs : List FeedEvent) (f : Feed)
      → f.clear ≡ true
      → AllArriving evs
      → (new : List (List LogEntry)) × ((run evs (take_clear f)).out ≡ f.out ++ new)
        × AllBatchesFrom new
  out-take_clear evs f queued later =
      let cleared : Since f.out (take_clear f) =
        (unfold take_clear in
          rw queued (record {
            new = [];
            out = sym (append-nil f.out);
            sent = tt;
            batch = tt;
            queue = tt;
          })) in
      let h = run-Since f.out evs (take_clear f) later cleared in (h.new, h.out, h.sent)
