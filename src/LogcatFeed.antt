-- ===== src/LogcatFeed.antt =====
-- logcat_feed.go: the batcher of one device's log. Each event is one atomic step of one of the
-- feed's goroutines, so that an order of the events is an interleaving of them. A send that finds
-- its channel full takes the `default` branch; a receive from an empty channel does not happen.
pub mod Batching
pub mod Recovery
mod Examples
use adbq.Prelude.{
  ℕ, ◌+◌, ◌%◌, List, [], ◌∷◌, ◌++◌, Option, none, some, Bool, true, false, not, ◌&&◌, ◌||◌,
  if◌then◌else◌, ltb, leb, ◌==◌, Text, codes, text_eq, length,
}
use adbq.Prelude.Int.{ℤ, pos, negsuc}
use adbq.Decimal.{decimal}
use adbq.Dict.{Dict, lookup}

pub record LogEntry : Type 0 where
  pub time : Text
  pub pid : ℕ
  pub tid : ℕ
  pub level : Text
  pub tag : Text
  pub msg : Text
  pub proc : Text
  pub app : Bool

pub record ProcOwner : Type 0 where
  pub name : Text
  pub uid : ℤ

abbrev pub first_app_uid : ℕ
first_app_uid = 10000

abbrev pub per_user_range : ℕ
per_user_range = 100000

-- `ProcOwner.IsApp`
uid_is_app : ℤ → Bool
uid_is_app (pos n) = leb first_app_uid (n % per_user_range)
uid_is_app (negsuc n) = false

pub is_app : ProcOwner → Bool
unfolding uid_is_app
is_app own = uid_is_app own.uid

abbrev pub max_batch : ℕ
max_batch = 400

abbrev pub feed_buffer : ℕ
feed_buffer = 8192

-- a process table is a map from a pid
abbrev pub pid_key : ℕ → Text
pid_key pid = pid ∷ []

-- `lines`, `clear` and `nudge` are channels; `buf` is the batch in the making, and `out` holds the
-- batches that were emitted
pub record Feed : Type 0 where
  pub pkg : Text
  pub sys : Bool
  pub quiet : Bool
  pub dropped : ℕ
  pub lines : List LogEntry
  pub clear : Bool
  pub nudge : Bool
  pub procs : Dict ProcOwner
  pub nudged : List ℕ
  pub buf : List LogEntry
  pub out : List (List LogEntry)

is_nudged : ℕ → List ℕ → Bool
is_nudged pid [] = false
is_nudged pid (p ∷ ps) = pid == p || is_nudged pid ps

pub send : List LogEntry → Feed → Feed
send [] f = f
send (e ∷ es) f = if f.quiet then f else record f { out = f.out ++ (e ∷ es) ∷ [] }

pub flush : Feed → Feed
unfolding send
flush f = record (send f.buf f) { buf = [] }

-- one line of the stream
pub forward_line : LogEntry → Feed → Feed
forward_line e f =
    if ltb (length f.lines) feed_buffer
    then record f { lines = f.lines ++ e ∷ [] }
    else record f { dropped = f.dropped + 1 }

pub request_refresh : Feed → Feed
request_refresh f = record f { nudge = true }

annotated : Option ProcOwner → LogEntry → LogEntry
annotated none e = e
annotated (some own) e = record e { proc = own.name; app = is_app own }

ask_once : Option ProcOwner → ℕ → Feed → Feed
unfolding is_nudged request_refresh
ask_once (some own) pid f = f
ask_once none pid f =
    if is_nudged pid f.nudged then f else request_refresh (record f { nudged = pid ∷ f.nudged })

passes : Option ProcOwner → Feed → Bool
unfolding is_app
passes own f =
    if not (text_eq f.pkg []) || f.sys then true else elim own [ none ↦ true | some o ↦ is_app o ]

-- whether the entry is shown, the entry with its process, and the feed
pub classify : LogEntry → Feed → Bool × LogEntry × Feed
unfolding annotated ask_once passes
classify e f =
    let own = lookup (pid_key e.pid) f.procs in
    (passes own f, annotated own e, ask_once own e.pid f)

-- `buf = append(buf, e)` and the flush of a full batch
pub append_entry : LogEntry → Feed → Feed
unfolding flush
append_entry e f =
    let f' = record f { buf = f.buf ++ e ∷ [] } in
    if leb max_batch (length f'.buf) then flush f' else f'

kept : Bool → LogEntry → Feed → Feed
unfolding append_entry
kept true e f = append_entry e f
kept false e f = f

take_from : List LogEntry → Feed → Feed
unfolding classify kept
take_from [] f = f
take_from (e ∷ rest) f =
    let (shown, e', f') = classify e (record f { lines = rest }) in kept shown e' f'

-- the case of `batch` that receives a line
pub take_line : Feed → Feed
unfolding take_from
take_line f = take_from f.lines f

pub notice : ℕ → LogEntry
unfolding decimal
notice n = record {
  time = [];
  pid = 0;
  tid = 0;
  level = codes "W";
  tag = codes "adbq";
  msg = codes "dropped " ++ decimal n ++ codes " line(s): the UI could not keep up with the device";
  proc = [];
  app = false;
}

-- the case of the ticker
pub tick : Feed → Feed
unfolding flush send notice
tick f =
    let f' = flush f in
    if ltb 0 f'.dropped then send (notice f'.dropped ∷ []) (record f' { dropped = 0 }) else f'

-- the case of a queued clear: the batch and everything in the channel go
pub take_clear : Feed → Feed
take_clear f = if f.clear then record f { clear = false; buf = []; lines = [] } else f

-- what `refreshProcs` does with the table it got, `none` for an error
pub refreshed : Option (Dict ProcOwner) → Feed → Feed
refreshed none f = f
refreshed (some []) f = f
refreshed (some (p ∷ tbl)) f = record f { procs = p ∷ tbl; nudged = [] }

-- an entry of the feed's own that `recover`, `fail` and `EnsureLogcat` emit without the batch
abbrev pub own_entry : Text → Text → LogEntry
own_entry level msg = record {
  time = [];
  pid = 0;
  tid = 0;
  level = level;
  tag = codes "adbq";
  msg = msg;
  proc = [];
  app = false;
}

-- `f.emit(f.ev, ...)`, which does not ask whether the feed is quiet
pub emit_own : Text → Text → Feed → Feed
emit_own level msg f = record f { out = f.out ++ (own_entry level msg ∷ []) ∷ [] }

pub data FeedEvent : Type 0 where
  line : LogEntry → FeedEvent
  take tick_event clear_request clear_case : FeedEvent
  refresh : Option (Dict ProcOwner) → FeedEvent
  set_show_system set_quiet : Bool → FeedEvent
  say : Text → Text → FeedEvent

pub step : FeedEvent → Feed → Feed
unfolding forward_line take_line tick take_clear refreshed emit_own
step (line e) f = forward_line e f
step take f = take_line f
step tick_event f = tick f
step clear_request f = record f { clear = true }
step clear_case f = take_clear f
step (refresh tbl) f = refreshed tbl f
step (set_show_system v) f = record f { sys = v }
step (set_quiet v) f = record f { quiet = v }
step (say level msg) f = emit_own level msg f

pub run : List FeedEvent → Feed → Feed
unfolding step
run [] f = f
run (ev ∷ evs) f = run evs (step ev f)
