-- ===== src/LogcatFeed/Recovery.antt =====
-- Reconnecting a dropped stream and following a filtered app: `attach`, `recover`, `fail`,
-- `followPackage` and the rounds of `pollProcs` of logcat_feed.go, with `IsTransientStreamEnd` of
-- internal/adb/logcat.go. The device is a state `D` behind a record of what the feed asks of it.
pub mod Outcomes
use adbq.Prelude.{
  ℕ, ◌+◌, ◌*◌, ◌^◌, List, [], ◌∷◌, ◌++◌, Option, none, some, Bool, true, false, not, ◌&&◌, ◌||◌,
  if◌then◌else◌, ltb, leb, ◌==◌, ◌-◌, Text, codes, text_eq, has_prefix, replace_byte, join,
}
use adbq.Strings.{fields, contains, to_lower}

-- the loop of `stripQuoted`: the bytes written and whether a quote is open at the end
outside_quotes : Bool → Text → Text × Bool
outside_quotes left [] = ([], left)
outside_quotes true (c ∷ s) = outside_quotes (not (c == 39)) s
outside_quotes false (c ∷ s) =
    let (quoted, left') = outside_quotes true s in
    let (plain, left'') = outside_quotes false s in
    if c == 39 then (b' ' ∷ quoted, left') else (c ∷ plain, left'')

pub strip_quoted : Text → Text
unfolding outside_quotes
strip_quoted s =
    let (out, left) = outside_quotes false s in
    join (fields (if left then replace_byte 39 (codes " ") s else out)) (codes " ")

abbrev transient_exit_reasons : List Text
transient_exit_reasons =
    codes "unexpected eof"
    ∷ codes "connection reset"
    ∷ codes "device offline"
    ∷ codes "device still authorizing"
    ∷ codes "protocol fault"
    ∷ codes "closed"
    ∷ codes "broken pipe"
    ∷ codes "no such device"
    ∷ codes "device not found"
    ∷ []

contains_one : Text → List Text → Bool
unfolding contains
contains_one s [] = false
contains_one s (m ∷ ms) = if contains s m then true else contains_one s ms

unfoldable pub is_transient_stream_end : Text → Bool
unfolding contains_one to_lower strip_quoted
is_transient_stream_end [] = true
is_transient_stream_end (c ∷ s) =
    contains_one (strip_quoted (to_lower (c ∷ s))) transient_exit_reasons

-- The feed's stream and what it tells the user.
pub data Message : Type 0 where
  reconnected : Message
  stopped : Text → Message
  new_pid : ℕ → Message

-- the stream that is installed is the pid that it is filtered to
pub record Link : Type 0 where
  pub dead : Bool
  pub stream : Option ℕ
  pub last_pid : ℕ
  pub said : List Message

-- `start_logcat pid tail` fails or starts a stream; `pid_of` is `pidForPackage`; `cancelled` is
-- `ctx.Err() != nil`; `wait` passes a delay, and its answer is whether the feed was cancelled in it
pub record Device (D : Type 0) : Type 0 where
  pub start_logcat : ℕ → ℕ → D → Bool × D
  pub pid_of : D → ℕ × D
  pub cancelled : D → Bool
  pub wait : ℕ → D → Bool × D

-- milliseconds
abbrev pub reconnect_delays : List ℕ
reconnect_delays = 400 ∷ 1000 ∷ 2000 ∷ 4000 ∷ []

pub fail : Text → Link → Link
fail reason f = record f { dead = true; said = f.said ++ stopped reason ∷ [] }

module _ {D : Type 0} (device : Device D) where
  -- whether it failed; a stream that starts after the feed was cancelled is stopped
  pub attach : ℕ → ℕ → Link → D → Bool × Link × D
  attach pid tail f d =
      let (failed, d') = device.start_logcat pid tail d in
      if failed
      then (true, f, d')
      else if device.cancelled d'
      then (true, f, d')
      else (false, record f { stream = some pid; last_pid = pid }, d')

  -- the process to attach to, `none` while the filtered app does not run
  pub next_pid : Text → ℕ → D → Option ℕ × D
  next_pid [] pid d = (some pid, d)
  next_pid (c ∷ pkg) pid d =
      let (next, d') = device.pid_of d in (if next == 0 then none else some next, d')

  -- the end of a round of `recover`, with the rounds that follow as an argument
  finish_round : Bool × Link × D → (Link → D → Link × D) → Link × D
  finish_round (true, f, d) more = more f d
  finish_round (false, f, d) more = (record f { said = f.said ++ reconnected ∷ [] }, d)

  try_next : Option ℕ × D → Link → (Link → D → Link × D) → Link × D
  unfolding attach finish_round
  try_next (none, d) f more = more f d
  try_next (some pid, d) f more = finish_round (attach pid 1 f d) more

  after_wait : Bool × D → Text → ℕ → Link → (Link → D → Link × D) → Link × D
  unfolding next_pid try_next
  after_wait (true, d) pkg pid f more = (f, d)
  after_wait (false, d) pkg pid f more = try_next (next_pid pkg pid d) f more

  pub recover_loop : List ℕ → Text → ℕ → Text → Link → D → Link × D
  unfolding after_wait fail
  recover_loop [] pkg pid reason f d = (fail reason f, d)
  recover_loop (delay ∷ delays) pkg pid reason f d =
      after_wait (device.wait delay d) pkg pid f (recover_loop delays pkg pid reason)

  pub recover : Text → ℕ → Text → Link → D → Link × D
  unfolding recover_loop fail
  recover pkg pid reason f d =
      if not (is_transient_stream_end reason)
      then (fail reason f, d)
      else recover_loop reconnect_delays pkg pid reason f d

  announced : ℕ → Bool × Link × D → Link × D
  announced pid (true, f, d) = (f, d)
  announced pid (false, f, d) = (record f { said = f.said ++ new_pid pid ∷ [] }, d)

  pub follow_package : Link → D → Link × D
  unfolding announced attach
  follow_package f d =
      let (pid, d') = device.pid_of d in
      if pid == 0 || pid == f.last_pid then (f, d') else announced pid (attach pid 1 f d')

  -- one round of `pollProcs` after its wait, without the refresh of the table; `none` when the
  -- goroutine returns
  pub poll_round : Text → Link → D → Option (Link × D)
  unfolding follow_package
  poll_round pkg f d =
      if f.dead then none else some (if text_eq pkg [] then (f, d) else follow_package f d)
