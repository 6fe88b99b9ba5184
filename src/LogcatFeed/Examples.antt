-- ===== src/LogcatFeed/Examples.antt =====
-- A feed of an app's line, an OS line and a line of an unknown process; a device that answers after
-- one refused attach, and one on which the app does not run.
use adbq.Prelude.{
  ℕ, ◌+◌, ◌≡◌, refl, arith, List, [], ◌∷◌, ◌++◌, some, Bool, true, ◌⊎◌, inl, inr, Text, codes,
  text_eq, if◌then◌else◌, ltb,
}
use adbq.Prelude.Int.{pos}
use adbq.Dict.{Dict}
use adbq.LogcatFeed.{
  LogEntry, ProcOwner, Feed, FeedEvent, line, take, tick_event, say, take_clear, run, pid_key,
}
use adbq.LogcatFeed.Batching.{delivered, passed, from_device, delivered-run}
use adbq.LogcatFeed.Batching.Sizes.{Bounded}
use adbq.LogcatFeed.Batching.Clearing.{AllBatchesFrom, out-take_clear}
use adbq.LogcatFeed.Recovery.{Link, Device, recover}

abbrev entry : ℕ → Text → LogEntry
entry pid msg = record {
  time = codes "10:00";
  pid = pid;
  tid = pid;
  level = codes "I";
  tag = codes "test";
  msg = msg;
  proc = [];
  app = Bool.false;
}

abbrev owners : Dict ProcOwner
owners =
    (pid_key 100, record { name = codes "com.example"; uid = pos 10007 })
    ∷ (pid_key 1, record { name = codes "init"; uid = pos 0 })
    ∷ []

abbrev loud : Feed
loud = record {
  pkg = [];
  sys = Bool.false;
  quiet = Bool.false;
  dropped = 2;
  lines = [];
  clear = Bool.false;
  nudge = Bool.false;
  procs = owners;
  nudged = [];
  buf = [];
  out = [];
}

abbrev events : List FeedEvent
events =
    line (entry 100 (codes "app"))
    ∷ line (entry 1 (codes "os"))
    ∷ take
    ∷ take
    ∷ tick_event
    ∷ line (entry 7 (codes "new"))
    ∷ take
    ∷ []

delivered-run_example :
    delivered (run events loud) ≡ delivered loud ++ from_device (passed events loud)
delivered-run_example = delivered-run events loud refl tt

loud-Bounded : Bounded loud
loud-Bounded = record { queue = omega arith; batch = omega arith; sent = tt }

abbrev clearing : Feed
clearing = record loud {
  clear = Bool.true;
  lines = entry 100 (codes "old") ∷ [];
  buf = entry 100 (codes "older") ∷ [];
}

out-take_clear_example :
    (new : List (List LogEntry)) × ((run events (take_clear clearing)).out ≡ clearing.out ++ new)
    × AllBatchesFrom (λ m. (m ≡ codes "app") ⊎ ((m ≡ codes "os") ⊎ (m ≡ codes "new"))) new
out-take_clear_example =
    out-take_clear (λ m. (m ≡ codes "app") ⊎ ((m ≡ codes "os") ⊎ (m ≡ codes "new"))) events clearing
      refl (inr (inl refl), (inr (inr (inl refl)), (inr (inr (inr refl)), tt)))

abbrev muted : Feed
muted = record loud { quiet = Bool.true }

-- the stream drops and comes back meanwhile
abbrev muted_events : List FeedEvent
muted_events = say (codes "I") (codes "log stream reconnected") ∷ events

-- the state is the number of attaches tried; the first is refused
abbrev flaky : Device ℕ
flaky = record {
  start_logcat = λ pid tail d. (text_eq (pid_key d) (pid_key 0), d + 1);
  pid_of = λ d. (100, d);
  cancelled = λ d. Bool.false;
  wait = λ delay d. (Bool.false, d);
}

-- the app does not run the first four times that it is asked for
abbrev app_gone : Device ℕ
app_gone = record {
  start_logcat = λ pid tail d. (Bool.false, d + 1);
  pid_of = λ d. (if ltb d 4 then 0 else 100, d + 1);
  cancelled = λ d. Bool.false;
  wait = λ delay d. (Bool.false, d);
}

abbrev not_found : Text
not_found = codes "error: device 'R58M' not found"

abbrev streaming : Link
streaming = record { dead = Bool.false; stream = some 99; last_pid = 99; said = [] }

abbrev left_dead : Link
left_dead = (recover app_gone (codes "com.example") 99 not_found streaming 0).0
