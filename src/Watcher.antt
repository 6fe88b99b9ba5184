-- ===== src/Watcher.antt =====
-- device_watcher.go: the one place that keeps the device list and tells the interface of it. A slice is
-- an address in a heap of arrays, since the code fills a list in place that it has published before.
-- The events of the loop are steps; what an event told the interface is the list as it was then.
pub mod Polls
pub mod Pushes
pub mod Fresh
mod Examples
use adbq.Prelude.{
  ℕ, zero, suc, ◌+◌, ◌-◌, ◌*◌, ◌^◌, List, [], ◌∷◌, ◌++◌, Option, none, some, Bool, true, false,
  ◌||◌, not, if◌then◌else◌, ltb, length, get_or, set,
}
use adbq.Devices.{Device}
use adbq.Devices.Equal.{devices_equal}

-- `ListDevices`, which may fail, and `Enrich`
pub record Client (D : Type 0) : Type 0 where
  pub list_devices : D → Option (List Device) × D
  pub enrich : Device → D → Device × D

-- `ui` is whether there is an interface to tell, `tracker` whether the pointer is not nil; times are in
-- nanoseconds
pub record DeviceWatcher : Type 0 where
  pub heap : List (List Device)
  pub last : ℕ
  pub emitted : List (List Device)
  pub last_poll : ℕ
  pub tracker : Bool
  pub ui : Bool

abbrev pub fallback_poll_every : ℕ
fallback_poll_every = 5 * 10 ^ 9

abbrev pub push_idle_poll : ℕ
push_idle_poll = 60 * 10 ^ 9

abbrev pub slice : DeviceWatcher → ℕ → List Device
slice w a = get_or w.heap a []

-- `Devices`
unfoldable pub devices : DeviceWatcher → List Device
devices w = slice w w.last

-- a slice that nobody else has
unfoldable pub alloc : List Device → DeviceWatcher → DeviceWatcher
alloc list w = record w { heap = w.heap ++ list ∷ [] }

unfoldable pub publish : ℕ → DeviceWatcher → DeviceWatcher
publish a w =
    let w' = record w { last = a } in
    if devices_equal (slice w w.last) (slice w a) || not w.ui
    then w'
    else record w' { emitted = w.emitted ++ slice w a ∷ [] }

-- what happens while the loop waits: the context ends, the tracker has a list, the tracker is finished,
-- or the ticker fires. `stop` is how many devices are filled before the context ends, if it does.
pub data Event : Type 0 where
  done : Event
  update : List Device → Option ℕ → ℕ → Event
  closed : Event
  ticked : Bool → Option ℕ → ℕ → Event

-- the loop goes on, has returned, or has panicked
pub data Loop (D : Type 0) : Type 0 where
  running : DeviceWatcher → D → Loop D
  returned : Loop D
  panicked : Loop D

-- the watcher as it is made
abbrev pub nothing_listed : Bool → DeviceWatcher
nothing_listed ui = record {
  heap = [] ∷ [];
  last = 0;
  emitted = [];
  last_poll = 0;
  tracker = true;
  ui = ui;
}

module _ {D : Type 0} (c : Client D) where
  -- The loop of `enrichAndPublish`: the devices as they are afterwards, and whether the loop went
  -- through.
  unfoldable pub enrich_all : Option ℕ → List Device → D → List Device × Bool × D
  enrich_all stop [] d = ([], true, d)
  enrich_all (some zero) (x ∷ xs) d = (x ∷ xs, false, d)
  enrich_all (some (suc n)) (x ∷ xs) d =
      let (x', d1) = c.enrich x d in
      let (xs', ok, d2) = enrich_all (some n) xs d1 in (x' ∷ xs', ok, d2)
  enrich_all none (x ∷ xs) d =
      let (x', d1) = c.enrich x d in let (xs', ok, d2) = enrich_all none xs d1 in (x' ∷ xs', ok, d2)

  -- the devices are filled where they stand
  after_enrich : ℕ → DeviceWatcher → List Device × Bool × D → DeviceWatcher × D
  unfolding publish
  after_enrich a w (xs, true, d) = (publish a (record w { heap = set w.heap a xs }), d)
  after_enrich a w (xs, false, d) = (record w { heap = set w.heap a xs }, d)

  unfoldable pub enrich_and_publish : Option ℕ → ℕ → DeviceWatcher → D → DeviceWatcher × D
  unfolding after_enrich
  enrich_and_publish stop a w d = after_enrich a w (enrich_all stop (slice w a) d)

  after_list : Option ℕ → DeviceWatcher → Option (List Device) × D → DeviceWatcher × D
  unfolding enrich_and_publish alloc
  after_list stop w (none, d) = (w, d)
  after_list stop w (some list, d) = enrich_and_publish stop (length w.heap) (alloc list w) d

  unfoldable pub refresh : Option ℕ → DeviceWatcher → D → DeviceWatcher × D
  unfolding after_list
  refresh stop w d = after_list stop w (c.list_devices d)

  going : DeviceWatcher × D → Loop D
  going (w, d) = running w d

  polled_at : ℕ → DeviceWatcher × D → DeviceWatcher × D
  polled_at now (w, d) = (record w { last_poll = now }, d)

  -- the tracker's list is a slice of its own
  unfoldable pub on_update : List Device → Option ℕ → ℕ → DeviceWatcher → D → DeviceWatcher × D
  unfolding alloc publish enrich_and_publish polled_at
  on_update list stop now w d =
      let a = length w.heap in
      polled_at now (enrich_and_publish stop a (publish a (alloc list w)) d)

  unfoldable pub on_tick : Bool → Option ℕ → ℕ → DeviceWatcher → D → DeviceWatcher × D
  unfolding refresh
  on_tick connected stop now w d =
      if ltb (now - w.last_poll) (if connected then push_idle_poll else fallback_poll_every)
      then (w, d)
      else refresh stop (record w { last_poll = now }) d

  -- one round of the loop: the select first asks the tracker for its channel
  event_step : Event → DeviceWatcher → D → Loop D
  unfolding on_update on_tick going
  event_step done w d = returned
  event_step (update list stop now) w d = going (on_update list stop now w d)
  event_step closed w d = running (record w { tracker = false }) d
  event_step (ticked connected stop now) w d = going (on_tick connected stop now w d)

  unfoldable pub loop_step : Event → Loop D → Loop D
  unfolding event_step
  loop_step e returned = returned
  loop_step e panicked = panicked
  loop_step e (running w d) = if w.tracker then event_step e w d else panicked

  unfoldable pub run_loop : List Event → Loop D → Loop D
  unfolding loop_step
  run_loop [] s = s
  run_loop (e ∷ es) s = run_loop es (loop_step e s)

  -- `startDeviceWatcher` up to the first round
  unfoldable pub start_device_watcher : Bool → Option ℕ → ℕ → D → Loop D
  unfolding refresh polled_at going
  start_device_watcher ui stop now d = going (polled_at now (refresh stop (nothing_listed ui) d))
