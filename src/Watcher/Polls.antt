-- ===== src/Watcher/Polls.antt =====
-- While the lists come from polls, the interface shows what the program keeps.
use adbq.Prelude.{
  ℕ, ◌-◌, ◌<◌, ◌≡◌, refl, sym, ap, ◌∙◌, arith, List, [], ◌∷◌, ◌++◌, Option, none, some, Bool, true,
  false, ◌||◌, not, if◌then◌else◌, if_both, ltb, length, length-append, length-set, set,
  get_or-set_ne,
}
use adbq.Devices.{Device}
use adbq.Devices.Equal.{devices_equal, devices_equal-inv}
use adbq.Watcher.Pushes.{get_or-append_left}
use adbq.Watcher.{
  push_idle_poll, fallback_poll_every, Client, DeviceWatcher, slice, devices, alloc, publish,
  enrich_all, after_enrich, enrich_and_publish, polled_at, after_list, refresh, on_tick, Event,
  ticked, Loop, running, panicked, loop_step, event_step, going, run_loop, start_device_watcher,
  nothing_listed,
}

-- the list that the interface was told last, and none before the first
abbrev pub shown : List (List Device) → List Device
shown [] = []
shown (l ∷ []) = l
shown (l ∷ m ∷ ls) = shown (m ∷ ls)

shown-append : (ls : List (List Device)) (l : List Device) → shown (ls ++ l ∷ []) ≡ l
shown-append [] l = refl
shown-append (m ∷ []) l = refl
shown-append (m ∷ k ∷ ls) l = shown-append (k ∷ ls) l

-- whether push is connected, how far the filling of details gets, and the time
abbrev pub Poll : Type 0
Poll = Bool × Option ℕ × ℕ

abbrev pub ticks : List Poll → List Event
ticks [] = []
ticks ((connected, stop, now) ∷ ps) = ticked connected stop now ∷ ticks ps

-- what the interface shows is what the program keeps
abbrev pub IsShown : DeviceWatcher → Type 0
IsShown w =
    (w.ui ≡ true) × (w.tracker ≡ true) × (w.last < length w.heap) × (shown w.emitted ≡ devices w)

or_not : (x y : Bool) → y ≡ true → (x || not y) ≡ true → x ≡ true
or_not true y e h = refl
or_not false y e h = cc

-- telling of a list that is not the one that is kept
publish-IsShown :
    (a : ℕ) (w : DeviceWatcher) → a < length w.heap → IsShown w → IsShown (publish a w)
unfolding publish devices
publish-IsShown a w lt (u, t, l, s) =
    if_both {A = DeviceWatcher} IsShown (devices_equal (slice w w.last) (slice w a) || not w.ui)
      (record w { last = a }) (record w { last = a; emitted = w.emitted ++ slice w a ∷ [] })
      (λ h. (
        u,
        t,
        lt,
        s
            ∙ devices_equal-inv (slice w w.last) (slice w a)
                (or_not (devices_equal (slice w w.last) (slice w a)) w.ui u h),
      ))
      (λ h. (u, t, lt, shown-append w.emitted (slice w a)))

alloc-IsShown : (list : List Device) (w : DeviceWatcher) → IsShown w → IsShown (alloc list w)
unfolding alloc devices
alloc-IsShown list w (u, t, l, s) = (
  u,
  t,
  omega (arith, length-append w.heap (list ∷ [])),
  s ∙ sym (get_or-append_left w.heap (list ∷ []) w.last [] l),
)

-- filling a list that is not published
filled-IsShown :
    (a : ℕ) (xs : List Device) (w : DeviceWatcher)
    → w.last < a
    → IsShown w
    → IsShown (record w { heap = set w.heap a xs })
unfolding devices
filled-IsShown a xs w lt (u, t, l, s) = (
  u,
  t,
  omega (arith, length-set w.heap a xs),
  s ∙ sym (get_or-set_ne w.heap a w.last xs [] (λ e. omega (arith, e))),
)

module _ {D : Type 0} (c : Client D) where
  after_enrich-IsShown :
      (a : ℕ) (w : DeviceWatcher) (x : List Device × Bool × D)
      → a < length w.heap
      → w.last < a
      → IsShown w
      → IsShown (after_enrich c a w x).0
  unfolding after_enrich
  after_enrich-IsShown a w (xs, true, d) lt l h =
      publish-IsShown a (record w { heap = set w.heap a xs })
        (omega (arith, length-set w.heap a xs)) (filled-IsShown a xs w l h)
  after_enrich-IsShown a w (xs, false, d) lt l h = filled-IsShown a xs w l h

  after_list-IsShown :
      (stop : Option ℕ) (w : DeviceWatcher) (r : Option (List Device) × D)
      → IsShown w
      → IsShown (after_list c stop w r).0
  unfolding after_list enrich_and_publish alloc
  after_list-IsShown stop w (none, d) h = h
  after_list-IsShown stop w (some list, d) h =
      after_enrich-IsShown (length w.heap) (alloc list w)
        (enrich_all c stop (slice (alloc list w) (length w.heap)) d)
        (omega (arith, length-append w.heap (list ∷ []))) h.2 (alloc-IsShown list w h)

  pub on_tick-IsShown :
      (connected : Bool) (stop : Option ℕ) (now : ℕ) (w : DeviceWatcher) (d : D)
      → IsShown w
      → IsShown (on_tick c connected stop now w d).0
  unfolding on_tick refresh devices
  on_tick-IsShown connected stop now w d h =
      if_both {A = DeviceWatcher × D} (λ r. IsShown r.0)
        (ltb (now - w.last_poll) (if connected then push_idle_poll else fallback_poll_every)) (w, d)
        (refresh c stop (record w { last_poll = now }) d) (λ t. h)
        (λ f. after_list-IsShown stop (record w { last_poll = now }) (c.list_devices d) h)

  -- the loop goes on, and the interface shows what is kept
  abbrev pub InSync : Loop D → Type 0
  InSync s = (w : DeviceWatcher) × (d : D) × (s ≡ running w d) × (shown w.emitted ≡ devices w)

  abbrev pub Sound : Loop D → Type 0
  Sound s = (w : DeviceWatcher) × (d : D) × (s ≡ running w d) × IsShown w

  pub run_loop-Sound : (ps : List Poll) (s : Loop D) → Sound s → Sound (run_loop c (ticks ps) s)
  unfolding run_loop loop_step event_step going
  run_loop-Sound [] s h = h
  run_loop-Sound ((connected, stop, now) ∷ ps) s (w, d, e, h) =
      run_loop-Sound ps (loop_step c (ticked connected stop now) s) (
        (on_tick c connected stop now w d).0,
        (on_tick c connected stop now w d).1,
        ap (loop_step c (ticked connected stop now)) e
            ∙ ap
                (λ b.
                  if b
                  then running (on_tick c connected stop now w d).0
                      (on_tick c connected stop now w d).1
                  else panicked)
                h.1,
        on_tick-IsShown connected stop now w d h,
      )

  pub start-Sound :
      (stop : Option ℕ) (now : ℕ) (d : D) → Sound (start_device_watcher c true stop now d)
  unfolding start_device_watcher refresh going polled_at devices
  start-Sound stop now d =
      let first = after_list c stop (nothing_listed true) (c.list_devices d) in
      (
        record first.0 { last_poll = now },
        first.1,
        refl,
        after_list-IsShown stop (nothing_listed true) (c.list_devices d)
            (refl, refl, omega arith, refl),
      )

  -- As long as the tracker pushes nothing, the watcher keeps going and what the interface was told last
  -- is the list that the program keeps: after the first listing and any number of ticks, whatever the
  -- listings answer, also if they fail, and wherever a filling of details is cut short.
  pub run_loop-InSync :
      (stop : Option ℕ) (now : ℕ) (ps : List Poll) (d : D)
      → InSync (run_loop c (ticks ps) (start_device_watcher c true stop now d))
  run_loop-InSync stop now ps d =
      let (w, d', e, h) =
        run_loop-Sound ps (start_device_watcher c true stop now d) (start-Sound stop now d) in
      (w, d', e, h.3)
