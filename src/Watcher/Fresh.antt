-- ===== src/Watcher/Fresh.antt =====
-- A device list that polls keep does not stay old.
use mathlib.Core.Path.{subst}
use adbq.Prelude.{
  ℕ, ◌+◌, ◌-◌, ◌≤◌, ◌≡◌, refl, ap, ◌∙◌, arith, List, [], ◌∷◌, ◌++◌, Option, none, some, Bool, true,
  false, ◌||◌, not, if◌then◌else◌, if_both, ltb, length, length-append, set, get_or-set_self,
}
use adbq.Devices.{Device}
use adbq.Devices.Equal.{devices_equal}
use adbq.Watcher.{
  push_idle_poll, fallback_poll_every, Client, DeviceWatcher, slice, devices, alloc, publish,
  enrich_all, after_enrich, enrich_and_publish, after_list, refresh, on_tick, ticked, running,
  panicked, loop_step, event_step, going, run_loop, start_device_watcher,
}
use adbq.Watcher.Pushes.{alloc-slice, enrich_all-none}
use adbq.Watcher.Polls.{Poll, ticks, shown, IsShown, run_loop-Sound, start-Sound, on_tick-IsShown}

-- what is published is kept, whether it is told or not
devices-publish : (a : ℕ) (w : DeviceWatcher) → devices (publish a w) ≡ slice w a
unfolding devices publish
devices-publish a w =
    if_both {A = DeviceWatcher} (λ v. slice v v.last ≡ slice w a)
      (devices_equal (slice w w.last) (slice w a) || not w.ui) (record w { last = a })
      (record w { last = a; emitted = w.emitted ++ slice w a ∷ [] }) (λ h. refl) (λ h. refl)

module _ {D : Type 0} (c : Client D) where
  after_list-devices :
      (w : DeviceWatcher) (list : List Device) (d : D)
      → devices (after_list c none w (some list, d)).0 ≡ (enrich_all c none list d).0
  unfolding after_list enrich_and_publish after_enrich alloc
  after_list-devices w list d =
      let a = length w.heap in
      let filled = (enrich_all c none (slice (alloc list w) a) d).0 in
      ap (λ r. devices (after_enrich c a (alloc list w) r).0)
        (enrich_all-none c (slice (alloc list w) a) d)
      ∙ devices-publish a (record (alloc list w) { heap = set (alloc list w).heap a filled })
      ∙ get_or-set_self (alloc list w).heap a filled []
          (omega (arith, length-append w.heap (list ∷ [])))
      ∙ ap (λ l. (enrich_all c none l d).0) (alloc-slice c w list)

  on_tick-devices :
      (connected : Bool) (now : ℕ) (w : DeviceWatcher) (d d' : D) (list : List Device)
      → w.last_poll + push_idle_poll ≤ now
      → c.list_devices d ≡ (some list, d')
      → devices (on_tick c connected none now w d).0 ≡ (enrich_all c none list d').0
  unfolding on_tick refresh
  on_tick-devices connected now w d d' list late listed =
      let due : ltb (now - w.last_poll) (if connected then push_idle_poll else fallback_poll_every)
          ≡ false =
        ground arith in
      rw (due, listed) (after_list-devices (record w { last_poll = now }) list d')

  -- A list that is old is renewed: after the start and any number of ticks, a tick that comes a minute
  -- or more after the last poll, whether push is connected or not, leaves the watcher running with the
  -- devices that are listed then, with their details, and the interface was told of just these, if the
  -- listing succeeds and the filling of details is not cut short.
  pub run_loop-Fresh :
      (stop : Option ℕ) (start : ℕ) (ps : List Poll) (d0 : D) (connected : Bool) (now : ℕ)
      (w : DeviceWatcher) (d d' : D) (list : List Device)
      → run_loop c (ticks ps) (start_device_watcher c true stop start d0) ≡ running w d
      → w.last_poll + push_idle_poll ≤ now
      → c.list_devices d ≡ (some list, d')
      → (w' : DeviceWatcher) × (d2 : D) × (loop_step c (ticked connected none now) (running w d)
          ≡ running w' d2)
        × (devices w' ≡ (enrich_all c none list d').0)
        × (shown w'.emitted ≡ (enrich_all c none list d').0)
  unfolding loop_step event_step going
  run_loop-Fresh stop start ps d0 connected now w d d' list reached late listed =
      let (w0, d1, e, h) =
        run_loop-Sound c ps (start_device_watcher c true stop start d0)
          (start-Sound c stop start d0) in
      let same : w0 ≡ w = cc in
      let is_shown = subst IsShown same h in
      let r = on_tick c connected none now w d in
      let kept = on_tick-devices connected now w d d' list late listed in
      (
        r.0,
        r.1,
        ap (λ b. if b then running r.0 r.1 else panicked) is_shown.1,
        kept,
        (on_tick-IsShown c connected none now w d is_shown).3 ∙ kept,
      )
