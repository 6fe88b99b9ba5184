-- ===== src/Watcher/Examples.antt =====
-- A phone whose details are its model and its address; the state counts what was asked.
use adbq.Prelude.{suc, ℕ, suc, ◌≡◌, refl, arith, List, [], ◌∷◌, none, some, true, false, codes}
use adbq.Devices.{Device, no_device}
use adbq.Watcher.{
  Client, DeviceWatcher, devices, enrich_all, on_update, closed, done, running, panicked, run_loop,
  start_device_watcher, nothing_listed, event_step, loop_step, refresh, going, polled_at, ticked,
}
use adbq.Watcher.Pushes.{on_update-Unsent}
use adbq.Watcher.Polls.{Poll, ticks, shown, InSync, run_loop-InSync}
use adbq.Watcher.Fresh.{run_loop-Fresh}
use adbq.Devices.Equal.{devices_equal}

abbrev plugged : Device
plugged = record no_device { id = codes "R58M"; state = codes "device"; online = true }

abbrev phone : Client ℕ
phone = record {
  list_devices = λ n. (some (plugged ∷ []), suc n);
  enrich = λ x n. (record x { model = codes "SM"; ip = codes "10.0.0.7" }, suc n);
}

abbrev polls : List Poll
polls = (true, none, 6000000000) ∷ (false, some 0, 70000000000) ∷ (false, none, 80000000000) ∷ []

unseen : devices_equal (devices (nothing_listed true)) (plugged ∷ []) ≡ false
unfolding devices_equal devices
unseen = refl

run_loop-InSync_example :
    InSync phone (run_loop phone (ticks polls) (start_device_watcher phone true none 0 0))
run_loop-InSync_example = run_loop-InSync phone none 0 polls 0

on_update-Unsent_example :
    (devices (on_update phone (plugged ∷ []) none 5 (nothing_listed true) 0).0
      ≡ (enrich_all phone none (plugged ∷ []) 0).0)
    × ((on_update phone (plugged ∷ []) none 5 (nothing_listed true) 0).0.emitted
        ≡ (plugged ∷ []) ∷ [])
on_update-Unsent_example =
    on_update-Unsent phone (plugged ∷ []) 5 (nothing_listed true) 0 refl (omega arith) unseen

-- the tracker's end is noticed once, and the next look at its channel ends the program
ended : run_loop phone (closed ∷ done ∷ []) (running (nothing_listed true) 0) ≡ panicked
unfolding run_loop loop_step event_step
ended = refl

abbrev first : DeviceWatcher × ℕ
first = refresh phone none (nothing_listed true) 0

abbrev begun : DeviceWatcher
begun = record first.0 { last_poll = 0 }

started :
    run_loop phone (ticks []) (start_device_watcher phone true none 0 0) ≡ running begun first.1
unfolding run_loop start_device_watcher going polled_at
started = refl

run_loop-Fresh_example :
    (w' : DeviceWatcher) × (d2 : ℕ) × (loop_step phone
        (ticked true none 60000000000)
        (running begun first.1)
      ≡ running w' d2)
    × (devices w' ≡ (enrich_all phone none (plugged ∷ []) (suc first.1)).0)
    × (shown w'.emitted ≡ (enrich_all phone none (plugged ∷ []) (suc first.1)).0)
run_loop-Fresh_example =
    run_loop-Fresh phone none 0 [] 0 true 60000000000 begun first.1 (suc first.1) (plugged ∷ [])
      started (omega arith) refl
