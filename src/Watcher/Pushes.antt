-- ===== src/Watcher/Pushes.antt =====
-- A list that the tracker pushes reaches the interface as it came.
use adbq.Prelude.{
  ℕ, suc, zero, ◌<◌, ◌≡◌, refl, ap, ◌∙◌, arith, List, [], ◌∷◌, ◌++◌, none, true, false, length,
  length-append, get_or, set, get_or-set_self,
}
use adbq.Devices.{Device}
use adbq.Devices.Equal.{devices_equal, devices_equal_refl}
use adbq.Watcher.{
  Client, DeviceWatcher, slice, devices, alloc, publish, enrich_all, after_enrich,
  enrich_and_publish, polled_at, on_update,
}

pub get_or-append_left {ℓ} :
    {A : Type ℓ} (xs ys : List A) (i : ℕ) (d : A)
    → i < length xs
    → get_or (xs ++ ys) i d ≡ get_or xs i d
get_or-append_left [] ys i d h = elim h [ ]
get_or-append_left (x ∷ xs) ys zero d h = refl
get_or-append_left (x ∷ xs) ys (suc i) d h = get_or-append_left xs ys i d (omega arith)

pub get_or-append_end {ℓ} :
    {A : Type ℓ} (xs : List A) (y d : A) → get_or (xs ++ y ∷ []) (length xs) d ≡ y
get_or-append_end [] y d = refl
get_or-append_end (x ∷ xs) y d = get_or-append_end xs y d

-- what is published already is not told again
pub publish-own : (w : DeviceWatcher) → publish w.last w ≡ w
unfolding publish
publish-own w = rw (devices_equal_refl (slice w w.last)) refl

pub publish-new :
    (a : ℕ) (w : DeviceWatcher)
    → w.ui ≡ true
    → devices_equal (slice w w.last) (slice w a) ≡ false
    → publish a w ≡ record w { last = a; emitted = w.emitted ++ slice w a ∷ [] }
unfolding publish
publish-new a w u h = rw (h, u) refl

module _ {D : Type 0} (c : Client D) where
  -- nothing stops the filling
  pub enrich_all-none :
      (xs : List Device) (d : D)
      → enrich_all c none xs d ≡ ((enrich_all c none xs d).0, true, (enrich_all c none xs d).2)
  unfolding enrich_all
  enrich_all-none [] d = refl
  enrich_all-none (x ∷ xs) d =
      ap (λ r. ((c.enrich x d).0 ∷ r.0, r.1, r.2)) (enrich_all-none xs (c.enrich x d).1)

  -- a list that was published before it is filled is filled in the published list too
  enrich-published :
      (w : DeviceWatcher) (d : D)
      → (enrich_and_publish c none w.last w d).0
        ≡ record w { heap = set w.heap w.last (enrich_all c none (slice w w.last) d).0 }
  unfolding enrich_and_publish after_enrich
  enrich-published w d =
      ap (λ r. (after_enrich c w.last w r).0) (enrich_all-none (slice w w.last) d)
      ∙ publish-own (record w { heap = set w.heap w.last (enrich_all c none (slice w w.last) d).0 })

  pub alloc-slice :
      (w : DeviceWatcher) (list : List Device) → slice (alloc list w) (length w.heap) ≡ list
  unfolding alloc
  alloc-slice w list = get_or-append_end w.heap list []

  -- the interface is told of the pushed list, and the list is kept
  abbrev told : List Device → DeviceWatcher → DeviceWatcher
  told list w = record w {
    heap = w.heap ++ list ∷ [];
    last = length w.heap;
    emitted = w.emitted ++ get_or (w.heap ++ list ∷ []) (length w.heap) [] ∷ [];
  }

  publish-told :
      (list : List Device) (w : DeviceWatcher)
      → w.ui ≡ true
      → w.last < length w.heap
      → devices_equal (devices w) list ≡ false
      → publish (length w.heap) (alloc list w) ≡ told list w
  unfolding alloc devices
  publish-told list w u lt ne = publish-new (length w.heap) (alloc list w) u (
      ap (λ l. devices_equal l (slice (alloc list w) (length w.heap)))
        (get_or-append_left w.heap (list ∷ []) w.last [] lt)
      ∙ ap (devices_equal (devices w)) (alloc-slice w list)
      ∙ ne)

  on_update-told :
      (list : List Device) (now : ℕ) (w : DeviceWatcher) (d : D)
      → w.ui ≡ true
      → w.last < length w.heap
      → devices_equal (devices w) list ≡ false
      → (on_update c list none now w d).0 ≡ record (told list w) {
        heap =
            set
              (told list w).heap
              (length w.heap)
              (enrich_all c none (slice (told list w) (length w.heap)) d).0;
        last_poll = now;
      }
  unfolding on_update polled_at
  on_update-told list now w d u lt ne =
      ap (λ v. record (enrich_and_publish c none (length w.heap) v d).0 { last_poll = now })
        (publish-told list w u lt ne)
      ∙ ap {A = DeviceWatcher} (λ v. record v { last_poll = now })
          (enrich-published (told list w) d)

  -- The details of a device that is plugged in stay in the program. When the tracker pushes a list that
  -- differs from the one that is kept, and the filling of the details goes through, the list that is
  -- kept is the one with the details, but the interface is told only the list as it was pushed. There
  -- is an interface, and the list that is kept lies in the heap.
  pub on_update-Unsent :
      (list : List Device) (now : ℕ) (w : DeviceWatcher) (d : D)
      → w.ui ≡ true
      → w.last < length w.heap
      → devices_equal (devices w) list ≡ false
      → (devices (on_update c list none now w d).0 ≡ (enrich_all c none list d).0)
        × ((on_update c list none now w d).0.emitted ≡ w.emitted ++ list ∷ [])
  unfolding devices alloc
  on_update-Unsent list now w d u lt ne =
      let p = on_update-told list now w d u lt ne in
      let filled = (enrich_all c none (slice (told list w) (length w.heap)) d).0 in
      (
        ap devices p
            ∙ get_or-set_self (told list w).heap (length w.heap) filled []
                (omega (arith, length-append w.heap (list ∷ [])))
            ∙ ap (λ l. (enrich_all c none l d).0) (alloc-slice w list),
        ap (λ v. v.emitted) p ∙ ap (λ l. w.emitted ++ l ∷ []) (alloc-slice w list),
      )
