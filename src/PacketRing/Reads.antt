-- ===== src/PacketRing/Reads.antt =====
-- What the readers of a ring answer: `Packet`, `Raw`, `Snapshot` and `Len` against the log.
use adbq.Prelude.{
  ℕ, zero, suc, ◌+◌, ◌-◌, ◌^◌, ◌≤◌, ◌<◌, min, ◌≡◌, arith, List, [], map, none, some, ◌⊎◌, inl, inr,
  length, get_elem?, drop, drop-step, drop-le, get_elem?-lt, get_elem?-le, length-map, length-drop,
}
use adbq.Prelude.Int.{ℤ}
use native.Mathlib.Numerals.{add-one}
use native.Mathlib.Decide.{dec_lt}
use adbq.PacketRing.Window.{
  Entry, NumberedFrom, record_all, recent, Holds, slot_of-suc, record_all-Holds,
  new_packet_ring-Holds, reset-Holds,
}
use adbq.PacketRing.{
  PacketRing, new_packet_ring, ring_capacity, at, snapshot_from, snapshot, len_of, reset,
}

module _ (n : ℕ) (es : List Entry) (r : PacketRing) (h : Holds n es r)
    (small : length es + 2 < 2 ^ 64) where
  at_held :
      (k : ℕ) (x : Entry)
      → get_elem? es k ≡ some x
      → k < length es
      → length es ≤ k + n
      → at r (suc k) ≡ some x
  unfolding at
  at_held k x found lt close = ground (
    arith,
    h.some_slot,
    h.packets_len,
    h.first_at,
    h.counted,
    slot_of-suc k n,
    h.kept k x found close,
  )

  at_gone : (k : ℕ) → (k + n < length es) ⊎ (length es ≤ k) → at r (suc k) ≡ none
  unfolding at
  at_gone k out = ground (arith, h.some_slot, h.packets_len, h.first_at, h.counted)

  pub at-recent : (num : ℕ) → at r num ≡ recent n es num
  at-recent zero = unfold at in ground (arith, h.packets_len)
  at-recent (suc k) = elim (dec_lt (k + n) (length es)) [
    | yes gone ↦ rw (at_gone k (inl gone)) (ground arith)
    | no near ↦ elim (dec_lt k (length es)) [
      | yes p ↦
          let (x, found) = get_elem?-lt es k p in
          rw (at_held k x found p (omega arith)) (ground (arith, found))
      | no q ↦ rw (at_gone k (inr (omega arith))) (ground (arith, get_elem?-le es k (omega arith)))
    ]
  ]

  snapshot_from_lem :
      (left k : ℕ)
      → k + left ≡ length es
      → length es ≤ k + n
      → snapshot_from r (suc k) left ≡ map (λ e. e.0) (drop k es)
  unfolding snapshot_from
  snapshot_from_lem zero k all close = rw (drop-le es k (omega arith))
  snapshot_from_lem (suc left) k all close =
      let (x, found) = get_elem?-lt es k (omega arith) in
      ground (
        arith,
        h.packets_len,
        slot_of-suc k n,
        h.kept k x found close,
        drop-step es k x found,
        snapshot_from_lem left (suc k) (omega arith) (omega arith),
      )

  pub snapshot_lem : snapshot r ≡ map (λ e. e.0) (drop (length es - n) es)
  unfolding snapshot
  snapshot_lem =
      rw (h.first_at, h.counted, add-one)
        (snapshot_from_lem (min n (length es)) (length es - n) (omega arith) (omega arith))

-- The capture's log so far, for a ring made with any capacity.
module _ (c : ℤ) (es : List Entry) (num : NumberedFrom 0 es) (small : length es + 2 < 2 ^ 64) where
  captured : Holds (ring_capacity c) es (record_all (new_packet_ring c) es)
  captured =
      record_all-Holds (ring_capacity c) [] (new_packet_ring c) es (new_packet_ring-Holds c) num
        (omega arith)

  -- A ring of any requested capacity (non-positive asks give the default) that has been handed a
  -- capture's packets, numbered from 1 and fewer than 2^64 - 2, finds packet `k` and its bytes
  -- exactly if `k` is one of the last `capacity` numbers, whatever slots were reused.
  pub at-record_all :
      (k : ℕ) → at (record_all (new_packet_ring c) es) k ≡ recent (ring_capacity c) es k
  at-record_all = at-recent (ring_capacity c) es _ captured small

  -- The snapshot of a ring that has been handed a capture's packets, numbered from 1 and fewer
  -- than 2^64 - 2, is the packets of the last `capacity` entries, oldest first, and its length is
  -- what `Len` answers, never above the capacity.
  pub snapshot-record_all :
      let r = record_all (new_packet_ring c) es in
      (snapshot r ≡ map (λ e. e.0) (drop (length es - ring_capacity c) es))
      × (length (snapshot r) ≡ len_of r)
      × (len_of r ≤ ring_capacity c)
  unfolding len_of
  snapshot-record_all =
      let r = record_all (new_packet_ring c) es in
      let at_end = snapshot_lem (ring_capacity c) es r captured small in
      (
        at_end,
        rw at_end (
            omega (
              arith,
              length-map (drop (length es - ring_capacity c) es) (λ e. e.0),
              length-drop (length es - ring_capacity c) es,
              captured.counted,
            )),
        omega (arith, captured.counted),
      )

  -- After a reset a second capture is answered as if the ring were new with its old capacity.
  pub at-reset :
      (again : List Entry) (k : ℕ)
      → NumberedFrom 0 again
      → length again + 2 < 2 ^ 64
      → at (record_all (reset (record_all (new_packet_ring c) es)) again) k
        ≡ recent (ring_capacity c) again k
  at-reset again k num' small' =
      let n = ring_capacity c in
      let old = record_all (new_packet_ring c) es in
      at-recent n again _
        (record_all-Holds n [] (reset old) again (reset-Holds n es old captured) num' (omega arith))
        small' k
