-- ===== src/PacketRing/MidStream.antt =====
-- A ring whose first packet is not number 1.
use adbq.Prelude.{
  ℕ, ◌+◌, ◌^◌, ◌<◌, ◌≤◌, ◌≡◌, ◌∙◌, zero, suc, refl, arith, none, length, length-replicate,
}
use adbq.Prelude.Int.{pos}
use adbq.PacketRing.{
  LivePacket, Raw, PacketRing, new_packet_ring, ring_capacity, add, at, packet, len_of,
}

-- the window after a first packet numbered 2 or more: one wide, and below the packet
add-fields :
    (r : PacketRing) (n : ℕ) (p : LivePacket) (raw : Raw)
    → length r.packets ≡ n
    → r.first ≡ 1
    → r.count ≡ 0
    → 1 < n
    → n < 2 ^ 63
    → 1 < p.no
    → p.no + 2 < 2 ^ 64
    → ((add r p raw).count ≡ 1) × ((add r p raw).first + 1 ≤ p.no) × (p.no < 2 ^ 64)
unfolding add
add-fields r n p raw len_n first_n count_n n_gt n_lt late small = ground arith

at-above :
    (r : PacketRing) (num : ℕ) → r.count ≡ 1 → r.first + 1 ≤ num → num < 2 ^ 64 → at r num ≡ none
unfolding at
at-above r num one below small = ground arith

ring_capacity-pos : (n : ℕ) → 1 < n → ring_capacity (pos n) ≡ n
ring_capacity-pos zero h = elim h [ ]
ring_capacity-pos (suc n) h = refl

-- `Add` means to allow a capture that starts mid-stream. But a ring with room for two packets or
-- more, whose first packet is numbered 2 or more, counts that packet and does not find it.
pub packet-add_late :
    (n : ℕ) (p : LivePacket) (raw : Raw)
    → 1 < n
    → n < 2 ^ 63
    → 1 < p.no
    → p.no + 2 < 2 ^ 64
    → (packet (add (new_packet_ring (pos n)) p raw) p.no ≡ none)
      × (len_of (add (new_packet_ring (pos n)) p raw) ≡ 1)
unfolding packet new_packet_ring len_of
packet-add_late n p raw n_gt n_lt late small =
    let slots = length-replicate (ring_capacity (pos n)) none ∙ ring_capacity-pos n n_gt in
    let r = new_packet_ring (pos n) in
    let (one, below, fits) = add-fields r n p raw slots refl refl n_gt n_lt late small in
    (rw (at-above (add r p raw) p.no one below fits, packet), one)
