-- ===== src/PacketRing/Examples.antt =====
-- Runs of a ring of three slots, and the theorems at them.
use native.Mathlib.Omega.{arith}
use adbq.Prelude.{ℕ, ◌≡◌, refl, List, [], ◌∷◌, none, some}
use adbq.Prelude.Int.{pos}
use adbq.PacketRing.{
  LivePacket, PacketRing, new_packet_ring, add, at, packet, raw_of, snapshot, len_of,
}
use adbq.PacketRing.Window.{Entry, record_all}
use adbq.PacketRing.Reads.{at-record_all}
use adbq.PacketRing.MidStream.{packet-add_late}

abbrev pkt : ℕ → LivePacket
pkt n = record {
  no = n;
  ts = n;
  len = n;
  src_ip = [];
  dst_ip = [];
  src_port = 0;
  dst_port = 0;
  proto = [];
  info = [];
  layers = [];
}

abbrev entry : ℕ → Entry
entry n = (pkt n, some (n ∷ []))

abbrev five : List Entry
five = entry 1 ∷ entry 2 ∷ entry 3 ∷ entry 4 ∷ entry 5 ∷ []

abbrev three_slots : PacketRing
three_slots = record_all (new_packet_ring (pos 3)) five

aged_out : packet three_slots 2 ≡ none
unfolding packet at add new_packet_ring record_all
aged_out = refl

kept_raw : raw_of three_slots 4 ≡ some (4 ∷ [])
unfolding raw_of at add new_packet_ring record_all
kept_raw = refl

snapshot_five : snapshot three_slots ≡ pkt 3 ∷ pkt 4 ∷ pkt 5 ∷ []
unfolding snapshot add new_packet_ring record_all
snapshot_five = refl

at-record_all_example : at three_slots 4 ≡ some (entry 4)
at-record_all_example = at-record_all (pos 3) five (omega arith) (omega arith) 4

packet-add_late_example :
    (packet (add (new_packet_ring (pos 3)) (pkt 10) none) 10 ≡ none)
    × (len_of (add (new_packet_ring (pos 3)) (pkt 10) none) ≡ 1)
packet-add_late_example =
    packet-add_late 3 (pkt 10) none (omega arith) (omega arith) (omega arith) (omega arith)
