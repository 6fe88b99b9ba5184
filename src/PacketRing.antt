-- ===== src/PacketRing.antt =====
-- internal/adb/packetring.go: the window of the most recent packets, in fixed memory.
-- A slice of pointers is a list of options, and a slot is found by its index. The uint64 and int
-- arithmetic wraps as written; the proofs are in the modules below.
mod Slots
mod Window
pub mod Reads
pub mod MidStream
mod Examples
use adbq.Prelude.{
  ℕ, zero, suc, ◌+◌, ◌-◌, ◌%◌, ◌^◌, List, [], ◌∷◌, Option, none, some, Bool, true, false, ◌&&◌,
  ◌||◌, if◌then◌else◌, ltb, leb, ◌==◌, length, get_or, set, replicate, Text,
}
use adbq.Prelude.Int.{ℤ, pos, negsuc}

-- `LivePacket`; `Ts` is the capture time in nanoseconds.
pub record LivePacket : Type 0 where
  pub no : ℕ
  pub ts : ℕ
  pub len : ℕ
  pub src_ip : Text
  pub dst_ip : Text
  pub src_port : ℕ
  pub dst_port : ℕ
  pub proto : Text
  pub info : Text
  pub layers : List Text

-- A `[]byte` that may be nil.
abbrev pub Raw : Type 0
Raw = Option (List ℕ)

pub record PacketRing : Type 0 where
  pub packets : List (Option LivePacket)
  pub raw : List Raw
  pub first : ℕ
  pub count : ℕ

abbrev pub live_ring_default : ℕ
live_ring_default = 10000

-- uint64 addition and subtraction
abbrev pub add_u64 : ℕ → ℕ → ℕ
add_u64 a b = (a + b) % 2 ^ 64

abbrev pub sub_u64 : ℕ → ℕ → ℕ
sub_u64 a b = (a + 2 ^ 64 - b) % 2 ^ 64

-- `if capacity <= 0 { capacity = liveRingDefault }`
abbrev pub ring_capacity : ℤ → ℕ
ring_capacity (pos zero) = live_ring_default
ring_capacity (pos (suc n)) = suc n
ring_capacity (negsuc n) = live_ring_default

pub new_packet_ring : ℤ → PacketRing
new_packet_ring capacity = record {
  packets = replicate (ring_capacity capacity) none;
  raw = replicate (ring_capacity capacity) none;
  first = 1;
  count = 0;
}

pub cap_of : PacketRing → ℕ
cap_of r = length r.packets

-- the slot of packet `num` in a ring of `n` slots
abbrev pub slot_of : ℕ → ℕ → ℕ
slot_of num n = sub_u64 num 1 % n

-- the oldest number that a window of `n` ending at `num` can hold
abbrev pub oldest_of : ℕ → ℕ → ℕ
oldest_of num n = add_u64 (sub_u64 num n) 1

-- `first` after the window has grown or moved by one
abbrev pub moved_first : PacketRing → ℕ → ℕ
moved_first r n = if ltb r.count n then r.first else add_u64 r.first 1

pub add : PacketRing → LivePacket → Raw → PacketRing
add r p raw =
    let n = length r.packets in
    if n == 0 then r else record {
      packets = set r.packets (slot_of p.no n) (some p);
      raw = set r.raw (slot_of p.no n) raw;
      first =
          if leb n p.no && ltb (moved_first r n) (oldest_of p.no n)
          then oldest_of p.no n
          else moved_first r n;
      count = if ltb r.count n then r.count + 1 else r.count;
    }

-- the stored number is checked again, since slots are reused
holding : ℕ → Raw → Option LivePacket → Option (LivePacket × Raw)
holding num raw none = none
holding num raw (some p) = if p.no == num then some (p, raw) else none

pub at : PacketRing → ℕ → Option (LivePacket × Raw)
unfolding holding
at r num =
    let n = length r.packets in
    if n == 0 || num == 0 || ltb num r.first || leb (add_u64 r.first r.count) num
    then none
    else holding num (get_or r.raw (slot_of num n) none) (get_or r.packets (slot_of num n) none)

-- `Raw`: nil for a packet that has aged out
pub raw_of : PacketRing → ℕ → Raw
raw_of r num = elim (at r num) [ none ↦ none | some e ↦ e.1 ]

pub packet : PacketRing → ℕ → Option LivePacket
packet r num = elim (at r num) [ none ↦ none | some e ↦ some e.0 ]

-- the body of the loop of `Snapshot`
live_slot : ℕ → Option LivePacket → List LivePacket → List LivePacket
live_slot num none out = out
live_slot num (some p) out = if p.no == num then p ∷ out else out

-- `left` rounds remain, from packet number `num` on
snapshot_from : PacketRing → ℕ → ℕ → List LivePacket
unfolding live_slot
snapshot_from r num zero = []
snapshot_from r num (suc left) =
    live_slot num (get_or r.packets (slot_of num (length r.packets)) none)
      (snapshot_from r (add_u64 num 1) left)

pub snapshot : PacketRing → List LivePacket
unfolding snapshot_from
snapshot r = snapshot_from r r.first r.count

pub len_of : PacketRing → ℕ
len_of r = r.count

pub reset : PacketRing → PacketRing
reset r = record {
  packets = replicate (length r.packets) none;
  raw = replicate (length r.packets) none;
  first = 1;
  count = 0;
}
