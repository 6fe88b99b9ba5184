-- ===== src/PacketRing/Window.antt =====
-- A capture numbers its packets from 1 and hands them to one ring. The ring then answers as a
-- log of all packets would that forgets all but the last `n`.
use native.Mathlib.Numerals.{add-one}
use adbq.Prelude.Int.{ℤ, pos, negsuc}
use adbq.Prelude.{
  append-nil, append_assoc, ℕ, zero, suc, ◌+◌, ◌-◌, ◌%◌, ◌^◌, ◌≤◌, ◌<◌, min, ◌≡◌, refl, ap, arith,
  List, [], ◌∷◌, ◌++◌, Option, none, some, if◌then◌else◌, leb, length, get_elem?, get_or, set,
  replicate, length-set, length-append, length-replicate, get_or-set_self, get_or-set_ne,
  get_elem?-append_left, get_elem?-append_end, get_elem?-le,
}
use native.Mathlib.Decide.{dec_lt}
use native.Mathlib.Nat.{mod-lt}
use adbq.PacketRing.Slots.{slots_apart}
use adbq.PacketRing.{
  LivePacket, Raw, PacketRing, slot_of, new_packet_ring, ring_capacity, add, reset,
}

-- a captured packet and its bytes
abbrev pub Entry : Type 0
Entry = LivePacket × Raw

-- The packets are numbered on from `k`, oldest first.
abbrev pub NumberedFrom : ℕ → List Entry → Type 0
NumberedFrom k [] = Unit
NumberedFrom k (e ∷ es) = (e.0.no ≡ suc k) × NumberedFrom (suc k) es

-- what the reader loop of a capture does with each packet
unfoldable pub record_all : PacketRing → List Entry → PacketRing
record_all r [] = r
record_all r (e ∷ es) = record_all (add r e.0 e.1) es

-- The specification: packet `num` of the log, unless `n` or more packets came after it.
abbrev pub recent : ℕ → List Entry → ℕ → Option Entry
recent n es zero = none
recent n es (suc k) = if leb (k + n + 1) (length es) then none else get_elem? es k

-- A ring of `n` slots holds the log `es`.
pub record Holds (n : ℕ) (es : List Entry) (r : PacketRing) : Type 0 where
  pub some_slot : 0 < n
  pub packets_len : length r.packets ≡ n
  pub raw_len : length r.raw ≡ n
  pub first_at : r.first ≡ length es - n + 1
  pub counted : r.count ≡ min n (length es)
  pub kept :
      (k : ℕ) (e : Entry)
      → get_elem? es k ≡ some e
      → length es ≤ k + n
      → (get_or r.packets (k % n) none ≡ some e.0)
        × (get_or r.raw (k % n) none ≡ e.1)
        × (e.0.no ≡ suc k)

get_or-replicate {ℓ} : {A : Type ℓ} (n i : ℕ) (a : A) → get_or (replicate n a) i a ≡ a
get_or-replicate zero i a = refl
get_or-replicate (suc n) zero a = refl
get_or-replicate (suc n) (suc i) a = get_or-replicate n i a

-- packet `k + 1` lies in slot `k % n`
pub slot_of-suc : (k n : ℕ) → k + 1 < 2 ^ 64 → slot_of (suc k) n ≡ k % n
slot_of-suc k n h = ap (λ t. t % n) (omega arith)

module _ (n : ℕ) (es : List Entry) (r : PacketRing) (h : Holds n es r) (e : Entry)
    (numbered : e.0.no ≡ suc (length es)) (small : length es + 2 < 2 ^ 64) where
  -- `add` on a ring that holds a log, with the arithmetic done
  add_lem : add r e.0 e.1 ≡ record {
    packets = set r.packets (length es % n) (some e.0);
    raw = set r.raw (length es % n) e.1;
    first = length es + 1 - n + 1;
    count = min n (length es + 1);
  }
  unfolding add
  add_lem =
      ground (arith, h.some_slot, h.packets_len, h.first_at, h.counted, slot_of-suc (length es) n)

  -- the slots of the packets that stay in the window
  kept_old :
      (k : ℕ) (x : Entry)
      → get_elem? (es ++ e ∷ []) k ≡ some x
      → length es + 1 ≤ k + n
      → k < length es
      → (get_or (set r.packets (length es % n) (some e.0)) (k % n) none ≡ some x.0)
        × (get_or (set r.raw (length es % n) e.1) (k % n) none ≡ x.1)
        × (x.0.no ≡ suc k)
  kept_old k x found close p =
      let apart = slots_apart n k (length es) p (omega arith) in
      rw
        (
          get_or-set_ne r.packets (length es % n) (k % n) (some e.0) none apart,
          get_or-set_ne r.raw (length es % n) (k % n) e.1 none apart,
        )
        (h.kept k x (rw (get_elem?-append_left es (e ∷ []) k p) at found) (omega arith))

  -- the slot of the new packet
  kept_new :
      (x : Entry)
      → get_elem? (es ++ e ∷ []) (length es) ≡ some x
      → (get_or (set r.packets (length es % n) (some e.0)) (length es % n) none ≡ some x.0)
        × (get_or (set r.raw (length es % n) e.1) (length es % n) none ≡ x.1)
        × (x.0.no ≡ suc (length es))
  kept_new x found =
      let same : e ≡ x = cc (get_elem?-append_end es e) in
      let i_lt = mod-lt (length es) h.some_slot in
      rw
        (
          get_or-set_self r.packets (length es % n) (some e.0) none (omega (arith, h.packets_len)),
          get_or-set_self r.raw (length es % n) e.1 none (omega (arith, h.raw_len)),
          ← same,
        )
        (refl, refl, numbered)

  kept_after :
      (k : ℕ) (x : Entry)
      → get_elem? (es ++ e ∷ []) k ≡ some x
      → length es + 1 ≤ k + n
      → (get_or (set r.packets (length es % n) (some e.0)) (k % n) none ≡ some x.0)
        × (get_or (set r.raw (length es % n) e.1) (k % n) none ≡ x.1)
        × (x.0.no ≡ suc k)
  kept_after k x found close = elim (dec_lt k (length es)) [
    | yes p ↦ kept_old k x found close p
    | no p ↦
        let last : k ≡ length es = elim (dec_lt (length es) k) [
          | yes q ↦ cc (get_elem?-le (es ++ e ∷ []) k (omega (arith, length-append es (e ∷ []))))
          | no q ↦ omega arith
        ] in
        rw last (kept_new x (rw last at found))
  ]

  add-Holds : Holds n (es ++ e ∷ []) (add r e.0 e.1)
  add-Holds = rw add_lem (record {
    some_slot = h.some_slot;
    packets_len = omega (arith, length-set r.packets (length es % n) (some e.0), h.packets_len);
    raw_len = omega (arith, length-set r.raw (length es % n) e.1, h.raw_len);
    first_at = omega (arith, length-append es (e ∷ []));
    counted = omega (arith, length-append es (e ∷ []));
    kept = λ k x found close. kept_after k x found (omega (arith, length-append es (e ∷ [])));
  })

module _ (n : ℕ) where
  pub record_all-Holds :
      (es : List Entry) (r : PacketRing) (more : List Entry)
      → Holds n es r
      → NumberedFrom (length es) more
      → length es + length more + 2 < 2 ^ 64
      → Holds n (es ++ more) (record_all r more)
  unfolding record_all
  record_all-Holds es r [] h num small = rw append-nil h
  record_all-Holds es r (e ∷ more) h (num, rest) small =
      let grown = length-append es (e ∷ []) in
      rw (← append_assoc es (e ∷ []) more) (
        record_all-Holds (es ++ e ∷ []) (add r e.0 e.1) more
          (add-Holds n es r h e num (omega arith)) (rw (length-append es (e ∷ []), add-one) rest)
          (omega (arith, grown)))

  empty-Holds :
      (r : PacketRing)
      → 0 < n
      → r ≡ record { packets = replicate n none; raw = replicate n none; first = 1; count = 0 }
      → Holds n [] r
  empty-Holds r p e = rw e (record {
    some_slot = p;
    packets_len = length-replicate n none;
    raw_len = length-replicate n none;
    first_at = omega arith;
    counted = omega arith;
    kept = λ k x found close. cc;
  })

-- A new ring holds the empty log, and so does a ring that has been reset, over as many slots.
pub new_packet_ring-Holds : (c : ℤ) → Holds (ring_capacity c) [] (new_packet_ring c)
unfolding new_packet_ring
new_packet_ring-Holds (pos zero) = empty-Holds _ _ (omega arith) refl
new_packet_ring-Holds (pos (suc n)) = empty-Holds _ _ (omega arith) refl
new_packet_ring-Holds (negsuc n) = empty-Holds _ _ (omega arith) refl

pub reset-Holds : (n : ℕ) (es : List Entry) (r : PacketRing) → Holds n es r → Holds n [] (reset r)
unfolding reset
reset-Holds n es r h = empty-Holds n _ h.some_slot (rw h.packets_len)
