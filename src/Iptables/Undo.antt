-- ===== src/Iptables/Undo.antt =====
-- The undo ring against a plain stack of which only the newest entries are kept.
use adbq.Prelude.{
  ℕ, zero, suc, ◌+◌, ◌-◌, ◌≤◌, ◌≡◌, ◌≢◌, refl, ap, ◌∙◌, sym, arith, List, [], ◌∷◌, ◌++◌, append-nil,
  append_assoc, Option, none, some, inl, inr, Bool-cases, ltb, Text, text_eq_iff, length, drop,
  take, length-append, length-drop, drop-append, drop-drop, drop_at, reverse,
}
use mathlib.Core.List.{reverse-append, reverse-reverse}
use adbq.Dict.{lookup, lookup-insert, lookup-insert_self}
use adbq.Iptables.{
  Undos, ring_of, or_empty, trimmed, push_undo, split_last, pop_undo, iptables_undo_depth,
}

-- the last `n` entries
abbrev pub newest : ℕ → List Text → List Text
newest n ring = drop (length ring - n) ring

pub push_all : Undos → Text → List Text → Undos
push_all undos k [] = undos
push_all undos k (b ∷ blobs) = push_all (push_undo undos k b) k blobs

handed_out : Option Text → Undos → List Text × Undos → List Text × Undos
handed_out none undos rest = ([], undos)
handed_out (some blob) undos rest = (blob ∷ rest.0, rest.1)

-- undo `n` times: the blobs that were handed out, in order
pub pop_all : Undos → Text → ℕ → List Text × Undos
unfolding handed_out
pop_all undos k zero = ([], undos)
pop_all undos k (suc n) =
    let (o, undos') = pop_undo undos k in handed_out o undos' (pop_all undos' k n)

trimmed-newest : (ring : List Text) → trimmed ring ≡ newest iptables_undo_depth ring
unfolding trimmed
trimmed-newest ring = elim (Bool-cases (ltb iptables_undo_depth (length ring))) [
  | inl e ↦ rw e
  | inr ne ↦
      let short : length ring ≤ iptables_undo_depth = ground arith in
      rw ne (drop_at 0 (length ring - iptables_undo_depth) ring (omega arith))
]

newest-newest :
    (m : ℕ) (ring more : List Text) → newest m (newest m ring ++ more) ≡ newest m (ring ++ more)
newest-newest m ring more =
    let i = length ring - m in
    let whole = ring ++ more in
    rw (← drop-append i ring more (omega arith), drop-drop)
      (drop_at (i + (length (drop i whole) - m)) (length whole - m) whole
        (omega (arith, length-drop i whole, length-append ring more)))

pub ring_of-push_undo :
    (undos : Undos) (k : Text) (b : Text)
    → ring_of (push_undo undos k b) k ≡ newest iptables_undo_depth (ring_of undos k ++ b ∷ [])
unfolding ring_of push_undo
ring_of-push_undo undos k b =
    rw (lookup-insert_self k (trimmed (or_empty (lookup k undos) ++ b ∷ [])) undos)
      (trimmed-newest (or_empty (lookup k undos) ++ b ∷ []))

-- Whatever is pushed onto a ring of at most ten blobs, it holds the ten newest of all, in order.
pub ring_of-push_all :
    (undos : Undos) (k : Text) (blobs : List Text)
    → length (ring_of undos k) ≤ iptables_undo_depth
    → ring_of (push_all undos k blobs) k ≡ newest iptables_undo_depth (ring_of undos k ++ blobs)
unfolding push_all
ring_of-push_all undos k [] short =
    rw append-nil
      (drop_at 0 (length (ring_of undos k) - iptables_undo_depth) (ring_of undos k) (omega arith))
ring_of-push_all undos k (b ∷ blobs) short =
    let ring = ring_of undos k ++ b ∷ [] in
    let pushed = ring_of-push_undo undos k b in
    ring_of-push_all (push_undo undos k b) k blobs
      (rw pushed (omega (arith, length-drop (length ring - iptables_undo_depth) ring)))
    ∙ (rw (pushed, newest-newest, append_assoc))

split_last-append : (bs : List Text) (b : Text) → split_last (bs ++ b ∷ []) ≡ some (b, bs)
unfolding split_last
split_last-append [] b = refl
split_last-append (c ∷ bs) b = rw (split_last-append bs b)

pub pop_undo-append :
    (undos : Undos) (k : Text) (bs : List Text) (b : Text)
    → ring_of undos k ≡ bs ++ b ∷ []
    → (let (o, undos') = pop_undo undos k in (o ≡ some b) × (ring_of undos' k ≡ bs))
unfolding pop_undo
pop_undo-append undos k bs b e =
    rw (e, split_last-append bs b) (refl, unfold ring_of in rw (lookup-insert_self k bs undos))

pop_undo-empty :
    (undos : Undos) (k : Text) → ring_of undos k ≡ [] → pop_undo undos k ≡ (none, undos)
unfolding pop_undo
pop_undo-empty undos k e = rw e

-- `n` undos hand out the `n` newest blobs, the newest first, and stop when the ring is empty.
pop_all-reverse :
    (n : ℕ) (undos : Undos) (k : Text) (newest_first : List Text)
    → ring_of undos k ≡ reverse newest_first
    → ((pop_all undos k n).0 ≡ take n newest_first)
      × (ring_of (pop_all undos k n).1 k ≡ reverse (drop n newest_first))
unfolding pop_all
pop_all-reverse zero undos k bs e = (refl, e)
pop_all-reverse (suc n) undos k [] e =
    let empty = pop_undo-empty undos k e in
    rw (ap (λ (p : Option Text × Undos). p.0) empty, ap (λ (p : Option Text × Undos). p.1) empty)
      (refl, e)
pop_all-reverse (suc n) undos k (b ∷ bs) e =
    let (out, left) = pop_undo-append undos k (reverse bs) b (e ∙ reverse-append (b ∷ []) bs) in
    let (outs, rest) = pop_all-reverse n (pop_undo undos k).1 k bs left in
    rw out (ap (λ l. b ∷ l) outs, rest)

-- After any number of changes, each of which pushed its snapshot, `n` undos hand out the snapshots of
-- the last changes, the latest first, as far as the ten newest go.
pub pop_all-push_all :
    (undos : Undos) (k : Text) (blobs : List Text) (n : ℕ)
    → length (ring_of undos k) ≤ iptables_undo_depth
    → (pop_all (push_all undos k blobs) k n).0
      ≡ take n (reverse (newest iptables_undo_depth (ring_of undos k ++ blobs)))
pop_all-push_all undos k blobs n short =
    let ring = newest iptables_undo_depth (ring_of undos k ++ blobs) in
    (pop_all-reverse n (push_all undos k blobs) k (reverse ring)
      (ring_of-push_all undos k blobs short ∙ sym (reverse-reverse ring))).0

-- The ring of one device and family is no business of another's.
ring_of-push_undo_ne :
    (undos : Undos) (k j blob : Text) → k ≢ j → ring_of (push_undo undos k blob) j ≡ ring_of undos j
unfolding ring_of push_undo
ring_of-push_undo_ne undos k j blob ne = rw lookup-insert (ground (arith, text_eq_iff k j))
