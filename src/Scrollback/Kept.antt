-- ===== src/Scrollback/Kept.antt =====
-- What a session's log holds of what the session printed.
use adbq.Prelude.{
  ℕ, ◌+◌, ◌-◌, ◌*◌, ◌≤◌, ◌<◌, ◌≡◌, refl, sym, ap, ◌∙◌, arith, List, [], ◌∷◌, ◌++◌, append-nil,
  append_assoc, none, some, Bool, true, false, ◌||◌, ◌⊎◌, inl, inr, if_both, ltb, length,
  length-append, length-drop, take, drop, drop_at, drop-drop, Text,
}
use mathlib.Core.Path.{subst}
use adbq.Scrollback.{
  scrollback_cap, scrollback_buffer, trim_every, CappedWriter, no_faults, flush_buffer, tail_of,
  rewritten, after_flush, trim, after_write, write, close_writer, open_writer, read_scrollback,
}
use adbq.Scrollback.Buffered.{sound, take-drop, write_buffer-Took, flush_buffer-sound}

-- What is kept, on the file and in the buffer, is the end of a text: all of it, or at least as much
-- as the cap.
abbrev Recent : Text → Text → Text → Type 0
Recent s d b =
    (cut : Text) × (s ≡ cut ++ (d ++ b)) × ((cut ≡ []) ⊎ (scrollback_cap ≤ length (d ++ b)))

tail_of-Recent : (s : Text) → Recent s (tail_of scrollback_cap s) []
unfolding tail_of
tail_of-Recent s =
    if_both (λ t. Recent s t []) (ltb scrollback_cap (length s))
      (drop (length s - scrollback_cap) s) s
      (λ t. (
        take (length s - scrollback_cap) s,
        sym (take-drop (length s - scrollback_cap) s)
            ∙ ap (λ u. take (length s - scrollback_cap) s ++ u)
                (sym (append-nil (drop (length s - scrollback_cap) s))),
        inr (
            grind (
              arith,
              length-append (drop (length s - scrollback_cap) s) [],
              length-drop (length s - scrollback_cap) s,
            )),
      ))
      (λ f. ([], sym (append-nil s), inl refl))

tail_of-le : (s : Text) → length (tail_of scrollback_cap s) < 2 * scrollback_cap
unfolding tail_of
tail_of-le s = grind (arith, length-drop (length s - scrollback_cap) s)

-- how long it can be, by what was written since the size was last looked at
abbrev Bounded : Text → Text → ℕ → Type 0
Bounded d b c = (length (d ++ b) < 2 * scrollback_cap + c) × (c ≤ trim_every)

abbrev Trimmed : Text → Text → ℕ → CappedWriter → Type 0
Trimmed d b c w =
    (d' : Text) × (w ≡ sound d' [] c) × Recent (d ++ b) d' [] × (length d' < 2 * scrollback_cap)

trim-Trimmed : (d b : Text) (c : ℕ) → Trimmed d b c (trim no_faults (sound d b c))
unfolding trim after_flush rewritten
trim-Trimmed d b c =
    subst (λ x. Trimmed d b c (after_flush no_faults x)) (sym (flush_buffer-sound d b c))
      (if_both (Trimmed d b c) (ltb (length (d ++ b)) (2 * scrollback_cap) || false)
        (sound (d ++ b) [] c) (sound (tail_of scrollback_cap (d ++ b)) [] c)
        (λ t. (d ++ b, refl, ([], sym (append-nil (d ++ b)), inl refl), grind arith))
        (λ f.
          (tail_of scrollback_cap (d ++ b), refl, tail_of-Recent (d ++ b), tail_of-le (d ++ b))))

Recent-append :
    (s d b p d' b' : Text) → Recent s d b → d' ++ b' ≡ (d ++ b) ++ p → Recent (s ++ p) d' b'
Recent-append s d b p d' b' (cut, e, h) q = (
  cut,
  ap (λ t. t ++ p) e ∙ append_assoc cut (d ++ b) p ∙ ap (λ t. cut ++ t) (sym q),
  elim h [ inl n ↦ inl n | inr l ↦ inr (omega (arith, length-append (d ++ b) p, ap length q)) ],
)

Recent-Recent : (s d b d' b' : Text) → Recent s d b → Recent (d ++ b) d' b' → Recent s d' b'
Recent-Recent s d b d' b' (cut, e, h) (cut', e', h') = (
  cut ++ cut',
  e ∙ ap (λ t. cut ++ t) e' ∙ sym (append_assoc cut cut' (d' ++ b')),
  elim h' [
    | inr l ↦ inr l
    | inl n' ↦ elim h [
      | inl n ↦ inl (ap (λ t. t ++ cut') n ∙ n')
      | inr l ↦ inr (subst (λ t. scrollback_cap ≤ length t) (e' ∙ ap (λ t. t ++ (d' ++ b')) n') l)
    ]
  ],
)

-- one write, after which the kept text is still the end of all
abbrev Wrote : Text → Text → CappedWriter × ℕ × Bool → Type 0
Wrote s p x =
    (d' : Text) × (b' : Text) × (c' : ℕ) × (x ≡ (sound d' b' c', length p, true))
    × (length b' ≤ scrollback_buffer)
    × Recent (s ++ p) d' b'
    × Bounded d' b' c'

write-Wrote :
    (s d b p : Text) (c : ℕ)
    → length b ≤ scrollback_buffer
    → Recent s d b
    → Bounded d b c
    → Wrote s p (write no_faults p (sound d b c))
unfolding write after_write
write-Wrote s d b p c h r k =
    let (d', b', e, q, l) = write_buffer-Took d b p c h in
    let r' = Recent-append s d b p d' b' r q in
    let (d1, e1, r1, k1) = trim-Trimmed d' b' 0 in
    subst (λ x. Wrote s p (after_write no_faults x)) (sym e)
      (if_both (Wrote s p) (ltb trim_every (c + length p))
        (trim no_faults (sound d' b' 0), length p, true)
        (sound d' b' (c + length p), length p, true)
        (λ t. (
          d1,
          [],
          0,
          ap (λ w. (w, length p, true)) e1,
          omega arith,
          Recent-Recent (s ++ p) d' b' d1 [] r' r1,
          (omega (arith, length-append d1 [], k1), omega arith),
        ))
        (λ f. (
          d',
          b',
          c + length p,
          refl,
          l,
          r',
          (omega (arith, length-append (d ++ b) p, ap length q, k.0), grind arith),
        )))

-- a session's writes, one after another
abbrev pub write_all : List Text → CappedWriter → CappedWriter
write_all [] w = w
write_all (p ∷ ps) w = write_all ps (write no_faults p w).0

abbrev pub printed : List Text → Text
printed [] = []
printed (p ∷ ps) = p ++ printed ps

abbrev AllWrote : Text → CappedWriter → Type 0
AllWrote s w =
    (d : Text) × (b : Text) × (c : ℕ) × (w ≡ sound d b c)
    × (length b ≤ scrollback_buffer)
    × Recent s d b
    × Bounded d b c

write_all-AllWrote :
    (ps : List Text) (s d b : Text) (c : ℕ)
    → length b ≤ scrollback_buffer
    → Recent s d b
    → Bounded d b c
    → AllWrote (s ++ printed ps) (write_all ps (sound d b c))
write_all-AllWrote [] s d b c h r k =
    (d, b, c, refl, h, subst (λ t. Recent t d b) (sym (append-nil s)) r, k)
write_all-AllWrote (p ∷ ps) s d b c h r k =
    let (d', b', c', e, h', r', k') = write-Wrote s d b p c h r k in
    subst (λ t. AllWrote t (write_all (p ∷ ps) (sound d b c))) (append_assoc s p (printed ps))
      (subst (λ x. AllWrote ((s ++ p) ++ printed ps) (write_all ps x.0)) (sym e)
        (write_all-AllWrote ps (s ++ p) d' b' c' h' r' k'))

tail_of-drop : (n : ℕ) (s : Text) → tail_of n s ≡ drop (length s - n) s
unfolding tail_of
tail_of-drop n s =
    if_both (λ t. t ≡ drop (length s - n) s) (ltb n (length s)) (drop (length s - n) s) s
      (λ t. refl) (λ f. sym (drop_at (length s - n) 0 s (grind arith)))

drop-own : (xs ys : Text) → drop (length xs) (xs ++ ys) ≡ ys
drop-own [] ys = refl
drop-own (x ∷ xs) ys = drop-own xs ys

tail_of-append : (n : ℕ) (xs ys : Text) → n ≤ length ys → tail_of n (xs ++ ys) ≡ tail_of n ys
tail_of-append n xs ys h =
    tail_of-drop n (xs ++ ys)
    ∙ drop_at (length (xs ++ ys) - n) (length xs + (length ys - n)) (xs ++ ys)
        (omega (arith, length-append xs ys))
    ∙ sym (drop-drop (length ys - n) (length xs) (xs ++ ys))
    ∙ ap (λ t. drop (length ys - n) t) (drop-own xs ys)
    ∙ sym (tail_of-drop n ys)

Recent-tail : (s d : Text) → Recent s d [] → tail_of scrollback_cap d ≡ tail_of scrollback_cap s
Recent-tail s d (cut, e, h) =
    let e' = e ∙ ap (λ t. cut ++ t) (append-nil d) in
    elim h [
      | inl n ↦ ap (tail_of scrollback_cap) (sym (e' ∙ ap (λ t. t ++ d) n))
      | inr l ↦
          sym (tail_of-append scrollback_cap cut d (omega (arith, length-append d [])))
          ∙ ap (tail_of scrollback_cap) (sym e')
    ]

-- the file after a session
abbrev pub log_of : Text → List Text → Text
log_of old ps = (close_writer no_faults (write_all ps (open_writer old))).0.disk

Recent-flushed : (s d b : Text) → Recent s d b → Recent s (d ++ b) []
Recent-flushed s d b (cut, e, h) = (
  cut,
  e ∙ ap (λ t. cut ++ t) (sym (append-nil (d ++ b))),
  elim h [ inl n ↦ inl n | inr l ↦ inr (omega (arith, length-append (d ++ b) [])) ],
)

-- What was printed is what is read. After any number of writes to a log that had some bytes, and the
-- closing of it, reading the log gives the last 262144 bytes of the old bytes and all that was
-- written, and all of it if there are no more; and the file is at most 589824 bytes long. The old
-- bytes are fewer than 524288, and no system call fails.
pub read_scrollback-write_all :
    (old : Text) (ps : List Text)
    → length old < 2 * scrollback_cap
    → (read_scrollback (some (log_of old ps)) ≡ tail_of scrollback_cap (old ++ printed ps))
      × (length (log_of old ps) < 2 * scrollback_cap + trim_every)
unfolding close_writer open_writer read_scrollback
read_scrollback-write_all old ps h =
    let (d, b, c, e, l, r, k) =
      write_all-AllWrote ps old old [] 0 (omega arith) ([], sym (append-nil old), inl refl)
        (omega (arith, length-append old []), omega arith) in
    let q =
      ap (λ w. (flush_buffer none w).0.disk) e ∙ ap (λ x. x.0.disk) (flush_buffer-sound d b c) in
    (
      ap (tail_of scrollback_cap) q
          ∙ Recent-tail (old ++ printed ps) (d ++ b) (Recent-flushed (old ++ printed ps) d b r),
      omega (arith, ap length q),
    )
