-- ===== src/Scrollback/Buffered.antt =====
-- A write to the buffered writer loses nothing and reorders nothing.
use adbq.Prelude.{
  ℕ, zero, suc, ◌-◌, ◌≤◌, ◌≡◌, refl, sym, ap, ◌∙◌, arith, List, [], ◌∷◌, ◌++◌, append-nil,
  append_assoc, none, Bool, true, false, ◌||◌, ◌⊎◌, inl, inr, if_both, leb, length, length-append,
  length-drop, take, drop, Text,
}
use mathlib.Core.Path.{subst}
use adbq.Scrollback.{
  is_empty, scrollback_buffer, CappedWriter, no_faults, flush_with, flush_buffer, direct_with,
  put_rest, counted_more, after_fill, write_buffer,
}

-- a writer that can go on
abbrev pub sound : Text → Text → ℕ → CappedWriter
sound disk buffered count = record {
  disk = disk;
  is_open = true;
  buffered = buffered;
  broken = false;
  count = count;
}

pub flush_buffer-sound :
    (d b : Text) (c : ℕ) → flush_buffer none (sound d b c) ≡ (sound (d ++ b) [] c, true)
unfolding flush_buffer flush_with
flush_buffer-sound d [] c = ap (λ t. (sound t [] c, true)) (sym (append-nil d))
flush_buffer-sound d (x ∷ b) c = refl

-- the text was taken whole, and stands behind all that was there
abbrev pub Took : Text → Text → ℕ → Text → CappedWriter × ℕ × Bool → Type 0
Took d b c p x =
    (d' : Text) × (b' : Text) × (x ≡ (sound d' b' c, length p, true))
    × (d' ++ b' ≡ (d ++ b) ++ p)
    × (length b' ≤ scrollback_buffer)

direct-Took : (d p : Text) (c : ℕ) → Took d [] c p (direct_with (p, true) (sound d [] c))
unfolding direct_with
direct-Took d p c =
    (d ++ p, [], refl, append-nil (d ++ p) ∙ ap (λ t. t ++ p) (sym (append-nil d)), omega arith)

put_rest-Took :
    (d b p : Text) (c : ℕ)
    → length b ≤ scrollback_buffer
    → (leb (length p) (scrollback_buffer - length b) ≡ true) ⊎ (b ≡ [])
    → Took d b c p (put_rest no_faults p (sound d b c))
unfolding put_rest
put_rest-Took d b p c h f =
    if_both (Took d b c p) (leb (length p) (scrollback_buffer - length b))
      (sound d (b ++ p) c, length p, true) (direct_with (p, true) (sound d b c))
      (λ t. (d, b ++ p, refl, sym (append_assoc d b p), ground (arith, length-append b p)))
      (λ t. elim f [
        | inl t' ↦ cc
        | inr e ↦
            subst (λ b. Took d b c p (direct_with (p, true) (sound d b c))) (sym e)
              (direct-Took d p c)
      ])

pub take-drop {ℓ} : {A : Type ℓ} (n : ℕ) (xs : List A) → take n xs ++ drop n xs ≡ xs
take-drop zero xs = refl
take-drop (suc n) [] = refl
take-drop (suc n) (x ∷ xs) = ap (λ t. x ∷ t) (take-drop n xs)

filled_rest : (d b p : Text) (n : ℕ) → ((d ++ (b ++ take n p)) ++ []) ++ drop n p ≡ (d ++ b) ++ p
filled_rest d b p n =
    ap (λ t. t ++ drop n p) (append-nil (d ++ (b ++ take n p)))
    ∙ ap (λ t. t ++ drop n p) (sym (append_assoc d b (take n p)))
    ∙ append_assoc (d ++ b) (take n p) (drop n p)
    ∙ ap (λ t. (d ++ b) ++ t) (take-drop n p)

fits_or_empty : (x : Bool) (b : Text) → (x || is_empty b) ≡ true → (x ≡ true) ⊎ (b ≡ [])
fits_or_empty true b h = inl refl
fits_or_empty false [] h = inr refl
fits_or_empty false (c ∷ b) h = cc

-- filled up, flushed, and the rest put
slow-Took :
    (d b p : Text) (c n : ℕ)
    → n ≤ length p
    → Took d b c p (after_fill no_faults p n (flush_buffer none (sound d (b ++ take n p) c)))
unfolding after_fill counted_more
slow-Took d b p c n h =
    let (d', b', e, q, l) =
      put_rest-Took (d ++ (b ++ take n p)) [] (drop n p) c (omega arith) (inr refl) in
    (
      d',
      b',
      ap (after_fill no_faults p n) (flush_buffer-sound d (b ++ take n p) c)
          ∙ ap (counted_more n) e
          ∙ ap (λ m. (sound d' b' c, m, true)) (omega (arith, length-drop n p)),
      q ∙ filled_rest d b p n,
      l,
    )

pub write_buffer-Took :
    (d b p : Text) (c : ℕ)
    → length b ≤ scrollback_buffer
    → Took d b c p (write_buffer no_faults p (sound d b c))
unfolding write_buffer
write_buffer-Took d b p c h =
    if_both (Took d b c p) (leb (length p) (scrollback_buffer - length b) || is_empty b)
      (put_rest no_faults p (sound d b c))
      (after_fill no_faults p (scrollback_buffer - length b)
        (flush_buffer none (sound d (b ++ take (scrollback_buffer - length b) p) c)))
      (λ t.
        put_rest-Took d b p c h (fits_or_empty (leb (length p) (scrollback_buffer - length b)) b t))
      (λ f. slow-Took d b p c (scrollback_buffer - length b) (grind arith))
