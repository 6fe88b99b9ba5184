-- ===== src/Profiles/Ids.antt =====
-- The ids that `SaveProfile` gives are new.
use mathlib.Core.Path.{subst}
use adbq.Prelude.{
  ℕ, ◌+◌, ◌^◌, ◌≤◌, ◌<◌, ◌≡◌, refl, sym, ap, ◌∙◌, arith, [], ◌∷◌, ◌++◌, Option, none, some, Bool,
  true, false, if◌then◌else◌, ltb, ◌==◌, inl, inr, Bool-cases, Option-cases, not, ◌&&◌, ◌≢◌,
  has_prefix, Text, codes, text_eq, text_eq_iff,
}
use adbq.Strings.{is_space, drop_while}
use adbq.Decimal.{read_nat, read_digits}
use adbq.Decimal.Digits.{AllDigits, decimal-AllDigits}
use adbq.Decimal.Unsigned.{read_digits-decimal, decimal-cons}
use adbq.Dict.{Dict, lookup, insert, lookup-insert, lookup-insert_self}
use adbq.Profiles.{
  Profile, DeviceRecord, ProfileStore, Io, digit_run, int64_or_zero, signed_number, scan_id, seed,
  or_empty, new_profile_store, save_profiles, profile_id, stamped, store_stamped, save_profile,
}

digit_run-AllDigits : (s : Text) → AllDigits s → digit_run s ≡ s
unfolding digit_run
digit_run-AllDigits [] h = refl
digit_run-AllDigits (c ∷ s) (lo, hi, h) = ground (arith, digit_run-AllDigits s h)

signed_number-digits :
    (c : ℕ) (s : Text) (n : ℕ)
    → AllDigits (c ∷ s)
    → n < 2 ^ 63
    → read_digits 0 (c ∷ s) ≡ some n
    → signed_number (c ∷ s) ≡ n
unfolding signed_number int64_or_zero read_nat
signed_number-digits c s n (lo, hi, h) lt e =
    let plus : (c == b'+') ≡ false = ground arith in
    let minus : (c == b'-') ≡ false = ground arith in
    rw (minus, plus, digit_run-AllDigits (c ∷ s) (lo, hi, h), e, int64_or_zero) (ground arith)

scan_id-digits :
    (c : ℕ) (s : Text) (n : ℕ)
    → AllDigits (c ∷ s)
    → n < 2 ^ 63
    → read_digits 0 (c ∷ s) ≡ some n
    → scan_id (codes "p-" ++ (c ∷ s)) ≡ n
unfolding scan_id has_prefix drop_while
scan_id-digits c s n (lo, hi, h) lt e =
    let no_blank : (is_space c && not (c == b'\n')) ≡ false = ground arith in
    rw no_blank (signed_number-digits c s n (lo, hi, h) lt e)

scan_id-profile_id : (n : ℕ) → n < 2 ^ 63 → scan_id (profile_id n) ≡ n
unfolding profile_id
scan_id-profile_id n lt =
    let (c, s, e) = decimal-cons n (omega arith) in
    let digits = rw e at (decimal-AllDigits n) in
    let value = rw e at (read_digits-decimal n (omega arith)) in
    rw e (scan_id-digits c s n digits lt value)

-- no profile's id is numbered above the counter
abbrev pub NumbersBelow : ℕ → Dict Profile → Type 0
NumbersBelow seq m = (k : Text) (p : Profile) → lookup k m ≡ some p → scan_id k ≤ seq

seed-grows : (seq : ℕ) (m : Dict Profile) → seq ≤ seed seq m
unfolding seed
seed-grows seq [] = omega arith
seed-grows seq ((id, p) ∷ m) =
    ground (arith, seed-grows (if ltb seq (scan_id id) then scan_id id else seq) m)

seed-NumbersBelow : (seq : ℕ) (m : Dict Profile) → NumbersBelow (seed seq m) m
unfolding seed lookup
seed-NumbersBelow seq [] k p h = cc
seed-NumbersBelow seq ((id, q) ∷ m) k p h =
    let next = if ltb seq (scan_id id) then scan_id id else seq in
    let above : scan_id id ≤ next = ground arith in
    elim (Bool-cases (text_eq id k)) [
      | inl e ↦
          let same : scan_id id ≡ scan_id k = ap scan_id ((text_eq_iff id k).0 e) in
          omega (arith, seed-grows next m, above, same)
      | inr ne ↦ seed-NumbersBelow next m k p (rw ne at h)
    ]

-- A store that is opened counts on from the greatest number among the ids on disk: no id of a
-- profile that it holds is numbered above its counter, whatever the files hold.
pub new_profile_store-NumbersBelow :
    (on_disk : Bool) (profiles : Option (Dict Profile)) (devices : Option (Dict DeviceRecord))
    → let s = new_profile_store on_disk profiles devices in NumbersBelow s.seq s.profiles
unfolding new_profile_store or_empty
new_profile_store-NumbersBelow false profiles devices k p h = unfold lookup in cc
new_profile_store-NumbersBelow true none devices k p h = seed-NumbersBelow 0 [] k p h
new_profile_store-NumbersBelow true (some m) devices k p h = seed-NumbersBelow 0 m k p h

save_profiles-kept :
    (io : Io) (s : ProfileStore)
    → ((save_profiles io s).1.profiles ≡ s.profiles)
      × ((save_profiles io s).1.seq ≡ s.seq)
      × ((save_profiles io s).1.devices ≡ s.devices)
unfolding save_profiles
save_profiles-kept io s = ground arith

fresh_id :
    (s : ProfileStore)
    → s.seq + 1 < 2 ^ 63
    → NumbersBelow s.seq s.profiles
    → lookup (profile_id (s.seq + 1)) s.profiles ≡ none
fresh_id s fits below = elim (Option-cases (lookup (profile_id (s.seq + 1)) s.profiles)) [
  | inl e ↦ e
  | inr (p, e) ↦
      absurd
        (omega (arith, below (profile_id (s.seq + 1)) p e, scan_id-profile_id (s.seq + 1) fits))
]

-- what saving a new profile comes to
abbrev pub SavedNew : ℕ → Profile → ProfileStore → Profile × Bool × ProfileStore → Type 0
SavedNew now p s (p', saved, s') =
    (lookup p'.id s.profiles ≡ none)
    × (lookup p'.id s'.profiles ≡ some p')
    × (p' ≡ record p { id = p'.id; created_at = now; updated_at = now })
    × ((k : Text) → p'.id ≢ k → lookup k s'.profiles ≡ lookup k s.profiles)
    × NumbersBelow s'.seq s'.profiles

lookup-insert_ne :
    (j k : Text) (v : Profile) (m : Dict Profile) → k ≢ j → lookup j (insert k v m) ≡ lookup j m
lookup-insert_ne j k v m ne = ground (arith, lookup-insert j k v m, text_eq_iff k j)

insert-NumbersBelow :
    (n : ℕ) (p : Profile) (m : Dict Profile)
    → n + 1 < 2 ^ 63
    → NumbersBelow n m
    → NumbersBelow (n + 1) (insert (profile_id (n + 1)) p m)
insert-NumbersBelow n p m fits below k q h = elim (Bool-cases (text_eq (profile_id (n + 1)) k)) [
  | inl e ↦
      let same : scan_id (profile_id (n + 1)) ≡ scan_id k =
        ap scan_id ((text_eq_iff (profile_id (n + 1)) k).0 e) in
      omega (arith, same, scan_id-profile_id (n + 1) fits)
  | inr ne ↦
      let old : lookup k m ≡ some q = ground (arith, lookup-insert k (profile_id (n + 1)) p m) in
      omega (arith, below k q old)
]

store-SavedNew :
    (io : Io) (now : ℕ) (p : Profile) (s : ProfileStore)
    → s.seq + 1 < 2 ^ 63
    → NumbersBelow s.seq s.profiles
    → SavedNew now p s (store_stamped io (stamped now p [] s) s)
unfolding store_stamped stamped
store-SavedNew io now p s fits below =
    let id = profile_id (s.seq + 1) in
    let p' = record p { id = id; created_at = now; updated_at = now } in
    let s' = record s { seq = s.seq + 1; profiles = insert id p' s.profiles } in
    let (kept, seq, devices) = save_profiles-kept io s' in
    (
      fresh_id s fits below,
      ap (lookup id) kept ∙ lookup-insert_self id p' s.profiles,
      refl,
      λ k ne. ap (lookup k) kept ∙ lookup-insert_ne k id p' s.profiles ne,
      rw (kept, seq) (insert-NumbersBelow s.seq p' s.profiles fits below),
    )

-- A new profile takes no other's place. If no id is numbered above the counter, saving a profile
-- without an id gives it one that names no profile yet; afterwards that id names the profile as it
-- is returned, created and updated now, every other profile is as it was, and again no id is
-- numbered above the counter. This holds whether or not the file could be written.
pub save_profile-new :
    (io : Io) (now : ℕ) (p : Profile) (s : ProfileStore)
    → p.id ≡ []
    → s.seq + 1 < 2 ^ 63
    → NumbersBelow s.seq s.profiles
    → SavedNew now p s (save_profile io now p s)
unfolding save_profile
save_profile-new io now p s blank fits below =
    subst (λ i. SavedNew now p s (store_stamped io (stamped now p i s) s)) (sym blank)
      (store-SavedNew io now p s fits below)
