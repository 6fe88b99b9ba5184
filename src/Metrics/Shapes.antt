-- ===== src/Metrics/Shapes.antt =====
-- The shape of a command: what it leaves out.
use adbq.Prelude.{
  ℕ, ◌≡◌, refl, ap, List, [], ◌∷◌, ◌++◌, true, false, ◌⊎◌, inl, inr, Bool-cases, if◌then◌else◌,
  Text, codes, text_eq, has_byte, contains_any,
}
use adbq.Strings.{trim_space}
use adbq.Metrics.{before_any, first_word, remote_key, sub_key, without_serial, spawn_key_for}

abbrev pub separators : Text
separators = codes " \t\n;|&"

before_any-clean : (chars s : Text) → contains_any (before_any chars s) chars ≡ false
unfolding before_any contains_any
before_any-clean chars [] = refl
before_any-clean chars (c ∷ s) = elim (Bool-cases (has_byte chars c)) [
  | inl e ↦ rw e refl
  | inr e ↦ rw e (rw e (before_any-clean chars s))
]

-- the key of a remote command is one word, or the command starts with a separator
abbrev pub OneWord : Text → Text → Type 0
OneWord remote key =
    (key ≡ codes "shell")
    ⊎ ((w : Text) × (key ≡ codes "shell " ++ w)
        × ((contains_any w separators ≡ false)
            ⊎ ((c : ℕ) × (s : Text) × (trim_space remote ≡ c ∷ s)
                × (has_byte separators c ≡ true))))

first_word-cut :
    (c : ℕ) (s : Text)
    → has_byte separators c ≡ false
    → first_word (c ∷ s) ≡ before_any separators (c ∷ s)
unfolding first_word
first_word-cut c s e = ap (λ b. if b then c ∷ s else before_any separators (c ∷ s)) e

first_word-split :
    (s : Text)
    → (contains_any (first_word s) separators ≡ false)
      ⊎ ((c : ℕ) × (t : Text) × (s ≡ c ∷ t) × (has_byte separators c ≡ true))
first_word-split [] = inl (unfold first_word contains_any in refl)
first_word-split (c ∷ s) = elim (Bool-cases (has_byte separators c)) [
  | inl e ↦ inr (c, s, refl, e)
  | inr e ↦ inl (rw (first_word-cut c s e) (before_any-clean separators (c ∷ s)))
]

remote_key-OneWord :
    (remote w : Text)
    → (contains_any w separators ≡ false)
      ⊎ ((c : ℕ) × (t : Text) × (trim_space remote ≡ c ∷ t) × (has_byte separators c ≡ true))
    → OneWord remote (remote_key w)
unfolding remote_key
remote_key-OneWord remote [] h = inl refl
remote_key-OneWord remote (c ∷ w) h = inr (c ∷ w, refl, h)

-- The key of `adb -s <serial> shell <remote> ...` is the one without the serial and without the
-- arguments after the remote command; and it is `shell`, or `shell` and a text that has no
-- separator (blank, newline, `;`, `|` or `&`), unless the trimmed remote command starts with a
-- separator.
pub spawn_key_for-shell :
    (bin serial remote : Text) (rest : List Text)
    → (spawn_key_for (bin ∷ codes "-s" ∷ serial ∷ codes "shell" ∷ remote ∷ rest)
        ≡ spawn_key_for (bin ∷ codes "shell" ∷ remote ∷ []))
      × OneWord remote (spawn_key_for (bin ∷ codes "-s" ∷ serial ∷ codes "shell" ∷ remote ∷ rest))
unfolding spawn_key_for sub_key without_serial text_eq
spawn_key_for-shell bin serial remote rest = (
  refl,
  remote_key-OneWord remote (first_word (trim_space remote)) (first_word-split (trim_space remote)),
)
