-- ===== src/Prelude/Texts.antt =====
-- Go strings as lists of bytes.
use Prim.Native.Nat.{ℕ}
use Prim.Native.Char.{code}
use Prim.Native.String.{String}
use mathlib.Core.Path.{◌≡◌, refl, ap, subst}
use mathlib.Core.Logic.{◌↔◌, ◌≢◌, inl, inr}
use mathlib.Core.Bool.{Bool, true, false, ◌&&◌, ◌||◌}
use mathlib.Core.List.{List, [], ◌∷◌, ◌++◌}
use native.Mathlib.Omega.{arith}
use adbq.Prelude.Tests.{◌==◌, if◌then◌else◌, Bool-cases, ==_iff}

abbrev pub Text : Type 0
Text = List ℕ

-- The code points of a literal: its bytes, since the literals are ASCII.
abbrev pub codes : String → Text
codes String.[] = []
codes (String.◌∷◌ c s) = code c ∷ codes s

unfoldable pub text_eq : Text → Text → Bool
text_eq [] [] = true
text_eq (a ∷ s) (b ∷ t) = a == b && text_eq s t
text_eq _ _ = false

pub text_eq_iff : (s t : Text) → (text_eq s t ≡ true) ↔ (s ≡ t)
unfolding text_eq
text_eq_iff [] [] = (λ _. refl, λ _. refl)
text_eq_iff [] (b ∷ t) = (λ h. cc, λ h. cc)
text_eq_iff (a ∷ s) [] = (λ h. cc, λ h. cc)
text_eq_iff (a ∷ s) (b ∷ t) =
    (λ h. ground (arith, text_eq_iff s t), λ h. ground (arith, text_eq_iff s t))

pub text_eq_refl : (s : Text) → text_eq s s ≡ true
text_eq_refl s = (text_eq_iff s s).1 refl

-- `strings.IndexByte(s, c) >= 0`
unfoldable pub has_byte : Text → ℕ → Bool
has_byte [] c = false
has_byte (d ∷ s) c = c == d || has_byte s c

-- `strings.ContainsAny(s, chars)`
unfoldable pub contains_any : Text → Text → Bool
contains_any [] chars = false
contains_any (c ∷ s) chars = has_byte chars c || contains_any s chars

pub contains_any-cons :
    (c : ℕ) (s chars : Text)
    → contains_any (c ∷ s) chars ≡ false
    → (has_byte chars c ≡ false) × (contains_any s chars ≡ false)
unfolding contains_any
contains_any-cons c s chars h = ground arith

-- `strings.Join(parts, sep)`
unfoldable pub join : List Text → Text → Text
join [] sep = []
join (p ∷ []) sep = p
join (p ∷ q ∷ ps) sep = p ++ (sep ++ join (q ∷ ps) sep)

-- `strings.ReplaceAll(s, c, by)` for one byte `c`
unfoldable pub replace_byte : ℕ → Text → Text → Text
replace_byte c by [] = []
replace_byte c by (d ∷ s) = (if d == c then by else d ∷ []) ++ replace_byte c by s

-- every byte of the first text is in the second
unfoldable pub covered : Text → Text → Bool
unfolding has_byte
covered [] t = true
covered (c ∷ s) t = has_byte t c && covered s t

pub has_byte-covered :
    (s t : Text) (c : ℕ) → covered s t ≡ true → has_byte t c ≡ false → has_byte s c ≡ false
unfolding covered has_byte
has_byte-covered [] t c h k = refl
has_byte-covered (d ∷ s) t c h k = elim (Bool-cases (c == d)) [
  | inl e ↦ let same : c ≡ d = (==_iff c d).0 e in cc (ap (has_byte t) same)
  | inr ne ↦ ground (arith, has_byte-covered s t c)
]

-- `strings.HasPrefix(s, p)`
unfoldable pub has_prefix : Text → Text → Bool
has_prefix s [] = true
has_prefix [] (c ∷ p) = false
has_prefix (d ∷ s) (c ∷ p) = d == c && has_prefix s p

-- `strings.HasSuffix(s, p)`: some tail of `s` is `p`
unfoldable pub has_suffix : Text → Text → Bool
has_suffix [] p = text_eq [] p
has_suffix (c ∷ s) p = text_eq (c ∷ s) p || has_suffix s p

pub has_prefix_iff : (s p : Text) → (has_prefix s p ≡ true) ↔ ((r : Text) × (s ≡ p ++ r))
unfolding has_prefix
has_prefix_iff s [] = (λ h. (s, refl), λ h. refl)
has_prefix_iff [] (c ∷ p) = (λ h. cc, λ (r, h). cc)
has_prefix_iff (d ∷ s) (c ∷ p) = (
  λ h. let (r, e) = (has_prefix_iff s p).0 (ground arith) in (r, ground arith),
  λ (r, h). ground (arith, (has_prefix_iff s p).1 (r, cc)),
)

pub has_suffix-append : (s p : Text) → has_suffix (s ++ p) p ≡ true
unfolding has_suffix
has_suffix-append [] [] = ground (arith, text_eq_refl [])
has_suffix-append [] (c ∷ p) = ground (arith, text_eq_refl (c ∷ p))
has_suffix-append (c ∷ s) p = ground (arith, has_suffix-append s p)

-- A byte that a text lacks.
abbrev pub Lacks : ℕ → Text → Type 0
Lacks b [] = Unit
Lacks b (c ∷ s) = (c ≢ b) × Lacks b s

Lacks-append : (b : ℕ) (s t : Text) → Lacks b (s ++ b ∷ t) → ⊥
Lacks-append b [] t (h, _) = h refl
Lacks-append b (c ∷ s) t (_, h) = Lacks-append b s t h

-- The last separator of a text is where it is.
pub split_unique :
    (b : ℕ) (f t a c : Text) → Lacks b a → Lacks b c → f ++ b ∷ a ≡ t ++ b ∷ c → (f ≡ t) × (a ≡ c)
split_unique b [] [] a c ha hc e = (refl, cc)
split_unique b [] (d ∷ t) a c ha hc e =
    let same : a ≡ t ++ b ∷ c = cc in absurd (Lacks-append b t c (subst (Lacks b) same ha))
split_unique b (d ∷ f) [] a c ha hc e =
    let same : c ≡ f ++ b ∷ a = cc in absurd (Lacks-append b f a (subst (Lacks b) same hc))
split_unique b (d ∷ f) (d' ∷ t) a c ha hc e =
    let (p, q) = split_unique b f t a c ha hc (cc) in (cc, q)

pub has_suffix-inv : (s p : Text) → has_suffix s p ≡ true → (r : Text) × (s ≡ r ++ p)
unfolding has_suffix
has_suffix-inv [] p h = ([], (text_eq_iff [] p).0 h)
has_suffix-inv (c ∷ s) p h = elim (Bool-cases (text_eq (c ∷ s) p)) [
  | inl e ↦ ([], (text_eq_iff (c ∷ s) p).0 e)
  | inr ne ↦ let (r, e) = has_suffix-inv s p (ground arith) in (c ∷ r, cc)
]
