-- ===== src/Iptables/Actions/Checks.antt =====
-- What the actions refuse, and what an accepted rule's command can hold.
use adbq.Prelude.{
  ℕ, zero, suc, ◌≡◌, refl, arith, List, [], ◌∷◌, ◌++◌, Option, some, true, false, not, ◌&&◌, inl,
  inr, Bool-cases, Text, codes, contains_any, has_byte, join, text_eq,
}
use adbq.Prelude.Int.{ℤ, pos, negsuc}
use adbq.Decimal.{decimal}
use adbq.Decimal.Digits.{AllDigits, decimal-AllDigits}
use adbq.Iptables.{
  IpFamily, ipv4, ipv6, BackendInfo, disallowed, all_allowed, validate, all_ident, is_ident_byte,
  looks_like_ident,
}
use adbq.Iptables.Commands.{iptables_binary, rule_words, ipt_rule_cmd}
use adbq.Iptables.Actions.{
  Adb, IptError, Result, ok, err, World, assert_writable, begin_mutation, run_and_list, run_only,
  import_from, run_mutation, append_rule, insert_rule, delete_rule, flush_iptables, set_policy,
  create_chain, delete_chain, import_iptables, undo_iptables, unless_refused, after_assert,
}

-- the answer is an error, and the device and the undo rings are as they were
abbrev pub Untouched {ℓ} : {A : Type ℓ} {W : Type 0} → W → Result A × W → Type 0
Untouched w (ok a, w') = ⊥
Untouched w (err e, w') = w' ≡ w

module _ {D : Type 0} (adb : Adb D) (serial : Text) (fam : IpFamily) (probe : Option BackendInfo)
    (w : World D) where
  module _ (e : IptError) (refused : assert_writable probe ≡ some e) where
    begin-refused : begin_mutation adb serial fam probe w ≡ (some e, w)
    unfolding begin_mutation after_assert
    begin-refused = rw refused refl

    run_mutation-refused :
        (table op chain : Text) (position : ℤ) (spec : List Text)
        → Untouched w (run_mutation adb serial fam probe table op chain position spec w)
    unfolding run_mutation run_and_list
    run_mutation-refused table op chain position spec =
        rw begin-refused (elim (Bool-cases (validate spec)) [
          | inl v ↦
              rw v (elim (Bool-cases (looks_like_ident chain)) [
                | inl c ↦ rw c refl
                | inr c ↦ rw c refl
              ])
          | inr v ↦ rw v refl
        ])

    delete_rule-refused :
        (table chain : Text) (num : ℤ)
        → Untouched w (delete_rule adb serial fam probe table chain num w)
    unfolding delete_rule run_and_list
    delete_rule-refused table chain (pos zero) = refl
    delete_rule-refused table chain (pos (suc n)) = rw begin-refused refl
    delete_rule-refused table chain (negsuc n) = refl

    set_policy-refused :
        (table chain policy : Text)
        → Untouched w (set_policy adb serial fam probe table chain policy w)
    unfolding set_policy run_only
    set_policy-refused table chain policy =
        rw begin-refused
          (elim (Bool-cases (
            not (text_eq policy (codes "ACCEPT"))
            && not (text_eq policy (codes "DROP"))
            && not (text_eq policy (codes "REJECT")))) [ inl c ↦ rw c refl | inr c ↦ rw c refl ])

    create_chain-refused :
        (table chain : Text) → Untouched w (create_chain adb serial fam probe table chain w)
    unfolding create_chain run_only
    create_chain-refused table chain =
        rw begin-refused
          (elim (Bool-cases (looks_like_ident chain)) [ inl c ↦ rw c refl | inr c ↦ rw c refl ])

    delete_chain-refused :
        (table chain : Text) → Untouched w (delete_chain adb serial fam probe table chain w)
    unfolding delete_chain run_only
    delete_chain-refused table chain =
        rw begin-refused
          (elim (Bool-cases (looks_like_ident chain)) [ inl c ↦ rw c refl | inr c ↦ rw c refl ])

    -- On a device that the probe found without rules that can be written (nftables only, or no
    -- iptables), every change is answered with an error, with nothing run on the device after the probe
    -- and no snapshot pushed or popped.
    pub read_only-Untouched :
        (table chain policy blob : Text) (spec : List Text) (num : ℤ)
        → Untouched w (append_rule adb serial fam probe table chain spec w)
          × Untouched w (insert_rule adb serial fam probe table chain num spec w)
          × Untouched w (delete_rule adb serial fam probe table chain num w)
          × Untouched w (flush_iptables adb serial fam probe table chain w)
          × Untouched w (set_policy adb serial fam probe table chain policy w)
          × Untouched w (create_chain adb serial fam probe table chain w)
          × Untouched w (delete_chain adb serial fam probe table chain w)
          × Untouched w (import_iptables adb serial fam probe blob w)
          × Untouched w (undo_iptables adb serial fam probe w)
    unfolding append_rule insert_rule flush_iptables import_iptables undo_iptables run_and_list
        import_from unless_refused
    read_only-Untouched table chain policy blob spec num = (
      run_mutation-refused table (codes "-A") chain (pos 0) spec,
      run_mutation-refused table (codes "-I") chain num spec,
      delete_rule-refused table chain num,
      rw begin-refused refl,
      set_policy-refused table chain policy,
      create_chain-refused table chain,
      delete_chain-refused table chain,
      rw begin-refused refl,
      rw refused refl,
    )

-- a text without any of the bytes that a rule's arguments may not hold
abbrev pub Clean : Text → Type 0
Clean s = contains_any s disallowed ≡ false

abbrev AllClean : List Text → Type 0
AllClean [] = Unit
AllClean (s ∷ ss) = Clean s × AllClean ss

append-Clean : (s t : Text) → Clean s → Clean t → Clean (s ++ t)
unfolding contains_any
append-Clean [] t hs ht = ht
append-Clean (c ∷ s) t hs ht = ground (arith, append-Clean s t)

join-Clean : (ss : List Text) (sep : Text) → Clean sep → AllClean ss → Clean (join ss sep)
unfolding join
join-Clean [] sep h k = unfold contains_any in refl
join-Clean (s ∷ []) sep h k = k.0
join-Clean (s ∷ t ∷ ss) sep h k =
    append-Clean s (sep ++ join (t ∷ ss) sep) k.0
      (append-Clean sep (join (t ∷ ss) sep) h (join-Clean (t ∷ ss) sep h k.1))

AllClean-append : (ss ts : List Text) → AllClean ss → AllClean ts → AllClean (ss ++ ts)
AllClean-append [] ts hs ht = ht
AllClean-append (s ∷ ss) ts hs ht = (hs.0, AllClean-append ss ts hs.1 ht)

digits-Clean : (s : Text) → AllDigits s → Clean s
unfolding contains_any has_byte
digits-Clean [] h = refl
digits-Clean (c ∷ s) (low, high, h) = ground (arith, digits-Clean s h)

all_allowed-AllClean : (spec : List Text) → all_allowed spec ≡ true → AllClean spec
unfolding all_allowed
all_allowed-AllClean [] h = tt
all_allowed-AllClean (a ∷ spec) h = elim (Bool-cases (contains_any a disallowed)) [
  | inl e ↦ ground arith
  | inr e ↦ (e, all_allowed-AllClean spec (ground arith))
]

is_ident_byte-allowed : (c : ℕ) → is_ident_byte c ≡ true → has_byte disallowed c ≡ false
unfolding has_byte
is_ident_byte-allowed c h = ground arith

all_ident-Clean : (s : Text) → all_ident s ≡ true → Clean s
unfolding all_ident contains_any
all_ident-Clean [] h = refl
all_ident-Clean (c ∷ s) h = elim (Bool-cases (is_ident_byte c)) [
  | inl e ↦ ground (arith, is_ident_byte-allowed c e, all_ident-Clean s (ground arith))
  | inr e ↦ ground arith
]

looks_like_ident-Clean : (s : Text) → looks_like_ident s ≡ true → Clean s
unfolding looks_like_ident
looks_like_ident-Clean [] h = cc
looks_like_ident-Clean (c ∷ s) h = all_ident-Clean (c ∷ s) h

validate-AllClean : (spec : List Text) → validate spec ≡ true → AllClean spec
unfolding validate
validate-AllClean [] h = tt
validate-AllClean (a ∷ spec) h = all_allowed-AllClean (a ∷ spec) h

binary-Clean : (fam : IpFamily) → Clean (iptables_binary fam)
unfolding iptables_binary contains_any has_byte
binary-Clean ipv4 = refl
binary-Clean ipv6 = refl

space-Clean : Clean (codes " ")
unfolding contains_any has_byte
space-Clean = refl

module _ (fam : IpFamily) (table op chain : Text) (table_clean : Clean table) (op_clean : Clean op)
    (chain_clean : Clean chain) where
  front_clean : AllClean (iptables_binary fam ∷ codes "-t" ∷ table ∷ op ∷ chain ∷ [])
  front_clean = (
    binary-Clean fam,
    ((unfold contains_any has_byte in refl), (table_clean, (op_clean, (chain_clean, tt)))),
  )

  rule_words-AllClean : (p : ℤ) → AllClean (rule_words fam table op chain p)
  unfolding rule_words
  rule_words-AllClean (pos zero) = front_clean
  rule_words-AllClean (negsuc n) = front_clean
  rule_words-AllClean (pos (suc n)) = elim (Bool-cases (text_eq op (codes "-I"))) [
    | inl e ↦ rw e (
        let (a, (b, (c, (d, (f, _))))) = front_clean in
        (a, (b, (c, (d, (f, (digits-Clean (decimal (suc n)) (decimal-AllDigits (suc n)), tt)))))))
    | inr e ↦ rw e front_clean
  ]

-- The command of a rule whose spec and chain pass the checks has none of the bytes
-- ' " ` \ \n \r ; & | < > $ as long as its table and its operation have none.
pub ipt_rule_cmd-Clean :
    (fam : IpFamily) (table op chain : Text) (position : ℤ) (spec : List Text)
    → contains_any table disallowed ≡ false
    → contains_any op disallowed ≡ false
    → looks_like_ident chain ≡ true
    → validate spec ≡ true
    → contains_any (ipt_rule_cmd fam table op chain position spec) disallowed ≡ false
unfolding ipt_rule_cmd
ipt_rule_cmd-Clean fam table op chain position spec table_clean op_clean ident valid =
    let words = rule_words fam table op chain position in
    join-Clean (words ++ join spec (codes " ") ∷ []) (codes " ") space-Clean (
      AllClean-append words (join spec (codes " ") ∷ [])
        (rule_words-AllClean fam table op chain table_clean op_clean
          (looks_like_ident-Clean chain ident) position)
        (join-Clean spec (codes " ") space-Clean (validate-AllClean spec valid), tt))
