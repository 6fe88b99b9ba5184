-- ===== src/Iptables/Parse/Nft/Numbering.antt =====
-- How the rules of an nftables listing are numbered.
use adbq.Prelude.{
  ℕ, ◌+◌, ◌≡◌, refl, ap, ◌∙◌, arith, List, [], ◌∷◌, ◌++◌, Option, none, some, ◌||◌, inl, inr,
  Bool-cases, Text, codes, text_eq, has_prefix, length, length-append,
}
use adbq.Prelude.Int.{pos}
use adbq.Strings.{trim_space, split, fields}
use adbq.Iptables.{IpFamily}
use adbq.Iptables.Parse.{IptRule, IptChain, named_chain, flushed}
use adbq.Iptables.Parse.Nft.{
  NftState, parse_nft_ruleset, nft_loop, nft_line, flush_chain, table_line, begin_chain, in_chain,
  policy_line, policy_of, add_rule, nft_rule, behind, want_fam,
}

-- the rules are numbered from 1 on
abbrev pub NumberedFrom : ℕ → List IptRule → Type 0
NumberedFrom n [] = Unit
NumberedFrom n (r ∷ rs) = (r.num ≡ pos (n + 1)) × NumberedFrom (n + 1) rs

abbrev pub AllNumbered : List IptChain → Type 0
AllNumbered [] = Unit
AllNumbered (c ∷ cs) = NumberedFrom 0 c.rules × AllNumbered cs

abbrev OpenOk : Option IptChain → ℕ → Type 0
OpenOk none n = Unit
OpenOk (some c) n = NumberedFrom 0 c.rules × (length c.rules ≡ n)

record Counted (st : NftState) : Type 0 where
  closed : AllNumbered st.chains
  current : OpenOk st.cur st.num

NumberedFrom-append :
    (n : ℕ) (rs : List IptRule) (r : IptRule)
    → NumberedFrom n rs
    → r.num ≡ pos (n + length rs + 1)
    → NumberedFrom n (rs ++ r ∷ [])
NumberedFrom-append n [] r h e = (e ∙ ap pos (omega arith), tt)
NumberedFrom-append n (q ∷ rs) r (hq, h) e =
    (hq, NumberedFrom-append (n + 1) rs r h (e ∙ ap pos (omega arith)))

AllNumbered-append :
    (cs : List IptChain) (c : IptChain)
    → AllNumbered cs
    → NumberedFrom 0 c.rules
    → AllNumbered (cs ++ c ∷ [])
AllNumbered-append [] c h hc = (hc, tt)
AllNumbered-append (d ∷ cs) c (hd, h) hc = (hd, AllNumbered-append cs c h hc)

flushed-AllNumbered :
    (cs : List IptChain) (cur : Option IptChain) (n : ℕ)
    → AllNumbered cs
    → OpenOk cur n
    → AllNumbered (flushed (cs, cur))
unfolding flushed
flushed-AllNumbered cs none n h hc = h
flushed-AllNumbered cs (some c) n h (hc, e) = AllNumbered-append cs c h hc

flush_chain-Counted : (st : NftState) → Counted st → Counted (flush_chain st)
unfolding flush_chain
flush_chain-Counted st h = record {
  closed = flushed-AllNumbered st.chains st.cur st.num h.closed h.current;
  current = tt;
}

table_line-Counted : (fs : List Text) (st : NftState) → Counted st → Counted (table_line fs st)
unfolding table_line
table_line-Counted [] st h = h
table_line-Counted (w ∷ []) st h = h
table_line-Counted (w ∷ v ∷ fs) st h = record { closed = h.closed; current = h.current }

begin_chain-Counted :
    (fam : IpFamily) (ln : Text) (st : NftState) → Counted st → Counted (begin_chain fam ln st)
unfolding begin_chain
begin_chain-Counted fam ln st h =
    elim (Bool-cases (text_eq st.table_fam (want_fam fam) || text_eq st.table_fam (codes "inet"))) [
      | inl e ↦ rw e (record { closed = h.closed; current = (unfold named_chain in (tt, refl)) })
      | inr e ↦ rw e h
    ]

policy_of-rules : (fs : List Text) (c : IptChain) → (policy_of fs c).rules ≡ c.rules
unfolding policy_of
policy_of-rules [] c = refl
policy_of-rules (w ∷ ws) c = refl

module _ (ln : Text) (c : IptChain) (st : NftState) (closed : AllNumbered st.chains)
    (numbered : NumberedFrom 0 c.rules) (count : length c.rules ≡ st.num) where
  add_rule-Counted : Counted (add_rule ln c st)
  unfolding add_rule nft_rule
  add_rule-Counted =
      let r = nft_rule (st.num + 1) ln in
      record {
        closed = closed;
        current = (
          NumberedFrom-append 0 c.rules r numbered (ap pos (omega (arith, count))),
          length-append c.rules (r ∷ []) ∙ omega (arith, count),
        );
      }

  policy_line-Counted : (o : Option Text) → Counted (policy_line o ln c st)
  unfolding policy_line
  policy_line-Counted none = add_rule-Counted
  policy_line-Counted (some after) = elim (Bool-cases (has_prefix ln (codes "type "))) [
    | inl e ↦ rw e (record {
      closed = closed;
      current = rw (policy_of-rules (fields after) c) (numbered, count);
    })
    | inr e ↦ rw e add_rule-Counted
  ]

in_chain-Counted :
    (cur : Option IptChain) (ln : Text) (st : NftState)
    → Counted st
    → OpenOk cur st.num
    → Counted (in_chain cur ln st)
unfolding in_chain
in_chain-Counted none ln st h hc = h
in_chain-Counted (some c) ln st h (hc, e) =
    policy_line-Counted ln c st h.closed hc e (behind (codes "policy ") ln)

nft_line-Counted :
    (fam : IpFamily) (ln : Text) (st : NftState) → Counted st → Counted (nft_line fam ln st)
unfolding nft_line
nft_line-Counted fam ln st h = elim (Bool-cases (text_eq ln [])) [
  | inl e ↦ rw e h
  | inr e ↦ elim (Bool-cases (has_prefix ln (codes "table "))) [
    | inl t ↦ rw (e, t) (table_line-Counted (fields ln) st h)
    | inr t ↦ elim (Bool-cases (has_prefix ln (codes "chain "))) [
      | inl c ↦
          rw (e, t, c) (begin_chain-Counted fam ln (flush_chain st) (flush_chain-Counted st h))
      | inr c ↦ elim (Bool-cases (text_eq ln (codes "}"))) [
        | inl b ↦ rw (e, t, c, b) (flush_chain-Counted st h)
        | inr b ↦ rw (e, t, c, b) (in_chain-Counted st.cur ln st h h.current)
      ]
    ]
  ]
]

nft_loop-Counted :
    (fam : IpFamily) (lines : List Text) (st : NftState)
    → Counted st
    → Counted (nft_loop fam lines st)
unfolding nft_loop
nft_loop-Counted fam [] st h = h
nft_loop-Counted fam (raw ∷ lines) st h =
    nft_loop-Counted fam lines (nft_line fam (trim_space raw) st)
      (nft_line-Counted fam (trim_space raw) st h)

-- Whatever nft printed, the rules of each chain that is shown are numbered 1, 2, 3 and so on, in order.
pub parse_nft_ruleset-AllNumbered :
    (out : Text) (fam : IpFamily) → AllNumbered (parse_nft_ruleset out fam)
unfolding parse_nft_ruleset
parse_nft_ruleset-AllNumbered out fam =
    let start : NftState = record { chains = []; cur = none; table_fam = []; num = 0 } in
    let h = nft_loop-Counted fam (split b'\n' out) start (record { closed = tt; current = tt }) in
    let st = nft_loop fam (split b'\n' out) start in
    flushed-AllNumbered st.chains st.cur st.num h.closed h.current
