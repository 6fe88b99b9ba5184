-- ===== src/Iptables/Parse/Nft.antt =====
-- `parseNftRuleset` and `nftVerdict` of internal/adb/iptables.go.
pub mod Numbering
use adbq.Prelude.{
  ℕ, ◌+◌, ◌≡◌, refl, ap, ◌∙◌, arith, List, [], ◌∷◌, ◌++◌, Option, none, some, Bool, ◌||◌, inl, inr,
  Bool-cases, if◌then◌else◌, Text, codes, text_eq, has_prefix, length, length-append, drop,
}
use adbq.Prelude.Int.{pos}
use adbq.Strings.{trim_space, split, fields, trim_prefix, trim_suffix, to_upper}
use adbq.Iptables.{IpFamily, ipv4, ipv6}
use adbq.Iptables.Parse.{IptRule, IptChain, named_chain, flushed}

-- what is behind the first place where a text stands in another: `strings.Cut`
behind : Text → Text → Option Text
behind p [] = if has_prefix [] p then some [] else none
behind p (c ∷ s) =
    let rest = behind p s in if has_prefix (c ∷ s) p then some (drop (length p) (c ∷ s)) else rest

is_verdict : Text → Bool
is_verdict w =
    text_eq w (codes "accept")
    || text_eq w (codes "drop")
    || text_eq w (codes "reject")
    || text_eq w (codes "return")
    || text_eq w (codes "queue")
    || text_eq w (codes "continue")
    || text_eq w (codes "jump")
    || text_eq w (codes "goto")

first_verdict : List Text → Text
unfolding is_verdict
first_verdict [] = []
first_verdict (w ∷ ws) = let rest = first_verdict ws in if is_verdict w then to_upper w else rest

pub nft_verdict : Text → Text
unfolding first_verdict
nft_verdict rule = first_verdict (fields rule)

want_fam : IpFamily → Text
want_fam ipv4 = codes "ip"
want_fam ipv6 = codes "ip6"

-- `chains` and `cur`, the family of the table, and the number of the last rule
pub record NftState : Type 0 where
  pub chains : List IptChain
  pub cur : Option IptChain
  pub table_fam : Text
  pub num : ℕ

flush_chain : NftState → NftState
unfolding flushed
flush_chain st = record st { chains = flushed (st.chains, st.cur); cur = none }

table_line : List Text → NftState → NftState
table_line (word ∷ family ∷ fs) st = record st { table_fam = family }
table_line fs st = st

nft_chain_name : Text → Text
nft_chain_name ln = trim_space (trim_suffix (trim_prefix ln (codes "chain ")) (codes "{"))

-- after the flush
begin_chain : IpFamily → Text → NftState → NftState
unfolding want_fam nft_chain_name named_chain
begin_chain fam ln st =
    if text_eq st.table_fam (want_fam fam) || text_eq st.table_fam (codes "inet")
    then record st { cur = some (named_chain (nft_chain_name ln)); num = 0 }
    else st

policy_of : List Text → IptChain → IptChain
policy_of [] c = c
policy_of (w ∷ ws) c = record c { policy = to_upper (trim_suffix w (codes ";")) }

nft_rule : ℕ → Text → IptRule
unfolding nft_verdict
nft_rule num ln = record {
  num = pos num;
  pkts = 0;
  bytes = 0;
  target = nft_verdict ln;
  proto = [];
  opt = [];
  in_iface = [];
  out_iface = [];
  source = [];
  dest = [];
  extra = ln;
  raw = ln;
}

add_rule : Text → IptChain → NftState → NftState
unfolding nft_rule
add_rule ln c st = record st {
  num = st.num + 1;
  cur = some (record c { rules = c.rules ++ nft_rule (st.num + 1) ln ∷ [] });
}

-- a line of the chain that is open: its policy, or a rule
policy_line : Option Text → Text → IptChain → NftState → NftState
unfolding policy_of add_rule
policy_line none ln c st = add_rule ln c st
policy_line (some after) ln c st =
    if has_prefix ln (codes "type ")
    then record st { cur = some (policy_of (fields after) c) }
    else add_rule ln c st

in_chain : Option IptChain → Text → NftState → NftState
unfolding policy_line behind
in_chain none ln st = st
in_chain (some c) ln st = policy_line (behind (codes "policy ") ln) ln c st

nft_line : IpFamily → Text → NftState → NftState
unfolding flush_chain table_line begin_chain in_chain
nft_line fam ln st =
    if text_eq ln []
    then st
    else if has_prefix ln (codes "table ")
    then table_line (fields ln) st
    else if has_prefix ln (codes "chain ")
    then begin_chain fam ln (flush_chain st)
    else if text_eq ln (codes "}")
    then flush_chain st
    else in_chain st.cur ln st

nft_loop : IpFamily → List Text → NftState → NftState
unfolding nft_line
nft_loop fam [] st = st
nft_loop fam (raw ∷ lines) st = nft_loop fam lines (nft_line fam (trim_space raw) st)

pub parse_nft_ruleset : Text → IpFamily → List IptChain
unfolding nft_loop flushed
parse_nft_ruleset out fam =
    let st =
      nft_loop fam (split b'\n' out)
        (record { chains = []; cur = none; table_fam = []; num = 0 }) in
    flushed (st.chains, st.cur)
