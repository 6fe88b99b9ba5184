-- ===== src/Iptables/Parse.antt =====
-- `parseIptablesL` of internal/adb/iptables.go and its two helpers.
pub mod Rules
pub mod Nft
use adbq.Prelude.{
  ℕ, zero, suc, ◌+◌, List, [], ◌∷◌, ◌++◌, Option, none, some, Bool, true, false, not, ◌&&◌, ◌||◌,
  if◌then◌else◌, ltb, ◌==◌, Text, codes, join, text_eq, has_prefix, length,
}
use adbq.Prelude.Int.{ℤ}
use adbq.Decimal.{atoi, parse_uint, uint_value}
use adbq.Strings.{
  is_space, trim_right_by, trim_space, split, fields, trim_prefix, trim_suffix, cut_byte,
}

pub record IptRule : Type 0 where
  pub num : ℤ
  pub pkts : ℕ
  pub bytes : ℕ
  pub target : Text
  pub proto : Text
  pub opt : Text
  pub in_iface : Text
  pub out_iface : Text
  pub source : Text
  pub dest : Text
  pub extra : Text
  pub raw : Text

pub record IptChain : Type 0 where
  pub name : Text
  pub policy : Text
  pub pkts : ℕ
  pub bytes : ℕ
  pub rules : List IptRule

-- the fields of a rule line from the tenth on: `Dest`, and `Extra` joined by spaces
with_tail : IptRule → List Text → IptRule
with_tail r [] = r
with_tail r (d ∷ []) = record r { dest = d }
with_tail r (d ∷ e ∷ es) = record r { dest = d; extra = join (e ∷ es) (codes " ") }

numbered : Option ℤ → Text → List Text → Option IptRule
unfolding with_tail
numbered (some num) ln (_ ∷ pk ∷ by ∷ target ∷ proto ∷ opt ∷ inp ∷ out ∷ src ∷ rest) = some (
    with_tail
      (record {
        num = num;
        pkts = uint_value pk;
        bytes = uint_value by;
        target = target;
        proto = proto;
        opt = opt;
        in_iface = inp;
        out_iface = out;
        source = src;
        dest = [];
        extra = [];
        raw = trim_space ln;
      })
      rest)
numbered _ ln fs = none

rule_of_fields : Text → List Text → Option IptRule
unfolding numbered
rule_of_fields ln [] = none
rule_of_fields ln (f ∷ fs) = numbered (atoi f) ln (f ∷ fs)

-- fewer than nine fields, or a first field that is no number, make no rule
pub parse_iptables_rule : Text → Option IptRule
unfolding rule_of_fields
parse_iptables_rule ln = rule_of_fields ln (fields ln)

-- a number that does not parse leaves the counter as it is
counter : ℕ → Text → ℕ
counter old s = elim (parse_uint s) [ none ↦ old | some n ↦ n ]

-- the loop over the words of a policy, each with the word before it
policy_counters : IptChain → Text → List Text → IptChain
unfolding counter
policy_counters c prev [] = c
policy_counters c prev (p ∷ ps) =
    policy_counters
      (record c {
        pkts = if text_eq p (codes "packets,") then counter c.pkts prev else c.pkts;
        bytes =
            if text_eq p (codes "bytes)") || text_eq p (codes "bytes")
            then counter c.bytes prev
            else c.bytes;
      })
      p ps

with_policy : IptChain → List Text → IptChain
unfolding policy_counters
with_policy c [] = c
with_policy c (w ∷ []) = c
with_policy c (w ∷ p ∷ ps) = policy_counters (record c { policy = p }) w (p ∷ ps)

named_chain : Text → IptChain
named_chain name = record { name = name; policy = codes "-"; pkts = 0; bytes = 0; rules = [] }

header_parts : Text → Option (Text × Text) → IptChain
unfolding named_chain with_policy
header_parts rest none = named_chain (trim_space rest)
header_parts rest (some (before, behind)) =
    let inside = trim_suffix (trim_space behind) (codes ")") in
    if has_prefix inside (codes "policy ")
    then with_policy (named_chain (trim_space before)) (fields inside)
    else named_chain (trim_space before)

pub parse_chain_header : Text → IptChain
unfolding header_parts
parse_chain_header ln =
    let rest = trim_prefix ln (codes "Chain ") in header_parts rest (cut_byte b'(' rest)

-- `cur` and the chains that are finished
abbrev pub Listing : Type 0
Listing = List IptChain × Option IptChain

flushed : Listing → List IptChain
flushed (chains, none) = chains
flushed (chains, some c) = chains ++ c ∷ []

with_rule : List IptChain → IptChain → Option IptRule → Listing
with_rule chains c none = (chains, some c)
with_rule chains c (some r) = (chains, some (record c { rules = c.rules ++ r ∷ [] }))

chain_line : Listing → Text → Listing
unfolding with_rule
chain_line (chains, none) ln = (chains, none)
chain_line (chains, some c) ln =
    if has_prefix (trim_space ln) (codes "num")
    then (chains, some c)
    else with_rule chains c (parse_iptables_rule ln)

-- one line, its trailing blanks gone
listing_line : Listing → Text → Listing
unfolding flushed chain_line
listing_line st [] = st
listing_line st (c ∷ s) =
    if has_prefix (c ∷ s) (codes "Chain ")
    then (flushed st, some (parse_chain_header (c ∷ s)))
    else chain_line st (c ∷ s)

listing_loop : Listing → List Text → Listing
unfolding listing_line
listing_loop st [] = st
listing_loop st (raw ∷ lines) =
    listing_loop (listing_line st (trim_right_by (λ c. c == b' ' || c == b'\t') raw)) lines

pub parse_iptables_l : Text → List IptChain
unfolding listing_loop flushed
parse_iptables_l out = flushed (listing_loop ([], none) (split b'\n' out))
