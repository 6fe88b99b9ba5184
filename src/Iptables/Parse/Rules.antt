-- ===== src/Iptables/Parse/Rules.antt =====
-- The rows of a listing, as iptables prints them, are read back column by column.
use adbq.Prelude.{ℕ, ◌^◌, ◌<◌, ◌≡◌, refl, arith, List, [], ◌∷◌, ◌++◌, none, some, Text, codes, join}
use adbq.Prelude.Int.{pos}
use adbq.Decimal.{decimal, atoi}
use adbq.Decimal.Digits.{AllDigits, decimal-AllDigits}
use adbq.Decimal.Unsigned.{uint_value-decimal, atoi-decimal}
use adbq.Strings.{trim_space}
use adbq.Strings.Fields.{NoSpace, IsWord, AllWords, fields-join}
use adbq.Iptables.Parse.{with_tail, numbered, rule_of_fields, parse_iptables_rule}

digits-NoSpace : (s : Text) → AllDigits s → NoSpace s
digits-NoSpace [] h = tt
digits-NoSpace (c ∷ s) (low, high, h) = (ground arith, digits-NoSpace s h)

digits-IsWord : (s : Text) (n : ℕ) → AllDigits s → atoi s ≡ some (pos n) → IsWord s
digits-IsWord [] n h e = let bad : none ≡ some (pos n) = (unfold atoi in e) in cc
digits-IsWord (c ∷ s) n h e = digits-NoSpace (c ∷ s) h

decimal-IsWord : (n : ℕ) → n < 2 ^ 63 → IsWord (decimal n)
decimal-IsWord n lt = digits-IsWord (decimal n) n (decimal-AllDigits n) (atoi-decimal n lt)

-- the columns of a row: its number, its two counters, seven texts and the matches
abbrev pub row : ℕ → ℕ → ℕ → List Text → Text → List Text → List Text
row num pkts bytes six dest extra =
    decimal num ∷ decimal pkts ∷ decimal bytes ∷ (six ++ dest ∷ extra)

fields_rule :
    (ln target proto opt inp out source dest : Text) (extra : List Text) (num pkts bytes : ℕ)
    → num < 2 ^ 63
    → pkts < 2 ^ 63
    → bytes < 2 ^ 63
    → rule_of_fields ln
        (row num pkts bytes (target ∷ proto ∷ opt ∷ inp ∷ out ∷ source ∷ []) dest extra)
      ≡ some (record {
        num = pos num;
        pkts = pkts;
        bytes = bytes;
        target = target;
        proto = proto;
        opt = opt;
        in_iface = inp;
        out_iface = out;
        source = source;
        dest = dest;
        extra = join extra (codes " ");
        raw = trim_space ln;
      })
unfolding rule_of_fields numbered with_tail
fields_rule ln target proto opt inp out source dest [] num pkts bytes hn hp hb =
    unfold join in
    rw
      (
        atoi-decimal num hn,
        uint_value-decimal pkts (omega arith),
        uint_value-decimal bytes (omega arith),
      )
      refl
fields_rule ln target proto opt inp out source dest (e ∷ es) num pkts bytes hn hp hb =
    rw
      (
        atoi-decimal num hn,
        uint_value-decimal pkts (omega arith),
        uint_value-decimal bytes (omega arith),
      )
      refl

-- A row that is printed with single spaces, its numbers below 2^63 and its columns words without
-- white space, is read as the rule with those columns; the matches after the tenth column are its
-- extra text, and the line without the blanks at its ends its raw text.
pub parse_iptables_rule-row :
    (num pkts bytes : ℕ) (target proto opt inp out source dest : Text) (extra : List Text)
    → num < 2 ^ 63
    → pkts < 2 ^ 63
    → bytes < 2 ^ 63
    → AllWords (target ∷ proto ∷ opt ∷ inp ∷ out ∷ source ∷ dest ∷ extra)
    → parse_iptables_rule (
        join
          (row num pkts bytes (target ∷ proto ∷ opt ∷ inp ∷ out ∷ source ∷ []) dest extra)
          (codes " "))
      ≡ some (record {
        num = pos num;
        pkts = pkts;
        bytes = bytes;
        target = target;
        proto = proto;
        opt = opt;
        in_iface = inp;
        out_iface = out;
        source = source;
        dest = dest;
        extra = join extra (codes " ");
        raw = trim_space (
            join
              (row num pkts bytes (target ∷ proto ∷ opt ∷ inp ∷ out ∷ source ∷ []) dest extra)
              (codes " "));
      })
unfolding parse_iptables_rule
parse_iptables_rule-row num pkts bytes target proto opt inp out source dest extra hn hp hb words =
    let columns = row num pkts bytes (target ∷ proto ∷ opt ∷ inp ∷ out ∷ source ∷ []) dest extra in
    rw
      (fields-join columns
        (decimal-IsWord num hn, (decimal-IsWord pkts hp, (decimal-IsWord bytes hb, words))))
      (fields_rule (join columns (codes " ")) target proto opt inp out source dest extra num pkts
        bytes hn hp hb)
