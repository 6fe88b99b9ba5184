-- ===== src/Iptables/Commands.antt =====
-- The command texts of internal/adb/iptables_commands.go. `fmt.Sprintf` with spaces between the
-- parts is a join.
use adbq.Prelude.{ℕ, suc, List, [], ◌∷◌, ◌++◌, if◌then◌else◌, Text, codes, join, text_eq}
use adbq.Prelude.Int.{ℤ, pos}
use adbq.Decimal.{decimal}
use adbq.Iptables.{IpFamily, ipv4, ipv6}

abbrev space : Text
space = codes " "

unfoldable pub iptables_binary : IpFamily → Text
iptables_binary ipv6 = codes "ip6tables"
iptables_binary ipv4 = codes "iptables"

pub iptables_save_binary : IpFamily → Text
iptables_save_binary ipv6 = codes "ip6tables-save"
iptables_save_binary ipv4 = codes "iptables-save"

pub iptables_restore_binary : IpFamily → Text
iptables_restore_binary ipv6 = codes "ip6tables-restore"
iptables_restore_binary ipv4 = codes "iptables-restore"

-- the words in front of a rule's spec; the position is printed for an insertion at 1 or more
unfoldable pub rule_words : IpFamily → Text → Text → Text → ℤ → List Text
unfolding iptables_binary decimal
rule_words fam table op chain (pos (suc n)) =
    if text_eq op (codes "-I")
    then iptables_binary fam ∷ codes "-t" ∷ table ∷ op ∷ chain ∷ decimal (suc n) ∷ []
    else iptables_binary fam ∷ codes "-t" ∷ table ∷ op ∷ chain ∷ []
rule_words fam table op chain p = iptables_binary fam ∷ codes "-t" ∷ table ∷ op ∷ chain ∷ []

unfoldable pub ipt_rule_cmd : IpFamily → Text → Text → Text → ℤ → List Text → Text
unfolding rule_words join
ipt_rule_cmd fam table op chain p spec =
    join (rule_words fam table op chain p ++ join spec space ∷ []) space

pub ipt_delete_rule_cmd : IpFamily → Text → Text → ℕ → Text
unfolding iptables_binary decimal join
ipt_delete_rule_cmd fam table chain num =
    join (iptables_binary fam ∷ codes "-t" ∷ table ∷ codes "-D" ∷ chain ∷ decimal num ∷ []) space

pub ipt_flush_cmd : IpFamily → Text → Text → Text
unfolding iptables_binary join
ipt_flush_cmd fam table [] = join (iptables_binary fam ∷ codes "-t" ∷ table ∷ codes "-F" ∷ []) space
ipt_flush_cmd fam table (c ∷ s) =
    join (iptables_binary fam ∷ codes "-t" ∷ table ∷ codes "-F" ∷ (c ∷ s) ∷ []) space

pub ipt_policy_cmd : IpFamily → Text → Text → Text → Text
unfolding iptables_binary join
ipt_policy_cmd fam table chain policy =
    join (iptables_binary fam ∷ codes "-t" ∷ table ∷ codes "-P" ∷ chain ∷ policy ∷ []) space

pub ipt_new_chain_cmd : IpFamily → Text → Text → Text
unfolding iptables_binary join
ipt_new_chain_cmd fam table chain =
    join (iptables_binary fam ∷ codes "-t" ∷ table ∷ codes "-N" ∷ chain ∷ []) space

pub ipt_delete_chain_cmd : IpFamily → Text → Text → Text
unfolding iptables_binary join
ipt_delete_chain_cmd fam table chain =
    join (iptables_binary fam ∷ codes "-t" ∷ table ∷ codes "-X" ∷ chain ∷ []) space

pub ipt_list_cmd : IpFamily → Text → Text
unfolding iptables_binary join
ipt_list_cmd fam table =
    join (iptables_binary fam ∷ codes "-t" ∷ table ∷ codes "-nvL" ∷ codes "--line-numbers" ∷ [])
      space

pub ipt_restore_cmd : IpFamily → Text → Text
unfolding iptables_restore_binary join
ipt_restore_cmd fam from = join (iptables_restore_binary fam ∷ codes "<" ∷ from ∷ []) space

abbrev pub ipt_restore_staged : Text
ipt_restore_staged = codes "/data/local/tmp/adbq-ipt-restore.rules"

abbrev pub ipt_undo_staged : Text
ipt_undo_staged = codes "/data/local/tmp/adbq-ipt-undo.rules"
