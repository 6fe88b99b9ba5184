-- ===== src/Iptables/Preview.antt =====
-- `IptablesCommandsFor` of internal/adb/iptables_commands.go: the commands that the interface shows for
-- each action. Iptables/Actions/Previewed has the commands that the actions run.
use adbq.Prelude.{suc, List, [], ◌∷◌, ◌++◌, Bool, true, false, if◌then◌else◌, Text, codes, text_eq}
use adbq.Prelude.Int.{ℤ, pos}
use adbq.CommandText.{device_command_text}
use adbq.Iptables.{IpFamily, ipv4, ipv6}
use adbq.Iptables.Commands.{
  iptables_save_binary, ipt_rule_cmd, ipt_delete_rule_cmd, ipt_flush_cmd, ipt_policy_cmd,
  ipt_new_chain_cmd, ipt_delete_chain_cmd, ipt_list_cmd, ipt_restore_cmd, ipt_restore_staged,
  ipt_undo_staged,
}

pub record CommandRequest : Type 0 where
  pub family : Text
  pub table : Text
  pub chain : Text
  pub position : ℤ
  pub num : ℤ
  pub policy : Text
  pub spec : List Text

pub record Commands : Type 0 where
  pub list : List Text
  pub save : List Text
  pub add_rule : List Text
  pub delete_rule : List Text
  pub flush_chain : List Text
  pub flush_table : List Text
  pub policy : List Text
  pub new_chain : List Text
  pub drop_chain : List Text
  pub import_rules : List Text
  pub undo : List Text

pub family_of : Text → IpFamily
family_of s = if text_eq s (codes "ipv6") then ipv6 else ipv4

pub table_of : Text → Text
table_of [] = codes "filter"
table_of (c ∷ s) = c ∷ s

positive : ℤ → Bool
positive (pos (suc n)) = true
positive z = false

module _ (render : Text → Bool → Text) (fam : IpFamily) (table chain : Text) where
  rule_preview : ℤ → List Text → List Text
  unfolding positive
  rule_preview position [] = []
  rule_preview position (a ∷ spec) =
      render
        (ipt_rule_cmd fam table (if positive position then codes "-I" else codes "-A") chain
          position (a ∷ spec))
        true
      ∷ []

  delete_preview : ℤ → List Text
  delete_preview (pos (suc n)) = render (ipt_delete_rule_cmd fam table chain (suc n)) true ∷ []
  delete_preview z = []

  policy_preview : Text → List Text
  policy_preview [] = []
  policy_preview (c ∷ s) = render (ipt_policy_cmd fam table chain (c ∷ s)) true ∷ []

with_chain : (Text → Bool → Text) → IpFamily → Text → Text → CommandRequest → Commands → Commands
unfolding rule_preview delete_preview policy_preview
with_chain render fam table [] req ic = ic
with_chain render fam table (c ∷ s) req ic = record ic {
  flush_chain = render (ipt_flush_cmd fam table (c ∷ s)) true ∷ [];
  new_chain = render (ipt_new_chain_cmd fam table (c ∷ s)) true ∷ [];
  drop_chain = render (ipt_delete_chain_cmd fam table (c ∷ s)) true ∷ [];
  add_rule = rule_preview render fam table (c ∷ s) req.position req.spec;
  delete_rule = delete_preview render fam table (c ∷ s) req.num;
  policy = policy_preview render fam table (c ∷ s) req.policy;
}

unfoldable pub iptables_commands_for : Text → CommandRequest → (Text → Bool → Text) → Commands
unfolding with_chain family_of table_of
iptables_commands_for serial req render =
    let fam = family_of req.family in
    let table = table_of req.table in
    with_chain render fam table req.chain req (record {
      list = render (ipt_list_cmd fam table) true ∷ [];
      save = render (iptables_save_binary fam) true ∷ [];
      add_rule = [];
      delete_rule = [];
      flush_chain = [];
      flush_table = render (ipt_flush_cmd fam table []) true ∷ [];
      policy = [];
      new_chain = [];
      drop_chain = [];
      import_rules =
          device_command_text serial (codes "push" ∷ codes "<rules-file>" ∷ ipt_restore_staged ∷ [])
          ∷ render (ipt_restore_cmd fam ipt_restore_staged) true
          ∷ render (codes "rm -f " ++ ipt_restore_staged) false
          ∷ [];
      undo =
          codes "# the snapshot adbq took before the last change, staged again:"
          ∷ device_command_text serial (codes "push" ∷ codes "<snapshot>" ∷ ipt_undo_staged ∷ [])
          ∷ render (ipt_restore_cmd fam ipt_undo_staged) true
          ∷ render (codes "rm -f " ++ ipt_undo_staged) false
          ∷ [];
    })
