-- ===== src/Iptables/Actions/Previewed.antt =====
-- The commands that are shown for an action are the ones that it runs.
use adbq.Prelude.{
  ℕ, suc, ◌≡◌, refl, ◌∙◌, sym, List, [], ◌∷◌, ◌++◌, append-nil, append_assoc, Option, none, Bool,
  true, false, ◌||◌, inl, inr, Bool-cases, Text, codes, text_eq,
}
use adbq.Prelude.Int.{pos}
use adbq.Strings.{trim_space}
use adbq.Iptables.{IpFamily, BackendInfo, validate, looks_like_ident}
use adbq.Iptables.Commands.{
  iptables_save_binary, ipt_rule_cmd, ipt_delete_rule_cmd, ipt_flush_cmd, ipt_list_cmd,
}
use adbq.Iptables.Preview.{CommandRequest, family_of, iptables_commands_for}
use adbq.Iptables.Actions.{
  Adb, Reply, World, assert_writable, export_iptables, snapshot_for_undo, begin_mutation,
  after_assert, run_and_list, run_mutation, insert_rule, delete_rule, flush_iptables, list_iptables,
  list_nft, list_tables, is_nft, or_filter,
}

-- a device that answers each command in some way, and keeps a log of the commands
abbrev pub recording : (Text → Reply) → Adb (List Text)
recording answer = record {
  su = λ cmd log. (answer cmd, log ++ cmd ∷ []);
  shell = λ cmd log. (answer cmd, log ++ cmd ∷ []);
  push_blob = λ path blob log. (false, log ++ path ∷ []);
}

-- the log went on with the export and then the command
abbrev pub Ran : IpFamily → List Text → Text → List Text → Type 0
Ran fam before cmd log =
    (rest : List Text) × (log ≡ before ++ iptables_save_binary fam ∷ cmd ∷ rest)

module _ (answer : Text → Reply) (serial : Text) (fam : IpFamily) (probe : Option BackendInfo) where
  -- the log only grows
  abbrev Grown : List Text → List Text → Type 0
  Grown before log = (rest : List Text) × (log ≡ before ++ rest)

  list_nft-Grown :
      (table : Text) (d : List Text) → Grown d (list_nft (recording answer) serial fam table d).1
  unfolding list_nft
  list_nft-Grown table d = elim (Bool-cases (answer (codes "nft -nn list ruleset")).failed) [
    | inl e ↦ rw e (codes "nft -nn list ruleset" ∷ [], refl)
    | inr e ↦ rw e (codes "nft -nn list ruleset" ∷ [], refl)
  ]

  list_tables-Grown :
      (table : Text) (d : List Text)
      → Grown d (list_tables (recording answer) serial fam probe table d).1
  unfolding list_tables
  list_tables-Grown table d =
      let listing = ipt_list_cmd fam table in
      let saving = iptables_save_binary fam ++ codes " -t " ++ table in
      elim (Bool-cases (answer listing).failed) [
        | inl e ↦ rw e (listing ∷ [], refl)
        | inr e ↦ rw e (listing ∷ saving ∷ [], append_assoc d (listing ∷ []) (saving ∷ []))
      ]

  list_iptables-Grown :
      (table : Text) (d : List Text)
      → Grown d (list_iptables (recording answer) serial fam probe table d).1
  unfolding list_iptables
  list_iptables-Grown table d = elim (Bool-cases (is_nft probe)) [
    | inl e ↦ rw e (list_nft-Grown (or_filter table) d)
    | inr e ↦ rw e (list_tables-Grown (or_filter table) d)
  ]

  snapshot_dev :
      (w : World (List Text))
      → (snapshot_for_undo (recording answer) serial fam w).dev
        ≡ w.dev ++ iptables_save_binary fam ∷ []
  unfolding snapshot_for_undo export_iptables
  snapshot_dev w =
      let r = answer (iptables_save_binary fam) in
      elim (Bool-cases (r.failed || text_eq (trim_space r.out) [])) [
        | inl e ↦ rw e refl
        | inr e ↦ rw e refl
      ]

  run_and_list-Grown :
      (table cmd : Text) (w : World (List Text))
      → Grown
          (w.dev ++ cmd ∷ [])
          (run_and_list (recording answer) serial fam probe table cmd (none, w)).1.dev
  unfolding run_and_list
  run_and_list-Grown table cmd w = elim (Bool-cases (answer cmd).failed) [
    | inl e ↦ rw e ([], sym (append-nil (w.dev ++ cmd ∷ [])))
    | inr e ↦ rw e (list_iptables-Grown table (w.dev ++ cmd ∷ []))
  ]

  -- from the check that passes to the command
  mutation-Ran :
      (table cmd : Text) (w : World (List Text))
      → assert_writable probe ≡ none
      → Ran fam w.dev cmd
          (run_and_list
            (recording answer)
            serial
            fam
            probe
            table
            cmd
            (begin_mutation (recording answer) serial fam probe w)).1.dev
  unfolding begin_mutation after_assert
  mutation-Ran table cmd w writable =
      let taken = snapshot_for_undo (recording answer) serial fam w in
      let (rest, grown) = run_and_list-Grown table cmd taken in
      rw writable (
        rest,
        grown
            ∙ (rw (snapshot_dev w, append_assoc)
                (append_assoc w.dev (iptables_save_binary fam ∷ []) (cmd ∷ rest))),
      )

-- one line is shown, and it renders the command that was run
abbrev pub ShownAndRan :
    (Text → Bool → Text) → IpFamily → List Text → List Text → List Text → Type 0
ShownAndRan render fam shown before log =
    (cmd : Text) × (shown ≡ render cmd true ∷ []) × Ran fam before cmd log

-- What the interface shows for a flush of a chain, a deletion by number and an insertion is what the action
-- runs, given the same request, if its table is not empty. On any device that the probe found not to be
-- read-only and not to be without iptables, or that it could not tell of, however it answers each
-- command, the action runs, after the probe, first the export for its undo and then exactly the
-- command whose rendering was shown; the rule has to pass the checks.
pub iptables_commands_for-ShownAndRan :
    (answer : Text → Reply) (serial : Text) (probe : Option BackendInfo) (w : World (List Text))
    (render : Text → Bool → Text) (family : Text) (b : ℕ) (table : Text) (c : ℕ) (chain : Text)
    (k n : ℕ) (policy a : Text) (spec : List Text)
    → assert_writable probe ≡ none
    → looks_like_ident (c ∷ chain) ≡ true
    → validate (a ∷ spec) ≡ true
    → (let req : CommandRequest = record {
      family = family;
      table = b ∷ table;
      chain = c ∷ chain;
      position = pos (suc k);
      num = pos (suc n);
      policy = policy;
      spec = a ∷ spec;
    } in
        let ic = iptables_commands_for serial req render in
        let fam = family_of family in
        let device = recording answer in
        ShownAndRan render fam ic.flush_chain w.dev
          (flush_iptables device serial fam probe (b ∷ table) (c ∷ chain) w).1.dev
        × ShownAndRan render fam ic.delete_rule w.dev
            (delete_rule device serial fam probe (b ∷ table) (c ∷ chain) (pos (suc n)) w).1.dev
        × ShownAndRan render fam ic.add_rule w.dev
            (insert_rule device serial fam probe
              (b ∷ table)
              (c ∷ chain)
              (pos (suc k))
              (a ∷ spec)
              w).1.dev)
unfolding iptables_commands_for flush_iptables delete_rule insert_rule run_mutation
iptables_commands_for-ShownAndRan answer serial probe w render family b table c chain k n policy a
      spec writable ident valid =
    let fam = family_of family in
    let t = b ∷ table in
    let flush = ipt_flush_cmd fam t (c ∷ chain) in
    let deletion = ipt_delete_rule_cmd fam t (c ∷ chain) (suc n) in
    let insertion = ipt_rule_cmd fam t (codes "-I") (c ∷ chain) (pos (suc k)) (a ∷ spec) in
    (
      (flush, refl, mutation-Ran answer serial fam probe t flush w writable),
      (deletion, refl, mutation-Ran answer serial fam probe t deletion w writable),
      (
        insertion,
        refl,
        rw (valid, ident) (mutation-Ran answer serial fam probe t insertion w writable),
      ),
    )
