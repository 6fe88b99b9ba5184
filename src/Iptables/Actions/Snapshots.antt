-- ===== src/Iptables/Actions/Snapshots.antt =====
-- What an undo after an accepted change goes back to.
use adbq.Prelude.{
  ℕ, suc, ◌-◌, ◌≡◌, refl, ◌∙◌, arith, List, [], ◌∷◌, ◌++◌, Option, none, some, true, false,
  Bool-cases, inl, inr, Text, text_eq, length, length-append, drop, drop-append,
}
use adbq.Prelude.Int.{ℤ, pos}
use adbq.Strings.{trim_space}
use adbq.Iptables.{
  IpFamily, BackendInfo, Undos, undo_key, ring_of, push_undo, pop_undo, validate, looks_like_ident,
  iptables_undo_depth,
}
use adbq.Iptables.Commands.{ipt_rule_cmd, ipt_delete_rule_cmd, ipt_flush_cmd}
use adbq.Iptables.Undo.{ring_of-push_undo, pop_undo-append}
use adbq.Iptables.Actions.{
  Adb, World, assert_writable, export_iptables, snapshot_for_undo, begin_mutation, after_assert,
  run_and_list, run_mutation, delete_rule, flush_iptables,
}

pop_undo-push_undo :
    (undos : Undos) (k blob : Text) → (pop_undo (push_undo undos k blob) k).0 ≡ some blob
pop_undo-push_undo undos k blob =
    let ring = ring_of undos k in
    let i = length (ring ++ blob ∷ []) - iptables_undo_depth in
    (pop_undo-append (push_undo undos k blob) k (drop i ring) blob (
      ring_of-push_undo undos k blob
      ∙ drop-append i ring (blob ∷ []) (omega (arith, length-append ring (blob ∷ []))))).0

run_and_list_undos :
    {D : Type 0} (adb : Adb D) (serial : Text) (fam : IpFamily) (probe : Option BackendInfo)
    (table cmd : Text) (w : World D)
    → (run_and_list adb serial fam probe table cmd (none, w)).1.undos ≡ w.undos
unfolding run_and_list
run_and_list_undos adb serial fam probe table cmd w =
    elim (Bool-cases (adb.su cmd w.dev).0.failed) [ inl e ↦ rw e refl | inr e ↦ rw e refl ]

module _ {D : Type 0} (adb : Adb D) (serial : Text) (fam : IpFamily) (probe : Option BackendInfo)
    (w : World D) where
  begin_mutation-snapshot :
      assert_writable probe ≡ none
      → (export_iptables adb serial fam w.dev).0.failed ≡ false
      → text_eq (trim_space (export_iptables adb serial fam w.dev).0.out) [] ≡ false
      → begin_mutation adb serial fam probe w ≡ (
        none,
        record {
          dev = (export_iptables adb serial fam w.dev).1;
          undos =
              push_undo w.undos (undo_key serial fam) (export_iptables adb serial fam w.dev).0.out;
        },
      )
  unfolding begin_mutation after_assert snapshot_for_undo
  begin_mutation-snapshot writable exported shown = rw (writable, exported, shown) refl

  module _ (writable : assert_writable probe ≡ none)
      (exported : (export_iptables adb serial fam w.dev).0.failed ≡ false)
      (shown : text_eq (trim_space (export_iptables adb serial fam w.dev).0.out) [] ≡ false) where
    abbrev before : Text
    before = (export_iptables adb serial fam w.dev).0.out

    abbrev key : Text
    key = undo_key serial fam

    listed_undoable :
        (table cmd : Text)
        → (pop_undo
            (run_and_list adb serial fam probe table cmd
              (begin_mutation adb serial fam probe w)).1.undos
            key).0
          ≡ some before
    listed_undoable table cmd =
        rw
          (
            begin_mutation-snapshot writable exported shown,
            run_and_list_undos adb serial fam probe table cmd (record {
              dev = (export_iptables adb serial fam w.dev).1;
              undos = push_undo w.undos key before;
            }),
          )
          (pop_undo-push_undo w.undos key before)

    -- On a writable device whose rules can be exported and are not blank, whatever the change
    -- itself then does, the blob that the next undo takes is the export from before the change:
    -- for an appended or inserted rule that passes the checks, for a rule deleted by a number of
    -- 1 or more, and for a flush.
    pub pop_undo-mutation :
        (table op chain : Text) (position : ℤ) (num : ℕ) (spec : List Text)
        → validate spec ≡ true
        → looks_like_ident chain ≡ true
        → ((pop_undo
              (run_mutation adb serial fam probe table op chain position spec w).1.undos
              key).0
            ≡ some before)
          × ((pop_undo
                (delete_rule adb serial fam probe table chain (pos (suc num)) w).1.undos
                key).0
              ≡ some before)
          × ((pop_undo (flush_iptables adb serial fam probe table chain w).1.undos key).0
              ≡ some before)
    unfolding run_mutation delete_rule flush_iptables
    pop_undo-mutation table op chain position num spec valid ident = (
      rw (valid, ident) (listed_undoable table (ipt_rule_cmd fam table op chain position spec)),
      listed_undoable table (ipt_delete_rule_cmd fam table chain (suc num)),
      listed_undoable table (ipt_flush_cmd fam table chain),
    )
