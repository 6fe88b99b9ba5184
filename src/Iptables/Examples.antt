-- ===== src/Iptables/Examples.antt =====
-- A device that keeps a log of what is run on it, and prints the same save blob for every command.
use adbq.Prelude.{
  ◌≡◌, ◌≤◌, refl, arith, List, [], ◌∷◌, ◌++◌, Option, none, some, Bool, false, Text, codes, length,
  take, reverse, contains_any, has_byte, text_eq,
}
use adbq.Prelude.Int.{pos}
use adbq.Strings.{trim_space}
use adbq.Iptables.{
  ipv4, BackendInfo, iptables_undo_depth, undo_key, ring_of, disallowed, validate, looks_like_ident,
  pop_undo,
}
use adbq.Iptables.Undo.{newest, push_all, pop_all, pop_all-push_all}
use adbq.Iptables.Commands.{ipt_rule_cmd}
use adbq.Iptables.Actions.{Reply}
use adbq.Iptables.Preview.{CommandRequest, family_of, iptables_commands_for}
use adbq.Iptables.Actions.Previewed.{recording, ShownAndRan, iptables_commands_for-ShownAndRan}
use adbq.Iptables.Actions.{
  Adb, World, read_only, assert_writable, append_rule, insert_rule, delete_rule, flush_iptables,
  set_policy, create_chain, delete_chain, import_iptables, undo_iptables, run_mutation,
  export_iptables,
}
use adbq.Iptables.Actions.Checks.{Untouched, read_only-Untouched, ipt_rule_cmd-Clean}
use adbq.Iptables.Actions.Snapshots.{pop_undo-mutation}

abbrev saved_rules : Text
saved_rules = codes "*filter"

abbrev logging : Adb (List Text)
logging = record {
  su = λ cmd log. (record { out = saved_rules; failed = Bool.false }, log ++ cmd ∷ []);
  shell = λ cmd log. (record { out = saved_rules; failed = Bool.false }, log ++ cmd ∷ []);
  push_blob = λ path blob log. (Bool.false, log ++ path ∷ []);
}

abbrev serial : Text
serial = codes "R58M"

abbrev nft_only : Option BackendInfo
nft_only = some (record {
  family = ipv4;
  available = Bool.true;
  path = codes "/system/bin/nft";
  version = [];
  mode = codes "nft-native";
  has_save = Bool.false;
  needs_root = Bool.true;
  read_only = Bool.true;
})

abbrev fresh : World (List Text)
fresh = record { dev = []; undos = [] }

abbrev filter : Text
filter = codes "filter"

abbrev input : Text
input = codes "INPUT"

abbrev drop_tcp : List Text
drop_tcp = codes "-p" ∷ codes "tcp" ∷ codes "-j" ∷ codes "DROP" ∷ []

abbrev three_blobs : List Text
three_blobs = codes "one" ∷ codes "two" ∷ codes "three" ∷ []

empty_ring : length (ring_of [] (undo_key serial ipv4)) ≤ iptables_undo_depth
unfolding ring_of adbq.Dict.lookup
empty_ring = omega arith

read_only-Untouched_example :
    Untouched fresh (append_rule logging serial ipv4 nft_only filter input drop_tcp fresh)
    × Untouched fresh (insert_rule logging serial ipv4 nft_only filter input (pos 3) drop_tcp fresh)
    × Untouched fresh (delete_rule logging serial ipv4 nft_only filter input (pos 3) fresh)
    × Untouched fresh (flush_iptables logging serial ipv4 nft_only filter input fresh)
    × Untouched fresh (set_policy logging serial ipv4 nft_only filter input (codes "DROP") fresh)
    × Untouched fresh (create_chain logging serial ipv4 nft_only filter input fresh)
    × Untouched fresh (delete_chain logging serial ipv4 nft_only filter input fresh)
    × Untouched fresh (import_iptables logging serial ipv4 nft_only saved_rules fresh)
    × Untouched fresh (undo_iptables logging serial ipv4 nft_only fresh)
read_only-Untouched_example =
    read_only-Untouched logging serial ipv4 nft_only fresh read_only
      (unfold assert_writable in refl) filter input (codes "DROP") saved_rules drop_tcp (pos 3)

ipt_rule_cmd-Clean_example :
    contains_any (ipt_rule_cmd ipv4 filter (codes "-I") input (pos 3) drop_tcp) disallowed ≡ false
ipt_rule_cmd-Clean_example =
    ipt_rule_cmd-Clean ipv4 filter (codes "-I") input (pos 3) drop_tcp
      (unfold contains_any has_byte in refl) (unfold contains_any has_byte in refl)
      (unfold looks_like_ident in refl) (unfold validate contains_any has_byte in refl)

pop_undo-mutation_example :
    ((pop_undo
        (run_mutation logging serial ipv4 none filter
          (codes "-A")
          input
          (pos 0)
          drop_tcp
          fresh).1.undos
        (undo_key serial ipv4)).0
      ≡ some saved_rules)
    × ((pop_undo
          (delete_rule logging serial ipv4 none filter input (pos 3) fresh).1.undos
          (undo_key serial ipv4)).0
        ≡ some saved_rules)
    × ((pop_undo
          (flush_iptables logging serial ipv4 none filter input fresh).1.undos
          (undo_key serial ipv4)).0
        ≡ some saved_rules)
unfolding export_iptables text_eq trim_space
pop_undo-mutation_example =
    pop_undo-mutation logging serial ipv4 none fresh (unfold assert_writable in refl) refl refl
      filter (codes "-A") input (pos 0) 2 drop_tcp (unfold validate contains_any has_byte in refl)
      (unfold looks_like_ident in refl)

pop_all-push_all_example :
    (pop_all (push_all [] (undo_key serial ipv4) three_blobs) (undo_key serial ipv4) 2).0
    ≡ take 2
        (reverse (newest iptables_undo_depth (ring_of [] (undo_key serial ipv4) ++ three_blobs)))
pop_all-push_all_example = pop_all-push_all [] (undo_key serial ipv4) three_blobs 2 empty_ring

-- a device on which every command fails
abbrev all_fail : Text → Reply
all_fail cmd = record { out = []; failed = Bool.true }

abbrev rendered : Text → Bool → Text
rendered cmd as_root = cmd

iptables_commands_for-ShownAndRan_example :
    (let req : CommandRequest = record {
      family = codes "ipv4";
      table = filter;
      chain = input;
      position = pos 1;
      num = pos 2;
      policy = [];
      spec = drop_tcp;
    } in
      let ic = iptables_commands_for serial req rendered in
      let fam = family_of (codes "ipv4") in
      let device = recording all_fail in
      ShownAndRan rendered fam ic.flush_chain []
        (flush_iptables device serial fam none filter input fresh).1.dev
      × ShownAndRan rendered fam ic.delete_rule []
          (delete_rule device serial fam none filter input (pos 2) fresh).1.dev
      × ShownAndRan rendered fam ic.add_rule []
          (insert_rule device serial fam none filter input (pos 1) drop_tcp fresh).1.dev)
iptables_commands_for-ShownAndRan_example =
    iptables_commands_for-ShownAndRan all_fail serial none fresh rendered (codes "ipv4") b'f'
      (codes "ilter") b'I' (codes "NPUT") 0 1 [] (codes "-p")
      (codes "tcp" ∷ codes "-j" ∷ codes "DROP" ∷ []) (unfold assert_writable in refl)
      (unfold looks_like_ident in refl) (unfold validate contains_any has_byte in refl)
