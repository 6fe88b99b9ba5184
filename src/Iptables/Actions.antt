-- ===== src/Iptables/Actions.antt =====
-- The actions on a device's packet filter: their checks, their snapshot for undo and their command.
pub mod Checks
pub mod Snapshots
pub mod Previewed
use adbq.Prelude.{
  ℕ, zero, suc, List, [], ◌∷◌, ◌++◌, Option, none, some, Bool, true, false, not, ◌&&◌, ◌||◌,
  if◌then◌else◌, Text, codes, text_eq,
}
use adbq.Prelude.Int.{ℤ, pos, negsuc}
use adbq.Strings.{trim_space}
use adbq.Iptables.{
  IpFamily, ipv4, ipv6, BackendInfo, Undos, undo_key, push_undo, pop_undo, validate,
  looks_like_ident,
}
use adbq.Iptables.Commands.{
  iptables_save_binary, ipt_rule_cmd, ipt_delete_rule_cmd, ipt_flush_cmd, ipt_policy_cmd,
  ipt_new_chain_cmd, ipt_delete_chain_cmd, ipt_list_cmd, ipt_restore_cmd, ipt_restore_staged,
  ipt_undo_staged,
}
use adbq.Iptables.Parse.{IptChain, parse_iptables_l}
use adbq.Iptables.Parse.Nft.{parse_nft_ruleset}

-- what a command printed, and whether it ended in an error
pub record Reply : Type 0 where
  pub out : Text
  pub failed : Bool

-- What is done with one device: a command as root, a command, and a file pushed to a path; the
-- answer of a push is whether it failed.
pub record Adb (D : Type 0) : Type 0 where
  pub su : Text → D → Reply × D
  pub shell : Text → D → Reply × D
  pub push_blob : Text → Text → D → Bool × D

pub data IptError : Type 0 where
  bad_spec bad_chain bad_number bad_policy read_only not_available no_snapshot : IptError
  list_failed nft_failed command_failed stage_failed : IptError

pub data Result {ℓ} (A : Type ℓ) : Type ℓ where
  ok : A → Result A
  err : IptError → Result A

pub record Snapshot : Type 0 where
  pub family : IpFamily
  pub table : Text
  pub chains : List IptChain
  pub restore : Text
  pub mode : Text

-- the device and the undo rings of the client
pub record World (D : Type 0) : Type 0 where
  pub dev : D
  pub undos : Undos

abbrev pub unit_ok : Result (Unit {0})
unit_ok = ok tt

unfoldable pub assert_writable : Option BackendInfo → Option IptError
assert_writable none = none
assert_writable (some p) =
    if p.read_only then some read_only else if not p.available then some not_available else none

or_filter : Text → Text
or_filter [] = codes "filter"
or_filter (c ∷ s) = c ∷ s

is_nft : Option BackendInfo → Bool
is_nft none = false
is_nft (some p) = text_eq p.mode (codes "nft-native")

mode_of : Option BackendInfo → Text
mode_of none = []
mode_of (some p) = p.mode

module _ {D : Type 0} (adb : Adb D) (serial : Text) (fam : IpFamily) where
  saved : Reply → Text
  saved r = if r.failed then [] else r.out

  -- `listNftRuleset`, or the listing and then the save blob
  list_nft : Text → D → Result Snapshot × D
  list_nft table d =
      let (r, d') = adb.su (codes "nft -nn list ruleset") d in
      if r.failed then (err nft_failed, d') else (
        ok (record {
          family = fam;
          table = table;
          chains = parse_nft_ruleset r.out fam;
          restore = r.out;
          mode = codes "nft-native";
        }),
        d',
      )

  list_tables : Option BackendInfo → Text → D → Result Snapshot × D
  unfolding saved mode_of
  list_tables probe table d =
      let (r, d') = adb.su (ipt_list_cmd fam table) d in
      let (s, d'') = adb.su (iptables_save_binary fam ++ codes " -t " ++ table) d' in
      if r.failed then (err list_failed, d') else (
        ok (record {
          family = fam;
          table = table;
          chains = parse_iptables_l r.out;
          restore = saved s;
          mode = mode_of probe;
        }),
        d'',
      )

  pub list_iptables : Option BackendInfo → Text → D → Result Snapshot × D
  unfolding list_nft list_tables or_filter is_nft
  list_iptables probe table d =
      if is_nft probe then list_nft (or_filter table) d else list_tables probe (or_filter table) d

  unfoldable pub export_iptables : D → Reply × D
  export_iptables d = adb.su (iptables_save_binary fam) d

  -- a snapshot that cannot be taken, or is blank, does not stop the change
  pub snapshot_for_undo : World D → World D
  unfolding export_iptables
  snapshot_for_undo w =
      let (r, d) = export_iptables w.dev in
      if r.failed || text_eq (trim_space r.out) []
      then record w { dev = d }
      else record { dev = d; undos = push_undo w.undos (undo_key serial fam) r.out }

  after_assert : Option IptError → World D → Option IptError × World D
  unfolding snapshot_for_undo
  after_assert (some e) w = (some e, w)
  after_assert none w = (none, snapshot_for_undo w)

  pub begin_mutation : Option BackendInfo → World D → Option IptError × World D
  unfolding after_assert assert_writable
  begin_mutation probe w = after_assert (assert_writable probe) w

  -- run a command, and list again if it did not fail
  run_and_list :
      Option BackendInfo → Text → Text → Option IptError × World D → Result Snapshot × World D
  run_and_list probe table cmd (some e, w) = (err e, w)
  run_and_list probe table cmd (none, w) =
      let (r, d) = adb.su cmd w.dev in
      let (s, d') = list_iptables probe table d in
      if r.failed then (err command_failed, record w { dev = d }) else (s, record w { dev = d' })

  run_only : Text → Option IptError × World D → Result (Unit {0}) × World D
  run_only cmd (some e, w) = (err e, w)
  run_only cmd (none, w) =
      let (r, d) = adb.su cmd w.dev in
      if r.failed
      then (err command_failed, record w { dev = d })
      else (unit_ok, record w { dev = d })

  pub run_mutation :
      Option BackendInfo → Text → Text → Text → ℤ → List Text → World D → Result Snapshot × World D
  unfolding run_and_list
  run_mutation probe table op chain position spec w =
      if not (validate spec)
      then (err bad_spec, w)
      else if not (looks_like_ident chain)
      then (err bad_chain, w)
      else run_and_list probe table (ipt_rule_cmd fam table op chain position spec)
          (begin_mutation probe w)

  pub append_rule :
      Option BackendInfo → Text → Text → List Text → World D → Result Snapshot × World D
  unfolding run_mutation
  append_rule probe table chain spec w = run_mutation probe table (codes "-A") chain (pos 0) spec w

  pub insert_rule :
      Option BackendInfo → Text → Text → ℤ → List Text → World D → Result Snapshot × World D
  unfolding run_mutation
  insert_rule probe table chain position spec w =
      run_mutation probe table (codes "-I") chain position spec w

  pub delete_rule : Option BackendInfo → Text → Text → ℤ → World D → Result Snapshot × World D
  unfolding run_and_list
  delete_rule probe table chain (pos (suc n)) w =
      run_and_list probe table (ipt_delete_rule_cmd fam table chain (suc n))
        (begin_mutation probe w)
  delete_rule probe table chain num w = (err bad_number, w)

  pub flush_iptables : Option BackendInfo → Text → Text → World D → Result Snapshot × World D
  unfolding run_and_list
  flush_iptables probe table chain w =
      run_and_list probe table (ipt_flush_cmd fam table chain) (begin_mutation probe w)

  pub set_policy : Option BackendInfo → Text → Text → Text → World D → Result (Unit {0}) × World D
  unfolding run_only
  set_policy probe table chain policy w =
      if not (text_eq policy (codes "ACCEPT"))
        && not (text_eq policy (codes "DROP"))
        && not (text_eq policy (codes "REJECT"))
      then (err bad_policy, w)
      else run_only (ipt_policy_cmd fam table chain policy) (begin_mutation probe w)

  pub create_chain : Option BackendInfo → Text → Text → World D → Result (Unit {0}) × World D
  unfolding run_only
  create_chain probe table chain w =
      if not (looks_like_ident chain)
      then (err bad_chain, w)
      else run_only (ipt_new_chain_cmd fam table chain) (begin_mutation probe w)

  pub delete_chain : Option BackendInfo → Text → Text → World D → Result (Unit {0}) × World D
  unfolding run_only
  delete_chain probe table chain w =
      if not (looks_like_ident chain)
      then (err bad_chain, w)
      else run_only (ipt_delete_chain_cmd fam table chain) (begin_mutation probe w)

  -- stage the blob, restore from it, remove it; the removal's outcome is ignored
  restore_from : Text → Text → World D → Result (Unit {0}) × World D
  restore_from staged blob w =
      let (push_failed, d) = adb.push_blob staged blob w.dev in
      let (r, d') = adb.su (ipt_restore_cmd fam staged) d in
      let (_, d'') = adb.shell (codes "rm -f " ++ staged) d' in
      if push_failed
      then (err stage_failed, record w { dev = d })
      else if r.failed
      then (err command_failed, record w { dev = d' })
      else (unit_ok, record w { dev = d'' })

  import_from : Text → Option IptError × World D → Result (Unit {0}) × World D
  unfolding restore_from
  import_from blob (some e, w) = (err e, w)
  import_from blob (none, w) = restore_from ipt_restore_staged blob w

  pub import_iptables : Option BackendInfo → Text → World D → Result (Unit {0}) × World D
  unfolding import_from
  import_iptables probe blob w = import_from blob (begin_mutation probe w)

  listed : Option BackendInfo → Result (Unit {0}) × World D → Result Snapshot × World D
  listed probe (err e, w) = (err e, w)
  listed probe (ok _, w) =
      let (s, d) = list_iptables probe (codes "filter") w.dev in (s, record w { dev = d })

  undo_blob : Option BackendInfo → Option Text × Undos → World D → Result Snapshot × World D
  unfolding listed restore_from
  undo_blob probe (none, undos) w = (err no_snapshot, record w { undos = undos })
  undo_blob probe (some blob, undos) w =
      listed probe (restore_from ipt_undo_staged blob (record w { undos = undos }))

  unless_refused : Option BackendInfo → Option IptError → World D → Result Snapshot × World D
  unfolding undo_blob
  unless_refused probe (some e) w = (err e, w)
  unless_refused probe none w = undo_blob probe (pop_undo w.undos (undo_key serial fam)) w

  -- no snapshot is taken before an undo
  pub undo_iptables : Option BackendInfo → World D → Result Snapshot × World D
  unfolding unless_refused
  undo_iptables probe w = unless_refused probe (assert_writable probe) w
