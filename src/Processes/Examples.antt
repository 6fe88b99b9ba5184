-- ===== src/Processes/Examples.antt =====
-- A process with an awkward name, and two ticks on a device that refuses root.
use adbq.Prelude.{
  ℕ, ◌+◌, ◌≡◌, arith, List, [], ◌∷◌, none, some, true, false, Text, codes, join, Lacks,
}
use adbq.Prelude.Int.{pos}
use adbq.Strings.Fields.{AllWords}
use adbq.FactStore.{no_capabilities, Client}
use adbq.Root.{Adb}
use adbq.Processes.{parse_proc_stat_line}
use adbq.Processes.StatLine.{stat_of, stat_line, parse_proc_stat_line-stat_line}
use adbq.Processes.Top.{TopStream, run_ticks}
use adbq.Processes.Top.Cycles.{AllSane, run_ticks-AllSane}

abbrev columns : List Text
columns =
    codes "S"
    ∷ codes "1"
    ∷ codes "1"
    ∷ codes "0"
    ∷ codes "0"
    ∷ codes "-1"
    ∷ codes "4"
    ∷ codes "9"
    ∷ codes "0"
    ∷ codes "0"
    ∷ codes "0"
    ∷ codes "30"
    ∷ codes "12"
    ∷ codes "0"
    ∷ codes "0"
    ∷ codes "20"
    ∷ codes "0"
    ∷ codes "1"
    ∷ codes "0"
    ∷ codes "5"
    ∷ codes "40960"
    ∷ codes "7"
    ∷ []

columns-AllWords : AllWords columns
columns-AllWords = ground arith

columns-Lacks : Lacks b')' (join columns (codes " "))
unfolding join
columns-Lacks = omega arith

parse_proc_stat_line-stat_line_example :
    parse_proc_stat_line (stat_line 1582 (codes "a) (b") columns)
    ≡ some (stat_of 1582 (codes "a) (b") columns)
parse_proc_stat_line-stat_line_example =
    parse_proc_stat_line-stat_line 1582 (codes "a) (b") (codes "S") _ (omega arith) columns-AllWords
      columns-Lacks (omega arith)

abbrev silent : Adb ℕ
silent = record {
  binary = true;
  adb = λ args d. (record { out = []; err = none }, d + 1);
  scan = λ d. (record no_capabilities { sdk = pos 30; abi = []; has = []; debuggable = false }, d);
}

abbrev fresh : Client ℕ
fresh = record { facts = []; caps = []; su_styles = []; su_failed_at = []; adb_rooted = [] }

abbrev rootless : TopStream
rootless = record { prev_total = pos 0; prev_proc = λ k. none; rootless = true }

run_ticks-AllSane_example :
    AllSane (run_ticks silent (codes "R58M") ((0, 1) ∷ (2, 3) ∷ []) rootless fresh 0).0
run_ticks-AllSane_example =
    run_ticks-AllSane silent (codes "R58M") ((0, 1) ∷ (2, 3) ∷ []) rootless fresh 0
