-- ===== src/Metrics.antt =====
-- internal/adb/metrics.go: how many adb processes were started, and how long they took. The
-- counters are int64s that count processes and nanoseconds, and stand here as numbers, since 2^63 of
-- either is centuries of use. The elapsed time of a window and the rate are not modelled.
pub mod Totals
pub mod Shapes
mod Examples
use adbq.Prelude.{
  ℕ, zero, suc, ◌+◌, ◌*◌, ◌/◌, ◌^◌, List, [], ◌∷◌, ◌++◌, Option, none, some, Bool, true, false,
  ◌&&◌, ◌||◌, not, if◌then◌else◌, ltb, leb, ◌==◌, Text, codes, text_eq, has_byte, length, get_or,
  set, take, replicate,
}
use adbq.Strings.{trim_space}
use adbq.Dict.{Dict, lookup, insert}

pub data SpawnKind : Type 0 where
  spawn_one_shot spawn_stream : SpawnKind

-- milliseconds
abbrev pub duration_bucket_bounds : List ℕ
duration_bucket_bounds = 1 ∷ 5 ∷ 25 ∷ 100 ∷ 500 ∷ 2000 ∷ []

pub record Metrics : Type 0 where
  pub one_shots : ℕ
  pub streams : ℕ
  pub nanos : ℕ
  pub buckets : List ℕ
  pub by_cmd : Dict ℕ
  pub tracking : Bool

-- the loop of `bucketIndex` over the bounds that are left
first_above : ℕ → List ℕ → ℕ
first_above ms [] = 0
first_above ms (bound ∷ bounds) =
    let rest = first_above ms bounds in if ltb ms bound then 0 else suc rest

-- of a duration in nanoseconds
pub bucket_index : ℕ → ℕ
unfolding first_above
bucket_index d = first_above (d / 10 ^ 6) duration_bucket_bounds

-- the bytes of a text in front of the first of some bytes
before_any : Text → Text → Text
before_any chars [] = []
before_any chars (c ∷ s) =
    let rest = before_any chars s in if has_byte chars c then [] else c ∷ rest

-- `if i > 0`: a text that starts with a separator is kept whole
first_word : Text → Text
unfolding before_any
first_word [] = []
first_word (c ∷ s) =
    if has_byte (codes " \t\n;|&") c then c ∷ s else before_any (codes " \t\n;|&") (c ∷ s)

remote_key : Text → Text
remote_key [] = codes "shell"
remote_key (c ∷ s) = codes "shell " ++ (c ∷ s)

sub_key : List Text → Text
unfolding first_word remote_key
sub_key [] = codes "adb"
sub_key (sub ∷ []) = sub
sub_key (sub ∷ remote ∷ rest) =
    if not (text_eq sub (codes "shell")) then sub else remote_key (first_word (trim_space remote))

-- the arguments without a leading `-s <serial>`
pub without_serial : List Text → List Text
without_serial (flag ∷ serial ∷ rest) =
    if text_eq flag (codes "-s") then rest else flag ∷ serial ∷ rest
without_serial rest = rest

pub spawn_key_for : List Text → Text
unfolding sub_key without_serial
spawn_key_for [] = codes "adb"
spawn_key_for (bin ∷ rest) = sub_key (without_serial rest)

or_none : Option ℕ → ℕ
or_none none = 0
or_none (some n) = n

-- `m.byCmd[key]++`
counted : Text → Dict ℕ → Dict ℕ
unfolding or_none
counted key m = insert key (or_none (lookup key m) + 1) m

-- `m.buckets[i].Add(1)`
bumped : ℕ → List ℕ → List ℕ
bumped i bs = set bs i (get_or bs i 0 + 1)

pub record_spawn : SpawnKind → List Text → ℕ → Metrics → Metrics
unfolding counted bumped
record_spawn spawn_stream args d m = record m {
  streams = m.streams + 1;
  by_cmd = counted (codes "(stream) " ++ spawn_key_for args) m.by_cmd;
}
record_spawn spawn_one_shot args d m = record m {
  one_shots = m.one_shots + 1;
  nanos = m.nanos + d;
  buckets = bumped (bucket_index d) m.buckets;
  by_cmd = counted (spawn_key_for args) m.by_cmd;
}

-- `reset`; the buckets are zeroed in place
pub reset_metrics : Metrics → Metrics
reset_metrics m = record m {
  one_shots = 0;
  streams = 0;
  nanos = 0;
  buckets = replicate (length m.buckets) 0;
  by_cmd = [];
}

-- byte order
text_lt : Text → Text → Bool
text_lt [] [] = false
text_lt [] (d ∷ t) = true
text_lt (c ∷ s) [] = false
text_lt (c ∷ s) (d ∷ t) = ltb c d || (c == d && text_lt s t)

-- the order of the commands: the more frequent first, then by name
busier : Text × ℕ → Text × ℕ → Bool
unfolding text_lt
busier (k, n) (j, m) = if n == m then text_lt k j else ltb m n

insert_sorted : Text × ℕ → Dict ℕ → Dict ℕ
unfolding busier
insert_sorted c [] = c ∷ []
insert_sorted c (d ∷ ds) = if busier d c then d ∷ insert_sorted c ds else c ∷ d ∷ ds

-- `sort.Slice`; no two commands are equal in the order, so the result does not depend on the method
sorted : Dict ℕ → Dict ℕ
unfolding insert_sorted
sorted [] = []
sorted (c ∷ cs) = insert_sorted c (sorted cs)

pub top_commands : ℕ → Metrics → Dict ℕ
unfolding sorted
top_commands top_n m = take top_n (sorted m.by_cmd)

-- the histogram: each count under its upper edge, 0 for the last
bars_from : List ℕ → List ℕ → List (ℕ × ℕ)
bars_from bounds [] = []
bars_from [] (n ∷ ns) = (0, n) ∷ bars_from [] ns
bars_from (b ∷ bounds) (n ∷ ns) = (b, n) ∷ bars_from bounds ns

pub bars : Metrics → List (ℕ × ℕ)
unfolding bars_from
bars m = bars_from duration_bucket_bounds m.buckets
