-- ===== src/Processes/Top/Cycles.antt =====
-- What the snapshots of a stream say in any run, and what a stream without root does no more.
use adbq.Prelude.{
  ℕ, ◌≡◌, refl, ap, arith, List, [], ◌∷◌, ◌++◌, Option, none, some, Bool, true, false, not, ◌&&◌,
  if◌then◌else◌, inl, inr, Bool-cases, length, Text,
}
use adbq.Prelude.Int.{ℤ}
use adbq.Strings.{split, trim_space}
use adbq.FactStore.{Client}
use adbq.Root.{Adb, shell, shell_su}
use adbq.Processes.{section, PidMap, ProcStat, parse_proc_stat_line}
use adbq.Processes.Int64.{is_positive, add64, mul64}
use adbq.Processes.Top.{
  Ratio, ProcRow, ProcSnapshot, TopStream, Cycle, mem_ratio, cpu_ratio, row_of, add_row, add_rows,
  cycle_of, build_snapshot, after_read, has_failed, some_list, read_plain, after_su, tick,
  run_ticks, procfs_cmd,
}

-- the fraction can be computed
abbrev pub IsRatio : Ratio → Type 0
IsRatio r = is_positive r.whole ≡ true

abbrev pub AllRatios : List ProcRow → Type 0
AllRatios [] = Unit
AllRatios (r ∷ rs) = IsRatio r.cpu × IsRatio r.mem × AllRatios rs

abbrev pub IsSane : ProcSnapshot → Type 0
IsSane s = (s.total ≡ length s.rows) × AllRatios s.rows

abbrev pub AllSane : List ProcSnapshot → Type 0
AllSane [] = Unit
AllSane (s ∷ ss) = IsSane s × AllSane ss

mem-IsRatio : (rss total : ℤ) → IsRatio (mem_ratio rss total)
unfolding mem_ratio is_positive
mem-IsRatio rss total = ground arith

cpu-IsRatio : (c : Cycle) (jiffies : ℤ) (o : Option ℤ) → IsRatio (cpu_ratio c jiffies o)
unfolding cpu_ratio
cpu-IsRatio c jiffies none = unfold is_positive in refl
cpu-IsRatio c jiffies (some prev) = elim (Bool-cases (c.has_prev && is_positive c.delta)) [
  | inl e ↦ rw e (ground arith)
  | inr e ↦ rw e (unfold is_positive in refl)
]

AllRatios-append : (rs ss : List ProcRow) → AllRatios rs → AllRatios ss → AllRatios (rs ++ ss)
AllRatios-append [] ss h k = k
AllRatios-append (r ∷ rs) ss (hc, hm, h) k = (hc, hm, AllRatios-append rs ss h k)

add_row-AllRatios :
    (c : Cycle) (o : Option ProcStat) (rows : List ProcRow) (next : PidMap)
    → AllRatios rows
    → AllRatios (add_row c o (rows, next)).0
unfolding add_row row_of
add_row-AllRatios c none rows next h = h
add_row-AllRatios c (some p) rows next h = AllRatios-append rows (row_of c p ∷ []) h (
  cpu-IsRatio c (add64 p.utime p.stime) (c.prev_proc p.pid),
  mem-IsRatio (mul64 p.rss_pages 4) c.mem_total,
  tt,
)

add_rows-AllRatios :
    (c : Cycle) (lns : List Text) (rows : List ProcRow) (next : PidMap)
    → AllRatios rows
    → AllRatios (add_rows c lns (rows, next)).0
unfolding add_rows
add_rows-AllRatios c [] rows next h = h
add_rows-AllRatios c (ln ∷ lns) rows next h =
    let o = parse_proc_stat_line (trim_space ln) in
    let (rows', next') = add_row c o (rows, next) in
    add_rows-AllRatios c lns rows' next' (add_row-AllRatios c o rows next h)

build_snapshot-IsSane : (out : Text) (s : TopStream) → IsSane (build_snapshot out s).0
unfolding build_snapshot
build_snapshot-IsSane out s =
    (refl, add_rows-AllRatios (cycle_of out s).0 (split b'\n' (section out 1)) [] (λ k. none) tt)

after_read-AllSane :
    (failed : Bool) (out : Text) (s : TopStream) → AllSane (some_list (after_read failed out s).0)
unfolding after_read some_list
after_read-AllSane true out s = tt
after_read-AllSane false out s = (build_snapshot-IsSane out s, tt)

AllSane-append : (ss ts : List ProcSnapshot) → AllSane ss → AllSane ts → AllSane (ss ++ ts)
AllSane-append [] ts h k = k
AllSane-append (s ∷ ss) ts (hs, h) k = (hs, AllSane-append ss ts h k)

abbrev pub AllRootless : List ProcSnapshot → Type 0
AllRootless [] = Unit
AllRootless (s ∷ ss) = (s.root ≡ false) × AllRootless ss

AllRootless-append :
    (ss ts : List ProcSnapshot) → AllRootless ss → AllRootless ts → AllRootless (ss ++ ts)
AllRootless-append [] ts h k = k
AllRootless-append (s ∷ ss) ts (hs, h) k = (hs, AllRootless-append ss ts h k)

after_read-rootless :
    (failed : Bool) (out : Text) (s : TopStream)
    → s.rootless ≡ true
    → AllRootless (some_list (after_read failed out s).0)
      × ((after_read failed out s).1.rootless ≡ true)
unfolding after_read some_list build_snapshot
after_read-rootless true out s e = (tt, e)
after_read-rootless false out s e = ((ap not e, tt), e)

module _ {D : Type 0} (a : Adb D) where
  plain-rootless :
      (s : TopStream) (d : D)
      → s.rootless ≡ true
      → AllRootless (some_list (read_plain a s d).0.0) × ((read_plain a s d).0.1.rootless ≡ true)
  unfolding read_plain
  plain-rootless s d e =
      let (r, d') = shell a procfs_cmd d in after_read-rootless (has_failed r.err) r.out s e

  plain-AllSane : (s : TopStream) (d : D) → AllSane (some_list (read_plain a s d).0.0)
  unfolding read_plain
  plain-AllSane s d =
      let (r, d') = shell a procfs_cmd d in after_read-AllSane (has_failed r.err) r.out s

module _ {ℓ} {V : Type ℓ} {D : Type 0} (a : Adb D) (serial : Text) where
  su-AllSane :
      (s : TopStream) (out : Text) (unavailable failed : Bool) (c : Client V) (d : D)
      → AllSane (some_list (after_su a serial s ((out, unavailable, failed), c, d)).0.0)
  unfolding after_su
  su-AllSane s out true true c d = plain-AllSane a (record s { rootless = true }) d
  su-AllSane s out false true c d = after_read-AllSane true out s
  su-AllSane s out unavailable false c d = after_read-AllSane false out s

  Sent-if :
      (b : Bool) (x y : (Option ProcSnapshot × TopStream) × Client V × D)
      → AllSane (some_list x.0.0)
      → AllSane (some_list y.0.0)
      → AllSane (some_list (if b then x else y).0.0)
  Sent-if true x y hx hy = hx
  Sent-if false x y hx hy = hy

  tick-AllSane :
      (now later : ℕ) (s : TopStream) (c : Client V) (d : D)
      → AllSane (some_list (tick a serial now later s c d).0.0)
  unfolding tick
  tick-AllSane now later s c d =
      let (answer, d') = read_plain a s d in
      let ((out, unavailable, failed), c', d'') = shell_su a serial now later procfs_cmd c d in
      Sent-if s.rootless (answer, c, d') (after_su a serial s ((out, unavailable, failed), c', d''))
        (plain-AllSane a s d) (su-AllSane s out unavailable failed c' d'')

  -- Every snapshot that a stream sends, in any run and for any output of the device, counts its
  -- rows, and no percentage in it divides by zero or by a negative number: also in the first
  -- cycle, where the counters of the device stood still or ran backwards, and where the memory's
  -- size is missing or makes no sense.
  pub run_ticks-AllSane :
      (ts : List (ℕ × ℕ)) (s : TopStream) (c : Client V) (d : D)
      → AllSane (run_ticks a serial ts s c d).0
  unfolding run_ticks
  run_ticks-AllSane [] s c d = tt
  run_ticks-AllSane ((now, later) ∷ ts) s c d =
      let ((answer, s'), c', d') = tick a serial now later s c d in
      AllSane-append (some_list answer) (run_ticks a serial ts s' c' d').0
        (tick-AllSane now later s c d) (run_ticks-AllSane ts s' c' d')

  -- what a run without root leaves
  abbrev pub StaysRootless : Client V → List ProcSnapshot × TopStream × Client V × D → Type ℓ
  StaysRootless c (snaps, s, c', d) = (AllRootless snaps × (s.rootless ≡ true)) × (c' ≡ c)

  tick_rootless :
      (now later : ℕ) (s : TopStream) (c : Client V) (d : D)
      → s.rootless ≡ true
      → tick a serial now later s c d ≡ ((read_plain a s d).0, c, (read_plain a s d).1)
  unfolding tick
  tick_rootless now later s c d e = ground arith

  -- Root is asked for no more once it was refused. From a stream that is marked rootless on,
  -- every snapshot says that it was read without root, the stream stays marked, and the client's
  -- maps, its root probes among them, are left as they are, whatever the device answers.
  pub run_ticks-StaysRootless :
      (ts : List (ℕ × ℕ)) (s : TopStream) (c : Client V) (d : D)
      → s.rootless ≡ true
      → StaysRootless c (run_ticks a serial ts s c d)
  unfolding run_ticks
  run_ticks-StaysRootless [] s c d e = ((tt, e), refl)
  run_ticks-StaysRootless ((now, later) ∷ ts) s c d e =
      let ((answer, s'), d') = read_plain a s d in
      let (sent, marked) = plain-rootless a s d e in
      let ((all, stays), kept) = run_ticks-StaysRootless ts s' c d' marked in
      rw (tick_rootless now later s c d e) (
        (AllRootless-append (some_list answer) (run_ticks a serial ts s' c d').0 sent all, stays),
        kept,
      )
