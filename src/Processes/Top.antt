-- ===== src/Processes/Top.antt =====
-- `buildSnapshot` and the ticks of `TopStream` of internal/adb/procs.go: what one cycle reads, and what
-- is carried to the next. `now` and `later` are the clock readings of a root probe.
pub mod Cycles
use adbq.Prelude.{
  ℕ, zero, suc, ◌+◌, ◌*◌, ◌<◌, ◌≡◌, refl, ap, ◌∙◌, arith, List, [], ◌∷◌, ◌++◌, Option, none, some,
  Bool, true, false, not, ◌&&◌, if◌then◌else◌, inl, inr, Bool-cases, length, Text, codes, text_eq,
  ◌==◌,
}
use adbq.Prelude.Int.{int_eq, ℤ, pos, negsuc}
use adbq.Strings.{split, trim_space}
use adbq.FactStore.{Client}
use adbq.Root.{Reply, Adb, shell, shell_su}
use adbq.Processes.Int64.{add64, sub64, mul64, quot64, is_positive}
use adbq.Processes.{
  section, PidMap, parse_uid_section, android_user_for_uid, parse_proc_stat, parse_mem_total_kb,
  ProcStat, parse_proc_stat_line,
}

-- the percentage 100 * part / whole
pub record Ratio : Type 0 where
  pub part : ℤ
  pub whole : ℤ

abbrev pub nothing : Ratio
nothing = record { part = pos 0; whole = pos 1 }

pub record ProcRow : Type 0 where
  pub pid : ℤ
  pub user : Text
  pub cpu : Ratio
  pub mem : Ratio
  pub rss : ℤ
  pub vsz : ℤ
  pub state : Text
  pub name : Text
  pub cmdline : Text

pub record ProcSnapshot : Type 0 where
  pub total : ℕ
  pub rows : List ProcRow
  pub root : Bool

pub record TopStream : Type 0 where
  pub prev_total : ℤ
  pub prev_proc : PidMap
  pub rootless : Bool

-- what one dump says of the whole device, and what the last cycle left
pub record Cycle : Type 0 where
  pub ncpu : ℕ
  pub mem_total : ℤ
  pub uids : PidMap
  pub has_prev : Bool
  pub delta : ℤ
  pub prev_proc : PidMap

or_unknown : Option ℤ → ℤ
or_unknown none = negsuc 0
or_unknown (some uid) = uid

mem_ratio : ℤ → ℤ → Ratio
mem_ratio rss total = if is_positive total then record { part = rss; whole = total } else nothing

-- `if d < 0 { d = 0 }`
at_least_zero : ℤ → ℕ
at_least_zero (pos n) = n
at_least_zero (negsuc n) = 0

cpu_ratio : Cycle → ℤ → Option ℤ → Ratio
unfolding at_least_zero
cpu_ratio c jiffies none = nothing
cpu_ratio c jiffies (some prev) =
    if c.has_prev && is_positive c.delta
    then record { part = pos (c.ncpu * at_least_zero (sub64 jiffies prev)); whole = c.delta }
    else nothing

row_of : Cycle → ProcStat → ProcRow
unfolding mem_ratio cpu_ratio or_unknown
row_of c p =
    let rss = mul64 p.rss_pages 4 in
    record {
      pid = p.pid;
      user = android_user_for_uid (or_unknown (c.uids p.pid));
      cpu = cpu_ratio c (add64 p.utime p.stime) (c.prev_proc p.pid);
      mem = mem_ratio rss c.mem_total;
      rss = rss;
      vsz = quot64 p.vsize 1024;
      state = p.state;
      name = p.comm;
      cmdline = p.comm;
    }

-- a line of the dump: a row, and the jiffies for the next cycle
add_row : Cycle → Option ProcStat → List ProcRow × PidMap → List ProcRow × PidMap
unfolding row_of
add_row c none acc = acc
add_row c (some p) (rows, next) =
    (rows ++ row_of c p ∷ [], λ k. if int_eq p.pid k then some (add64 p.utime p.stime) else next k)

-- an empty line is no row either
unfoldable pub add_rows : Cycle → List Text → List ProcRow × PidMap → List ProcRow × PidMap
unfolding add_row
add_rows c [] acc = acc
add_rows c (ln ∷ lns) acc = add_rows c lns (add_row c (parse_proc_stat_line (trim_space ln)) acc)

unfoldable pub cycle_of : Text → TopStream → Cycle × ℤ
cycle_of out s =
    let (total, ncpu) = parse_proc_stat (section out 0) in
    (
      record {
        ncpu = if ncpu == 0 then 1 else ncpu;
        mem_total = parse_mem_total_kb (section out 2);
        uids = parse_uid_section (section out 3);
        has_prev = is_positive s.prev_total;
        delta = sub64 total s.prev_total;
        prev_proc = s.prev_proc;
      },
      total,
    )

unfoldable pub build_snapshot : Text → TopStream → ProcSnapshot × TopStream
unfolding add_rows cycle_of
build_snapshot out s =
    let (c, total) = cycle_of out s in
    let (rows, next) = add_rows c (split b'\n' (section out 1)) ([], λ k. none) in
    (
      record { total = length rows; rows = rows; root = not s.rootless },
      record s { prev_total = total; prev_proc = next },
    )

abbrev pub procfs_cmd : Text
procfs_cmd =
    codes "cat /proc/stat; echo '@@@'; cat /proc/[0-9]*/stat 2>/dev/null; echo '@@@'; "
    ++ (codes "cat /proc/meminfo; echo '@@@'; for p in /proc/[0-9]*; do while read k v _; do "
        ++ codes
            "if [ \"$k\" = Uid: ]; then echo \"${p##*/} $v\"; break; fi; done < \"$p/status\" 2>/dev/null; done")

-- `tick` after its read: a read that failed is skipped
unfoldable pub after_read : Bool → Text → TopStream → Option ProcSnapshot × TopStream
unfolding build_snapshot
after_read true out s = (none, s)
after_read false out s = let (snap, s') = build_snapshot out s in (some snap, s')

has_failed : Option Text → Bool
has_failed none = false
has_failed (some e) = true

some_list : Option ProcSnapshot → List ProcSnapshot
some_list none = []
some_list (some snap) = snap ∷ []

module _ {D : Type 0} (a : Adb D) where
  read_plain : TopStream → D → (Option ProcSnapshot × TopStream) × D
  read_plain s d = let (r, d') = shell a procfs_cmd d in (after_read (has_failed r.err) r.out s, d')

module _ {ℓ} {V : Type ℓ} {D : Type 0} (a : Adb D) (serial : Text) where
  -- what the read as root came to: `unavailable` latches the stream to be rootless
  after_su :
      TopStream
      → (Text × Bool × Bool) × Client V × D
      → (Option ProcSnapshot × TopStream) × Client V × D
  after_su s ((out, unavailable, failed), c, d) =
      if failed && unavailable
      then (let (answer, d') = read_plain a (record s { rootless = true }) d in (answer, c, d'))
      else (after_read failed out s, c, d)

  pub tick : ℕ → ℕ → TopStream → Client V → D → (Option ProcSnapshot × TopStream) × Client V × D
  tick now later s c d =
      if s.rootless
      then (let (answer, d') = read_plain a s d in (answer, c, d'))
      else after_su s (shell_su a serial now later procfs_cmd c d)

  -- the loop, for a list of ticks; the snapshots are sent in order
  pub run_ticks :
      List (ℕ × ℕ) → TopStream → Client V → D → List ProcSnapshot × TopStream × Client V × D
  run_ticks [] s c d = ([], s, c, d)
  run_ticks ((now, later) ∷ ts) s c d =
      let ((answer, s'), c', d') = tick now later s c d in
      let (snaps, s'', c'', d'') = run_ticks ts s' c' d' in
      (some_list answer ++ snaps, s'', c'', d'')
