-- ===== src/Hosts/Verified.antt =====
-- A hosts file that is reported as written was read back.
use adbq.Prelude.{
  ◌≡◌, ◌≢◌, refl, List, [], ◌∷◌, Option, none, some, true, false, not, ◌||◌, ◌⊎◌, inl, inr,
  if◌then◌else◌, if_both, Text, codes, text_eq, text_eq_iff,
}
use adbq.Strings.{trim_space, contains}
use adbq.Hosts.{
  Reply, Adb, HostsApplyResult, HostsError, stage_failed, not_written, ShellStrategy, hosts_stage,
  normalize_hosts_content, hosts_stage_cmd, hosts_strategies, hosts_verify_cmd,
  hosts_magisk_module_cmd, canonical_hosts_path, try_hosts, module_result, or_module, clean_up,
  after_stage, located, opening, apply_hosts_robust,
}

module _ {D : Type 0} (a : Adb D) (want hosts : Text) where
  -- the device after a strategy's command, and what the file hashes to then
  abbrev pub ran : ShellStrategy → D → Reply × D
  ran s d = a.su s.cmd d

  abbrev pub hashed : D → Reply × D
  hashed d = a.su (hosts_verify_cmd hosts) d

  abbrev pub read_back : D → Text
  read_back d = trim_space (hashed d).0.out

  -- one strategy did not stick
  abbrev pub Refused : ShellStrategy → D → D → Type 0
  Refused s d d' =
      (((ran s d).0.failed ≡ true) × (d' ≡ (ran s d).1))
      ⊎ (((ran s d).0.failed ≡ false)
          × (read_back (ran s d).1 ≢ want)
          × (d' ≡ (hashed (ran s d).1).1))

  -- none of them did, from one state of the device to another
  abbrev pub AllRefused : List ShellStrategy → D → D → Type 0
  AllRefused [] d d' = d' ≡ d
  AllRefused (s ∷ ss) d d' = (d1 : D) × Refused s d d1 × AllRefused ss d1 d'

  -- the first that stuck, after all in front of it were refused
  abbrev pub Sticks : List ShellStrategy → D → Text → Type 0
  Sticks [] d name = ⊥
  Sticks (s ∷ ss) d name =
      (((ran s d).0.failed ≡ false) × (read_back (ran s d).1 ≡ want) × (name ≡ s.name))
      ⊎ ((d1 : D) × Refused s d d1 × Sticks ss d1 name)

  abbrev Tried : List ShellStrategy → D → Option Text × Text × D → Type 0
  Tried ss d (none, diag, d') = AllRefused ss d d'
  Tried ss d (some name, diag, d') = Sticks ss d name

  later :
      (s : ShellStrategy) (ss : List ShellStrategy) (d d1 : D) (x : Option Text × Text × D)
      → Refused s d d1
      → Tried ss d1 x
      → Tried (s ∷ ss) d x
  later s ss d d1 (none, diag, d') r h = (d1, r, h)
  later s ss d d1 (some name, diag, d') r h = inr (d1, r, h)

  differs : (t : Text) → text_eq t want ≡ false → t ≢ want
  differs t f e = let h = (text_eq_iff t want).1 e in cc

  -- a command that failed is not verified; one whose file hashes right is the outcome
  Tried-tried :
      (s : ShellStrategy) (ss : List ShellStrategy) (d : D) (diag : Text)
      (skipped rest : Option Text × Text × D)
      → Tried ss (ran s d).1 skipped
      → Tried ss (hashed (ran s d).1).1 rest
      → Tried (s ∷ ss) d (
          if (ran s d).0.failed
          then skipped
          else if text_eq (read_back (ran s d).1) want
          then (some s.name, diag, (hashed (ran s d).1).1)
          else rest)
  Tried-tried s ss d diag skipped rest h k =
      if_both (Tried (s ∷ ss) d) (ran s d).0.failed skipped
        (if text_eq (read_back (ran s d).1) want
          then (some s.name, diag, (hashed (ran s d).1).1)
          else rest)
        (λ e. later s ss d (ran s d).1 skipped (inl (e, refl)) h)
        (λ e.
          if_both (Tried (s ∷ ss) d) (text_eq (read_back (ran s d).1) want)
            (some s.name, diag, (hashed (ran s d).1).1) rest
            (λ t. inl (e, (text_eq_iff (read_back (ran s d).1) want).0 t, refl))
            (λ f.
              later s ss d (hashed (ran s d).1).1 rest
                (inr (e, differs (read_back (ran s d).1) f, refl)) k))

  try_hosts-Tried :
      (ss : List ShellStrategy) (diag : Text) (d : D)
      → Tried ss d (try_hosts a want hosts ss diag d)
  unfolding try_hosts
  try_hosts-Tried [] diag d = refl
  try_hosts-Tried (s ∷ ss) diag d =
      Tried-tried s ss d _ _ _ (try_hosts-Tried ss _ (ran s d).1)
        (try_hosts-Tried ss _ (hashed (ran s d).1).1)

-- what a verdict on the staged device `d` says
module _ {D : Type 0} (a : Adb D) (md5 : Text → Text) (content : Text) where
  abbrev pub staged : D → Reply × D
  staged d = a.shell (hosts_stage_cmd content) (canonical_hosts_path a d).1

  abbrev pub by_module : D → Reply × D
  by_module d = a.su (hosts_magisk_module_cmd hosts_stage (md5 content)) d

  abbrev pub strategies_of : D → List ShellStrategy
  strategies_of d = hosts_strategies hosts_stage (canonical_hosts_path a d).0

  -- the module was asked to write only after every strategy was refused
  abbrev pub ByModule : D → Reply → Type 0
  ByModule d r =
      (d1 : D) × AllRefused a (md5 content) (canonical_hosts_path a d).0 (strategies_of d)
        (staged d).1 d1
      × (r ≡ (by_module d1).0)

  abbrev pub Verdict : D → HostsApplyResult × Option HostsError → Type 0
  Verdict d (res, some stage_failed) = (staged d).0.failed ≡ true
  Verdict d (res, some not_written) =
      ((staged d).0.failed ≡ false)
      × ((r : Reply) × ByModule d r × ((r.failed || not (contains r.out (codes "OK"))) ≡ true))
  Verdict d (res, none) =
      ((staged d).0.failed ≡ false)
      × (res.content ≡ content)
      × ((Sticks a (md5 content) (canonical_hosts_path a d).0 (strategies_of d) (staged d).1
              res.strategy
            × (res.needs_reboot ≡ false))
          ⊎ (((r : Reply) × ByModule d r
                × ((r.failed || not (contains r.out (codes "OK"))) ≡ false))
              × (res.strategy ≡ codes "magisk-module")
              × (res.needs_reboot ≡ true)))

  clean_up-Verdict :
      (d : D) (x : (HostsApplyResult × Option HostsError) × D)
      → Verdict d x.0
      → Verdict d (clean_up a x).0
  unfolding clean_up
  clean_up-Verdict d ((res, some stage_failed), d') h = h
  clean_up-Verdict d ((res, some not_written), d') h = h
  clean_up-Verdict d ((res, none), d') h = h

  or_module-Verdict :
      (d : D) (res : HostsApplyResult) (x : Option Text × Text × D)
      → (staged d).0.failed ≡ false
      → res.needs_reboot ≡ false
      → Tried a (md5 content) (canonical_hosts_path a d).0 (strategies_of d) (staged d).1 x
      → Verdict d (or_module a content (md5 content) res x).0
  unfolding or_module module_result
  or_module-Verdict d res (some name, diag, d') e n h = (e, refl, inl (h, n))
  or_module-Verdict d res (none, diag, d') e n h =
      if_both (Verdict d)
        ((by_module d').0.failed || not (contains (by_module d').0.out (codes "OK"))) _ _
        (λ t. (e, ((by_module d').0, (d', h, refl), t)))
        (λ f. (e, refl, inr (((by_module d').0, (d', h, refl), f), refl, refl)))

  after_stage-Verdict :
      (d : D)
      → Verdict d (after_stage a md5 content (located (canonical_hosts_path a d).0) (staged d)).0
  unfolding after_stage
  after_stage-Verdict d =
      let path = (canonical_hosts_path a d).0 in
      if_both {A = (HostsApplyResult × Option HostsError) × D} (λ x. Verdict d x.0)
        (staged d).0.failed ((located path, some stage_failed), (staged d).1)
        (clean_up a (
          or_module a content (md5 content) (located path)
            (try_hosts a (md5 content) path (strategies_of d) (opening path) (staged d).1)))
        (λ e. e)
        (λ e.
          clean_up-Verdict d
            (or_module a content (md5 content) (located path)
              (try_hosts a (md5 content) path (strategies_of d) (opening path) (staged d).1))
            (or_module-Verdict d (located path)
              (try_hosts a (md5 content) path (strategies_of d) (opening path) (staged d).1) e refl
              (try_hosts-Tried a (md5 content) path (strategies_of d) (opening path) (staged d).1)))

-- What is said of a write of the hosts file is true of the device. If it is reported as done, one of two
-- things happened: some strategy's command ended well and the file, read back after it, had the hash
-- wanted, all strategies in front of it having been refused, and no reboot is asked for; or every
-- strategy was refused and the Magisk module was installed, and a reboot is asked for. The content that
-- is given back is in both cases the normalised input: the file is compared by its hash, its content is
-- not read. If it is reported as not written, every strategy and then the module were refused; if as
-- not staged, the staging command failed.
pub apply_hosts_robust-Verdict :
    {D : Type 0} (a : Adb D) (md5 : Text → Text) (content : Text) (d : D)
    → Verdict a md5 (normalize_hosts_content content) d (apply_hosts_robust a md5 content d).0
unfolding apply_hosts_robust
apply_hosts_robust-Verdict a md5 content d =
    after_stage-Verdict a md5 (normalize_hosts_content content) d
