-- ===== src/Hosts.antt =====
-- internal/adb/hosts.go: how a hosts file is written to a device, by the first of several ways that
-- sticks. The device is a state `D` behind a record of what is run on it; the hash is an argument.
pub mod Verified
pub mod Staged
mod Examples
use adbq.Prelude.{
  ℕ, List, [], ◌∷◌, ◌++◌, Option, none, some, Bool, true, false, not, ◌&&◌, ◌||◌, if◌then◌else◌,
  ◌==◌, Text, codes, text_eq, has_suffix, replace_byte, join,
}
use adbq.Strings.{split, trim_space, contains}

-- what a command printed, and whether it ended in an error
pub record Reply : Type 0 where
  pub out : Text
  pub failed : Bool

-- a command as the shell user, one as root, and the flush of netd's cache, which may fail
pub record Adb (D : Type 0) : Type 0 where
  pub shell : Text → D → Reply × D
  pub su : Text → D → Reply × D
  pub flush_dns : D → Bool × D

pub record HostsApplyResult : Type 0 where
  pub path : Text
  pub strategy : Text
  pub needs_reboot : Bool
  pub netd_flushed : Bool
  pub content : Text
  pub diagnostics : Text

pub data HostsError : Type 0 where
  stage_failed not_written : HostsError

-- `shellStrategy`
pub record ShellStrategy : Type 0 where
  pub name : Text
  pub cmd : Text

first_hosts : List Text → Text
first_hosts [] = codes "/system/etc/hosts"
first_hosts (ln ∷ lns) =
    let rest = first_hosts lns in
    let t = trim_space ln in if not (text_eq t []) && has_suffix t (codes "/hosts") then t else rest

abbrev pub readlink_cmd : Text
readlink_cmd = codes "readlink -f /system/etc/hosts 2>/dev/null; readlink -f /etc/hosts 2>/dev/null"

abbrev pub hosts_stage : Text
hosts_stage = codes "/data/local/tmp/adbq-hosts.new"

-- `strings.ReplaceAll(content, "\r\n", "\n")`
unfoldable pub unix_lines : Text → Text
unix_lines [] = []
unix_lines (c ∷ []) = c ∷ []
unix_lines (c ∷ d ∷ s) =
    let rest = unix_lines (d ∷ s) in if c == b'\r' && d == b'\n' then rest else c ∷ rest

unfoldable pub normalize_hosts_content : Text → Text
unfolding unix_lines
normalize_hosts_content content =
    let s = unix_lines content in if has_suffix s (b'\n' ∷ []) then s else s ++ b'\n' ∷ []

-- an embedded single quote, broken out of the quotes
unfoldable pub escaped : Text → Text
escaped s = replace_byte b'\'' (codes "'\\''") s

unfoldable pub hosts_stage_cmd : Text → Text
unfolding escaped
hosts_stage_cmd content =
    codes "printf '%s' '"
    ++ (escaped content
        ++ (codes "' > " ++ (hosts_stage ++ (codes " && chmod 644 " ++ hosts_stage))))

-- the commands of `hostsStrategies`: what goes in front of the copy, and what follows it
copy_between : Text → Text → Text → Text → Text
copy_between before stage hosts after =
    before ++ (codes "cp " ++ (stage ++ (b' ' ∷ (hosts ++ after))))

unfoldable pub hosts_strategies : Text → Text → List ShellStrategy
unfolding copy_between
hosts_strategies stage hosts =
    record {
      name = codes "direct";
      cmd = copy_between [] stage hosts (codes " && sync && echo OK");
    }
    ∷ record {
      name = codes "magisk-remount";
      cmd =
          copy_between (codes "magisk --remount-system 2>&1 && ") stage hosts
            (codes " && sync && echo OK");
    }
    ∷ record {
      name = codes "remount-root";
      cmd =
          copy_between (codes "mount -o rw,remount / 2>&1 && ") stage hosts
            (codes " && sync && mount -o ro,remount / 2>/dev/null; echo OK");
    }
    ∷ record {
      name = codes "remount-system";
      cmd =
          copy_between (codes "mount -o rw,remount /system 2>&1 && ") stage hosts
            (codes " && sync && mount -o ro,remount /system 2>/dev/null; echo OK");
    }
    ∷ record {
      name = codes "bind-mount";
      cmd =
          codes "chcon u:object_r:system_file:s0 "
          ++ (stage
              ++ (codes " 2>/dev/null; mount --bind "
                  ++ (stage ++ (b' ' ∷ (hosts ++ codes " 2>&1 && echo OK")))));
    }
    ∷ []

unfoldable pub hosts_verify_cmd : Text → Text
hosts_verify_cmd hosts =
    codes "sync; (echo 3 > /proc/sys/vm/drop_caches 2>/dev/null || true); md5sum "
    ++ (hosts ++ codes " 2>/dev/null | awk '{print $1}'")

abbrev pub module_dir : Text
module_dir = codes "/data/adb/modules/adbq-hosts"

module_prop : Text → Text
module_prop want =
    codes "id=adbq-hosts\nname=adbq hosts override\nversion=v1\nversionCode=1\nauthor=adbq\n"
    ++ (codes "description=Persists /system/etc/hosts (md5=" ++ (want ++ codes ")\n"))

-- the long dash of the message, in UTF-8
abbrev pub long_dash : Text
long_dash = 226 ∷ 128 ∷ 148 ∷ []

unfoldable pub hosts_magisk_module_cmd : Text → Text → Text
unfolding escaped module_prop join
hosts_magisk_module_cmd stage want =
    join
      (codes "\ntest -d /data/adb/modules || { echo \"no magisk modules dir "
        ∷ long_dash
        ∷ codes " install Magisk first\"; exit 1; }\nmkdir -p "
        ∷ module_dir
        ∷ codes "/system/etc || exit 1\ncp "
        ∷ stage
        ∷ codes " "
        ∷ module_dir
        ∷ codes "/system/etc/hosts || exit 1\nchmod 644 "
        ∷ module_dir
        ∷ codes "/system/etc/hosts\nprintf '%s' '"
        ∷ escaped (module_prop want)
        ∷ codes "' > "
        ∷ module_dir
        ∷ codes "/module.prop\ntouch "
        ∷ module_dir
        ∷ codes "/skip_mount\nrm -f "
        ∷ module_dir
        ∷ codes "/disable "
        ∷ module_dir
        ∷ codes "/remove\necho OK\n"
        ∷ [])
      []

-- the result once the path is known, and how the transcript starts
abbrev pub located : Text → HostsApplyResult
located path = record {
  path = path;
  strategy = [];
  needs_reboot = false;
  netd_flushed = false;
  content = [];
  diagnostics = [];
}

abbrev pub opening : Text → Text
opening path =
    codes "canonical hosts path: " ++ (path ++ (codes "\nstaged: " ++ (hosts_stage ++ codes "\n")))

module _ {D : Type 0} (a : Adb D) where
  unfoldable pub canonical_hosts_path : D → Text × D
  unfolding first_hosts
  canonical_hosts_path d =
      let (r, d') = a.shell readlink_cmd d in (first_hosts (split b'\n' r.out), d')

  -- The loop over the strategies: the name of the one whose write was verified, the transcript and
  -- the device. A command that failed is not verified.
  unfoldable pub try_hosts : Text → Text → List ShellStrategy → Text → D → Option Text × Text × D
  try_hosts want hosts [] diag d = (none, diag, d)
  try_hosts want hosts (s ∷ ss) diag d =
      let (r, d1) = a.su s.cmd d in
      let diag1 =
        diag ++ (codes "\n[" ++ (s.name ++ (codes "]\n" ++ (trim_space r.out ++ codes "\n")))) in
      let (v, d2) = a.su (hosts_verify_cmd hosts) d1 in
      let got = trim_space v.out in
      let diag2 =
        diag1 ++ (codes "verify md5: want=" ++ (want ++ (codes " got=" ++ (got ++ codes "\n")))) in
      let skipped = try_hosts want hosts ss diag1 d1 in
      let rest = try_hosts want hosts ss diag2 d2 in
      if r.failed then skipped else if text_eq got want then (some s.name, diag2, d2) else rest

  module_result : HostsApplyResult → Text → Reply → HostsApplyResult × Option HostsError
  module_result res content r =
      let diag =
        res.diagnostics ++ (codes "\n[magisk-module]\n" ++ (trim_space r.out ++ codes "\n")) in
      if r.failed || not (contains r.out (codes "OK"))
      then (
        record res { diagnostics = diag ++ codes "\nALL STRATEGIES FAILED\n" },
        some not_written,
      )
      else (
        record res {
          strategy = codes "magisk-module";
          needs_reboot = true;
          content = content;
          diagnostics = diag;
        },
        none,
      )

  -- the last resort, where no write was verified
  unfoldable pub or_module :
      Text
      → Text
      → HostsApplyResult
      → Option Text × Text × D
      → (HostsApplyResult × Option HostsError) × D
  unfolding module_result
  or_module content want res (some name, diag, d) =
      ((record res { strategy = name; content = content; diagnostics = diag }, none), d)
  or_module content want res (none, diag, d) =
      let (r, d') = a.su (hosts_magisk_module_cmd hosts_stage want) d in
      (module_result (record res { diagnostics = diag }) content r, d')

  -- the staged file goes, but for a bind mount, which needs it
  unfoldable pub clean_up :
      (HostsApplyResult × Option HostsError) × D → (HostsApplyResult × Option HostsError) × D
  clean_up ((res, some e), d) = ((res, some e), d)
  clean_up ((res, none), d) =
      let d1 =
        if text_eq res.strategy (codes "bind-mount")
        then d
        else (a.shell (codes "rm -f " ++ hosts_stage) d).1 in
      let (flushed, d2) = a.flush_dns d1 in ((record res { netd_flushed = flushed }, none), d2)

  -- from the staging on
  after_stage :
      (Text → Text)
      → Text
      → HostsApplyResult
      → Reply × D
      → (HostsApplyResult × Option HostsError) × D
  unfolding clean_up or_module try_hosts hosts_strategies
  after_stage md5 content res (r, d) =
      if r.failed
      then ((res, some stage_failed), d)
      else let want = md5 content in
        let diag = opening res.path in
        clean_up (
          or_module content want res
            (try_hosts want res.path (hosts_strategies hosts_stage res.path) diag d))

  unfoldable pub apply_hosts_robust :
      (Text → Text) → Text → D → (HostsApplyResult × Option HostsError) × D
  unfolding after_stage canonical_hosts_path normalize_hosts_content hosts_stage_cmd
  apply_hosts_robust md5 content d =
      let content' = normalize_hosts_content content in
      let (path, d1) = canonical_hosts_path d in
      after_stage md5 content' (located path) (a.shell (hosts_stage_cmd content') d1)
