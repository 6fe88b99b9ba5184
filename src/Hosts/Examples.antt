-- ===== src/Hosts/Examples.antt =====
-- The theorems on the hosts file at a device that only takes a write after a remount of `/`.
use adbq.Prelude.{
  ◌≡◌, refl, [], ◌∷◌, ◌++◌, Option, some, Bool, true, false, if◌then◌else◌, Text, codes,
}
use adbq.Strings.{contains}
use adbq.Hosts.{
  Reply, Adb, HostsApplyResult, HostsError, normalize_hosts_content, hosts_stage_cmd,
  apply_hosts_robust,
}
use adbq.Hosts.Verified.{Verdict, apply_hosts_robust-Verdict}

-- what the state keeps is whether the file is written
abbrev remounts : Text → Bool → Reply × Bool
remounts cmd written =
    if contains cmd (codes "md5sum")
    then (record { out = if written then codes "h1\n" else codes "h0\n"; failed = false }, written)
    else if contains cmd (codes "rw,remount / ")
    then (record { out = codes "OK\n"; failed = false }, true)
    else (record { out = codes "read-only\n"; failed = true }, written)

abbrev remountable : Adb Bool
remountable = record {
  shell = λ cmd written. (record { out = codes "/system/etc/hosts\n"; failed = false }, written);
  su = remounts;
  flush_dns = λ written. (true, written);
}

abbrev one_host : Text
one_host = codes "10.0.2.2 it's\r\n"

abbrev done : HostsApplyResult × Option HostsError
done = (apply_hosts_robust remountable (λ s. codes "h1") one_host false).0

remounted : done.0.strategy ≡ codes "remount-root"
unfolding apply_hosts_robust contains adbq.Prelude.has_prefix adbq.Strings.split
    adbq.Prelude.text_eq adbq.Strings.trim_space adbq.Prelude.has_suffix adbq.Hosts.hosts_verify_cmd
remounted = refl

unix_ends : done.0.content ≡ codes "10.0.2.2 it's\n"
unfolding apply_hosts_robust contains adbq.Prelude.has_prefix adbq.Strings.split
    adbq.Prelude.text_eq adbq.Strings.trim_space adbq.Prelude.has_suffix adbq.Hosts.hosts_verify_cmd
unix_ends = refl

apply_hosts_robust-Verdict_example :
    Verdict remountable (λ s. codes "h1") (normalize_hosts_content one_host) false done
apply_hosts_robust-Verdict_example =
    apply_hosts_robust-Verdict remountable (λ s. codes "h1") one_host false
