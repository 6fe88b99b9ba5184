-- ===== src/Statistics/Scan.antt =====
-- The scan of a device's capabilities in internal/adb/capabilities.go: one command, whose output has a
-- part for each answer.
use adbq.Prelude.{
  ℕ, List, [], ◌∷◌, ◌++◌, Option, none, some, Bool, false, ◌||◌, if◌then◌else◌, Text, codes,
  text_eq, join, replace_byte,
}
use adbq.Prelude.Int.{ℤ, pos}
use adbq.Dict.{lookup}
use adbq.Strings.{fields, split, trim_space, to_lower, contains, non_empty}
use adbq.FactStore.{Capabilities, Client}
use adbq.FactStore.Resolver.{scanned}
use adbq.Root.{Reply}
use adbq.Iptables.Probe.{first_line}
use adbq.Processes.{section, parse_mem_total_kb, parse_proc_stat}
use adbq.Processes.Int64.{int_value}
use adbq.Statistics.{Floats, parse_data_df}

abbrev pub cap_bins : List Text
cap_bins = fields (
    codes
      "su iptables ip6tables nft tcpdump ip ifconfig netcfg nslookup ping logcat pm cmd settings getenforce magisk aapt2 screencap")

-- the command of `probeCapabilitiesRaw`
unfoldable pub probe_capabilities_cmd : Text
probe_capabilities_cmd =
    join
      (codes "getprop ro.build.version.sdk"
        ∷ codes "getprop ro.build.version.release"
        ∷ codes "getprop ro.product.cpu.abi"
        ∷ codes "getprop ro.product.cpu.abilist"
        ∷ codes "getenforce 2>/dev/null"
        ∷ (codes "for b in "
            ++ (join cap_bins (codes " ")
                ++ codes "; do command -v \"$b\" >/dev/null 2>&1 && echo \"$b\"; done"))
        ∷ codes "getprop ro.serialno"
        ∷ codes "getprop ro.product.model"
        ∷ codes "getprop ro.product.manufacturer"
        ∷ codes "getprop ro.product.name"
        ∷ codes "getprop ro.build.id"
        ∷ codes "getprop ro.build.tags"
        ∷ codes "getprop ro.build.fingerprint"
        ∷ codes "getprop ro.hardware"
        ∷ codes "uname -r"
        ∷ codes "cat /proc/meminfo 2>/dev/null"
        ∷ codes "df /data 2>/dev/null"
        ∷ codes "cat /proc/stat 2>/dev/null"
        ∷ codes "getprop ro.debuggable"
        ∷ [])
      (codes "; echo '@@@'; ")

unfoldable pub trimmed_all : List Text → List Text
trimmed_all [] = []
trimmed_all (t ∷ ts) = trim_space t ∷ trimmed_all ts

any_64 : List Text → Bool
any_64 [] = false
any_64 (a ∷ rest) = contains a (codes "64") || any_64 rest

total_or_zero : Option (ℤ × ℤ) → ℤ
total_or_zero none = pos 0
total_or_zero (some (total, free)) = total

module _ {F : Type 0} (fl : Floats F) where
  -- the answers by their number
  unfoldable pub capabilities_of : (ℕ → Text) → Capabilities
  unfolding any_64 total_or_zero trimmed_all
  capabilities_of get =
      let abi_list = non_empty (trimmed_all (split b',' (get 3))) in
      record {
        sdk = int_value (get 0);
        release = get 1;
        selinux = to_lower (get 4);
        abi = get 2;
        abi_list = abi_list;
        bits64 = contains (get 2) (codes "64") || any_64 abi_list;
        has = fields (get 5);
        serial = if text_eq (get 6) (codes "unknown") then [] else get 6;
        model = replace_byte b'_' (codes " ") (get 7);
        manufacturer = get 8;
        product = get 9;
        build_id = get 10;
        build_tags = get 11;
        fingerprint = get 12;
        hardware = get 13;
        kernel = first_line (get 14);
        mem_total_kb = parse_mem_total_kb (get 15);
        storage_total_kb = total_or_zero (parse_data_df fl (get 16));
        ncpu = (parse_proc_stat (get 17)).1;
        debuggable = text_eq (get 18) (codes "1");
      }

  unfoldable pub parse_capabilities : Text → Capabilities
  unfolding capabilities_of
  parse_capabilities out = capabilities_of (section out)

module _ {F D V : Type 0} (fl : Floats F) (shell : Text → D → Reply × D) (serial : Text) where
  probed : Client V → Reply × D → Capabilities × Client V × D
  unfolding parse_capabilities scanned
  probed c (r, d) =
      let (caps, c') = scanned c serial (parse_capabilities fl r.out) none in (caps, c', d)

  unfoldable pub known_or_probed : Option Capabilities → Client V → D → Capabilities × Client V × D
  unfolding probed
  known_or_probed (some caps) c d = (caps, c, d)
  known_or_probed none c d = probed c (shell probe_capabilities_cmd d)

  -- `Capabilities` of the client, with its command
  unfoldable pub read_capabilities : Client V → D → Capabilities × Client V × D
  unfolding known_or_probed
  read_capabilities c d = known_or_probed (lookup serial c.caps) c d
