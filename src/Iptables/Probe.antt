-- ===== src/Iptables/Probe.antt =====
-- `probeIptablesUncached` of internal/adb/iptables.go, with `firstLine` of internal/adb/strutil.go.
use adbq.Prelude.{
  ◌≡◌, refl, List, [], ◌∷◌, ◌++◌, true, false, not, ◌&&◌, ◌||◌, inl, inr, Bool-cases, if◌then◌else◌,
  Text, codes, text_eq,
}
use adbq.Strings.{trim_space, split, trim_suffix, contains}
use adbq.Iptables.{IpFamily, BackendInfo}
use adbq.Iptables.Commands.{iptables_binary}
use adbq.Iptables.Actions.{Adb, Reply}

first_non_empty : List Text → Text
first_non_empty [] = []
first_non_empty (l ∷ ls) =
    let rest = first_non_empty ls in if text_eq (trim_space l) [] then rest else trim_space l

pub first_line : Text → Text
unfolding first_non_empty
first_line s = first_non_empty (split b'\n' s)

-- what a lookup that did not fail found
found : Reply → Text
unfolding first_line
found r = if r.failed then [] else first_line (trim_space r.out)

module_script : Text → Text
module_script bin =
    codes "for f in /data/adb/modules/*/system/bin/"
    ++ bin
    ++ codes " /data/adb/modules/*/system/xbin/"
    ++ bin
    ++ codes "; do [ -f \"$f\" ] && echo \"$f\" && break; done"

version_mode : Text → Text
version_mode v =
    if contains v (codes "nf_tables")
    then codes "nft"
    else if contains v (codes "legacy")
    then codes "legacy"
    else if not (text_eq v [])
    then codes "legacy"
    else codes "unknown"

blank_info : IpFamily → BackendInfo
blank_info fam = record {
  family = fam;
  available = false;
  path = [];
  version = [];
  mode = [];
  has_save = false;
  needs_root = true;
  read_only = false;
}

-- a device without iptables: `nft` makes its rules viewable
nft_info : IpFamily → Reply → BackendInfo
unfolding blank_info first_line
nft_info fam r =
    if not r.failed && not (text_eq (trim_space r.out) [])
    then record (blank_info fam) {
      path = first_line (trim_space r.out);
      mode = codes "nft-native";
      available = true;
      read_only = true;
    }
    else blank_info fam

module _ {D : Type 0} (adb : Adb D) (fam : IpFamily) where
  -- the version as root, and as the shell user if that says nothing
  version_of : Text → D → Text × D
  unfolding first_line
  version_of path d =
      let (r, d₁) = adb.su (path ++ codes " --version 2>&1") d in
      let v = first_line (trim_space r.out) in
      let (r', d₂) = adb.shell (path ++ codes " --version 2>&1") d₁ in
      if text_eq v [] || contains v (codes "Permission denied")
      then (if text_eq r'.out [] then v else first_line (trim_space r'.out), d₂)
      else (v, d₁)

  binary_info : Text → D → BackendInfo × D
  unfolding version_of version_mode blank_info
  binary_info path d =
      let (v, d₁) = version_of path d in
      let (r, d₂) =
        adb.shell
          (codes "command -v "
            ++ trim_suffix (iptables_binary fam) (codes "tables")
            ++ codes "tables-save")
          d₁ in
      (
        record (blank_info fam) {
          path = path;
          available = true;
          version = v;
          mode = version_mode v;
          has_save = not r.failed && not (text_eq (trim_space r.out) []);
        },
        d₂,
      )

  by_path : Text → D → BackendInfo × D
  unfolding nft_info binary_info
  by_path [] d = let (r, d') = adb.shell (codes "command -v nft") d in (nft_info fam r, d')
  by_path (c ∷ path) d = binary_info (c ∷ path) d

  -- the search in the modules, when the lookup found nothing
  module_path : Text → D → Text × D
  unfolding first_line module_script
  module_path [] d =
      let (r, d') = adb.su (module_script (iptables_binary fam)) d in
      (first_line (trim_space r.out), d')
  module_path (c ∷ path) d = (c ∷ path, d)

  pub probe_iptables_uncached : D → BackendInfo × D
  unfolding found module_path by_path
  probe_iptables_uncached d =
      let (r, d₁) = adb.shell (codes "command -v " ++ iptables_binary fam) d in
      let (path, d₂) = module_path (found r) d₁ in by_path path d₂

-- the answers of a probe fit together
record Fit (fam : IpFamily) (p : BackendInfo) : Type 0 where
  same_family : p.family ≡ fam
  read_only_mode : p.read_only ≡ text_eq p.mode (codes "nft-native")
  viewable : (not p.read_only || p.available) ≡ true

version_mode-binary : (v : Text) → false ≡ text_eq (version_mode v) (codes "nft-native")
unfolding version_mode text_eq
version_mode-binary v = elim (Bool-cases (contains v (codes "nf_tables"))) [
  | inl e ↦ rw e refl
  | inr e ↦ elim (Bool-cases (contains v (codes "legacy"))) [
    | inl l ↦ rw (e, l) refl
    | inr l ↦ elim (Bool-cases (text_eq v [])) [
      | inl n ↦ rw (e, l, n) refl
      | inr n ↦ rw (e, l, n) refl
    ]
  ]
]

nft_info-Fit : (fam : IpFamily) (r : Reply) → Fit fam (nft_info fam r)
unfolding nft_info blank_info
nft_info-Fit fam r = elim (Bool-cases (not r.failed && not (text_eq (trim_space r.out) []))) [
  | inl e ↦
      rw e
        (record { same_family = refl; read_only_mode = (unfold text_eq in refl); viewable = refl })
  | inr e ↦
      rw e
        (record { same_family = refl; read_only_mode = (unfold text_eq in refl); viewable = refl })
]

module _ {D : Type 0} (adb : Adb D) (fam : IpFamily) where
  binary_info-Fit : (path : Text) (d : D) → Fit fam (binary_info adb fam path d).0
  unfolding binary_info blank_info
  binary_info-Fit path d = record {
    same_family = refl;
    read_only_mode = version_mode-binary (version_of adb fam path d).0;
    viewable = refl;
  }

  by_path-Fit : (path : Text) (d : D) → Fit fam (by_path adb fam path d).0
  unfolding by_path
  by_path-Fit [] d = nft_info-Fit fam (adb.shell (codes "command -v nft") d).0
  by_path-Fit (c ∷ path) d = binary_info-Fit (c ∷ path) d

  -- Whatever the device answers, the probe says that rules are read-only exactly if its mode is the one in
  -- which they are listed with `nft`, and never of a device on which they cannot be listed.
  pub probe_iptables_uncached-Fit :
      (d : D)
      → (let p = (probe_iptables_uncached adb fam d).0 in
          (p.family ≡ fam)
          × (p.read_only ≡ text_eq p.mode (codes "nft-native"))
          × ((not p.read_only || p.available) ≡ true))
  unfolding probe_iptables_uncached
  probe_iptables_uncached-Fit d =
      let (r, d₁) = adb.shell (codes "command -v " ++ iptables_binary fam) d in
      let (path, d₂) = module_path adb fam (found r) d₁ in
      let h = by_path-Fit path d₂ in (h.same_family, h.read_only_mode, h.viewable)
