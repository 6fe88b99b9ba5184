-- ===== src/FactStore/Domains.antt =====
-- The domains of internal/adb/cachedomain.go, and which domain a fact's name belongs to.
use adbq.Prelude.{
  inl, inr, Option-cases, ◌≡◌, ◌↔◌, refl, arith, List, [], ◌∷◌, ◌++◌, Option, none, some, true,
  if◌then◌else◌, ◌==◌, Text, codes, text_eq, text_eq_iff, has_prefix, Lacks,
}
use adbq.FactStore.{Client, nul, invalidate_capabilities, forget_root_probe, invalidate_fact_prefix}

pub data Domain : Type 0 where
  apps storage files net forwards iptables certs hosts frida tcpdump props root proxy : Domain
  sdk jadx scrcpy avd : Domain

abbrev pub domain_name : Domain → Text
domain_name Domain.apps = codes "apps"
domain_name Domain.storage = codes "storage"
domain_name Domain.files = codes "files"
domain_name Domain.net = codes "net"
domain_name Domain.forwards = codes "forwards"
domain_name Domain.iptables = codes "iptables"
domain_name Domain.certs = codes "certs"
domain_name Domain.hosts = codes "hosts"
domain_name Domain.frida = codes "frida"
domain_name Domain.tcpdump = codes "tcpdump"
domain_name Domain.props = codes "props"
domain_name Domain.root = codes "root"
domain_name Domain.proxy = codes "proxy"
domain_name Domain.sdk = codes "sdk"
domain_name Domain.jadx = codes "jadx"
domain_name Domain.scrcpy = codes "scrcpy"
domain_name Domain.avd = codes "avd"

unfoldable pub all_domains : List Domain
all_domains =
    Domain.apps ∷ Domain.storage ∷ Domain.files ∷ Domain.net ∷ Domain.forwards ∷ Domain.iptables
    ∷ Domain.certs ∷ Domain.hosts ∷ Domain.frida ∷ Domain.tcpdump ∷ Domain.props ∷ Domain.root
    ∷ Domain.proxy ∷ Domain.sdk ∷ Domain.jadx ∷ Domain.scrcpy ∷ Domain.avd ∷ []

-- `DomainReboot`
unfoldable pub domain_reboot : List Domain
unfolding all_domains
domain_reboot = all_domains

module _ {ℓ} {V : Type ℓ} where
  -- the switch in the loop of `InvalidateDomains`
  unfoldable pub special_drop : Client V → Text → Domain → Client V
  special_drop c serial Domain.props = invalidate_capabilities c serial
  special_drop c serial Domain.root = invalidate_capabilities (forget_root_probe c serial) serial
  special_drop c serial d = c

  unfoldable pub invalidate_domains : Client V → Text → List Domain → Client V
  unfolding special_drop
  invalidate_domains c serial [] = c
  invalidate_domains c serial (d ∷ ds) =
      invalidate_domains
        (invalidate_fact_prefix (special_drop c serial d) serial (domain_name d ++ codes "."))
        serial ds

-- what `strings.Cut(fact, ".")` gives in front of the dot, if there is one
before_dot : Text → Option Text
before_dot [] = none
before_dot (c ∷ s) =
    let rest = before_dot s in
    if c == b'.' then some [] else elim rest [ none ↦ none | some p ↦ some (c ∷ p) ]

find_domain : Text → List Domain → Option Domain
find_domain name [] = none
find_domain name (d ∷ ds) = if text_eq (domain_name d) name then some d else find_domain name ds

named_domain : Option Text → Option Domain
unfolding all_domains find_domain
named_domain none = none
named_domain (some name) = find_domain name all_domains

unfoldable pub domain_of : Text → Option Domain
unfolding before_dot named_domain
domain_of fact = named_domain (before_dot fact)

-- the prefix that `InvalidateDomains` drops for a domain
abbrev pub dotted : Domain → Text
dotted d = domain_name d ++ codes "."

pub dotted-Lacks : (d : Domain) → Lacks nul (dotted d)
dotted-Lacks Domain.apps = omega arith
dotted-Lacks d = omega arith

before_dot_iff :
    (p s : Text) → Lacks b'.' p → (has_prefix s (p ++ codes ".") ≡ true) ↔ (before_dot s ≡ some p)
unfolding before_dot has_prefix
before_dot_iff [] [] h = (λ e. cc, λ e. cc)
before_dot_iff [] (c ∷ s) h = (λ e. ground arith, λ e. ground arith)
before_dot_iff (a ∷ p) [] h = (λ e. cc, λ e. cc)
before_dot_iff (a ∷ p) (c ∷ s) (ha, h) =
    (λ e. ground (arith, before_dot_iff p s h), λ e. ground (arith, before_dot_iff p s h))

find_domain_sound :
    (name : Text) (ds : List Domain) (d : Domain)
    → find_domain name ds ≡ some d
    → domain_name d ≡ name
unfolding find_domain
find_domain_sound name [] d h = cc
find_domain_sound name (e ∷ ds) d h =
    ground (arith, text_eq_iff (domain_name e) name, find_domain_sound name ds d)

-- no two domains share a name
find_domain-name : (d : Domain) → find_domain (domain_name d) all_domains ≡ some d
unfolding find_domain all_domains text_eq
find_domain-name Domain.apps = refl
find_domain-name _ = refl

domain_name-Lacks : (d : Domain) → Lacks b'.' (domain_name d)
domain_name-Lacks Domain.apps = omega arith
domain_name-Lacks d = omega arith

-- `DomainOf` answers `d` exactly for the names that the deletion for `d` reaches.
pub domain_of_iff :
    (fact : Text) (d : Domain) → (domain_of fact ≡ some d) ↔ (has_prefix fact (dotted d) ≡ true)
unfolding domain_of
domain_of_iff fact d = (to, from)
  where
    to : domain_of fact ≡ some d → has_prefix fact (dotted d) ≡ true
    to h = elim (Option-cases (before_dot fact)) [
      | inl e ↦ cc
      | inr (name, e) ↦
          let same = find_domain_sound name all_domains d (rw e at h) in
          (before_dot_iff (domain_name d) fact (domain_name-Lacks d)).1 (cc)
    ]

    from : has_prefix fact (dotted d) ≡ true → domain_of fact ≡ some d
    from h =
        let e = (before_dot_iff (domain_name d) fact (domain_name-Lacks d)).0 h in
        rw e (find_domain-name d)
