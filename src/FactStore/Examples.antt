-- ===== src/FactStore/Examples.antt =====
-- Two devices, the facts "apps.icons" and "net.routes", and a root probe.
use adbq.Prelude.{
  Bool, ℕ, ◌≡◌, refl, arith, List, [], ◌∷◌, none, some, inl, inr, Text, codes, text_eq, Lacks,
}
use adbq.Prelude.Int.{pos}
use adbq.FactStore.{
  no_capabilities, Client, SuStyle, Capabilities, nul, fact_ttl, cached_fact, remember_fact,
}
use adbq.FactStore.Domains.{Domain, domain_of, invalidate_domains}
use adbq.FactStore.Invalidation.{Outside, cached_fact-invalidate_domains}

abbrev phone : Text
phone = codes "R58M"

abbrev emulator : Text
emulator = codes "emulator-5554"

abbrev icons : Text
icons = codes "apps.icons"

abbrev routes : Text
routes = codes "net.routes"

abbrev scan : Capabilities
scan = record no_capabilities {
  sdk = pos 30;
  abi = codes "x86";
  has = codes "su" ∷ [];
  debuggable = Bool.false;
}

abbrev empty : Client ℕ
empty = record {
  facts = [];
  caps = (phone, scan) ∷ [];
  su_styles = (phone, SuStyle.simple) ∷ [];
  su_failed_at = [];
  adb_rooted = [];
}

abbrev filled : Client ℕ
filled = remember_fact (remember_fact empty icons phone (codes "12") 5 7) routes emulator [] 6 8

abbrev changed : List Domain
changed = Domain.props ∷ Domain.apps ∷ []

icons_apps : domain_of icons ≡ some Domain.apps
unfolding domain_of text_eq
icons_apps = refl

routes-Outside : Outside routes changed
unfolding domain_of text_eq
routes-Outside = (λ e. cc, (λ e. cc, tt))

phone-Lacks : Lacks nul phone
phone-Lacks = omega arith

emulator-Lacks : Lacks nul emulator
emulator-Lacks = omega arith

cached_fact-invalidate_domains_example :
    cached_fact (invalidate_domains filled phone changed) icons phone (codes "12") fact_ttl 9 ≡ none
cached_fact-invalidate_domains_example =
    cached_fact-invalidate_domains filled phone changed icons Domain.apps icons_apps
      (inr (inl refl)) phone-Lacks (codes "12") fact_ttl 9
