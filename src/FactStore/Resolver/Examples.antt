-- ===== src/FactStore/Resolver/Examples.antt =====
-- A device that counts the commands it ran; one strategy that it does not support and one that
-- reads the number 7.
use adbq.Prelude.{Bool, ℕ, ◌+◌, ◌≡◌, refl, arith, List, [], ◌∷◌, Bool, Text, codes, text_eq}
use adbq.Dict.{lookup}
use adbq.Prelude.Int.{pos}
use adbq.FactStore.{
  no_capabilities, Client, Capabilities, fact_ttl, fact_key, cached_fact, remember_fact,
  rule_out_strategy,
}
use adbq.FactStore.Resolver.{
  Answer, ok, unsupported, failed, Requirements, Strategy, Resolved, value, error, FactError,
  no_strategy, last_unsupported, device_meets, resolve, eligible, cached_read, try_all, member,
  eligible_from,
}
use adbq.FactStore.Resolver.Loop.{Outcome, OutcomeOf, exhausted, done, permanent, try_all-Outcome}
use adbq.FactStore.Resolver.Remembered.{resolve-resolve}

abbrev icons : Text
icons = codes "apps.icons"

abbrev phone : Text
phone = codes "R58M"

abbrev scan : Capabilities
scan = record no_capabilities {
  sdk = pos 30;
  abi = codes "x86";
  has = codes "pm" ∷ [];
  debuggable = Bool.false;
}

abbrev costly_pm : Requirements
costly_pm = record {
  min_sdk = 21;
  max_sdk = 0;
  bins = codes "pm" ∷ [];
  root = Bool.false;
  costly = Bool.true;
}

abbrev dump : Strategy ℕ ℕ
dump = record { name = codes "dump"; requires = costly_pm; run = λ d. (unsupported, d + 1) }

abbrev pull : Strategy ℕ ℕ
pull = record { name = codes "pull"; requires = costly_pm; run = λ d. (ok 7, d + 1) }

abbrev both : List (Strategy ℕ ℕ)
both = dump ∷ pull ∷ []

abbrev empty : Client ℕ
empty = record { facts = []; caps = []; su_styles = []; su_failed_at = []; adb_rooted = [] }

try_all-Outcome_example :
    OutcomeOf icons phone
      (codes "12")
      5
      both
      empty
      0
      (try_all icons phone (codes "12") 5 both empty 0 no_strategy)
try_all-Outcome_example = try_all-Outcome icons phone (codes "12") 5 both empty 0 no_strategy

abbrev tried :
    Outcome icons phone
      (codes "12")
      5
      (dump ∷ [])
      empty
      0
      (error last_unsupported)
      (rule_out_strategy empty icons phone (codes "dump"))
      1
tried = exhausted (codes "dump" ∷ []) last_unsupported (permanent dump refl (done 1))

abbrev first_call : Resolved ℕ × Client ℕ × ℕ
first_call = resolve icons both 0 empty 0 phone (codes "12") scan Bool.false 4 5

resolve-resolve_example :
    resolve icons both 0 first_call.1 2 phone (codes "12") scan Bool.true 9 9
    ≡ (value 7, first_call.1, 2)
unfolding cached_fact adbq.FactStore.ruled_out_strategies adbq.FactStore.Resolver.capabilities
    lookup resolve text_eq
resolve-resolve_example =
    resolve-resolve icons phone (codes "12") both 0 empty 0 scan Bool.false 4 5 7 first_call.1 2
      (refl, (refl, tt)) refl refl scan Bool.true 9 9 (omega arith)
