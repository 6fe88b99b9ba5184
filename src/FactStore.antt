-- ===== src/FactStore.antt =====
-- The per-(fact, serial) cache of internal/adb/strategy.go, the capability cache of
-- internal/adb/capabilities.go, and the invalidation of internal/adb/cachedomain.go. A `Client` here
-- is the maps that they share; `V` is what the map holds as `any`. A time is in nanoseconds, and the
-- call that reads the clock takes it as `now`.
pub mod Keys
pub mod Store
pub mod Domains
pub mod Invalidation
pub mod Reboot
pub mod Resolver
mod Examples
use adbq.Prelude.{
  ℕ, ◌+◌, ◌-◌, ◌*◌, ◌^◌, List, [], ◌∷◌, ◌++◌, Option, none, some, Bool, true, false, not, ◌&&◌,
  ◌||◌, if◌then◌else◌, ltb, leb, ◌==◌, Text, codes, text_eq, length, has_prefix, has_suffix,
}
use adbq.Prelude.Int.{ℤ, pos}
use adbq.Dict.{Dict, lookup, insert, remove, remove_where}

pub record FactState {ℓ} (V : Type ℓ) : Type ℓ where
  pub ruled_out : List Text
  pub cached : Bool
  pub key : Text
  pub at : ℕ
  pub val : Option V

-- `Has` is the list of the names that are set in it.
pub record Capabilities : Type 0 where
  pub sdk : ℤ
  pub release : Text
  pub selinux : Text
  pub abi : Text
  pub abi_list : List Text
  pub bits64 : Bool
  pub has : List Text
  pub serial : Text
  pub model : Text
  pub manufacturer : Text
  pub product : Text
  pub build_id : Text
  pub build_tags : Text
  pub fingerprint : Text
  pub hardware : Text
  pub kernel : Text
  pub mem_total_kb : ℤ
  pub storage_total_kb : ℤ
  pub ncpu : ℕ
  pub debuggable : Bool

abbrev pub no_capabilities : Capabilities
no_capabilities = record {
  sdk = pos 0;
  release = [];
  selinux = [];
  abi = [];
  abi_list = [];
  bits64 = false;
  has = [];
  serial = [];
  model = [];
  manufacturer = [];
  product = [];
  build_id = [];
  build_tags = [];
  fingerprint = [];
  hardware = [];
  kernel = [];
  mem_total_kb = pos 0;
  storage_total_kb = pos 0;
  ncpu = 0;
  debuggable = false;
}

-- `suStyle`, without `suUnknown`, which a missing key stands for
pub data SuStyle : Type 0 where
  simple sh_wrap zero_simple zero_sh_wrap bare_root : SuStyle

-- `adbRootState`, without `adbRootUntried`, which a missing key stands for
pub data AdbRootState : Type 0 where
  granted refused ineligible : AdbRootState

pub record Client {ℓ} (V : Type ℓ) : Type ℓ where
  pub facts : Dict (FactState V)
  pub caps : Dict Capabilities
  pub su_styles : Dict SuStyle
  pub su_failed_at : Dict ℕ
  pub adb_rooted : Dict AdbRootState

-- ten minutes
abbrev pub fact_ttl : ℕ
fact_ttl = 10 * 60 * 10 ^ 9

abbrev pub nul : ℕ
nul = 0

pub fact_key : Text → Text → Text
fact_key fact serial = fact ++ nul ∷ serial

-- the test of `InvalidateFacts`: longer than the suffix, and ends in it
abbrev pub is_of_serial : Text → Text → Bool
is_of_serial serial k = ltb (length (nul ∷ serial)) (length k) && has_suffix k (nul ∷ serial)

abbrev pub is_of_prefix : Text → Text → Text → Bool
is_of_prefix serial prefix k = has_prefix k prefix && has_suffix k (nul ∷ serial)

module _ {ℓ} {V : Type ℓ} where
  -- `&factState{}`
  abbrev pub zero_state : FactState V
  zero_state = record { ruled_out = []; cached = false; key = []; at = 0; val = none }

  abbrev pub or_zero : Option (FactState V) → FactState V
  or_zero none = zero_state
  or_zero (some st) = st

  -- `factStateLocked`: the state for a fact; the writers below store it back
  abbrev pub fact_state : Client V → Text → Text → FactState V
  fact_state c fact serial = or_zero (lookup (fact_key fact serial) c.facts)

  fresh_value : Text → ℕ → ℕ → Option (FactState V) → Option (Option V)
  fresh_value fresh_key ttl now none = none
  fresh_value fresh_key ttl now (some st) =
      if not st.cached || not (text_eq st.key fresh_key)
      then none
      else if ltb ttl (now - st.at)
      then none
      else some st.val

  -- `cachedFact`: the value may be nil, so an answer is `some` of an option
  unfoldable pub cached_fact : Client V → Text → Text → Text → ℕ → ℕ → Option (Option V)
  unfolding fresh_value
  cached_fact c fact serial fresh_key ttl now =
      fresh_value fresh_key ttl now (lookup (fact_key fact serial) c.facts)

  unfoldable pub remember_fact : Client V → Text → Text → Text → ℕ → V → Client V
  remember_fact c fact serial fresh_key now v = record c {
    facts =
        insert (fact_key fact serial)
          (record (fact_state c fact serial) {
            cached = true;
            key = fresh_key;
            at = now;
            val = some v;
          })
          c.facts;
  }

  pub rule_out_strategy : Client V → Text → Text → Text → Client V
  rule_out_strategy c fact serial name = record c {
    facts =
        insert (fact_key fact serial)
          (record (fact_state c fact serial) {
            ruled_out = name ∷ (fact_state c fact serial).ruled_out;
          })
          c.facts;
  }

  pub ruled_out_strategies : Client V → Text → Text → List Text
  ruled_out_strategies c fact serial = (fact_state c fact serial).ruled_out

  -- `Resolver.Invalidate`: the value goes, what is ruled out stays
  drop_value : Text → Option (FactState V) → Client V → Client V
  drop_value k none c = c
  drop_value k (some st) c = record c {
    facts = insert k (record st { cached = false; val = none }) c.facts;
  }

  pub invalidate : Client V → Text → Text → Client V
  unfolding drop_value
  invalidate c fact serial =
      drop_value (fact_key fact serial) (lookup (fact_key fact serial) c.facts) c

  pub invalidate_fact : Client V → Text → Text → Client V
  invalidate_fact c serial fact = record c { facts = remove (fact_key fact serial) c.facts }

  pub invalidate_facts : Client V → Text → Client V
  invalidate_facts c serial = record c { facts = remove_where (is_of_serial serial) c.facts }

  unfoldable pub invalidate_fact_prefix : Client V → Text → Text → Client V
  invalidate_fact_prefix c serial prefix = record c {
    facts = remove_where (is_of_prefix serial prefix) c.facts;
  }

  unfoldable pub invalidate_capabilities : Client V → Text → Client V
  invalidate_capabilities c serial = record c { caps = remove serial c.caps }

  unfoldable pub forget_root_probe : Client V → Text → Client V
  forget_root_probe c serial = record c {
    su_styles = remove serial c.su_styles;
    su_failed_at = remove serial c.su_failed_at;
    adb_rooted = remove serial c.adb_rooted;
  }
