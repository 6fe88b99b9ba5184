-- ===== src/FactStore/Resolver.antt =====
-- `Resolver` of internal/adb/strategy.go, `cachedRead`, and the gates it reads from
-- internal/adb/capabilities.go. A strategy is a name, its requirements and a run against the device,
-- whose state is `D`. What a scan of the device would find (`probed`) and whether `suStyleFor` finds
-- a way to be root (`rooted`) are arguments. `now` is the clock at the cache test, `written` the
-- clock when a value is remembered.
pub mod Remembered
pub mod Loop
pub mod Gates
mod Examples
use adbq.Prelude.{
  ℕ, ◌≡◌, List, [], ◌∷◌, Option, none, some, Bool, true, false, not, ◌&&◌, ◌||◌, if◌then◌else◌, ltb,
  leb, ◌==◌, Text, text_eq,
}
use adbq.Prelude.Int.{ℤ, pos, negsuc}
use adbq.Dict.{Dict, lookup, insert}
use adbq.FactStore.{
  Client, Capabilities, fact_ttl, cached_fact, remember_fact, rule_out_strategy,
  ruled_out_strategies,
}

-- what `Run` returns: a value, `ErrUnsupported`, or another error
pub data Answer {ℓ} (V : Type ℓ) : Type ℓ where
  ok : V → Answer V
  unsupported : Answer V
  failed : Text → Answer V

pub record Requirements : Type 0 where
  pub min_sdk : ℕ
  pub max_sdk : ℕ
  pub bins : List Text
  pub root : Bool
  pub costly : Bool

pub record Strategy {ℓ κ} (D : Type ℓ) (V : Type κ) : Type (ℓ ⊔ κ) where
  pub name : Text
  pub requires : Requirements
  pub run : D → Answer V × D

-- the errors of `Resolve`, without the fact's name that they are wrapped in
pub data FactError : Type 0 where
  no_strategy : FactError
  last_unsupported : FactError
  last_failed : Text → FactError

pub data Resolved {ℓ} (V : Type ℓ) : Type ℓ where
  value : V → Resolved V
  error : FactError → Resolved V

unfoldable pub member : Text → List Text → Bool
member n [] = false
member n (m ∷ ms) = text_eq n m || member n ms

-- `caps` is a pointer
pub supports : Option Capabilities → Text → Bool
unfolding member
supports none bin = false
supports (some caps) bin = member bin caps.has

abbrev pub reaches : ℕ → ℤ → Bool
reaches level (pos n) = leb level n
reaches level (negsuc n) = false

pub android_at_least : Option Capabilities → ℕ → Bool
android_at_least none level = false
android_at_least (some caps) level = reaches level caps.sdk

supports_all : Option Capabilities → List Text → Bool
unfolding supports
supports_all caps [] = true
supports_all caps (b ∷ bs) = if not (supports caps b) then false else supports_all caps bs

-- a level of 0 is not known
abbrev pub unknown_or_above : ℤ → ℕ → Bool
unknown_or_above (pos n) max = n == 0 || ltb max n
unknown_or_above (negsuc n) max = false

above_max : Option Capabilities → ℕ → Bool
above_max none max = true
above_max (some caps) max = unknown_or_above caps.sdk max

pub device_meets : Option Capabilities → Bool → Requirements → Bool
unfolding android_at_least above_max supports_all
device_meets caps rooted req =
    if ltb 0 req.min_sdk && not (android_at_least caps req.min_sdk)
    then false
    else if ltb 0 req.max_sdk && above_max caps req.max_sdk
    then false
    else if not (supports_all caps req.bins)
    then false
    else if req.root && not rooted
    then false
    else true

-- a scan is kept only if it found something
pub worth_caching : Capabilities → Bool
worth_caching caps = reaches 1 caps.sdk || not (text_eq caps.abi []) || not (has_none caps.has)
  where
    has_none : List Text → Bool
    has_none [] = true
    has_none (b ∷ bs) = false

module _ {ℓ} {V : Type ℓ} where
  unfoldable pub scanned :
      Client V → Text → Capabilities → Option Capabilities → Capabilities × Client V
  unfolding worth_caching
  scanned c serial probed (some caps) = (caps, c)
  scanned c serial probed none =
      if worth_caching probed
      then (probed, record c { caps = insert serial probed c.caps })
      else (probed, c)

  pub capabilities : Client V → Text → Capabilities → Capabilities × Client V
  unfolding scanned
  capabilities c serial probed = scanned c serial probed (lookup serial c.caps)

module _ {ℓ κ} {D : Type ℓ} {V : Type κ} where
  -- registration order is kept
  pub eligible_from : Capabilities → Bool → List Text → List (Strategy D V) → List (Strategy D V)
  unfolding member device_meets
  eligible_from caps rooted out [] = []
  eligible_from caps rooted out (s ∷ ss) =
      let rest = eligible_from caps rooted out ss in
      if member s.name out
      then rest
      else if not (device_meets (some caps) rooted s.requires)
      then rest
      else s ∷ rest

  module _ (fact serial fresh_key : Text) (done : ℕ) where
    pub kept : Strategy D V → V → Client V → Client V
    kept s v c = if s.requires.costly then remember_fact c fact serial fresh_key done v else c

    -- the loop of `Resolve`; the last argument is `lastErr`
    pub try_all : List (Strategy D V) → Client V → D → FactError → Resolved V × Client V × D
    unfolding kept
    try_all [] c d last = (error last, c, d)
    try_all (s ∷ ss) c d last =
        let (answer, d') = s.run d in
        elim answer [
          | ok v ↦ (value v, kept s v c, d')
          | unsupported ↦ try_all ss (rule_out_strategy c fact serial s.name) d' last_unsupported
          | failed e ↦ try_all ss c d' (last_failed e)
        ]

  module _ (fact : Text) (strategies : List (Strategy D V)) (zero_value : V) where
    -- `eligible` asks for the capabilities first, which may cache them
    pub eligible : Client V → Text → Capabilities → Bool → List (Strategy D V) × Client V
    unfolding eligible_from
    eligible c serial probed rooted =
        let (caps, c') = capabilities c serial probed in
        (eligible_from caps rooted (ruled_out_strategies c' fact serial) strategies, c')

    -- `len(eligible) == 0` is an error of its own
    pub run_eligible :
        Text → Text → ℕ → List (Strategy D V) → Client V → D → Resolved V × Client V × D
    unfolding try_all
    run_eligible serial fresh_key done [] c d = (error no_strategy, c, d)
    run_eligible serial fresh_key done (s ∷ ss) c d =
        try_all fact serial fresh_key done (s ∷ ss) c d no_strategy

    -- the assertion `v.(T)` gives the zero value for nil
    pub or_zero_value : Option V → V
    or_zero_value none = zero_value
    or_zero_value (some v) = v

    -- the two cases of the cache test
    pub serve_or_run :
        Option (Option V)
        → Client V
        → D
        → Text
        → Text
        → Capabilities
        → Bool
        → ℕ
        → Resolved V × Client V × D
    unfolding eligible run_eligible or_zero_value
    serve_or_run (some v) c d serial fresh_key probed rooted written =
        (value (or_zero_value v), c, d)
    serve_or_run none c d serial fresh_key probed rooted written =
        let (ss, c') = eligible c serial probed rooted in
        run_eligible serial fresh_key written ss c' d

    pub resolve :
        Client V → D → Text → Text → Capabilities → Bool → ℕ → ℕ → Resolved V × Client V × D
    unfolding serve_or_run
    resolve c d serial fresh_key probed rooted now written =
        serve_or_run (cached_fact c fact serial fresh_key fact_ttl now) c d serial fresh_key probed
          rooted written

module _ {ℓ κ} {D : Type ℓ} {V : Type κ} where
  -- a failed read is not cached
  unfoldable pub keep_read : Client V → Text → Text → ℕ → Answer V × D → Answer V × Client V × D
  keep_read c serial fact written (ok v, d) = (ok v, remember_fact c fact serial [] written v, d)
  keep_read c serial fact written (answer, d) = (answer, c, d)

  unfoldable pub serve_or_read :
      Option (Option V)
      → Client V
      → D
      → Text
      → Text
      → ℕ
      → (D → Answer V × D)
      → Answer V × Client V × D
  unfolding keep_read
  serve_or_read (some (some v)) c d serial fact written read = (ok v, c, d)
  serve_or_read o c d serial fact written read = keep_read c serial fact written (read d)

  -- `cachedRead`: the freshness key is empty, and a nil value is read again
  unfoldable pub cached_read :
      Client V → D → Text → Text → ℕ → ℕ → ℕ → (D → Answer V × D) → Answer V × Client V × D
  unfolding serve_or_read
  cached_read c d serial fact ttl now written read =
      serve_or_read (cached_fact c fact serial [] ttl now) c d serial fact written read
