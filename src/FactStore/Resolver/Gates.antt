-- ===== src/FactStore/Resolver/Gates.antt =====
-- Which strategies are tried at all.
use adbq.Prelude.Int.{ℤ, pos, negsuc}
use adbq.Prelude.{
  ℕ, ◌<◌, ◌≤◌, ◌≡◌, ◌↔◌, refl, arith, List, [], ◌∷◌, Bool, true, false, inl, inr, Bool-cases, Text,
  some,
}
use adbq.FactStore.{Capabilities}
use adbq.FactStore.Resolver.{
  reaches, unknown_or_above, Requirements, Strategy, member, supports_all, device_meets,
  eligible_from,
}

abbrev pub AllHave : List Text → List Text → Type 0
AllHave has [] = Unit
AllHave has (b ∷ bs) = (member b has ≡ true) × AllHave has bs

-- the level is this or newer; it is this or older
abbrev pub IsNew : ℕ → ℤ → Type 0
IsNew level (pos n) = level ≤ n
IsNew level (negsuc n) = ⊥

abbrev pub IsOld : ℤ → ℕ → Type 0
IsOld (pos n) level = (0 < n) × (n ≤ level)
IsOld (negsuc n) level = Unit

-- What a device has to provide. A device whose level is unknown (0) passes neither bound; a negative
-- level, which no device has, passes for an old one.
pub record Meets (caps : Capabilities) (rooted : Bool) (req : Requirements) : Type 0 where
  pub new_enough : 0 < req.min_sdk → IsNew req.min_sdk caps.sdk
  pub old_enough : 0 < req.max_sdk → IsOld caps.sdk req.max_sdk
  pub binaries : AllHave caps.has req.bins
  pub root : req.root ≡ true → rooted ≡ true

reaches-IsNew : (level : ℕ) (z : ℤ) → (reaches level z ≡ true) ↔ IsNew level z
reaches-IsNew level (pos n) = (λ h. ground arith, λ h. ground arith)
reaches-IsNew level (negsuc n) = (λ h. cc, λ h. absurd h)

unknown_or_above-IsOld : (z : ℤ) (max : ℕ) → (unknown_or_above z max ≡ false) ↔ IsOld z max
unknown_or_above-IsOld (pos n) max = (λ h. ground arith, λ h. ground arith)
unknown_or_above-IsOld (negsuc n) max = (λ h. tt, λ h. refl)

supports_all_iff :
    (caps : Capabilities) (bs : List Text)
    → (supports_all (some caps) bs ≡ true) ↔ AllHave caps.has bs
unfolding supports_all
supports_all_iff caps [] = (λ _. tt, λ _. refl)
supports_all_iff caps (b ∷ bs) = (
  λ h. ground (arith, (supports_all_iff caps bs).0),
  λ h. ground (arith, (supports_all_iff caps bs).1 h.1),
)

-- The gate passes exactly the devices that meet the requirements: new enough and old enough where
-- the strategy bounds the level, with every binary, and with root where it is asked for. A level
-- that is not known passes no bound.
pub device_meets_iff :
    (caps : Capabilities) (rooted : Bool) (req : Requirements)
    → (device_meets (some caps) rooted req ≡ true) ↔ Meets caps rooted req
unfolding device_meets
device_meets_iff caps rooted req = (to, from)
  where
    to : device_meets (some caps) rooted req ≡ true → Meets caps rooted req
    to h = ground (
      arith,
      supports_all_iff caps req.bins,
      reaches-IsNew req.min_sdk caps.sdk,
      unknown_or_above-IsOld caps.sdk req.max_sdk,
    )

    from : Meets caps rooted req → device_meets (some caps) rooted req ≡ true
    from m = ground (
      arith,
      supports_all_iff caps req.bins,
      reaches-IsNew req.min_sdk caps.sdk,
      unknown_or_above-IsOld caps.sdk req.max_sdk,
    )

module _ {ℓ κ} {D : Type ℓ} {V : Type κ} where
  -- what is known of each strategy that is tried
  abbrev pub AllEligible : Capabilities → Bool → List Text → List (Strategy D V) → Type 0
  AllEligible caps rooted out [] = Unit
  AllEligible caps rooted out (s ∷ ss) =
      (member s.name out ≡ false) × Meets caps rooted s.requires × AllEligible caps rooted out ss

  pub eligible_from-AllEligible :
      (caps : Capabilities) (rooted : Bool) (out : List Text) (ss : List (Strategy D V))
      → AllEligible caps rooted out (eligible_from caps rooted out ss)
  unfolding eligible_from
  eligible_from-AllEligible caps rooted out [] = tt
  eligible_from-AllEligible caps rooted out (s ∷ ss) = elim (Bool-cases (member s.name out)) [
    | inl gone ↦ rw gone (eligible_from-AllEligible caps rooted out ss)
    | inr here ↦ elim (Bool-cases (device_meets (some caps) rooted s.requires)) [
      | inl meets ↦
          rw (here, meets)
            (
              here,
              (device_meets_iff caps rooted s.requires).0 meets,
              eligible_from-AllEligible caps rooted out ss,
            )
      | inr unmet ↦ rw (here, unmet) (eligible_from-AllEligible caps rooted out ss)
    ]
  ]
