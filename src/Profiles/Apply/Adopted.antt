-- ===== src/Profiles/Apply/Adopted.antt =====
-- When a device adopts the profile that was applied to it.
use mathlib.Core.Path.{subst}
use adbq.Prelude.{
  ℕ, ◌≡◌, ◌≢◌, refl, List, [], ◌∷◌, some, Bool, true, false, ◌||◌, ◌↔◌, ◌⊎◌, inl, inr, Bool-cases,
  Text,
}
use adbq.Dict.{lookup}
use adbq.Devices.{device_key}
use adbq.FactStore.{Client}
use adbq.FactStore.Domains.{Domain}
use adbq.Profiles.{Profile, ProfileStore, Io, domains, lookup_device_profile}
use adbq.Profiles.Bindings.{bind_profile-key, bind_profile-other}
use adbq.Profiles.Device.{Outcome, done, fault, Details, Actions, Status, StepResult}
use adbq.Profiles.Apply.{
  App, ApplyReport, any_status, is_ok, any_reboot, adopted, adopt, apply_to, touch, with_details,
  touched, known_or_missing, apply_profile,
}

-- some step went well, and some step wants a reboot
abbrev pub SomeOk : List StepResult → Type 0
SomeOk [] = ⊥
SomeOk (s ∷ ss) = (s.status ≡ Status.ok) ⊎ SomeOk ss

abbrev pub SomeReboot : List StepResult → Type 0
SomeReboot [] = ⊥
SomeReboot (s ∷ ss) = (s.needs_reboot ≡ true) ⊎ SomeReboot ss

abbrev pub IsUseful : List StepResult → Type 0
IsUseful steps = (steps ≡ []) ⊎ SomeOk steps

or_iff : (x y : Bool) → ((x || y) ≡ true) ↔ ((x ≡ true) ⊎ (y ≡ true))
or_iff true y = (λ h. inl refl, λ h. refl)
or_iff false y = (λ h. inr h, λ h. elim h [ inl e ↦ cc | inr e ↦ e ])

is_ok_iff : (s : Status) → (is_ok s ≡ true) ↔ (s ≡ Status.ok)
is_ok_iff Status.ok = (λ h. refl, λ h. refl)
is_ok_iff Status.skip = (λ h. cc, λ h. cc)
is_ok_iff Status.err = (λ h. cc, λ h. cc)

any_status_iff : (ss : List StepResult) → (any_status is_ok ss ≡ true) ↔ SomeOk ss
unfolding any_status
any_status_iff [] = (λ h. cc, λ h. absurd h)
any_status_iff (s ∷ ss) = (
  λ h. elim ((or_iff (is_ok s.status) (any_status is_ok ss)).0 h) [
    | inl e ↦ inl ((is_ok_iff s.status).0 e)
    | inr e ↦ inr ((any_status_iff ss).0 e)
  ],
  λ h.
      (or_iff (is_ok s.status) (any_status is_ok ss)).1
        (elim h [ inl e ↦ inl ((is_ok_iff s.status).1 e) | inr e ↦ inr ((any_status_iff ss).1 e) ]),
)

any_reboot_iff : (ss : List StepResult) → (any_reboot ss ≡ true) ↔ SomeReboot ss
unfolding any_reboot
any_reboot_iff [] = (λ h. cc, λ h. absurd h)
any_reboot_iff (s ∷ ss) = (
  λ h. elim ((or_iff s.needs_reboot (any_reboot ss)).0 h) [
    | inl e ↦ inl e
    | inr e ↦ inr ((any_reboot_iff ss).0 e)
  ],
  λ h.
      (or_iff s.needs_reboot (any_reboot ss)).1
        (elim h [ inl e ↦ inl e | inr e ↦ inr ((any_reboot_iff ss).1 e) ]),
)

adopted-IsUseful : (ss : List StepResult) → (adopted ss ≡ true) ↔ IsUseful ss
unfolding adopted
adopted-IsUseful [] = (λ h. inl refl, λ h. refl)
adopted-IsUseful (s ∷ ss) = (
  λ h. inr ((any_status_iff (s ∷ ss)).0 h),
  λ h. elim h [ inl e ↦ cc | inr o ↦ (any_status_iff (s ∷ ss)).1 o ],
)

-- what the device is bound to afterwards
adopt-key :
    (io : Io) (now : ℕ) (dev : Details) (id : Text) (steps : List StepResult) (s : ProfileStore)
    → let key = device_key dev.id dev.hardware_serial in
      let bound = lookup_device_profile key (adopt io now dev id steps s) in
      (IsUseful steps → bound ≡ id) × ((IsUseful steps → ⊥) → bound ≡ lookup_device_profile key s)
unfolding adopt
adopt-key io now dev id steps s = elim (Bool-cases (adopted steps)) [
  | inl e ↦ rw e (
    λ u. bind_profile-key io now (device_key dev.id dev.hardware_serial) id s,
    λ no. absurd (no ((adopted-IsUseful steps).0 e)),
  )
  | inr e ↦ rw e (λ u. let t = (adopted-IsUseful steps).1 u in cc, λ no. refl)
]

adopt-other :
    (io : Io) (now : ℕ) (dev : Details) (id : Text) (steps : List StepResult) (s : ProfileStore)
    (other : Text)
    → device_key dev.id dev.hardware_serial ≢ other
    → lookup_device_profile other (adopt io now dev id steps s) ≡ lookup_device_profile other s
unfolding adopt
adopt-other io now dev id steps s other ne = elim (Bool-cases (adopted steps)) [
  | inl e ↦ rw e (bind_profile-other io now (device_key dev.id dev.hardware_serial) id other s ne)
  | inr e ↦ rw e refl
]

module _ {D V : Type 0} where
  -- what the report and the store say after a profile was applied to a device
  abbrev pub Adopts : Details → Text → App D V → Outcome ApplyReport × App D V → Type 0
  Adopts dev id app (fault msg, app') = ⊥
  Adopts dev id app (done report, app') =
      let key = device_key dev.id dev.hardware_serial in
      (IsUseful report.steps → lookup_device_profile key app'.store ≡ id)
      × ((IsUseful report.steps → ⊥)
          → lookup_device_profile key app'.store ≡ lookup_device_profile key app.store)
      × ((other : Text)
          → key ≢ other
          → lookup_device_profile other app'.store ≡ lookup_device_profile other app.store)
      × ((report.needs_reboot ≡ true) ↔ SomeReboot report.steps)
      × (report.rooted ≡ dev.root)

  touch-store :
      (serial : Text) (ds : List Domain) (app : App D V) → (touch serial ds app).store ≡ app.store
  unfolding touch
  touch-store serial [] app = refl
  touch-store serial (d ∷ ds) app = refl

  apply_to-Adopts :
      (a : Actions (D × Client V)) (serial : Text) (io : Io) (now : ℕ) (dev : Details) (id : Text)
      (p : Profile) (app : App D V)
      → let (report, app') = apply_to a serial io now dev id p app in
        Adopts dev id app (done report, app')
  unfolding apply_to
  apply_to-Adopts a serial io now dev id p app =
      let report = (apply_to a serial io now dev id p app).0 in
      let (useful, useless) = adopt-key io now dev id report.steps app.store in
      (
        useful,
        useless,
        λ other ne. adopt-other io now dev id report.steps app.store other ne,
        any_reboot_iff report.steps,
        refl,
      )

  touched-Adopts :
      (a : Actions (D × Client V)) (serial : Text) (io : Io) (now : ℕ) (dev : Details) (id : Text)
      (p : Profile) (app : App D V) (answer : Outcome Details) (w : D × Client V)
      → answer ≡ done dev
      → Adopts dev id app (touched a serial p (with_details a serial io now id p (answer, w) app))
  unfolding touched with_details
  touched-Adopts a serial io now dev id p app (fault msg) w e = cc
  touched-Adopts a serial io now dev id p app (done dev') w e =
      let app' = record app { world = w } in
      let (useful, useless, other, reboot, rooted) =
        apply_to-Adopts a serial io now dev' id p app' in
      let same : dev' ≡ dev = cc in
      subst
        (λ x.
          Adopts x id app
            (touched a serial p (with_details a serial io now id p (done dev', w) app)))
        same
        (rw (touch-store serial (domains p) (apply_to a serial io now dev' id p app').1)
          (useful, useless, other, reboot, rooted))

  -- A profile that was applied becomes the profile of the device, known by its stable key, exactly
  -- when a step succeeded or there was no step; otherwise the device keeps the profile that it had,
  -- and no other device's profile changes in either case. The report asks for a reboot exactly when
  -- a step does. This holds whether or not the records could be written.
  pub apply_profile-Adopts :
      (a : Actions (D × Client V)) (serial : Text) (io : Io) (now : ℕ) (id : Text) (app : App D V)
      (p : Profile) (dev : Details)
      → lookup id app.store.profiles ≡ some p
      → (a.details app.world).0 ≡ done dev
      → Adopts dev id app (apply_profile a serial io now id app)
  unfolding apply_profile known_or_missing
  apply_profile-Adopts a serial io now id app p dev here known =
      rw (here, known_or_missing)
        (touched-Adopts a serial io now dev id p app (a.details app.world).0 (a.details app.world).1
          known)
