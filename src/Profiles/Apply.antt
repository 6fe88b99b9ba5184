-- ===== src/Profiles/Apply.antt =====
-- `ApplyProfile` of profiles_app.go, with `touch` of app_invalidate.go. The application is the device,
-- the task registry, the profile store, the client's maps and what was sent to the interface about
-- stale caches.
pub mod Stale
pub mod Adopted
use adbq.Prelude.{
  ℕ, ◌+◌, List, [], ◌∷◌, ◌++◌, Option, none, some, Bool, true, false, not, ◌&&◌, ◌||◌,
  if◌then◌else◌, Text, codes, text_eq,
}
use adbq.Decimal.{decimal}
use adbq.Dict.{lookup}
use adbq.Devices.{device_key}
use adbq.FactStore.{Client}
use adbq.FactStore.Domains.{Domain, invalidate_domains}
use adbq.Tasks.{TaskManager, create, update, finish}
use adbq.Profiles.{Profile, ProfileStore, Io, domains, bind_profile}
use adbq.Profiles.Device.{Outcome, done, fault, Details, Actions, Status, StepResult}
use adbq.Profiles.Steps.{apply_iptables, apply_hosts, apply_cert, apply_forwards, apply_proxy}
use adbq.Profiles.Frida.{apply_frida}

-- The actions of a step may change the device and the client's maps, which are the `world`.
-- `started` tells whether the interface's context is there to send to
pub record App (D : Type 0) (V : Type 0) : Type 0 where
  pub world : D × Client V
  pub tasks : TaskManager
  pub store : ProfileStore
  pub started : Bool
  pub stale : List (Text × List Domain)

pub record ApplyReport : Type 0 where
  pub profile_id : Text
  pub profile_name : Text
  pub serial : Text
  pub rooted : Bool
  pub steps : List StepResult
  pub needs_reboot : Bool

-- " · " in UTF-8
abbrev pub middle_dot : Text
middle_dot = b' ' ∷ 194 ∷ 183 ∷ b' ' ∷ []

abbrev pub non_blank : Text → Bool
non_blank s = not (text_eq s [])

abbrev pub any_listed {ℓ} : {A : Type ℓ} → List A → Bool
any_listed [] = false
any_listed (x ∷ xs) = true

-- which steps `ApplyProfile` and `PreviewProfile` take on
abbrev pub wants_iptables : Profile → Bool
wants_iptables p =
    p.iptables.enabled && (non_blank p.iptables.v4_blob || non_blank p.iptables.v6_blob)

abbrev pub wants_cert : Profile → Bool
wants_cert p = p.cert.enabled && non_blank p.cert.pem

abbrev pub wants_forwards : Profile → Bool
wants_forwards p =
    p.forwards.enabled && (any_listed p.forwards.forwards || any_listed p.forwards.reverses)

unfoldable pub any_status : (Status → Bool) → List StepResult → Bool
any_status test [] = false
any_status test (s ∷ ss) = test s.status || any_status test ss

unfoldable pub any_reboot : List StepResult → Bool
any_reboot [] = false
any_reboot (s ∷ ss) = s.needs_reboot || any_reboot ss

abbrev pub is_ok : Status → Bool
is_ok Status.ok = true
is_ok s = false

abbrev pub is_skip : Status → Bool
is_skip Status.skip = true
is_skip s = false

abbrev pub is_err : Status → Bool
is_err Status.err = true
is_err s = false

unfoldable pub count_status : (Status → Bool) → List StepResult → ℕ
count_status test [] = 0
count_status test (s ∷ ss) =
    let rest = count_status test ss in if test s.status then rest + 1 else rest

unfoldable pub summarize_report : ApplyReport → Text
unfolding count_status
summarize_report r =
    decimal (count_status is_ok r.steps)
    ++ (codes " ok"
        ++ (middle_dot
            ++ (decimal (count_status is_skip r.steps)
                ++ (codes " skipped"
                    ++ (middle_dot
                        ++ (decimal (count_status is_err r.steps) ++ codes " failed"))))))

-- the closure `note`
unfoldable pub note : Text → Text → Text → TaskManager → TaskManager
note serial id step tasks =
    update id (λ t. record t { detail = step ++ (middle_dot ++ serial) }) tasks

note_all : Text → Text → List Text → TaskManager → TaskManager
unfolding note
note_all serial id [] tasks = tasks
note_all serial id (s ∷ ss) tasks =
    note_all serial id ss (note serial id (codes "frida: " ++ s) tasks)

-- the steps that were taken, with the device and the tasks
abbrev pub Run : Type 0 → Type 0
Run D = List StepResult × D × TaskManager

-- a profile of which every step failed is not adopted
unfoldable pub adopted : List StepResult → Bool
unfolding any_status
adopted [] = true
adopted (s ∷ ss) = any_status is_ok (s ∷ ss)

unfoldable pub adopt : Io → ℕ → Details → Text → List StepResult → ProfileStore → ProfileStore
unfolding adopted
adopt io now dev profile_id steps store =
    if adopted steps
    then (bind_profile io now (device_key dev.id dev.hardware_serial) profile_id store).1
    else store

module _ {D V : Type 0} where
  -- `touch`
  unfoldable pub touch : Text → List Domain → App D V → App D V
  touch serial [] app = app
  touch serial (d ∷ ds) app = record app {
    world = (app.world.0, invalidate_domains app.world.1 serial (d ∷ ds));
    stale = if app.started then app.stale ++ (serial, (d ∷ ds)) ∷ [] else app.stale;
  }

module _ {D : Type 0} (a : Actions D) (serial : Text) where
  unfoldable pub step_if : Bool → Text → Text → (D → StepResult × D) → Run D → Run D
  unfolding note
  step_if false id name act run = run
  step_if true id name act (steps, d, tasks) =
      let (r, d') = act d in (steps ++ r ∷ [], d', note serial id name tasks)

  unfoldable pub frida_if : Bool → Text → Details → Profile → Run D → Run D
  unfolding note note_all
  frida_if false id dev p run = run
  frida_if true id dev p (steps, d, tasks) =
      let (r, notes, d') = apply_frida a dev p.frida d in
      (steps ++ r ∷ [], d', note_all serial id notes (note serial id (codes "frida") tasks))

  unfoldable pub run_steps : Text → Details → Profile → Run D → Run D
  unfolding step_if frida_if
  run_steps id dev p run = step_if p.proxy.enabled id (codes "proxy") (apply_proxy a p.proxy) (
      step_if (wants_forwards p) id (codes "forwards") (apply_forwards a p.forwards) (
        frida_if p.frida.enabled id dev p (
          step_if (wants_cert p) id (codes "cert") (apply_cert a p.cert) (
            step_if p.hosts.enabled id (codes "hosts") (apply_hosts a dev p.hosts) (
              step_if (wants_iptables p) id (codes "iptables") (apply_iptables a dev p.iptables)
                run)))))

module _ {D V : Type 0} (a : Actions (D × Client V)) (serial : Text) where
  -- from the device's details on
  unfoldable pub apply_to : Io → ℕ → Details → Text → Profile → App D V → ApplyReport × App D V
  unfolding run_steps adopt any_status any_reboot summarize_report
  apply_to io now dev profile_id p app =
      let (id, tasks) =
        create (codes "profile-apply") (codes "Apply profile: " ++ p.name) serial app.tasks in
      let (steps, d, tasks') = run_steps a serial id dev p ([], app.world, tasks) in
      let report : ApplyReport = record {
        profile_id = p.id;
        profile_name = p.name;
        serial = serial;
        rooted = dev.root;
        steps = steps;
        needs_reboot = any_reboot steps;
      } in
      (
        report,
        record app {
          world = d;
          store = adopt io now dev profile_id steps app.store;
          tasks =
              finish id (if any_status is_err steps then codes "err" else codes "ok") []
                (summarize_report report) tasks';
        },
      )

  with_details :
      Io
      → ℕ
      → Text
      → Profile
      → Outcome Details × (D × Client V)
      → App D V
      → Outcome ApplyReport × App D V
  unfolding apply_to
  with_details io now profile_id p (fault msg, d) app = (fault msg, record app { world = d })
  with_details io now profile_id p (done dev, d) app =
      let (report, app') = apply_to io now dev profile_id p (record app { world = d }) in
      (done report, app')

  -- the deferred `touch` runs on every way out
  touched : Profile → Outcome ApplyReport × App D V → Outcome ApplyReport × App D V
  unfolding touch
  touched p (answer, app) = (answer, touch serial (domains p) app)

  known_or_missing : Io → ℕ → Text → Option Profile → App D V → Outcome ApplyReport × App D V
  unfolding with_details touched
  known_or_missing io now profile_id none app =
      (fault (codes "profile " ++ (profile_id ++ codes " not found")), app)
  known_or_missing io now profile_id (some p) app =
      touched p (with_details io now profile_id p (a.details app.world) app)

  unfoldable pub apply_profile : Io → ℕ → Text → App D V → Outcome ApplyReport × App D V
  unfolding known_or_missing
  apply_profile io now profile_id app =
      known_or_missing io now profile_id (lookup profile_id app.store.profiles) app
