-- ===== src/Profiles/Frida.antt =====
-- `applyFrida` of profiles_app.go: a server of the right version is found or installed, and started.
use adbq.Prelude.{
  List, [], ◌∷◌, ◌++◌, Option, none, some, not, ◌||◌, if◌then◌else◌, Text, codes, text_eq,
}
use adbq.Prelude.Int.{pos}
use adbq.Decimal.{decimal}
use adbq.Profiles.{FridaStep}
use adbq.Profiles.Device.{
  Outcome, done, fault, Details, FridaServer, Actions, Status, StepResult, result, print_int,
  or_else, positive, first_fitting, last_active,
}

module _ {D : Type 0} (a : Actions D) where
  -- the end of `applyFrida`: the server is installed at `path`
  start_installed :
      Details → FridaStep → Text → Text → Text → Option FridaServer → D → StepResult × D
  unfolding or_else positive print_int
  start_installed dev step version arch path (some s) d = (
    if not step.start
        then result (codes "frida") Status.ok
            (codes "installed " ++ (version ++ (codes " (" ++ (arch ++ codes ")"))))
        else result (codes "frida") Status.ok (
            codes "already running: "
            ++ (s.name
                ++ (codes " (pid "
                    ++ (decimal s.pid ++ (codes ", port " ++ (decimal s.port ++ codes ")")))))),
    d,
  )
  start_installed dev step version arch path none d =
      if not step.start
      then (
        result (codes "frida") Status.ok
            (codes "installed " ++ (version ++ (codes " (" ++ (arch ++ codes ")")))),
        d,
      )
      else if not dev.root
      then (
        result (codes "frida") Status.skip
            (codes "installed " ++ (version ++ codes "; starting needs root")),
        d,
      )
      else let iface = or_else step.iface (codes "0.0.0.0") in
        let port = if positive step.port then step.port else pos 27042 in
        let (e, d') = a.start_frida path iface port d in
        (
          elim e [
            | some msg ↦ result (codes "frida") Status.err (codes "start failed: " ++ msg)
            | none ↦ result (codes "frida") Status.ok (
                codes "started "
                ++ (version
                    ++ (codes " ("
                        ++ (arch ++ (codes ") on " ++ (iface ++ (b':' ∷ print_int port)))))))
          ],
          d',
        )

  after_install :
      Details
      → FridaStep
      → Text
      → Text
      → Option FridaServer
      → (List Text × Outcome Text) × D
      → StepResult × List Text × D
  unfolding start_installed
  after_install dev step version arch running ((stages, fault msg), d) =
      (result (codes "frida") Status.err (codes "install failed: " ++ msg), stages, d)
  after_install dev step version arch running ((stages, done path), d) =
      let (r, d') = start_installed dev step version arch path running d in (r, stages, d')

  install_missing :
      Details → FridaStep → Text → Text → Option FridaServer → Text → D → StepResult × List Text × D
  unfolding after_install start_installed
  install_missing dev step version arch running (c ∷ path) d =
      let (r, d') = start_installed dev step version arch (c ∷ path) running d in (r, [], d')
  install_missing dev step version arch running [] d =
      let (r, stages, d') =
        after_install dev step version arch running (a.install_frida version arch d) in
      (r, (codes "install " ++ version) ∷ stages, d')

  some_servers : Option (List FridaServer) → List FridaServer
  some_servers none = []
  some_servers (some ss) = ss

  with_version : Details → FridaStep → Text → Text → D → StepResult × List Text × D
  unfolding install_missing some_servers first_fitting last_active
  with_version dev step arch version d =
      let (servers, d') = a.frida_servers d in
      let ss = some_servers servers in
      install_missing dev step version arch (last_active ss none) (first_fitting version arch ss) d'

  latest : Option (List Text) → Option Text
  latest (some (v ∷ vs)) = some v
  latest o = none

  with_arch : Details → FridaStep → Text → D → StepResult × List Text × D
  unfolding with_version latest
  with_arch dev step arch d =
      if text_eq step.version []
      then (let (releases, d') = a.frida_releases arch d in
          elim (latest releases) [
            | none ↦ (
              result (codes "frida") Status.err
                  (codes "could not resolve latest frida-server version"),
              [],
              d',
            )
            | some v ↦ with_version dev step arch v d'
          ])
      else with_version dev step arch step.version d

  detected : Details → FridaStep → Option Text × D → StepResult × List Text × D
  unfolding with_arch
  detected dev step (some (c ∷ arch), d) = with_arch dev step (c ∷ arch) d
  detected dev step (answer, d) =
      (result (codes "frida") Status.err (codes "could not detect device frida arch"), [], d)

  -- with what it notes on the way, without the "frida: " in front
  unfoldable pub apply_frida : Details → FridaStep → D → StepResult × List Text × D
  unfolding detected with_arch
  apply_frida dev step d =
      if step.auto_arch || text_eq step.arch []
      then detected dev step (a.frida_arch d)
      else with_arch dev step step.arch d
