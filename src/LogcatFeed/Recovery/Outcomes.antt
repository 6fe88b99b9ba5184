-- ===== src/LogcatFeed/Recovery/Outcomes.antt =====
-- How a recovery ends.
use adbq.Prelude.{ℕ, ◌≡◌, ◌≢◌, List, [], ◌∷◌, ◌++◌, some, Bool, true, false, ◌⊎◌, Text}
use adbq.LogcatFeed.Recovery.{reconnected, stopped, Link, Device, recover_loop}

module _ {D : Type 0} (device : Device D) (pid : ℕ) where
  -- the device is asked for the process of a filtered app, which does not run
  abbrev pub Absent : Text → D → D → Type 0
  Absent [] d d' = ⊥
  Absent (c ∷ pkg) d d' = device.pid_of d ≡ (0, d')

  -- the process to attach to: the one that was streamed, or what the device says of a filtered app
  abbrev pub Running : Text → D → ℕ → D → Type 0
  Running [] d next d' = (next ≡ pid) × (d' ≡ d)
  Running (c ∷ pkg) d next d' = (device.pid_of d ≡ (next, d')) × (next ≢ 0)

  module _ (pkg : Text) where
    -- rounds of the loop that did not attach: the app was not running, or the stream did not start,
    -- or the feed was cancelled when it had
    pub data Rounds : List ℕ → D → D → Type 0 where
      no_rounds : (d : D) → Rounds [] d d
      not_running :
          {delay : ℕ} {delays : List ℕ} {d d₁ d₂ d' : D}
          → device.wait delay d ≡ (false, d₁)
          → Absent pkg d₁ d₂
          → Rounds delays d₂ d'
          → Rounds (delay ∷ delays) d d'
      refused :
          {delay next : ℕ} {delays : List ℕ} {failed : Bool} {d d₁ d₂ d₃ d' : D}
          → device.wait delay d ≡ (false, d₁)
          → Running pkg d₁ next d₂
          → device.start_logcat next 1 d₂ ≡ (failed, d₃)
          → (failed ≡ true) ⊎ (device.cancelled d₃ ≡ true)
          → Rounds delays d₃ d'
          → Rounds (delay ∷ delays) d d'

    -- After such rounds the feed streams the process and says so, or was cancelled in a wait and is
    -- as it was, or has used up the delays, is dead and says why.
    pub data Recovered (reason : Text) (f : Link) (delays : List ℕ) (d : D)
        : Link → D → Type 0 where
      attached :
          (before after : List ℕ) (delay next : ℕ) {d₁ d₂ d₃ d' : D}
          → delays ≡ before ++ delay ∷ after
          → Rounds before d d₁
          → device.wait delay d₁ ≡ (false, d₂)
          → Running pkg d₂ next d₃
          → device.start_logcat next 1 d₃ ≡ (false, d')
          → device.cancelled d' ≡ false
          → Recovered reason f delays d
              (record f { stream = some next; last_pid = next; said = f.said ++ reconnected ∷ [] })
              d'
      cancelled :
          (before after : List ℕ) (delay : ℕ) {d₁ d' : D}
          → delays ≡ before ++ delay ∷ after
          → Rounds before d d₁
          → device.wait delay d₁ ≡ (true, d')
          → Recovered reason f delays d f d'
      gave_up :
          {d' : D}
          → Rounds delays d d'
          → Recovered reason f delays d
              (record f { dead = true; said = f.said ++ stopped reason ∷ [] })
              d'

    module _ (reason : Text) (f : Link) where
      abbrev pub RecoveredOf : List ℕ → D → Link × D → Type 0
      RecoveredOf delays d out = Recovered reason f delays d out.0 out.1

      module _ (delay : ℕ) (delays : List ℕ) (d : D)
          (ih : (d' : D)
            → RecoveredOf delays d' (recover_loop device delays pkg pid reason f d')) where
        abbrev rest : Link → D → Link × D
        rest = recover_loop device delays pkg pid reason

module _ {D : Type 0} (device : Device D) (c : ℕ) (pkg : Text) (pid : ℕ) (reason : Text) where
  abbrev waiting : List ℕ → Link → D → Link × D
  waiting delays = recover_loop device delays (c ∷ pkg) pid reason

  -- along the delays the feed is not cancelled and the app does not run
  abbrev pub Away : List ℕ → D → Type 0
  Away [] d = Unit
  Away (delay ∷ delays) d =
      let (gone, d₁) = device.wait delay d in
      let (running, d₂) = device.pid_of d₁ in (gone ≡ false) × (running ≡ 0) × Away delays d₂
