-- ===== src/Profiles/Apply/Stale.antt =====
-- Applying a profile leaves nothing stale in the cache.
use adbq.Prelude.{ℕ, ◌≡◌, List, [], ◌∷◌, none, some, Text, Lacks}
use adbq.Dict.{lookup}
use adbq.FactStore.{Client, nul, cached_fact}
use adbq.FactStore.Domains.{Domain, domain_of}
use adbq.FactStore.Invalidation.{Among, cached_fact-invalidate_domains}
use adbq.Profiles.{Profile, Io, domains}
use adbq.Profiles.Device.{Actions}
use adbq.Profiles.Apply.{App, touch, with_details, touched, known_or_missing, apply_profile}

module _ {D V : Type 0} where
  touch-stale :
      (serial : Text) (ds : List Domain) (app : App D V) (fact : Text) (d : Domain)
      → domain_of fact ≡ some d
      → Among d ds
      → Lacks nul serial
      → (fresh_key : Text) (ttl now : ℕ)
      → cached_fact (touch serial ds app).world.1 fact serial fresh_key ttl now ≡ none
  unfolding touch
  touch-stale serial [] app fact d e among lacks fresh_key ttl now = absurd among
  touch-stale serial (x ∷ ds) app fact d e among lacks fresh_key ttl now =
      cached_fact-invalidate_domains app.world.1 serial (x ∷ ds) fact d e among lacks fresh_key ttl
        now

  -- After `ApplyProfile`, no fact of a domain that `Domains` lists for the profile is served from the
  -- cache for the device, whatever the steps did to the device and to the client's maps, and also
  -- when the device's details could not be read. The serial has no NUL byte.
  pub cached_fact-apply_profile :
      (a : Actions (D × Client V)) (serial : Text) (io : Io) (saved : ℕ) (id : Text) (app : App D V)
      (p : Profile) (fact : Text) (d : Domain)
      → lookup id app.store.profiles ≡ some p
      → domain_of fact ≡ some d
      → Among d (domains p)
      → Lacks nul serial
      → (fresh_key : Text) (ttl now : ℕ)
      → cached_fact (apply_profile a serial io saved id app).1.world.1 fact serial fresh_key ttl now
        ≡ none
  unfolding apply_profile known_or_missing touched
  cached_fact-apply_profile a serial io saved id app p fact d here e among lacks fresh_key ttl now =
      rw (here, known_or_missing)
        (touch-stale serial (domains p)
          (with_details a serial io saved id p (a.details app.world) app).1 fact d e among lacks
          fresh_key ttl now)
