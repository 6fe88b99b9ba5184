-- ===== src/Profiles/Bindings.antt =====
-- Which profile a device is bound to, whatever happens in between.
use adbq.Prelude.{
  ℕ, ◌≡◌, ◌≢◌, refl, sym, ap, ◌∙◌, arith, List, [], ◌∷◌, Option, none, some, Bool, true,
  if◌then◌else◌, inl, inr, Bool-cases, Text, text_eq, text_eq_iff,
}
use adbq.Dict.{
  Dict, lookup, insert, remove, lookup-insert, lookup-insert_self, lookup-remove,
  lookup-remove_self,
}
use adbq.Profiles.{
  DeviceRecord, ProfileStore, Io, save_profiles, save_devices, unbound, unbind_all, delete_profile,
  seen, upsert_device_seen, register_device, known_or_new, bind_profile, lookup_device_profile,
  bound,
}

-- a record that is left when the profile goes
abbrev pub unbound_option : Text → Option DeviceRecord → Option DeviceRecord
unbound_option id none = none
unbound_option id (some rec) =
    some (if text_eq rec.bound_profile_id id then record rec { bound_profile_id = [] } else rec)

lookup-unbind_all :
    (id k : Text) (m : Dict DeviceRecord)
    → lookup k (unbind_all id m) ≡ unbound_option id (lookup k m)
unfolding unbind_all lookup unbound
lookup-unbind_all id k [] = refl
lookup-unbind_all id k ((j, rec) ∷ m) = elim (Bool-cases (text_eq j k)) [
  | inl e ↦ rw e refl
  | inr ne ↦ rw ne (lookup-unbind_all id k m)
]

save_devices-kept :
    (io : Io) (s : ProfileStore)
    → ((save_devices io s).1.profiles ≡ s.profiles) × ((save_devices io s).1.devices ≡ s.devices)
unfolding save_devices
save_devices-kept io s = ground arith

-- what a deletion leaves: in memory at once, and on disk when it reports success
abbrev pub Deleted : Text → ProfileStore → Bool × ProfileStore → Type 0
Deleted id s (saved, s') =
    (s'.profiles ≡ remove id s.profiles)
    × (s'.devices ≡ unbind_all id s.devices)
    × (saved ≡ true
        → s.on_disk ≡ true
        → (s'.profiles_file ≡ s'.profiles) × (s'.devices_file ≡ s'.devices))

delete_profile-Deleted :
    (io io' : Io) (id : Text) (s : ProfileStore) → Deleted id s (delete_profile io io' id s)
unfolding delete_profile save_profiles save_devices
delete_profile-Deleted io io' id s = (ground arith, ground arith, λ done disk. ground arith)

-- A deleted profile is gone from every place that names it, whether or not the files could be
-- written: its id names no profile, every other profile is as it was, and each device record is as
-- it was, but that a binding to the profile is cleared. If the deletion reports success and there
-- is a directory, both files hold the same.
pub delete_profile-everywhere :
    (io io' : Io) (id : Text) (s : ProfileStore)
    → let (saved, s') = delete_profile io io' id s in
      (lookup id s'.profiles ≡ none)
      × ((k : Text) → k ≢ id → lookup k s'.profiles ≡ lookup k s.profiles)
      × ((k : Text) → lookup k s'.devices ≡ unbound_option id (lookup k s.devices))
      × (saved ≡ true
          → s.on_disk ≡ true
          → (s'.profiles_file ≡ s'.profiles) × (s'.devices_file ≡ s'.devices))
delete_profile-everywhere io io' id s =
    let (profiles, devices, files) = delete_profile-Deleted io io' id s in
    (
      ap (lookup id) profiles ∙ lookup-remove_self id s.profiles,
      λ k ne. ap (lookup k) profiles ∙ other k ne,
      λ k. ap (lookup k) devices ∙ lookup-unbind_all id k s.devices,
      files,
    )
  where
    other : (k : Text) → k ≢ id → lookup k (remove id s.profiles) ≡ lookup k s.profiles
    other k ne = ground (arith, lookup-remove k id s.profiles, text_eq_iff k id)

lookup_device_profile-bound :
    (k : Text) (s : ProfileStore) → lookup_device_profile k s ≡ bound (lookup k s.devices)
unfolding lookup_device_profile
lookup_device_profile-bound k s = refl

-- one record is put in place of another that is bound alike
bound-insert :
    (j k : Text) (rec : DeviceRecord) (m : Dict DeviceRecord)
    → rec.bound_profile_id ≡ bound (lookup k m)
    → bound (lookup j (insert k rec m)) ≡ bound (lookup j m)
unfolding bound
bound-insert j k rec m e = elim (Bool-cases (text_eq k j)) [
  | inl same ↦
      let eq : k ≡ j = (text_eq_iff k j).0 same in
      rw (lookup-insert j k rec m, same) (e ∙ ap (λ i. bound (lookup i m)) eq)
  | inr differs ↦ rw (lookup-insert j k rec m, differs) refl
]

seen-bound :
    (now : ℕ) (rec : DeviceRecord) (o : Option DeviceRecord)
    → rec.bound_profile_id ≡ []
    → (seen now rec o).bound_profile_id ≡ bound o
unfolding seen bound
seen-bound now rec none e = e
seen-bound now rec (some old) e = refl

register-bound :
    (io : Io) (now : ℕ) (rec : DeviceRecord) (k : Text) (s : ProfileStore)
    → lookup_device_profile k (register_device io now rec s) ≡ lookup_device_profile k s
unfolding register_device upsert_device_seen
register-bound io now rec k s =
    let plain = record rec { first_seen = 0; last_seen = 0; bound_profile_id = [] } in
    let put = seen now plain (lookup rec.key s.devices) in
    let (profiles, devices) =
      save_devices-kept io (record s { devices = insert rec.key put s.devices }) in
    lookup_device_profile-bound k _
    ∙ (ap (λ m. bound (lookup k m)) devices
        ∙ (bound-insert k rec.key put s.devices
              (seen-bound now plain (lookup rec.key s.devices) refl)
            ∙ sym (lookup_device_profile-bound k s)))

-- what was seen, in order: each with the outcome of its save and the time
unfoldable pub register_all : List (Io × ℕ × DeviceRecord) → ProfileStore → ProfileStore
register_all [] s = s
register_all ((io, now, rec) ∷ seen_list) s = register_all seen_list (register_device io now rec s)

register_all-bound :
    (l : List (Io × ℕ × DeviceRecord)) (k : Text) (s : ProfileStore)
    → lookup_device_profile k (register_all l s) ≡ lookup_device_profile k s
unfolding register_all
register_all-bound [] k s = refl
register_all-bound ((io, now, rec) ∷ l) k s =
    register_all-bound l k (register_device io now rec s) ∙ register-bound io now rec k s

pub bind_profile-key :
    (io : Io) (now : ℕ) (key profile : Text) (s : ProfileStore)
    → lookup_device_profile key (bind_profile io now key profile s).1 ≡ profile
unfolding bind_profile bound
bind_profile-key io now key profile s =
    let rec = record (known_or_new now key (lookup key s.devices)) { bound_profile_id = profile } in
    let s' = record s { devices = insert key rec s.devices } in
    lookup_device_profile-bound key _
    ∙ ap bound (ap (lookup key) (save_devices-kept io s').1 ∙ lookup-insert_self key rec s.devices)

pub bind_profile-other :
    (io : Io) (now : ℕ) (key profile other : Text) (s : ProfileStore)
    → key ≢ other
    → lookup_device_profile other (bind_profile io now key profile s).1
      ≡ lookup_device_profile other s
unfolding bind_profile
bind_profile-other io now key profile other s ne =
    let rec = record (known_or_new now key (lookup key s.devices)) { bound_profile_id = profile } in
    let s' = record s { devices = insert key rec s.devices } in
    lookup_device_profile-bound other _
    ∙ (ap bound (ap (lookup other) (save_devices-kept io s').1 ∙ untouched rec)
        ∙ sym (lookup_device_profile-bound other s))
  where
    untouched :
        (rec : DeviceRecord) → lookup other (insert key rec s.devices) ≡ lookup other s.devices
    untouched rec = ground (arith, lookup-insert other key rec s.devices, text_eq_iff key other)

-- A binding stays. After a profile is bound to a device key, and devices were then seen any number
-- of times in any order, the key is bound to that profile, and every other key to what it was bound
-- to before. This holds whether or not the files could be written.
pub lookup_device_profile-bind_profile :
    (io : Io) (now : ℕ) (key profile other : Text) (l : List (Io × ℕ × DeviceRecord))
    (s : ProfileStore)
    → key ≢ other
    → let s' = register_all l (bind_profile io now key profile s).1 in
      (lookup_device_profile key s' ≡ profile)
      × (lookup_device_profile other s' ≡ lookup_device_profile other s)
lookup_device_profile-bind_profile io now key profile other l s ne = (
  register_all-bound l key _ ∙ bind_profile-key io now key profile s,
  register_all-bound l other _ ∙ bind_profile-other io now key profile other s ne,
)
