-- ===== src/Profiles.antt =====
-- internal/adb/profiles.go: the profiles and the device records that are kept in two JSON files. A
-- file is the map that was written to it; what the writing and the renaming of a file come to is an
-- argument of the operation that saves. A time is in seconds.
mod Records
pub mod Ids
pub mod Bindings
pub mod Device
pub mod Steps
pub mod Frida
pub mod Apply
pub mod Preview
mod Examples
use adbq.Prelude.{
  ℕ, ◌+◌, ◌^◌, List, [], ◌∷◌, ◌++◌, Option, none, some, Bool, true, false, not, ◌&&◌, ◌||◌,
  if◌then◌else◌, ltb, ◌==◌, Text, codes, text_eq, has_prefix, drop, map,
}
use adbq.Prelude.Int.{ℤ}
use adbq.Strings.{is_space, drop_while}
use adbq.Decimal.{decimal, is_digit, read_nat}
use adbq.Dict.{Dict, lookup, insert, remove}
use adbq.FactStore.Domains.{Domain}
unfoldable pub use Records.*

-- `fmt.Sscanf(id, "p-%d", &n)`: blanks, a sign, and as many digits as there are, within int64; 0
-- where it fails and for a negative number, which the caller treats alike
digit_run : Text → Text
digit_run [] = []
digit_run (c ∷ s) = let rest = digit_run s in if is_digit c then c ∷ rest else []

int64_or_zero : Option ℕ → ℕ
int64_or_zero none = 0
int64_or_zero (some n) = if ltb n (2 ^ 63) then n else 0

signed_number : Text → ℕ
unfolding digit_run int64_or_zero read_nat
signed_number [] = 0
signed_number (c ∷ s) =
    if c == b'-' then 0 else int64_or_zero (read_nat (digit_run (if c == b'+' then s else c ∷ s)))

unfoldable pub scan_id : Text → ℕ
unfolding signed_number
scan_id id =
    if has_prefix id (codes "p-")
    then signed_number (drop_while (λ c. is_space c && not (c == b'\n')) (drop 2 id))
    else 0

-- the loop over the ids that were read
unfoldable pub seed : ℕ → Dict Profile → ℕ
unfolding scan_id
seed seq [] = seq
seed seq ((id, p) ∷ ps) = seed (if ltb seq (scan_id id) then scan_id id else seq) ps

-- `NewProfileStore`: without a directory the store is empty; a file that cannot be read or parsed
-- is `none`, and is written only by a save
or_empty : {V : Type 0} → Option (Dict V) → Dict V
or_empty none = []
or_empty (some m) = m

unfoldable pub new_profile_store :
    Bool → Option (Dict Profile) → Option (Dict DeviceRecord) → ProfileStore
unfolding seed or_empty
new_profile_store false profiles devices = record {
  on_disk = false;
  seq = 0;
  profiles = [];
  devices = [];
  profiles_file = [];
  devices_file = [];
}
new_profile_store true profiles devices = record {
  on_disk = true;
  seq = seed 0 (or_empty profiles);
  profiles = or_empty profiles;
  devices = or_empty devices;
  profiles_file = or_empty profiles;
  devices_file = or_empty devices;
}

-- `saveProfiles` and `saveDevices`, each with whether it succeeded
unfoldable pub save_profiles : Io → ProfileStore → Bool × ProfileStore
save_profiles io s =
    if not s.on_disk
    then (true, s)
    else if io.written && io.renamed
    then (true, record s { profiles_file = s.profiles })
    else (false, s)

unfoldable pub save_devices : Io → ProfileStore → Bool × ProfileStore
save_devices io s =
    if not s.on_disk
    then (true, s)
    else if io.written && io.renamed
    then (true, record s { devices_file = s.devices })
    else (false, s)

unfoldable pub profile_id : ℕ → Text
profile_id n = codes "p-" ++ decimal n

created_of : ℕ → Option Profile → ℕ
created_of now none = now
created_of now (some existing) = existing.created_at

-- the profile as it is stored, and the counter
stamped : ℕ → Profile → Text → ProfileStore → Profile × ℕ
unfolding profile_id created_of
stamped now p [] s =
    (record p { id = profile_id (s.seq + 1); created_at = now; updated_at = now }, s.seq + 1)
stamped now p (c ∷ id) s =
    (record p { created_at = created_of now (lookup (c ∷ id) s.profiles); updated_at = now }, s.seq)

store_stamped : Io → Profile × ℕ → ProfileStore → Profile × Bool × ProfileStore
unfolding save_profiles
store_stamped io (p, seq) s =
    let (saved, s') =
      save_profiles io (record s { seq = seq; profiles = insert p.id p s.profiles }) in
    (p, saved, s')

unfoldable pub save_profile : Io → ℕ → Profile → ProfileStore → Profile × Bool × ProfileStore
unfolding stamped store_stamped
save_profile io now p s = store_stamped io (stamped now p p.id s) s

unbound : Text → DeviceRecord → DeviceRecord
unbound id rec =
    if text_eq rec.bound_profile_id id then record rec { bound_profile_id = [] } else rec

unfoldable pub unbind_all : Text → Dict DeviceRecord → Dict DeviceRecord
unfolding unbound
unbind_all id [] = []
unbind_all id ((k, rec) ∷ ds) = (k, unbound id rec) ∷ unbind_all id ds

-- the devices are not saved when the profiles could not be
unfoldable pub delete_profile : Io → Io → Text → ProfileStore → Bool × ProfileStore
unfolding unbind_all save_profiles save_devices
delete_profile io io' id s =
    let (saved, s') =
      save_profiles io
        (record s { profiles = remove id s.profiles; devices = unbind_all id s.devices }) in
    if saved then save_devices io' s' else (false, s')

or_kept : Text → Text → Text
or_kept [] old = old
or_kept (c ∷ s) old = c ∷ s

seen : ℕ → DeviceRecord → Option DeviceRecord → DeviceRecord
unfolding or_kept
seen now rec none = record rec { first_seen = now; last_seen = now }
seen now rec (some existing) = record existing {
  adb_serial = rec.adb_serial;
  hardware_serial = rec.hardware_serial;
  label = or_kept rec.label existing.label;
  model = or_kept rec.model existing.model;
  manufacturer = or_kept rec.manufacturer existing.manufacturer;
  last_seen = now;
}

unfoldable pub upsert_device_seen : Io → ℕ → DeviceRecord → ProfileStore → ProfileStore
unfolding seen save_devices
upsert_device_seen io now rec s =
    (save_devices io
      (record s { devices = insert rec.key (seen now rec (lookup rec.key s.devices)) s.devices })).1

-- `DeviceRecord{Key: key, FirstSeen: now, LastSeen: now}` for a device that is not known
known_or_new : ℕ → Text → Option DeviceRecord → DeviceRecord
known_or_new now key (some rec) = rec
known_or_new now key none = record {
  key = key;
  adb_serial = [];
  hardware_serial = [];
  label = [];
  model = [];
  manufacturer = [];
  first_seen = now;
  last_seen = now;
  bound_profile_id = [];
}

unfoldable pub bind_profile : Io → ℕ → Text → Text → ProfileStore → Bool × ProfileStore
unfolding known_or_new save_devices
bind_profile io now key profile_id s = save_devices io (record s {
  devices =
      insert key
        (record (known_or_new now key (lookup key s.devices)) { bound_profile_id = profile_id })
        s.devices;
})

-- the profile that a record is bound to
bound : Option DeviceRecord → Text
bound none = []
bound (some rec) = rec.bound_profile_id

-- `LookupDeviceProfile` of profiles_app.go
unfoldable pub lookup_device_profile : Text → ProfileStore → Text
unfolding bound
lookup_device_profile key s = bound (lookup key s.devices)

-- `RegisterDevice` of profiles_app.go: a device that was seen has no profile of its own
unfoldable pub register_device : Io → ℕ → DeviceRecord → ProfileStore → ProfileStore
unfolding upsert_device_seen
register_device io now rec s =
    upsert_device_seen io now (record rec { first_seen = 0; last_seen = 0; bound_profile_id = [] })
      s
