-- ===== src/Devices.antt =====
-- `Device` and `ParseDeviceList` of internal/adb/devices.go, which the listing of `adb devices -l`
-- and the push tracker share.
pub mod Listing
pub mod Rows
pub mod Printed
pub mod Equal
mod Examples
use adbq.Prelude.{
  ℕ, List, [], ◌∷◌, ◌++◌, Option, none, some, Bool, true, false, ◌&&◌, ◌||◌, if◌then◌else◌, ◌==◌,
  Text, codes, text_eq, has_byte, has_prefix, replace_byte,
}
use adbq.Prelude.Int.{ℤ, pos}
use adbq.Strings.{trim_space, split, fields, cut_byte}

pub record Device : Type 0 where
  pub id : Text
  pub state : Text
  pub online : Bool
  pub via : Text
  pub transport : Text
  pub label : Text
  pub model : Text
  pub product : Text
  pub manufacturer : Text
  pub android_version : Text
  pub sdk : ℤ
  pub build_id : Text
  pub kernel : Text
  pub cpu : Text
  pub arch : Text
  pub root : Bool
  pub root_method : Text
  pub root_pending : Bool
  pub ip : Text
  pub wifi : Text
  pub mac : Text
  pub hardware_serial : Text

-- `Device{}`
abbrev pub no_device : Device
no_device = record {
  id = [];
  state = [];
  online = false;
  via = [];
  transport = [];
  label = [];
  model = [];
  product = [];
  manufacturer = [];
  android_version = [];
  sdk = pos 0;
  build_id = [];
  kernel = [];
  cpu = [];
  arch = [];
  root = false;
  root_method = [];
  root_pending = false;
  ip = [];
  wifi = [];
  mac = [];
  hardware_serial = [];
}

-- `DeviceKey`, of the id and the hardware serial
pub device_key : Text → Text → Text
device_key id hardware_serial =
    let s = trim_space hardware_serial in
    if text_eq s [] || text_eq s (codes "unknown") then id else s

via_of : Text → Text
via_of id =
    if has_prefix id (codes "emulator-")
    then codes "Emulator"
    else if has_byte id b':'
    then codes "Wi-Fi"
    else codes "USB"

set_field : Text → Text → Device → Device
set_field k v d =
    if text_eq k (codes "product")
    then record d { product = v }
    else if text_eq k (codes "model")
    then record d { model = replace_byte b'_' (codes " ") v }
    else if text_eq k (codes "transport_id")
    then record d { transport = codes "transport_id:" ++ v }
    else d

-- a word without a colon, or that starts with one, is skipped
with_pair : Option (Text × Text) → Device → Device
unfolding set_field
with_pair none d = d
with_pair (some ([], v)) d = d
with_pair (some (c ∷ k, v)) d = set_field (c ∷ k) v d

pub with_pairs : List Text → Device → Device
unfolding with_pair
with_pairs [] d = d
with_pairs (kv ∷ kvs) d = with_pairs kvs (with_pair (cut_byte b':' kv) d)

first_of : Text → Text → Text
first_of [] t = t
first_of (c ∷ s) t = c ∷ s

labelled : Device → Device
unfolding first_of
labelled d = record d { label = first_of d.model d.id }

device_of_fields : List Text → List Device
unfolding via_of with_pairs labelled
device_of_fields (id ∷ state ∷ kvs) =
    labelled (
      with_pairs kvs (record no_device {
        id = id;
        state = state;
        online = text_eq state (codes "device");
        via = via_of id;
      }))
    ∷ []
device_of_fields fs = []

pub device_line : Text → List Device
unfolding device_of_fields
device_line s =
    if text_eq s [] || has_prefix s (codes "List of devices") || has_prefix s (codes "* ")
    then []
    else device_of_fields (fields s)

devices_of_lines : List Text → List Device
unfolding device_line
devices_of_lines [] = []
devices_of_lines (l ∷ ls) = device_line (trim_space l) ++ devices_of_lines ls

pub parse_device_list : Text → List Device
unfolding devices_of_lines
parse_device_list out = devices_of_lines (split b'\n' out)
