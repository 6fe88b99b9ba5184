-- ===== src/Devices/Examples.antt =====
-- The rows of the repository's own test: a phone on USB, an emulator, and one that is offline.
use adbq.Prelude.{◌≡◌, arith, List, [], ◌∷◌, ◌++◌, none, some, codes, map, refl, join}
use adbq.Devices.{parse_device_list}
use adbq.Devices.Listing.{banner}
use adbq.Devices.Rows.{Listed, line_of, device_of}
use adbq.Devices.Printed.{AllWellListed, all_lines, parse_device_list-all_lines}

abbrev phone_row : Listed
phone_row = record {
  id = codes "ABC123";
  pad = 12;
  state = codes "device";
  others = (codes "usb", codes "1-1") ∷ [];
  product = some (codes "foo");
  model = some (codes "Some_Phone");
  code_name = some (codes "bar");
  transport = codes "1";
}

abbrev emulator_row : Listed
emulator_row = record {
  id = codes "emulator-5554";
  pad = 5;
  state = codes "device";
  others = [];
  product = some (codes "sdk_gphone");
  model = some (codes "Emu");
  code_name = none;
  transport = codes "2";
}

abbrev offline_row : Listed
offline_row = record {
  id = codes "192.168.1.20:5555";
  pad = 1;
  state = codes "offline";
  others = [];
  product = none;
  model = none;
  code_name = none;
  transport = codes "3";
}

abbrev rows : List Listed
rows = phone_row ∷ emulator_row ∷ offline_row ∷ []

phone_line :
    line_of phone_row
    ≡ codes
        "ABC123             device usb:1-1 product:foo model:Some_Phone device:bar transport_id:1"
unfolding line_of join
phone_line = refl

rows-AllWellListed : AllWellListed rows
rows-AllWellListed = (
  (
    ground arith,
    (omega arith, (λ e. ground arith), (λ e. ground arith), (λ e. ground arith), tt),
    (λ e. ground arith),
    (λ e. ground arith),
  ),
  (
    (ground arith, tt, (λ e. ground arith), (λ e. ground arith)),
    ((ground arith, tt, (λ e. ground arith), (λ e. ground arith)), tt),
  ),
)

parse_device_list-all_lines_example :
    (parse_device_list (all_lines rows) ≡ map device_of rows)
    × (parse_device_list (banner ++ b'\n' ∷ all_lines rows) ≡ map device_of rows)
parse_device_list-all_lines_example = parse_device_list-all_lines rows rows-AllWellListed
