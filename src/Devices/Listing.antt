-- ===== src/Devices/Listing.antt =====
-- The listing of `adb devices -l` and the lists of the tracker give the same devices.
use adbq.Prelude.{◌≡◌, refl, ap, ◌∙◌, arith, ◌∷◌, ◌++◌, Text, codes, text_eq, has_prefix, ◌==◌}
use adbq.Strings.{split, trim_space}
use adbq.Strings.Fields.{NoneOf, split_by-append}
use adbq.Devices.{device_line, devices_of_lines, parse_device_list}

module _ (line rest : Text) (one_line : NoneOf (λ c. c == b'\n') line) where
  pub parse_device_list-line :
      parse_device_list (line ++ b'\n' ∷ rest)
      ≡ device_line (trim_space line) ++ parse_device_list rest
  unfolding parse_device_list devices_of_lines split
  parse_device_list-line =
      ap devices_of_lines (split_by-append (λ c. c == b'\n') line b'\n' rest one_line refl)

abbrev pub banner : Text
banner = codes "List of devices attached"

-- The banner that only the command prints adds no device.
pub parse_device_list-banner :
    (rest : Text) → parse_device_list (banner ++ b'\n' ∷ rest) ≡ parse_device_list rest
parse_device_list-banner rest =
    parse_device_list-line banner rest (ground arith)
    ∙ (unfold device_line trim_space has_prefix text_eq in refl)
