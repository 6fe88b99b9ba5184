-- ===== src/Devices/Printed.antt =====
-- The list that adb prints is read back, device by device.
use adbq.Prelude.{◌≡◌, refl, ◌∙◌, List, [], ◌∷◌, ◌++◌, Text, text_eq, map}
use adbq.Strings.{split, trim_space}
use adbq.Devices.Listing.{banner, parse_device_list-line, parse_device_list-banner}
use adbq.Devices.{parse_device_list}
use adbq.Devices.Rows.{Listed, line_of, WellListed, device_of, device_line-line_of, line-OneLine}

abbrev pub AllWellListed : List Listed → Type 0
AllWellListed [] = Unit
AllWellListed (e ∷ es) = WellListed e × AllWellListed es

-- each line ends in a newline
pub all_lines : List Listed → Text
all_lines [] = []
all_lines (e ∷ es) = line_of e ++ b'\n' ∷ all_lines es

parse_device_list-nil : parse_device_list [] ≡ []
unfolding parse_device_list split trim_space text_eq
parse_device_list-nil = refl

plain_lines :
    (es : List Listed) → AllWellListed es → parse_device_list (all_lines es) ≡ map device_of es
unfolding all_lines
plain_lines [] h = parse_device_list-nil
plain_lines (e ∷ es) (h, hs) =
    parse_device_list-line (line_of e) (all_lines es) (line-OneLine e h.0)
    ∙ (rw (device_line-line_of e h, plain_lines es hs) refl)

-- A list of devices, one to a line, is read as those devices in that order, with or without the banner of the
-- command in front. A line has the id, any number of blanks for the column, the state, any words
-- `label:value` of other labels such as `usb`, those of the product, the model and the device's code name that
-- are there, and the transport. The words have no white space and are not empty, and no id is `List` or
-- `*`. A model's underscores are blanks, and a device without a model is labelled by its id.
pub parse_device_list-all_lines :
    (es : List Listed)
    → AllWellListed es
    → (parse_device_list (all_lines es) ≡ map device_of es)
      × (parse_device_list (banner ++ b'\n' ∷ all_lines es) ≡ map device_of es)
parse_device_list-all_lines es well =
    (plain_lines es well, parse_device_list-banner (all_lines es) ∙ plain_lines es well)
