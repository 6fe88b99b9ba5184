-- ===== src/Track/Examples.antt =====
-- A server that knows only the short form, and one that knows the long one.
use adbq.Prelude.{◌≡◌, ◌≢◌, refl, arith, [], ◌∷◌, ◌++◌, none, some, Bool, Text, codes, text_eq, map}
use adbq.Devices.{parse_device_list}
use adbq.Track.{read_adb_frame, okay, adb_handshake, session, Tracker}
use adbq.Track.Framing.{all_framed}
use adbq.Track.Sessions.{session-all_framed}

abbrev unknown_request : Text
unknown_request = codes "FAIL0007unknown"

abbrev one_device : Text
one_device = codes "emulator-5554 device"

cut_tail : read_adb_frame (codes "00") ≡ none
unfolding read_adb_frame
cut_tail = refl

unknown_refused : (s : Text) → adb_handshake unknown_request ≢ okay s
unfolding adb_handshake text_eq
unknown_refused s e = cc

session-all_framed_example :
    (session (some (codes "OKAY" ++ all_framed (one_device ∷ [] ∷ []) (codes "00"))) none ≡ record {
      lists = map parse_device_list (one_device ∷ [] ∷ []);
      error = none;
      long = some Bool.true;
    })
    × (session
          (some unknown_request)
          (some (codes "OKAY" ++ all_framed (one_device ∷ [] ∷ []) (codes "00")))
        ≡ record {
          lists = map parse_device_list (one_device ∷ [] ∷ []);
          error = none;
          long = some Bool.false;
        })
session-all_framed_example =
    session-all_framed one_device ([] ∷ []) (codes "00") unknown_request none
      ((omega arith), (omega arith, tt)) cut_tail unknown_refused

abbrev live : Tracker
live = record { connected = Bool.true; last_error = none; attempt = 0 }
