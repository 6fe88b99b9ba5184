-- ===== src/Track.antt =====
-- internal/adb/track.go: the subscription to the adb server's device list. A connection is the bytes
-- that the server sends until it ends; a dial is a connection, or `none` when it fails.
pub mod Framing
pub mod Sessions
mod Examples
use adbq.Prelude.{
  ℕ, zero, suc, ◌+◌, ◌-◌, ◌*◌, ◌/◌, ◌%◌, List, [], ◌∷◌, ◌++◌, Option, none, some, Bool, true, false,
  ◌&&◌, if◌then◌else◌, ltb, leb, ◌==◌, Text, codes, text_eq, length, take, drop, map, get_or,
}
use adbq.Strings.{trim_space}
use adbq.Devices.{Device, parse_device_list}

abbrev pub track_request_long : Text
track_request_long = codes "host:track-devices-l"

abbrev pub track_request_short : Text
track_request_short = codes "host:track-devices"

-- `hex.Decode` of one digit
unfoldable pub hex_value : ℕ → Option ℕ
hex_value c =
    if leb b'0' c && leb c b'9'
    then some (c - b'0')
    else if leb b'a' c && leb c b'f'
    then some (c - b'a' + 10)
    else if leb b'A' c && leb c b'F'
    then some (c - b'A' + 10)
    else none

hex_step : Option ℕ → Option ℕ → Option ℕ
hex_step (some n) (some d) = some (n * 16 + d)
hex_step _ _ = none

-- four hex digits, two bytes, big end first
pub parse_hex_len : Text → Option ℕ
unfolding hex_value hex_step
parse_hex_len (a ∷ b ∷ c ∷ d ∷ []) =
    hex_step (hex_step (hex_step (hex_value a) (hex_value b)) (hex_value c)) (hex_value d)
parse_hex_len s = none

-- one digit of `%04x`
pub hex_digit : ℕ → ℕ
hex_digit n = if ltb n 10 then b'0' + n else b'a' + (n - 10)

-- `%04x` below 2^16
pub hex4 : ℕ → Text
unfolding hex_digit
hex4 n =
    hex_digit (n / 4096 % 16)
    ∷ hex_digit (n / 256 % 16)
    ∷ hex_digit (n / 16 % 16)
    ∷ hex_digit (n % 16)
    ∷ []

-- what `adbHandshake` writes
pub framed : Text → Text
unfolding hex4
framed request = hex4 (length request) ++ request

-- `io.ReadFull`
pub read_full : ℕ → Text → Option (Text × Text)
read_full n s = if ltb (length s) n then none else some (take n s, drop n s)

pub payload : Option ℕ → Text → Option (Text × Text)
unfolding read_full
payload none s = none
payload (some n) s = if n == 0 then some ([], s) else read_full n s

pub after_header : Option (Text × Text) → Option (Text × Text)
unfolding payload parse_hex_len
after_header none = none
after_header (some (hdr, s)) = payload (parse_hex_len hdr) s

-- `readAdbFrame`: a payload and the rest of the connection
pub read_adb_frame : Text → Option (Text × Text)
unfolding after_header read_full
read_adb_frame s = after_header (read_full 4 s)

pub data Handshake : Type 0 where
  okay : Text → Handshake
  refused : Option Text → Handshake
  not_host_protocol : Text → Handshake
  cut_off : Handshake

reason_of : Option (Text × Text) → Handshake
reason_of none = refused none
reason_of (some (reason, s)) = refused (some (trim_space reason))

status_of : Option (Text × Text) → Handshake
unfolding reason_of read_adb_frame
status_of none = cut_off
status_of (some (status, s)) =
    if text_eq status (codes "OKAY")
    then okay s
    else if text_eq status (codes "FAIL")
    then reason_of (read_adb_frame s)
    else not_host_protocol status

-- the server's answer to a request
pub adb_handshake : Text → Handshake
unfolding status_of read_full
adb_handshake s = status_of (read_full 4 s)

pub collect : Option (Text × Text) → (Text → List Text) → List Text
collect none more = []
collect (some (p, s)) more = p ∷ more s

-- the frames of a connection; a frame takes four bytes or more
pub frames : ℕ → Text → List Text
unfolding collect read_adb_frame
frames zero s = []
frames (suc fuel) s = collect (read_adb_frame s) (frames fuel)

pub data TrackError : Type 0 where
  no_dial : TrackError
  bad_handshake : Handshake → TrackError
  no_list : TrackError

-- the lists that were delivered, `nil` or an error, and the form that was agreed on, if one was
pub record Session : Type 0 where
  pub lists : List (List Device)
  pub error : Option TrackError
  pub long : Option Bool

-- an end after a list was delivered is no error
follow : Bool → Text → Session
unfolding frames
follow long s = followed (frames (length s) s)
  where
    followed : List Text → Session
    followed [] = record { lists = []; error = some no_list; long = some long }
    followed (p ∷ ps) = record {
      lists = map parse_device_list (p ∷ ps);
      error = none;
      long = some long;
    }

failed_session : TrackError → Session
failed_session e = record { lists = []; error = some e; long = none }

short_form : Handshake → Session
unfolding follow failed_session
short_form (okay s) = follow false s
short_form h = failed_session (bad_handshake h)

-- the second dial, after the long form was refused; its own failure reports the first refusal
redial : Handshake → Option Text → Session
unfolding short_form
redial h none = failed_session (bad_handshake h)
redial h (some s) = short_form (adb_handshake s)

long_form : Handshake → Option Text → Session
unfolding redial
long_form (okay s) second = follow true s
long_form h second = redial h second

-- `session`, with what its two dials give
pub session : Option Text → Option Text → Session
unfolding long_form
session none second = failed_session no_dial
session (some s) second = long_form (adb_handshake s) second

-- milliseconds
abbrev pub track_backoff : List ℕ
track_backoff = 250 ∷ 500 ∷ 1000 ∷ 2000 ∷ 5000 ∷ []

-- the state that the UI is shown, and the counter of the loop
pub record Tracker : Type 0 where
  pub connected : Bool
  pub last_error : Option TrackError
  pub attempt : ℕ

abbrev pub min4 : ℕ → ℕ
min4 n = if ltb n 4 then n else 4

counted : Option TrackError → Tracker → Tracker
counted none t = record t { connected = false; attempt = 0 }
counted (some e) t = record t { connected = false; last_error = some e }

-- the loop after a session: the delay, and the state of the next round
pub after_session : Option TrackError → Tracker → ℕ × Tracker
unfolding counted
after_session err t =
    let t' = counted err t in
    (get_or track_backoff (min4 t'.attempt) 0, record t' { attempt = t'.attempt + 1 })
