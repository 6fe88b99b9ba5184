-- ===== src/Track/Sessions.antt =====
-- What a session delivers, and how long the loop waits after it.
use adbq.Prelude.{
  ◌+◌, ◌≡◌, ◌≢◌, refl, ap, ◌∙◌, arith, List, [], ◌∷◌, ◌++◌, Option, none, some, Bool, true, false,
  Text, codes, text_eq, length, map, get_or,
}
use adbq.Devices.{parse_device_list}
use adbq.Track.{
  read_adb_frame, Handshake, okay, refused, adb_handshake, status_of, TrackError, follow,
  short_form, redial, long_form, session, track_backoff, Tracker, counted, after_session, min4,
}
use adbq.Track.Framing.{read_full-append, AllShort, all_framed, frames-all_framed}

follow-all_framed :
    (long : Bool) (p : Text) (ps : List Text) (tail : Text)
    → AllShort (p ∷ ps)
    → read_adb_frame tail ≡ none
    → follow long (all_framed (p ∷ ps) tail)
      ≡ record { lists = map parse_device_list (p ∷ ps); error = none; long = some long }
unfolding follow
follow-all_framed long p ps tail short over =
    let sent = all_framed (p ∷ ps) tail in
    rw (frames-all_framed (p ∷ ps) tail (length sent) short over (omega arith)) refl

okay_lem : (s : Text) → adb_handshake (codes "OKAY" ++ s) ≡ okay s
unfolding adb_handshake status_of text_eq
okay_lem s = ap status_of (read_full-append (codes "OKAY") s)

redialled :
    (h : Handshake) (second : Option Text)
    → ((s : Text) → h ≢ okay s)
    → long_form h second ≡ redial h second
unfolding long_form
redialled (okay s) second differs = absurd (differs s refl)
redialled (refused r) second differs = refl
redialled (Handshake.not_host_protocol t) second differs = refl
redialled Handshake.cut_off second differs = refl

-- A server that accepts the request and then sends one frame or more, each shorter than 65536
-- bytes, before its connection ends in the middle of a frame or after one: the session delivers
-- the parsed payload of every frame, in order, and ends without an error. When the first answer
-- is no acceptance, the same holds of the second connection, with the short form.
pub session-all_framed :
    (p : Text) (ps : List Text) (tail answer : Text) (second : Option Text)
    → AllShort (p ∷ ps)
    → read_adb_frame tail ≡ none
    → ((s : Text) → adb_handshake answer ≢ okay s)
    → (session (some (codes "OKAY" ++ all_framed (p ∷ ps) tail)) second
        ≡ record { lists = map parse_device_list (p ∷ ps); error = none; long = some true })
      × (session (some answer) (some (codes "OKAY" ++ all_framed (p ∷ ps) tail))
          ≡ record { lists = map parse_device_list (p ∷ ps); error = none; long = some false })
unfolding session
session-all_framed p ps tail answer second short over refusal =
    let sent = all_framed (p ∷ ps) tail in
    (
      rw (okay_lem sent) (unfold long_form in follow-all_framed true p ps tail short over),
      rw (redialled (adb_handshake answer) (some (codes "OKAY" ++ sent)) refusal) (
          unfold redial in
          rw (okay_lem sent) (unfold short_form in follow-all_framed false p ps tail short over)),
    )

-- a row of sessions that end in an error
pub all_failed : List TrackError → Tracker → Tracker
all_failed [] t = t
all_failed (e ∷ es) t = all_failed es (after_session (some e) t).1

attempt-all_failed :
    (es : List TrackError) (t : Tracker) → (all_failed es t).attempt ≡ t.attempt + length es
unfolding all_failed
attempt-all_failed [] t = omega arith
attempt-all_failed (e ∷ es) t =
    attempt-all_failed es (after_session (some e) t).1
    ∙ (unfold after_session counted in omega arith)

-- After a session that delivered a list the loop waits 250 ms; after each session in a row that then
-- fails it waits the next of 500, 1000, 2000 and 5000 ms, and 5000 ms from there on.
pub after_session-all_failed :
    (t : Tracker) (es : List TrackError) (e : TrackError)
    → ((after_session none t).0 ≡ 250)
      × ((after_session (some e) (all_failed es (after_session none t).1)).0
          ≡ get_or track_backoff (min4 (length es + 1)) 0)
unfolding after_session counted
after_session-all_failed t es e =
    let first = (after_session none t).1 in
    let count : (all_failed es first).attempt ≡ length es + 1 =
      attempt-all_failed es first ∙ omega arith in
    (refl, ap (λ n. get_or track_backoff (min4 n) 0) count)
