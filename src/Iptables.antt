-- ===== src/Iptables.antt =====
-- internal/adb/iptables.go and internal/adb/iptables_commands.go: the changes of a device's packet
-- filter, the commands that they run and the undo ring. The device is a state `D` behind a record
-- of what adb does with it; the probe of the device's iptables is an argument of each call.
-- The parsers of the listings are in Iptables/Parse.
pub mod Commands
pub mod Undo
pub mod Parse
pub mod Actions
pub mod Probe
pub mod Preview
mod Examples
use adbq.Prelude.{
  ℕ, ◌+◌, ◌-◌, List, [], ◌∷◌, ◌++◌, Option, none, some, Bool, true, false, not, ◌&&◌, ◌||◌,
  if◌then◌else◌, ltb, leb, ◌==◌, Text, codes, contains_any, has_byte, join, text_eq, length, drop,
}
use adbq.Dict.{Dict, lookup, insert}

pub data IpFamily : Type 0 where
  ipv4 ipv6 : IpFamily

-- `IPTBackendInfo`
pub record BackendInfo : Type 0 where
  pub family : IpFamily
  pub available : Bool
  pub path : Text
  pub version : Text
  pub mode : Text
  pub has_save : Bool
  pub needs_root : Bool
  pub read_only : Bool

abbrev pub iptables_undo_depth : ℕ
iptables_undo_depth = 10

-- `undoKey{Serial, Family}`, as one text: the family is the first byte
abbrev pub undo_key : Text → IpFamily → Text
undo_key serial ipv4 = b'4' ∷ serial
undo_key serial ipv6 = b'6' ∷ serial

-- `iptablesState`: a missing key is an empty ring
abbrev pub Undos : Type 0
Undos = Dict (List Text)

or_empty : Option (List Text) → List Text
or_empty none = []
or_empty (some ring) = ring

pub ring_of : Undos → Text → List Text
unfolding or_empty
ring_of undos k = or_empty (lookup k undos)

-- the newest blobs of a ring, no more than the depth
pub trimmed : List Text → List Text
trimmed ring =
    if ltb iptables_undo_depth (length ring)
    then drop (length ring - iptables_undo_depth) ring
    else ring

pub push_undo : Undos → Text → Text → Undos
unfolding trimmed
push_undo undos k blob = insert k (trimmed (ring_of undos k ++ blob ∷ [])) undos

-- the last element and the ones before it
split_last : List Text → Option (Text × List Text)
split_last [] = none
split_last (b ∷ bs) = elim (split_last bs) [
  | none ↦ some (b, [])
  | some (l, before) ↦ some (l, b ∷ before)
]

popped : Undos → Text → Option (Text × List Text) → Option Text × Undos
popped undos k none = (none, undos)
popped undos k (some (blob, before)) = (some blob, insert k before undos)

pub pop_undo : Undos → Text → Option Text × Undos
unfolding popped split_last
pop_undo undos k = popped undos k (split_last (ring_of undos k))

-- the bytes that a rule's argument may not hold
abbrev pub disallowed : Text
disallowed = codes "'\"`\\\n\r;&|<>$"

all_allowed : List Text → Bool
all_allowed [] = true
all_allowed (a ∷ spec) = if contains_any a disallowed then false else all_allowed spec

-- `IptablesSpec.validate`
pub validate : List Text → Bool
unfolding all_allowed
validate [] = false
validate (a ∷ spec) = all_allowed (a ∷ spec)

abbrev pub is_ident_byte : ℕ → Bool
is_ident_byte c =
    (leb b'a' c && leb c b'z')
    || (leb b'A' c && leb c b'Z')
    || (leb b'0' c && leb c b'9')
    || c == b'_'
    || c == b'-'

all_ident : Text → Bool
all_ident [] = true
all_ident (c ∷ s) = if is_ident_byte c then all_ident s else false

-- every byte of an ident is ASCII, so a walk over bytes refuses what the walk over runes does
pub looks_like_ident : Text → Bool
unfolding all_ident
looks_like_ident [] = false
looks_like_ident (c ∷ s) = all_ident (c ∷ s)
