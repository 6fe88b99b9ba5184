-- ===== src/Network.antt =====
-- internal/adb/network.go, with helpers of internal/adb/strutil.go: addresses, the proxy that is set, and,
-- in the modules below, the gateway of a device and the reads that a name lookup combines. What the
-- device answers is an argument; the addresses of the host are one too.
pub mod Gateway
pub mod Lookup
pub mod Safe
mod Examples
use adbq.Prelude.{
  ℕ, zero, suc, ◌+◌, ◌*◌, List, [], ◌∷◌, ◌++◌, Option, none, some, Bool, true, false, not, ◌&&◌,
  ◌||◌, if◌then◌else◌, ◌==◌, ltb, leb, length, take, Text, codes, text_eq, has_byte, has_prefix,
  join,
}
use adbq.Prelude.Int.{ℤ, pos, negsuc}
use adbq.Decimal.{is_digit, decimal, itoa, atoi}
use adbq.Strings.{trim_space, trim_right_by, split, fields, to_lower, contains, drop_while}

-- `firstNLines` and `firstField`
unfoldable pub first_n_lines : Text → ℕ → Text
first_n_lines s zero = []
first_n_lines s (suc n) = join (take (suc n) (split b'\n' s)) (codes "\n")

unfoldable pub head_or_empty : List Text → Text
head_or_empty [] = []
head_or_empty (f ∷ fs) = f

unfoldable pub first_field : Text → Text
unfolding head_or_empty
first_field s = head_or_empty (fields s)

all_digits_in : Text → Bool
all_digits_in [] = true
all_digits_in (c ∷ s) = is_digit c && all_digits_in s

-- `isAllDigits`, of a part of at most three bytes, which is at most 255
is_octet : Text → Bool
unfolding all_digits_in
is_octet p = not (text_eq p []) && (leb (length p) 3 && (all_digits_in p && small (atoi p)))
  where
    small : Option ℤ → Bool
    small (some (pos n)) = leb n 255
    small o = true

are_octets : List Text → Bool
unfolding is_octet
are_octets (a ∷ b ∷ c ∷ d ∷ []) = is_octet a && (is_octet b && (is_octet c && is_octet d))
are_octets parts = false

unfoldable pub is_dotted_ipv4 : Text → Bool
unfolding are_octets
is_dotted_ipv4 s = are_octets (split b'.' s)

-- `GetProxy` of what the device prints, if it does
unfoldable pub get_proxy : Option Text → Option Text
get_proxy none = none
get_proxy (some out) =
    let t = trim_space out in
    some (if text_eq t (codes ":0") || text_eq t (codes "null") then [] else t)

-- the first three octets with their dots; `dots` is how many dots are still to come
coarse : ℕ → Text → Text
coarse dots [] = []
coarse zero s = []
coarse (suc dots) (c ∷ s) =
    let more = coarse (suc dots) s in
    let less = coarse dots s in c ∷ (if c == b'.' then less else more)

-- an address with fewer than three dots gives no hint
prefer_of : Text → Text
unfolding coarse
prefer_of s = if has_dots 3 s then coarse 3 s else []
  where
    has_dots : ℕ → Text → Bool
    has_dots zero s = true
    has_dots (suc n) [] = false
    has_dots (suc n) (c ∷ s) =
        let next = has_dots n s in let same = has_dots (suc n) s in if c == b'.' then next else same

keep_if : Bool → Text → List Text → List Text
keep_if b ip ips = if b then ip ∷ ips else ips

preferred : Text → List Text → List Text
unfolding keep_if
preferred p [] = []
preferred p (ip ∷ ips) = keep_if (not (text_eq p []) && has_prefix ip p) ip (preferred p ips)

others : Text → List Text → List Text
unfolding keep_if
others p [] = []
others p (ip ∷ ips) = keep_if (not (not (text_eq p []) && has_prefix ip p)) ip (others p ips)

-- `HostLANIPs`, of the addresses of the host, if they are known
unfoldable pub host_lan_ips : Option (List Text) → Text → List Text
unfolding prefer_of preferred others
host_lan_ips none dev_ip = []
host_lan_ips (some ips) dev_ip = preferred (prefer_of dev_ip) ips ++ others (prefer_of dev_ip) ips
