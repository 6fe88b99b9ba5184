-- ===== src/Network/Gateway.antt =====
-- `parseProcRouteGateway` and `hexLEToIPv4` of internal/adb/network.go: the default gateway from
-- /proc/net/route, where an address is a little-endian hex word.
use adbq.Prelude.{
  ℕ, ◌+◌, ◌-◌, ◌*◌, ◌/◌, ◌%◌, ◌<◌, ◌≡◌, refl, ap, ◌∙◌, arith, List, [], ◌∷◌, ◌++◌, Option, none,
  some, false, not, ◌||◌, if◌then◌else◌, ◌==◌, ltb, Text, codes, text_eq,
}
use adbq.Prelude.Int.{ℤ, pos, negsuc}
use adbq.Decimal.{decimal}
use adbq.Strings.{split, fields}
use adbq.Track.{hex_value}

minus : ℕ → ℤ
minus ℕ.zero = pos ℕ.zero
minus (ℕ.suc n) = negsuc n

whole_byte : Option ℕ → Option ℕ → Option ℤ
whole_byte (some h) (some l) = some (pos (h * 16 + l))
whole_byte h l = none

signed_digit : (ℕ → ℤ) → Option ℕ → Option ℤ
signed_digit sign none = none
signed_digit sign (some l) = some (sign l)

-- `strconv.ParseInt` in base 16 of two bytes, the first of which may be a sign
unfoldable pub parse_hex_byte : ℕ → ℕ → Option ℤ
unfolding minus whole_byte signed_digit
parse_hex_byte a b =
    if a == b'-'
    then signed_digit minus (hex_value b)
    else if a == b'+'
    then signed_digit pos (hex_value b)
    else whole_byte (hex_value a) (hex_value b)

-- `strconv.FormatInt`
format_int : ℤ → Text
format_int (pos n) = decimal n
format_int (negsuc n) = b'-' ∷ decimal (n + 1)

dotted : Option ℤ → Option ℤ → Option ℤ → Option ℤ → Text
unfolding format_int
dotted (some a) (some b) (some c) (some d) =
    format_int d ++ (b'.' ∷ (format_int c ++ (b'.' ∷ (format_int b ++ (b'.' ∷ format_int a)))))
dotted a b c d = []

unfoldable pub hex_le_to_ipv4 : Text → Text
unfolding dotted
hex_le_to_ipv4 (a ∷ b ∷ c ∷ d ∷ e ∷ f ∷ g ∷ h ∷ []) =
    dotted (parse_hex_byte a b) (parse_hex_byte c d) (parse_hex_byte e f) (parse_hex_byte g h)
hex_le_to_ipv4 s = []

-- what a row says: the gateway, or nothing
row_gateway : List Text → Text
row_gateway (iface ∷ dest ∷ gw ∷ more) =
    if text_eq iface (codes "Iface") || not (text_eq dest (codes "00000000"))
    then []
    else if text_eq (hex_le_to_ipv4 gw) (codes "0.0.0.0")
    then []
    else hex_le_to_ipv4 gw
row_gateway few = []

or_next : Text → Text → Text
or_next [] t = t
or_next (c ∷ s) t = c ∷ s

unfoldable pub first_gateway : List Text → Text
unfolding row_gateway or_next
first_gateway [] = []
first_gateway (ln ∷ lns) = or_next (row_gateway (fields ln)) (first_gateway lns)

unfoldable pub parse_proc_route_gateway : Text → Text
parse_proc_route_gateway out = first_gateway (split b'\n' out)

-- how the kernel prints an address, in upper case, the last octet first
abbrev pub upper_digit : ℕ → ℕ
upper_digit n = if ltb n 10 then b'0' + n else b'A' + n - 10

abbrev pub hex_byte : ℕ → Text → Text
hex_byte n s = upper_digit (n / 16) ∷ upper_digit (n % 16) ∷ s

abbrev pub hex_le : ℕ → ℕ → ℕ → ℕ → Text
hex_le a b c d = hex_byte d (hex_byte c (hex_byte b (hex_byte a [])))

abbrev pub ipv4_text : ℕ → ℕ → ℕ → ℕ → Text
ipv4_text a b c d = decimal a ++ (b'.' ∷ (decimal b ++ (b'.' ∷ (decimal c ++ (b'.' ∷ decimal d)))))

hex_value-upper_digit : (n : ℕ) → n < 16 → hex_value (upper_digit n) ≡ some n
unfolding hex_value
hex_value-upper_digit n lt = ground arith

no_sign :
    (n m : ℕ)
    → n < 16
    → m < 16
    → parse_hex_byte (upper_digit n) (upper_digit m) ≡ some (pos (n * 16 + m))
unfolding parse_hex_byte whole_byte
no_sign n m ln lm =
    let minus_no : (upper_digit n == b'-') ≡ false = ground arith in
    let plus_no : (upper_digit n == b'+') ≡ false = ground arith in
    rw (minus_no, plus_no, hex_value-upper_digit n ln, hex_value-upper_digit m lm) refl

parse_hex_byte-hex :
    (n : ℕ) → n < 256 → parse_hex_byte (upper_digit (n / 16)) (upper_digit (n % 16)) ≡ some (pos n)
parse_hex_byte-hex n lt =
    no_sign (n / 16) (n % 16) (omega arith) (omega arith) ∙ ap (λ m. some (pos m)) (omega arith)

-- An address of the routing table is read as the address that the kernel printed: the word that has the
-- octets in hex, last octet first, gives the four octets in decimal with dots, first octet first.
pub hex_le_to_ipv4-hex_le :
    (a b c d : ℕ)
    → a < 256
    → b < 256
    → c < 256
    → d < 256
    → hex_le_to_ipv4 (hex_le a b c d) ≡ ipv4_text a b c d
unfolding hex_le_to_ipv4 dotted format_int
hex_le_to_ipv4-hex_le a b c d la lb lc ld =
    rw
      (
        parse_hex_byte-hex a la,
        parse_hex_byte-hex b lb,
        parse_hex_byte-hex c lc,
        parse_hex_byte-hex d ld,
      )
      refl
