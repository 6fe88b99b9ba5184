-- ===== src/Network/Lookup.antt =====
-- `DNSLookup` of internal/adb/network.go with the reads that it combines, and `safeHost`, which lets a
-- name into their commands.
use adbq.Prelude.{
  ℕ, List, [], ◌∷◌, ◌++◌, Option, none, some, Bool, true, false, ◌&&◌, ◌||◌, if◌then◌else◌, ◌==◌,
  leb, Text, codes, text_eq, has_prefix, drop, length, join,
}
use adbq.Strings.{trim_space, trim_right_by, split, fields, to_lower, contains}
use adbq.Network.{first_n_lines}

unfoldable pub is_host_byte : ℕ → Bool
is_host_byte c =
    (leb b'a' c && leb c b'z')
    || ((leb b'A' c && leb c b'Z')
        || ((leb b'0' c && leb c b'9') || (c == b'.' || (c == b'-' || (c == b'_' || c == b':')))))

unfoldable pub safe_host : Text → Text
unfolding is_host_byte
safe_host [] = []
safe_host (c ∷ s) = let rest = safe_host s in if is_host_byte c then c ∷ rest else rest

unfoldable pub hosts_cat_remote : Text
hosts_cat_remote =
    codes "for f in /system/etc/hosts /etc/hosts; do "
    ++ (codes "  r=$(readlink -f \"$f\" 2>/dev/null || echo \"$f\"); "
        ++ (codes "  [ -r \"$r\" ] && { echo \"@@FILE@@ $r\"; cat \"$r\"; }; "
            ++ codes "done 2>/dev/null"))

unfoldable pub ping_remote : Text → Text
ping_remote q = codes "ping -c 1 -W 2 " ++ (q ++ codes " 2>&1")

unfoldable pub nslookup_remote : Text → Text
nslookup_remote q = codes "command -v nslookup >/dev/null 2>&1 && nslookup " ++ (q ++ codes " 2>&1")

unfoldable pub commands_of : Text → (Text → Bool → Text) → List Text
commands_of [] render = []
commands_of (c ∷ q) render =
    render hosts_cat_remote false
    ∷ render (ping_remote (c ∷ q)) false
    ∷ render (nslookup_remote (c ∷ q)) false
    ∷ []

unfoldable pub dns_lookup_commands : Text → (Text → Bool → Text) → List Text
unfolding commands_of
dns_lookup_commands host render = commands_of (safe_host host) render

-- the names of a row up to a comment: whether the host is one of them
names_host : Text → List Text → Bool
names_host host [] = false
names_host host (name ∷ names) =
    let rest = names_host host names in
    if has_prefix name (codes "#")
    then false
    else if text_eq (to_lower name) host
    then true
    else rest

match_row : Text → Text → List Text → List Text
unfolding names_host
match_row host file (ip ∷ name ∷ names) =
    if names_host host (name ∷ names) then (ip ++ (codes "  (" ++ (file ++ codes ")"))) ∷ [] else []
match_row host file few = []

file_mark : Text
file_mark = codes "@@FILE@@ "

-- the rows of the files, each after the line with its name
match_lines : Text → Text → List Text → List Text
unfolding match_row file_mark
match_lines host file [] = []
match_lines host file (raw ∷ raws) =
    let t = trim_space (trim_right_by (λ c. c == b'\r') raw) in
    let named = match_lines host (trim_space (drop (length file_mark) t)) raws in
    let rest = match_lines host file raws in
    if text_eq t []
    then rest
    else if has_prefix t file_mark
    then named
    else if has_prefix t (codes "#")
    then rest
    else match_row host file (fields t) ++ rest

unfoldable pub match_hosts_lines : Text → Text → Text
unfolding match_lines
match_hosts_lines out host =
    join (match_lines (to_lower (trim_space host)) [] (split b'\n' out)) (codes "\n")

-- a section of the answer, if there is something to say
titled : Text → Text → List Text
titled title [] = []
titled title (c ∷ body) = (title ++ c ∷ body) ∷ []

hosts_section : Text → Option Text → List Text
unfolding titled
hosts_section host none = []
hosts_section host (some out) = titled (codes "hosts file:\n") (match_hosts_lines out host)

ping_section : Option Text → List Text
unfolding titled
ping_section none = []
ping_section (some out) =
    titled (codes "ping (bionic resolver):\n") (trim_space (first_n_lines out 2))

nslookup_section : Option Text → List Text
unfolding titled
nslookup_section none = []
nslookup_section (some out) =
    let t = trim_space (first_n_lines out 10) in
    if contains t (codes "not found")
    then []
    else titled (codes "nslookup (DNS only, ignores hosts):\n") t

-- "—" in UTF-8
abbrev no_answer : Text
no_answer = codes "no resolver responded " ++ (226 ∷ 128 ∷ 148 ∷ codes " device may be offline")

or_no_answer : List Text → Text
or_no_answer [] = no_answer
or_no_answer (s ∷ ss) = join (s ∷ ss) (codes "\n\n")

module _ {D : Type 0} (shell : Text → D → Option Text × D) where
  lookup_of : Text → Text → D → Text × D
  unfolding hosts_section ping_section nslookup_section or_no_answer
  lookup_of host [] d = ([], d)
  lookup_of host (c ∷ q) d =
      let (hosts, d1) = shell hosts_cat_remote d in
      let (ping, d2) = shell (ping_remote (c ∷ q)) d1 in
      let (ns, d3) = shell (nslookup_remote (c ∷ q)) d2 in
      (or_no_answer (hosts_section host hosts ++ (ping_section ping ++ nslookup_section ns)), d3)

  unfoldable pub dns_lookup : Text → D → Text × D
  unfolding lookup_of
  dns_lookup host d = lookup_of host (safe_host host) d
