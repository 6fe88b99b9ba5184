-- ===== src/CommandText/RoundTrip.antt =====
-- A shell reads a rendered line back as the arguments that it was rendered from.
use adbq.Prelude.{
  ℕ, ◌≡◌, refl, arith, List, [], ◌∷◌, ◌++◌, map, append-nil, append_assoc, Option, none, some, true,
  false, ◌==◌, Text, codes, inl, inr, Bool-cases, has_byte, contains_any, join, replace_byte,
  covered, has_byte-covered, contains_any-cons,
}
use adbq.CommandText.Shell.{
  Mode, Reader, blanks, active, grown, closed, step_in, step, read, shell_words, assigns, reserved,
  shell_command,
}
use adbq.CommandText.{
  mangled, broken_quote, single_quoted, sh_quote, quote_arg, host_command_text, device_command_text,
  shell_command_text, plain_renderer,
}
use adbq.CommandText.Simple.{line-simple}

abbrev pub Out : Option Text → List Text → Reader
Out w ws = record { mode = Mode.outside; word = w; words = ws }

abbrev In : Text → List Text → Reader
In w ws = record { mode = Mode.quoted; word = some w; words = ws }

-- a byte that is not mangled goes into the word as it is
step-plain :
    (c : ℕ) (w : Option Text) (ws : List Text)
    → has_byte mangled c ≡ false
    → step (Out w ws) c ≡ Out (some (grown w (c ∷ []))) ws
unfolding step step_in
step-plain c w ws h =
    let b = has_byte-covered blanks mangled c (unfold covered in refl) h in
    let a = has_byte-covered active mangled c (unfold covered in refl) h in
    let q = has_byte-covered (b'\'' ∷ []) mangled c (unfold covered in refl) h in
    let e = has_byte-covered (b'\\' ∷ []) mangled c (unfold covered in refl) h in
    unfold has_byte in ground (arith, b, a, q, e)

read-cons : (r : Reader) (c : ℕ) (s : Text) → read r (c ∷ s) ≡ read (step r c) s
unfolding read
read-cons r c s = refl

read-nil : (r : Reader) → read r [] ≡ r
unfolding read
read-nil r = refl

read-append : (r : Reader) (s t : Text) → read r (s ++ t) ≡ read (read r s) t
unfolding read
read-append r [] t = refl
read-append r (c ∷ s) t = read-append (step r c) s t

-- a bare argument is read as one word
read-plain :
    (s : Text) (w : Text) (ws : List Text)
    → contains_any s mangled ≡ false
    → read (Out (some w) ws) s ≡ Out (some (w ++ s)) ws
read-plain [] w ws h = rw (read-nil, append-nil)
read-plain (c ∷ s) w ws h =
    let (plain_c, plain_s) = contains_any-cons c s mangled h in
    rw (
      read-cons,
      step-plain c (some w) ws plain_c,
      read-plain s (w ++ c ∷ []) ws plain_s,
      append_assoc,
    )

step-in :
    (c : ℕ) (w : Text) (ws : List Text)
    → (c == b'\'') ≡ false
    → step (In w ws) c ≡ In (w ++ c ∷ []) ws
unfolding step step_in
step-in c w ws h = rw h

-- the way out of the quotes and back in again
read-broken_quote :
    (w : Text) (ws : List Text) → read (In w ws) broken_quote ≡ In (w ++ b'\'' ∷ []) ws
unfolding read step step_in has_byte
read-broken_quote w ws = rw append-nil

read-replaced :
    (s w : Text) (ws : List Text)
    → read (In w ws) (replace_byte b'\'' broken_quote s) ≡ In (w ++ s) ws
unfolding replace_byte
read-replaced [] w ws = rw (read-nil, append-nil)
read-replaced (c ∷ s) w ws = elim (Bool-cases (c == b'\'')) [
  | inl e ↦
      let same : c ≡ b'\'' = ground arith in
      rw (
        e,
        read-append,
        read-broken_quote w ws,
        read-replaced s (w ++ b'\'' ∷ []) ws,
        append_assoc,
        same,
      )
  | inr ne ↦ rw (ne, read-cons, step-in c w ws ne, read-replaced s (w ++ c ∷ []) ws, append_assoc)
]

read-single_quoted :
    (s : Text) (ws : List Text) → read (Out none ws) (single_quoted s) ≡ Out (some s) ws
unfolding single_quoted
read-single_quoted s ws =
    unfold read step step_in has_byte in
    rw (
      read-append (In [] ws) (replace_byte b'\'' broken_quote s) (b'\'' ∷ []),
      read-replaced s [] ws,
    )

pub read-sh_quote : (s : Text) (ws : List Text) → read (Out none ws) (sh_quote s) ≡ Out (some s) ws
unfolding sh_quote
read-sh_quote s ws = read-single_quoted s ws

-- a bare word
pub read-bare :
    (c : ℕ) (s : Text) (ws : List Text)
    → contains_any (c ∷ s) mangled ≡ false
    → read (Out none ws) (c ∷ s) ≡ Out (some (c ∷ s)) ws
read-bare c s ws ne =
    let (plain_c, plain_s) = contains_any-cons c s mangled ne in
    rw (read-cons, step-plain c none ws plain_c, read-plain s (c ∷ []) ws plain_s)

read-quote_arg : (s : Text) (ws : List Text) → read (Out none ws) (quote_arg s) ≡ Out (some s) ws
unfolding quote_arg
read-quote_arg [] ws = unfold read step step_in has_byte in refl
read-quote_arg (c ∷ s) ws = elim (Bool-cases (contains_any (c ∷ s) mangled)) [
  | inl e ↦ rw e (read-single_quoted (c ∷ s) ws)
  | inr ne ↦ rw (ne, read-bare c s ws ne)
]

read-space :
    (w : Text) (ws : List Text) (s : Text)
    → read (Out (some w) ws) (b' ' ∷ s) ≡ read (Out none (ws ++ w ∷ [])) s
read-space w ws s = rw read-cons (unfold step step_in has_byte in refl)

-- the quoted words of a line, joined by spaces, are read one after the other
read-joined :
    (a : Text) (args : List Text) (ws : List Text)
    → let r = read (Out none ws) (join (map quote_arg (a ∷ args)) (codes " ")) in
      (r.mode ≡ Mode.outside) × (closed r.word r.words ≡ ws ++ a ∷ args)
unfolding join
read-joined a [] ws = rw (read-quote_arg a ws) (refl, refl)
read-joined a (b ∷ args) ws =
    rw (read-append, read-quote_arg a ws, read-space, ← append_assoc ws (a ∷ []) (b ∷ args))
      (read-joined b args (ws ++ a ∷ []))

shell_words-quoted :
    (bin : Text) (args : List Text) → shell_words (host_command_text bin args) ≡ some (bin ∷ args)
unfolding shell_words host_command_text
shell_words-quoted bin args = let (out, all) = read-joined bin args [] in rw (out, all)

-- What `HostCommandText` renders is for a shell a simple command that runs the program with the arguments as
-- they were given, whatever bytes these and the program's name hold, unless the name begins as an
-- assignment (letters, digits or underscores and then an equals sign) or is a reserved word.
pub shell_words-host_command_text :
    (bin : Text) (args : List Text)
    → assigns bin ≡ false
    → reserved bin ≡ false
    → shell_command (host_command_text bin args) ≡ some (bin ∷ args)
unfolding shell_command
shell_words-host_command_text bin args a r =
    rw (line-simple bin args a r) (shell_words-quoted bin args)

-- the arguments of `adb`: `-s` and the serial stand in front if there is a serial
abbrev pub device_argv : Text → List Text → List Text
device_argv [] args = codes "adb" ∷ args
device_argv (c ∷ s) args = codes "adb" ∷ codes "-s" ∷ (c ∷ s) ∷ args

device_parts :
    (serial : Text) (args : List Text)
    → device_command_text serial args ≡ join (map quote_arg (device_argv serial args)) (codes " ")
unfolding device_command_text quote_arg has_byte
device_parts [] args = refl
device_parts (c ∷ s) args = refl

-- `DeviceCommandText` hands `adb` the serial, if there is one, and the arguments as they are.
pub shell_words-device_command_text :
    (serial : Text) (args : List Text)
    → shell_words (device_command_text serial args) ≡ some (device_argv serial args)
unfolding shell_words
shell_words-device_command_text [] args =
    let (out, all) = read-joined (codes "adb") args [] in rw (device_parts, out, all)
shell_words-device_command_text (c ∷ s) args =
    let (out, all) = read-joined (codes "adb") (codes "-s" ∷ (c ∷ s) ∷ args) [] in
    rw (device_parts, out, all)

su_words :
    (remote : Text)
    → shell_words (codes "su -c " ++ sh_quote remote) ≡ some (codes "su" ∷ codes "-c" ∷ remote ∷ [])
unfolding shell_words sh_quote
su_words remote = rw (read-single_quoted remote (codes "su" ∷ codes "-c" ∷ []))

pub sh_quote_lem :
    (s : Text) → sh_quote s ≡ b'\'' ∷ (replace_byte b'\'' broken_quote s ++ b'\'' ∷ [])
unfolding sh_quote single_quoted
sh_quote_lem s = refl

pub shell_words-printf :
    (s : Text)
    → shell_words (codes "printf '%s' " ++ sh_quote s) ≡ some (codes "printf" ∷ codes "%s" ∷ s ∷ [])
unfolding shell_words sh_quote
shell_words-printf s = rw (read-single_quoted s (codes "printf" ∷ codes "%s" ∷ []))

-- A rendered root command survives both shells: the host's hands `adb shell` one argument, and the
-- device's reads that argument as `su -c` and the remote command, untouched.
pub shell_words-plain_renderer :
    (serial remote : Text)
    → (line : Text) × (shell_words (plain_renderer serial remote true)
        ≡ some (device_argv serial (codes "shell" ∷ line ∷ [])))
      × (shell_words line ≡ some (codes "su" ∷ codes "-c" ∷ remote ∷ []))
unfolding plain_renderer shell_command_text
shell_words-plain_renderer serial remote =
    (codes "su -c " ++ sh_quote remote, shell_words-device_command_text serial _, su_words remote)
