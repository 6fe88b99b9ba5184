-- ===== src/Scrollback.antt =====
-- internal/adb/scrollback.go, with `sanitize` of internal/adb/config.go: the log of a shell session.
-- One file is the bytes in it. What the system calls of an operation come to is an argument; the
-- buffered writer is that of Go's bufio.
pub mod Buffered
pub mod Kept
pub mod Names
mod Examples
use adbq.Prelude.{
  ℕ, ◌+◌, ◌-◌, ◌*◌, List, [], ◌∷◌, ◌++◌, Option, none, some, Bool, true, false, ◌&&◌, ◌||◌, not,
  if◌then◌else◌, ◌==◌, ltb, leb, length, take, drop, Text, codes, has_suffix,
}
use adbq.Strings.{cut_byte, trim_suffix}

abbrev pub scrollback_cap : ℕ
scrollback_cap = 262144

abbrev pub scrollback_buffer : ℕ
scrollback_buffer = 32768

abbrev pub trim_every : ℕ
trim_every = 65536

-- `disk` is the file and `is_open` tells whether the handle is; `broken` is bufio's sticky error
pub record CappedWriter : Type 0 where
  pub disk : Text
  pub is_open : Bool
  pub buffered : Text
  pub broken : Bool
  pub count : ℕ

-- a write of a file: all of it, or an error after so many bytes
pub record Faults : Type 0 where
  pub fill : Option ℕ
  pub direct : Option ℕ
  pub flush : Option ℕ
  pub stat : Bool
  pub read : Bool
  pub close : Bool
  pub reopen : Bool
  pub rewrite : Option ℕ

abbrev pub no_faults : Faults
no_faults = record {
  fill = none;
  direct = none;
  flush = none;
  stat = true;
  read = true;
  close = true;
  reopen = true;
  rewrite = none;
}

abbrev pub is_empty : Text → Bool
is_empty [] = true
is_empty (c ∷ s) = false

-- how many bytes of a text get onto the file, and whether that is all of them
abbrev pub accepted : Option ℕ → Bool → Text → Text × Bool
accepted o false p = ([], false)
accepted none true p = (p, true)
accepted (some n) true p = (take n p, false)

-- `Flush` of the buffered writer
flush_with : Text × Bool → CappedWriter → CappedWriter × Bool
flush_with (done, true) w = (record w { disk = w.disk ++ done; buffered = [] }, true)
flush_with (done, false) w = (
  record w { disk = w.disk ++ done; buffered = drop (length done) w.buffered; broken = true },
  false,
)

unfoldable pub flush_buffer : Option ℕ → CappedWriter → CappedWriter × Bool
unfolding flush_with
flush_buffer o w =
    if w.broken
    then (w, false)
    else if is_empty w.buffered
    then (w, true)
    else flush_with (accepted o w.is_open w.buffered) w

-- what the loop of `Write` does with a text that does not fit and an empty buffer
direct_with : Text × Bool → CappedWriter → CappedWriter × ℕ × Bool
direct_with (done, ok) w = (record w { disk = w.disk ++ done; broken = not ok }, length done, ok)

-- the end of `Write`: the text fits into the buffer, or the buffer is empty
put_rest : Faults → Text → CappedWriter → CappedWriter × ℕ × Bool
unfolding direct_with
put_rest faults p w =
    if leb (length p) (scrollback_buffer - length w.buffered)
    then (record w { buffered = w.buffered ++ p }, length p, true)
    else direct_with (accepted faults.direct w.is_open p) w

counted_more : ℕ → CappedWriter × ℕ × Bool → CappedWriter × ℕ × Bool
counted_more n (w, m, ok) = (w, n + m, ok)

-- after the buffer was filled up with the first bytes and flushed
after_fill : Faults → Text → ℕ → CappedWriter × Bool → CappedWriter × ℕ × Bool
unfolding put_rest counted_more
after_fill faults p n (w, true) = counted_more n (put_rest faults (drop n p) w)
after_fill faults p n (w, false) = (w, n, false)

-- `Write` of the buffered writer: how many bytes it took, and whether there was no error
unfoldable pub write_buffer : Faults → Text → CappedWriter → CappedWriter × ℕ × Bool
unfolding after_fill put_rest flush_buffer
write_buffer faults p w =
    let free = scrollback_buffer - length w.buffered in
    let filled = record w { buffered = w.buffered ++ take free p } in
    let slow = after_fill faults p free (flush_buffer faults.fill filled) in
    if w.broken
    then (w, 0, false)
    else if leb (length p) free || is_empty w.buffered
    then put_rest faults p w
    else slow

-- the last `n` bytes
unfoldable pub tail_of : ℕ → Text → Text
tail_of n s = if ltb n (length s) then drop (length s - n) s else s

-- the file is truncated and written again; the handle is the new one only if that went well
rewritten : Text × Bool → CappedWriter → CappedWriter
rewritten (done, true) w = record w { disk = done; is_open = true; buffered = []; broken = false }
rewritten (done, false) w = record w { disk = done; is_open = false }

after_flush : Faults → CappedWriter × Bool → CappedWriter
unfolding rewritten tail_of
after_flush faults (w, false) = w
after_flush faults (w, true) =
    if not faults.stat || ltb (length w.disk) (2 * scrollback_cap) || not faults.read
    then w
    else if not faults.close || not faults.reopen
    then record w { is_open = false }
    else rewritten (accepted faults.rewrite true (tail_of scrollback_cap w.disk)) w

-- `trim`, whose error nobody reads
unfoldable pub trim : Faults → CappedWriter → CappedWriter
unfolding after_flush
trim faults w = after_flush faults (flush_buffer faults.flush w)

after_write : Faults → CappedWriter × ℕ × Bool → CappedWriter × ℕ × Bool
unfolding trim
after_write faults (w, n, ok) =
    let count = w.count + n in
    if ltb trim_every count
    then (trim faults (record w { count = 0 }), n, ok)
    else (record w { count = count }, n, ok)

unfoldable pub write : Faults → Text → CappedWriter → CappedWriter × ℕ × Bool
unfolding after_write
write faults p w = after_write faults (write_buffer faults p w)

-- `Close`: what it flushes gets onto the file; the handle is closed in any case
unfoldable pub close_writer : Faults → CappedWriter → CappedWriter × Bool
close_writer faults w =
    let (w', ok) = flush_buffer faults.flush w in
    (record w' { is_open = false }, ok && faults.close)

-- `OpenScrollbackWriter` on a file with these bytes
unfoldable pub open_writer : Text → CappedWriter
open_writer old = record { disk = old; is_open = true; buffered = []; broken = false; count = 0 }

-- `ReadScrollback`: a missing file reads as no bytes
unfoldable pub read_scrollback : Option Text → Text
read_scrollback none = []
read_scrollback (some b) = tail_of scrollback_cap b

is_kept_byte : ℕ → Bool
is_kept_byte c =
    (leb b'a' c && leb c b'z')
    || ((leb b'A' c && leb c b'Z') || ((leb b'0' c && leb c b'9') || (c == b'-' || c == b'_')))

unfoldable pub sanitize : Text → Text
unfolding is_kept_byte
sanitize [] = []
sanitize (c ∷ s) = (if is_kept_byte c then c else b'_') ∷ sanitize s

-- the name of the file in `ScrollbackPath`
unfoldable pub scrollback_name : Text → Text → Text
scrollback_name serial label = sanitize serial ++ (b'-' ∷ (sanitize label ++ codes ".log"))

serial_and_label : Text → Option (Text × Text) → Text × Text
serial_and_label name none = (name, [])
serial_and_label name (some (serial, label)) = (serial, label)

-- what `ListScrollbacks` reads from a file's name, if it lists the file
unfoldable pub listed : Text → Option (Text × Text)
unfolding serial_and_label
listed name =
    if has_suffix name (codes ".log")
    then some (
        serial_and_label (trim_suffix name (codes ".log"))
          (cut_byte b'-' (trim_suffix name (codes ".log"))))
    else none
