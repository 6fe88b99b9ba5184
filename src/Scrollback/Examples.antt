-- ===== src/Scrollback/Examples.antt =====
-- The theorems on the log of a session, at small logs.
use adbq.Prelude.{◌+◌, ◌*◌, ◌<◌, ◌≡◌, arith, List, [], ◌∷◌, ◌++◌, some, length, Text, codes}
use adbq.Scrollback.{
  scrollback_cap, trim_every, tail_of, read_scrollback, sanitize, scrollback_name, listed,
}
use adbq.Scrollback.Kept.{printed, log_of, read_scrollback-write_all}
use adbq.Scrollback.Names.{listed-scrollback_name}

abbrev echoed : List Text
echoed = codes "$ ls\n" ∷ codes "sdcard\n" ∷ []

read_scrollback-write_all_example :
    (read_scrollback (some (log_of (codes "old\n") echoed))
      ≡ tail_of scrollback_cap (codes "old\n" ++ printed echoed))
    × (length (log_of (codes "old\n") echoed) < 2 * scrollback_cap + trim_every)
read_scrollback-write_all_example = read_scrollback-write_all (codes "old\n") echoed (omega arith)

listed-scrollback_name_example :
    (listed (scrollback_name (codes "emulator") (codes "shell 1"))
      ≡ some (sanitize (codes "emulator"), sanitize (codes "shell 1")))
    × (listed (scrollback_name (codes "emulator-5554") (codes "shell 1"))
        ≡ some (
          sanitize (codes "emulator"),
          sanitize (codes "5554") ++ b'-' ∷ sanitize (codes "shell 1"),
        ))
listed-scrollback_name_example =
    listed-scrollback_name (codes "emulator") (codes "5554") (codes "shell 1") (omega arith)
