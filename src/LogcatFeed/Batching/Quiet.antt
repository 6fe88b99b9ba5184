-- ===== src/LogcatFeed/Batching/Quiet.antt =====
-- A feed that is quiet.
use adbq.Prelude.{◌≡◌, ◌∙◌, List, [], ◌∷◌, ◌++◌, true}
use adbq.Dict.{Dict}
use adbq.LogcatFeed.{LogEntry, Feed, FeedEvent, set_quiet, say, own_entry}

-- the switch is not turned
abbrev pub StaysQuiet : List FeedEvent → Type 0
StaysQuiet [] = Unit
StaysQuiet (set_quiet v ∷ evs) = (v ≡ true) × StaysQuiet evs
StaysQuiet (ev ∷ evs) = StaysQuiet evs

record Silent (f g : Feed) : Type 0 where
  out : g.out ≡ f.out
  quiet : g.quiet ≡ true

then_Silent : (f g h : Feed) → Silent f g → Silent g h → Silent f h
then_Silent f g h a b = record { out = b.out ∙ a.out; quiet = b.quiet }

-- what the feed emits of its own, without the batch
abbrev pub said_by : FeedEvent → List (List LogEntry)
said_by (say level msg) = (own_entry level msg ∷ []) ∷ []
said_by ev = []

abbrev pub own_said : List FeedEvent → List (List LogEntry)
own_said [] = []
own_said (ev ∷ evs) = said_by ev ++ own_said evs

record Said (f g : Feed) (batches : List (List LogEntry)) : Type 0 where
  out : g.out ≡ f.out ++ batches
  quiet : g.quiet ≡ true
