-- ===== src/Devices/Rows.antt =====
-- A row of the list that adb prints, and the device that is read from it.
use adbq.Prelude.{
  ℕ, zero, suc, ◌≡◌, ◌≢◌, refl, ap, ◌∙◌, arith, List, [], ◌∷◌, ◌++◌, append-nil, Option, none, some,
  Bool, true, false, inl, inr, Bool-cases, Text, Lacks, replicate, reverse, codes, text_eq,
  text_eq_iff, has_prefix, replace_byte, join, map,
}
use mathlib.Core.Path.{subst}
use adbq.Strings.{trim_space, cut_byte, fields}
use adbq.Strings.Fields.{NoSpace, IsWord, AllWords, fields-join, fields-word, fields-spaces}
use adbq.Strings.Cut.{cut_byte-append}
use adbq.Strings.Lines.{OneLine, OneLine-append, OneLine-join, IsWord-NoSpace}
use adbq.Strings.Trim.{Starts, Ends, Starts-word, Ends-append, back-Starts, trim_space-Ends}
use adbq.Devices.{
  Device, no_device, via_of, set_field, with_pair, with_pairs, labelled, first_of, device_of_fields,
  device_line,
}

-- What stands in a line of a listing: the id, blanks up to the next column, and the words behind it, of
-- which `others` are those that are not read, such as the USB port.
pub record Listed : Type 0 where
  pub id : Text
  pub pad : ℕ
  pub state : Text
  pub others : List (Text × Text)
  pub product : Option Text
  pub model : Option Text
  pub code_name : Option Text
  pub transport : Text

-- a word `label:value` if there is a value
abbrev pub labelled_word : Text → Option Text → List Text
labelled_word label none = []
labelled_word label (some v) = (label ++ v) ∷ []

abbrev pub other_word : Text × Text → Text
other_word (label, v) = label ++ b':' ∷ v

abbrev pub behind_id : Listed → List Text
behind_id e =
    e.state
    ∷ (map other_word e.others
        ++ (labelled_word (codes "product:") e.product
            ++ (labelled_word (codes "model:") e.model
                ++ (labelled_word (codes "device:") e.code_name
                    ++ (codes "transport_id:" ++ e.transport) ∷ []))))

abbrev pub words_of : Listed → List Text
words_of e = e.id ∷ behind_id e

unfoldable pub line_of : Listed → Text
unfolding join
line_of e = e.id ++ b' ' ∷ (replicate e.pad b' ' ++ join (behind_id e) (codes " "))

-- the labels are none of those that are read
abbrev pub AllOther : List (Text × Text) → Type 0
AllOther [] = Unit
AllOther ((label, v) ∷ ws) =
    Lacks b':' label
    × (label ≢ codes "product")
    × (label ≢ codes "model")
    × (label ≢ codes "transport_id")
    × AllOther ws

-- words without white space, and an id that no line of the listing's own starts with
abbrev pub WellListed : Listed → Type 0
WellListed e =
    AllWords (words_of e) × AllOther e.others × (e.id ≢ codes "List") × (e.id ≢ codes "*")

abbrev pub or_empty : Option Text → Text
or_empty none = []
or_empty (some t) = t

pub device_of : Listed → Device
unfolding via_of first_of
device_of e =
    let shown = replace_byte b'_' (codes " ") (or_empty e.model) in
    record no_device {
      id = e.id;
      state = e.state;
      online = text_eq e.state (codes "device");
      via = via_of e.id;
      transport = codes "transport_id:" ++ e.transport;
      label = first_of shown e.id;
      model = shown;
      product = or_empty e.product;
    }

-- two words in front of a blank are the same if one is the start of the other's line
prefix_word :
    (w q rest p : Text)
    → NoSpace w
    → NoSpace q
    → has_prefix (w ++ b' ' ∷ rest) (q ++ b' ' ∷ p) ≡ true
    → w ≡ q
unfolding has_prefix
prefix_word [] [] rest p hw hq h = refl
prefix_word [] (d ∷ q) rest p hw (hd, hq) h = ground arith
prefix_word (c ∷ w) [] rest p (hc, hw) hq h = ground arith
prefix_word (c ∷ w) (d ∷ q) rest p (hc, hw) (hd, hq) h =
    let same : c ≡ d = ground arith in
    let tails : w ≡ q = prefix_word w q rest p hw hq (ground arith) in cc

no_prefix :
    (w rest q p : Text)
    → NoSpace w
    → NoSpace q
    → w ≢ q
    → has_prefix (w ++ b' ' ∷ rest) (q ++ b' ' ∷ p) ≡ false
no_prefix w rest q p hw hq ne = elim (Bool-cases (has_prefix (w ++ b' ' ∷ rest) (q ++ b' ' ∷ p))) [
  | inl e ↦ absurd (ne (prefix_word w q rest p hw hq e))
  | inr e ↦ e
]

not_blank : (s : Text) → Starts s → text_eq s [] ≡ false
unfolding text_eq
not_blank [] h = absurd h
not_blank (c ∷ s) h = refl

set_field-other :
    (k v : Text) (d : Device)
    → k ≢ codes "product"
    → k ≢ codes "model"
    → k ≢ codes "transport_id"
    → set_field k v d ≡ d
unfolding set_field
set_field-other k v d np nm nt =
    let p : text_eq k (codes "product") ≡ false = ground (arith, text_eq_iff k (codes "product")) in
    let m : text_eq k (codes "model") ≡ false = ground (arith, text_eq_iff k (codes "model")) in
    let t : text_eq k (codes "transport_id") ≡ false =
      ground (arith, text_eq_iff k (codes "transport_id")) in
    rw (p, m, t) refl

with_pair-other :
    (k v : Text) (d : Device)
    → k ≢ codes "product"
    → k ≢ codes "model"
    → k ≢ codes "transport_id"
    → with_pair (some (k, v)) d ≡ d
unfolding with_pair
with_pair-other [] v d np nm nt = refl
with_pair-other (c ∷ k) v d np nm nt = set_field-other (c ∷ k) v d np nm nt

with_pairs-others :
    (os : List (Text × Text)) (kvs : List Text) (d : Device)
    → AllOther os
    → with_pairs (map other_word os ++ kvs) d ≡ with_pairs kvs d
unfolding with_pairs
with_pairs-others [] kvs d h = refl
with_pairs-others ((k, v) ∷ os) kvs d (lacks, np, nm, nt, h) =
    ap (with_pairs (map other_word os ++ kvs))
      (ap (λ o. with_pair o d) (cut_byte-append b':' k v lacks) ∙ with_pair-other k v d np nm nt)
    ∙ with_pairs-others os kvs d h

-- the words that are read, which may be left out
with_pairs-read :
    (product model code_name : Option Text) (transport id state via : Text) (online : Bool)
    → let d = record no_device { id = id; state = state; online = online; via = via } in
      with_pairs
        (labelled_word (codes "product:") product
          ++ (labelled_word (codes "model:") model
              ++ (labelled_word (codes "device:") code_name
                  ++ (codes "transport_id:" ++ transport) ∷ [])))
        d
      ≡ record d {
        product = or_empty product;
        model = replace_byte b'_' (codes " ") (or_empty model);
        transport = codes "transport_id:" ++ transport;
      }
unfolding with_pairs with_pair set_field cut_byte text_eq replace_byte
with_pairs-read none none none t i s via o = refl
with_pairs-read none none (some c) t i s via o = refl
with_pairs-read none (some x) none t i s via o = refl
with_pairs-read none (some x) (some c) t i s via o = refl
with_pairs-read (some q) none none t i s via o = refl
with_pairs-read (some q) none (some c) t i s via o = refl
with_pairs-read (some q) (some x) none t i s via o = refl
with_pairs-read (some q) (some x) (some c) t i s via o = refl

device_of_fields-words_of :
    (e : Listed) → AllOther e.others → device_of_fields (words_of e) ≡ device_of e ∷ []
unfolding device_of_fields device_of labelled
device_of_fields-words_of e others =
    let d0 = record no_device {
      id = e.id;
      state = e.state;
      online = text_eq e.state (codes "device");
      via = via_of e.id;
    } in
    rw
      (
        with_pairs-others e.others _ d0 others,
        with_pairs-read e.product e.model e.code_name e.transport e.id e.state (via_of e.id)
            (text_eq e.state (codes "device")),
      )
      refl

line_start : (e : Listed) → IsWord e.id → Starts (line_of e)
unfolding line_of
line_start e h = Starts-word e.id _ h

line_end : (e : Listed) → AllWords (words_of e) → Ends (line_of e)
unfolding line_of
line_end e (hid, h) =
    let row = join (behind_id e) (codes " ") in
    Ends-append e.id (b' ' ∷ (replicate e.pad b' ' ++ row)) (
      Ends-append (b' ' ∷ replicate e.pad b' ') row
        (subst Starts (append-nil (reverse row)) (back-Starts e.state _ [] h)))

fields-line_of : (e : Listed) → AllWords (words_of e) → fields (line_of e) ≡ words_of e
unfolding line_of
fields-line_of e (hid, h) =
    fields-word e.id _ hid
    ∙ ap (λ ws. e.id ∷ ws)
        (fields-spaces e.pad (join (behind_id e) (codes " ")) ∙ fields-join (behind_id e) h)

pub device_line-line_of :
    (e : Listed) → WellListed e → device_line (trim_space (line_of e)) ≡ device_of e ∷ []
device_line-line_of e (words, others, not_list, not_star) =
    let id_word = IsWord-NoSpace e.id words.0 in
    let row = replicate e.pad b' ' ++ join (behind_id e) (codes " ") in
    let no_list : has_prefix (line_of e) (codes "List of devices") ≡ false =
      (unfold line_of in
        no_prefix e.id row (codes "List") (codes "of devices") id_word (ground arith) not_list) in
    let no_star : has_prefix (line_of e) (codes "* ") ≡ false =
      (unfold line_of in no_prefix e.id row (codes "*") [] id_word (ground arith) not_star) in
    ap device_line (trim_space-Ends (line_of e) (line_start e words.0) (line_end e words))
    ∙ (unfold device_line in
        rw (not_blank (line_of e) (line_start e words.0), no_list, no_star, fields-line_of e words)
          (device_of_fields-words_of e others))

spaces-OneLine : (n : ℕ) (s : Text) → OneLine s → OneLine (replicate n b' ' ++ s)
spaces-OneLine zero s h = h
spaces-OneLine (suc n) s h = (ground arith, spaces-OneLine n s h)

pub line-OneLine : (e : Listed) → AllWords (words_of e) → OneLine (line_of e)
unfolding line_of
line-OneLine e (hid, h) =
    OneLine-append e.id _ (IsWord-NoSpace e.id hid)
      (ground arith, spaces-OneLine e.pad _ (OneLine-join (behind_id e) h))
