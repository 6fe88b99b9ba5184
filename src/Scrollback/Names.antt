-- ===== src/Scrollback/Names.antt =====
-- What a log's name says of the session, when it is listed.
use adbq.Prelude.{
  ◌≡◌, ◌≢◌, refl, sym, ap, ◌∙◌, arith, [], ◌∷◌, ◌++◌, append_assoc, some, if◌then◌else◌, if_both,
  Text, codes, has_suffix-append, Lacks,
}
use adbq.Strings.Cut.{cut_byte-append, trim_suffix-append}
use adbq.Scrollback.{is_kept_byte, sanitize, scrollback_name, serial_and_label, listed}

sanitize-append : (s t : Text) → sanitize (s ++ t) ≡ sanitize s ++ sanitize t
unfolding sanitize
sanitize-append [] t = refl
sanitize-append (c ∷ s) t = ap (λ r. (if is_kept_byte c then c else b'_') ∷ r) (sanitize-append s t)

sanitize-Lacks : (s : Text) → Lacks b'-' s → Lacks b'-' (sanitize s)
unfolding sanitize
sanitize-Lacks [] h = tt
sanitize-Lacks (c ∷ s) (ne, h) = (
  if_both (λ d. d ≢ b'-') (is_kept_byte c) c b'_' (λ t. ne) (λ f e. omega (arith, e)),
  sanitize-Lacks s h,
)

listed_at :
    (front back : Text)
    → Lacks b'-' front
    → listed (front ++ (b'-' ∷ (back ++ codes ".log"))) ≡ some (front, back)
unfolding listed serial_and_label
listed_at front back h =
    ap listed (sym (append_assoc front (b'-' ∷ back) (codes ".log")))
    ∙ rw (has_suffix-append (front ++ b'-' ∷ back) (codes ".log")) (
        rw (trim_suffix-append (front ++ b'-' ∷ back) (codes ".log")) (
          ap (λ o. some (serial_and_label (front ++ b'-' ∷ back) o))
            (cut_byte-append b'-' front back h)))

-- A log is listed under the serial and the label of its session, both with every byte replaced that a
-- file name may not have, if the serial has no dash. If it has one, the log is listed under the part
-- in front of the first dash, and the rest of the serial goes to the label.
pub listed-scrollback_name :
    (front back label : Text)
    → Lacks b'-' front
    → (listed (scrollback_name front label) ≡ some (sanitize front, sanitize label))
      × (listed (scrollback_name (front ++ b'-' ∷ back) label)
          ≡ some (sanitize front, sanitize back ++ b'-' ∷ sanitize label))
unfolding scrollback_name sanitize is_kept_byte
listed-scrollback_name front back label h = (
  listed_at (sanitize front) (sanitize label) (sanitize-Lacks front h),
  ap (λ s. listed (s ++ (b'-' ∷ (sanitize label ++ codes ".log"))))
        (sanitize-append front (b'-' ∷ back))
      ∙ ap listed (
          append_assoc (sanitize front) (sanitize (b'-' ∷ back))
            (b'-' ∷ (sanitize label ++ codes ".log"))
          ∙ ap (λ t. sanitize front ++ (b'-' ∷ t))
              (sym (append_assoc (sanitize back) (b'-' ∷ sanitize label) (codes ".log"))))
      ∙ listed_at (sanitize front) (sanitize back ++ b'-' ∷ sanitize label)
          (sanitize-Lacks front h),
)
