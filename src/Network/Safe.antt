-- ===== src/Network/Safe.antt =====
-- A host's name is one word of the commands that look it up.
use adbq.Prelude.{
  ℕ, ◌≡◌, ◌≢◌, sym, ◌⊎◌, refl, ap, ◌∙◌, [], ◌∷◌, ◌++◌, some, Bool, true, false, not, ◌&&◌, if_both,
  inl, inr, ◌==◌, ==_iff, Text, codes, has_byte, contains_any,
}
use mathlib.Core.List.{cons≢nil}
use adbq.CommandText.{mangled}
use adbq.CommandText.Shell.{shell_words}
use adbq.CommandText.RoundTrip.{read-bare}
use adbq.Network.Lookup.{
  is_host_byte, safe_host, hosts_cat_remote, ping_remote, nslookup_remote, commands_of,
  dns_lookup_commands,
}

both_true : (x y : Bool) → (x && y) ≡ true → (x ≡ true) × (y ≡ true)
both_true true y h = (refl, h)
both_true false y h = cc

differs : (b : Bool) → (b ≡ true → ⊥) → b ≡ false
differs true h = absurd (h refl)
differs false h = refl

clash : (b : Bool) → not b ≡ true → b ≡ true → ⊥
clash b h k = cc

-- no byte of a name
no_host_byte : Text → Bool
no_host_byte [] = true
no_host_byte (m ∷ ms) = not (is_host_byte m) && no_host_byte ms

has_byte-no_host_byte :
    (ms : Text) (c : ℕ) → no_host_byte ms ≡ true → is_host_byte c ≡ true → has_byte ms c ≡ false
unfolding has_byte no_host_byte
has_byte-no_host_byte [] c h k = refl
has_byte-no_host_byte (m ∷ ms) c h k =
    let (not_m, not_ms) = both_true (not (is_host_byte m)) (no_host_byte ms) h in
    rw
      (differs (c == m)
        (λ e. clash (is_host_byte m) not_m (ap is_host_byte (sym ((==_iff c m).0 e)) ∙ k)))
      (has_byte-no_host_byte ms c not_ms k)

is_host_byte-plain : (c : ℕ) → is_host_byte c ≡ true → has_byte mangled c ≡ false
unfolding is_host_byte no_host_byte
is_host_byte-plain c h = has_byte-no_host_byte mangled c refl h

safe_host-plain : (s : Text) → contains_any (safe_host s) mangled ≡ false
unfolding safe_host contains_any
safe_host-plain [] = refl
safe_host-plain (c ∷ s) =
    if_both (λ t. contains_any t mangled ≡ false) (is_host_byte c) (c ∷ safe_host s) (safe_host s)
      (λ t. rw (is_host_byte-plain c t) (safe_host-plain s)) (λ f. safe_host-plain s)

-- the commands with a bare word in its place
bare_commands :
    (q : Text)
    → contains_any q mangled ≡ false
    → q ≢ []
    → (shell_words (codes "ping -c 1 -W 2 " ++ q)
        ≡ some (codes "ping" ∷ codes "-c" ∷ codes "1" ∷ codes "-W" ∷ codes "2" ∷ q ∷ []))
      × (shell_words (codes "nslookup " ++ q) ≡ some (codes "nslookup" ∷ q ∷ []))
unfolding shell_words
bare_commands [] h ne = absurd (ne refl)
bare_commands (c ∷ q) h ne = (
  rw (read-bare c q (codes "ping" ∷ codes "-c" ∷ codes "1" ∷ codes "-W" ∷ codes "2" ∷ []) h) refl,
  rw (read-bare c q (codes "nslookup" ∷ []) h) refl,
)

words_of :
    (q : Text) (render : Text → Bool → Text)
    → contains_any q mangled ≡ false
    → ((q ≡ []) × (commands_of q render ≡ []))
      ⊎ ((ping : Text) × (ns : Text) × (commands_of q render
            ≡ render hosts_cat_remote false
              ∷ render (ping ++ codes " 2>&1") false
              ∷ render
                  (codes "command -v nslookup >/dev/null 2>&1 && " ++ (ns ++ codes " 2>&1"))
                  false
              ∷ [])
          × (shell_words ping
              ≡ some (codes "ping" ∷ codes "-c" ∷ codes "1" ∷ codes "-W" ∷ codes "2" ∷ q ∷ []))
          × (shell_words ns ≡ some (codes "nslookup" ∷ q ∷ [])))
unfolding commands_of ping_remote nslookup_remote
words_of [] render h = inl (refl, refl)
words_of (c ∷ q) render h =
    let (p, n) = bare_commands (c ∷ q) h cons≢nil in
    inr (codes "ping -c 1 -W 2 " ++ c ∷ q, codes "nslookup " ++ c ∷ q, refl, p, n)

-- Whatever is typed as a host's name, the commands that look it up run `ping` and `nslookup` with one
-- more word, which is what `safeHost` leaves of the name: no part of it is read by the shell as
-- anything else. What stands around these commands is fixed. If nothing is left of the name, there is
-- no command.
pub dns_lookup_commands-words :
    (host : Text) (render : Text → Bool → Text)
    → ((safe_host host ≡ []) × (dns_lookup_commands host render ≡ []))
      ⊎ ((ping : Text) × (ns : Text) × (dns_lookup_commands host render
            ≡ render hosts_cat_remote false
              ∷ render (ping ++ codes " 2>&1") false
              ∷ render
                  (codes "command -v nslookup >/dev/null 2>&1 && " ++ (ns ++ codes " 2>&1"))
                  false
              ∷ [])
          × (shell_words ping
              ≡ some (
                  codes "ping"
                  ∷ codes "-c"
                  ∷ codes "1"
                  ∷ codes "-W"
                  ∷ codes "2"
                  ∷ safe_host host
                  ∷ []))
          × (shell_words ns ≡ some (codes "nslookup" ∷ safe_host host ∷ [])))
unfolding dns_lookup_commands
dns_lookup_commands-words host render = words_of (safe_host host) render (safe_host-plain host)
