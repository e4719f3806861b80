-- ===== src/Scope/Canonical/Labels.antt =====
-- What a canonical host of src/bbagent/scope/canonical.py is made of.
use Prim.Native.String.{◌∷◌ as ◌∷ˢ◌}
use bugbounty_agent.Base.{
  ◌≤◌, ◌≡◌, ◌⊎◌, inl, inr, refl, ap, Char, String, Bool, true, ◌||◌, List, All, arith, Bool-cases,
  ok,
}
use bugbounty_agent.Base.Results.{expect, traverse, traverse-All, >>=-eq-ok}
use text.Mathlib.TextEquality.{Char-path}
use bugbounty_agent.Base.Text
use bugbounty_agent.Base.Text.{◌<>◌, len, is, all_chars, any_char}
use bugbounty_agent.Scope.Ip.{Addr}
use bugbounty_agent.Scope.Libs.{Libs}
use bugbounty_agent.Scope.Canonical.{
  is_lower_alnum, label_rest, label_body, chop_newline, label_re, is_space, lower, bare,
  is_ip_literal, canonical_ip, canonical_label, join_labels, canonical_labels, canonical_name,
  is_bracket, canonical_host,
}

-- A letter, a digit or a hyphen.
abbrev pub is_label_char : Char → Bool
is_label_char c = is_lower_alnum c || is b'-' c

label_rest-all :
    (s : String) → label_rest s ≡ true → (all_chars is_label_char s ≡ true) × (1 ≤ len s)
unfolding label_rest
label_rest-all String.[] h = cc
label_rest-all (c ∷ˢ String.[]) h = ground arith
label_rest-all (c ∷ˢ d ∷ˢ s) h = ground (arith, label_rest-all (d ∷ˢ s))

-- A label of a host name has 1 to 63 characters, each a lower-case letter, a digit or a hyphen.
pub label_body-all :
    (s : String)
    → label_body s ≡ true
    → (all_chars is_label_char s ≡ true) × (1 ≤ len s) × (len s ≤ 63)
unfolding label_body
label_body-all String.[] h = cc
label_body-all (c ∷ˢ String.[]) h = ground arith
label_body-all (c ∷ˢ d ∷ˢ s) h = ground (arith, label_rest-all (d ∷ˢ s))

-- The text is a label, or a label with a newline behind it.
pub chop_newline-cases : (s : String) → (chop_newline s ≡ s) ⊎ (s ≡ chop_newline s <> "\n")
unfolding chop_newline
chop_newline-cases String.[] = inl refl
chop_newline-cases (c ∷ˢ String.[]) = elim (Bool-cases (is 10 c)) [
  | inl newline ↦ let e : c ≡ "\n" = Char-path c "\n" (ground arith) in rw e (inr refl)
  | inr other ↦ inl (ground arith)
]
chop_newline-cases (c ∷ˢ d ∷ˢ s) = elim (chop_newline-cases (d ∷ˢ s)) [
  | inl e ↦ inl (ap (λ t. c ∷ˢ t) e)
  | inr e ↦ inr (ap (λ t. c ∷ˢ t) e)
]

module _ (L : Libs) where
  -- The text of an address.
  abbrev pub IsIpText : String → Type 0
  IsIpText r = (addr : Addr) × (r ≡ L.str_addr addr)

-- At most 253 characters: labels joined by dots.
abbrev pub IsHostName : String → Type 0
IsHostName r =
    (labels : List String) × (r ≡ Text.join "." labels)
    × All (λ l. label_re l ≡ true) labels
    × (len r ≤ 253)

module _ (L : Libs) where
  canonical_label-label_re :
      (host label out : String) → canonical_label L host label ≡ ok out → label_re out ≡ true
  unfolding canonical_label
  canonical_label-label_re host label out h = ground arith

  canonical_ip-IsIpText : (s : String) {r : String} → canonical_ip L s ≡ ok r → IsIpText L r
  unfolding canonical_ip
  canonical_ip-IsIpText s h =
      let (addr, _, e) = >>=-eq-ok (expect _ (L.ip_address (bare L s))) _ h in (addr, cc e)

  join_labels-eq :
      (labels : List String) {r : String}
      → join_labels L labels ≡ ok r
      → (r ≡ Text.join "." labels) × (len r ≤ 253)
  unfolding join_labels
  join_labels-eq labels h = ground arith

  canonical_labels-IsHostName :
      (host : String) {r : String} → canonical_labels L host ≡ ok r → IsHostName r
  unfolding canonical_labels
  canonical_labels-IsHostName host h =
      let f = canonical_label L host in
      let (labels, found, rest) =
        >>=-eq-ok (traverse f (Text.split (is b'.') host)) (join_labels L) h in
      let (same, short) = join_labels-eq labels rest in
      let good = traverse-All (λ l. label_re l ≡ true) f (canonical_label-label_re host) _ found in
      (labels, same, good, short)

  canonical_name-IsHostName : (s : String) {r : String} → canonical_name L s ≡ ok r → IsHostName r
  unfolding canonical_name
  canonical_name-IsHostName s h =
      canonical_labels-IsHostName (Text.rstrip (is b'.') (lower L (L.nfc s))) (ground arith)

  -- A canonical host is the text of an address, or a host name of at most 253 characters whose
  -- labels all pass the pattern for labels.
  pub canonical_host-IsHostName :
      (s : String) {r : String} → canonical_host L s ≡ ok r → IsIpText L r ⊎ IsHostName r
  unfolding canonical_host
  canonical_host-IsHostName s {r} h =
      let host = Text.strip is_bracket (Text.strip (is_space L) s) in
      elim (Bool-cases (is_ip_literal L host)) [
        | inl address ↦
            let p : canonical_ip L host ≡ ok r = ground arith in inl (canonical_ip-IsIpText host p)
        | inr name ↦
            let p : canonical_name L host ≡ ok r = ground arith in
            inr (canonical_name-IsHostName host p)
      ]
