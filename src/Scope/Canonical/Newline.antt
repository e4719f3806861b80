-- ===== src/Scope/Canonical/Newline.antt =====
-- What the pattern for labels of src/bbagent/scope/canonical.py says of a newline.
use Prim.Native.String.{◌∷◌ as ◌∷ˢ◌}
use bugbounty_agent.Base.{
  ◌≤◌, ◌≡◌, ◌⊎◌, inl, inr, refl, ap, Char, String, true, false, [], ◌∷◌, ◌==◌, eq_iff, arith,
  Bool-cases, ok, set_add,
}
use bugbounty_agent.Base.Text.{◌<>◌, len, all_chars}
use bugbounty_agent.Scope.Libs.{Libs}
use bugbounty_agent.Scope.Canonical.{
  is_ascii, is_lower_alnum, label_body, chop_newline, label_re, char_script, scripts,
  reject_mixed_script, canonical_label,
}
use bugbounty_agent.Scope.Canonical.Labels.{is_label_char, label_body-all}

chop_newline-newline : (s : String) → chop_newline (s <> "\n") ≡ s
unfolding chop_newline
chop_newline-newline String.[] = refl
chop_newline-newline (c ∷ˢ String.[]) = refl
chop_newline-newline (c ∷ˢ d ∷ˢ s) = ap (λ t. c ∷ˢ t) (chop_newline-newline (d ∷ˢ s))

is_ascii-newline :
    (s : String) → all_chars is_label_char s ≡ true → all_chars is_ascii (s <> "\n") ≡ true
unfolding is_ascii is_lower_alnum
is_ascii-newline String.[] h = refl
is_ascii-newline (c ∷ˢ s) h = ground (arith, is_ascii-newline s)

set_add_nil : set_add "LATIN" [] ≡ "LATIN" ∷ []
unfolding set_add
set_add_nil = refl

set_add_twice : set_add "LATIN" ("LATIN" ∷ []) ≡ "LATIN" ∷ []
unfolding set_add
set_add_twice = refl

module _ (L : Libs) where
  char_script-ascii : (c : Char) → is_ascii c ≡ true → char_script L c ≡ "LATIN"
  unfolding char_script
  char_script-ascii c h = ground arith

  scripts-step :
      (c : Char) (s : String)
      → (scripts L (c ∷ˢ s) ≡ scripts L s)
        ⊎ (scripts L (c ∷ˢ s) ≡ set_add (char_script L c) (scripts L s))
  unfolding scripts
  scripts-step c s = ground arith

  -- the letters of an ASCII text are of one script
  scripts-ascii :
      (s : String) → all_chars is_ascii s ≡ true → (scripts L s ≡ []) ⊎ (scripts L s ≡ "LATIN" ∷ [])
  scripts-ascii String.[] h = inl (unfold scripts in refl)
  scripts-ascii (c ∷ˢ s) h =
      let latin = char_script-ascii c (ground arith) in
      ground (arith, scripts-ascii s, scripts-step c s, latin, set_add_nil, set_add_twice)

  label-ne : (s : String) → 1 ≤ len s → (s <> "\n" == "") ≡ false
  label-ne String.[] h = absurd (omega arith)
  label-ne (c ∷ˢ s) h = elim (Bool-cases ((c ∷ˢ s) <> "\n" == "")) [
    | inl same ↦ absurd (omega (arith, ap len ((eq_iff ((c ∷ˢ s) <> "\n") "").0 same)))
    | inr other ↦ other
  ]

  -- A label with a newline behind it is accepted unchanged, whatever the label: `$` also matches
  -- before a newline at the end.
  pub canonical_label-newline :
      (host label : String)
      → label_body label ≡ true
      → canonical_label L host (label <> "\n") ≡ ok (label <> "\n")
  unfolding canonical_label reject_mixed_script label_re
  canonical_label-newline host label h =
      let (chars, nonempty, _) = label_body-all label h in
      let ascii = is_ascii-newline label chars in
      ground (
        arith,
        label-ne label nonempty,
        ascii,
        scripts-ascii (label <> "\n") ascii,
        chop_newline-newline label,
      )
