-- ===== src/Importer/Brief/Fence.antt =====
-- The front-matter of a brief of src/bbagent/importer/core.py, written and read again.
use bugbounty_agent.Base.{◌≡◌, refl, String, Bool, true, false, ◌||◌, ◌&&◌, some, ap, ◌∙◌, not}
use Prim.Native.String.{◌∷◌ as ◌∷ˢ◌}
use bugbounty_agent.Base.Text
use bugbounty_agent.Base.Text.{◌<>◌, is}
use bugbounty_agent.Scope.Canonical.{is_space}
use bugbounty_agent.Importer.Values.{Importing}
use bugbounty_agent.Importer.Brief.{
  starts, until_fence, opened, frontmatter_re, parse_frontmatter, meta_of, lstrip_space,
}

-- Whether a text starts with dashes does not depend on a newline behind it.
dashes-append :
    (g rest : String) → Text.starts_with (g <> "\n---" <> rest) "---" ≡ Text.starts_with g "---"
unfolding Text.starts_with
dashes-append String.[] rest = refl
dashes-append (b ∷ˢ String.[]) rest = refl
dashes-append (b ∷ˢ c ∷ˢ String.[]) rest = refl
dashes-append (b ∷ˢ c ∷ˢ d ∷ˢ g) rest = refl

or-false : (a b : Bool) → (a || b) ≡ false → (a ≡ false) × (b ≡ false)
or-false true b h = cc h
or-false false b h = (refl, h)

not-true : (b : Bool) → not b ≡ true → b ≡ false
not-true true h = cc h
not-true false h = refl

module _ (I : Importing) where
  until_fence-append :
      (g rest : String)
      → Text.has g "\n---" ≡ false
      → until_fence I (g <> "\n---" <> rest) ≡ some (g, lstrip_space I rest)
  unfolding until_fence Text.has Text.starts_with Text.drop
  until_fence-append String.[] rest h = refl
  until_fence-append (c ∷ˢ g) rest h =
      let (here, later) = or-false (Text.starts_with (c ∷ˢ g) "\n---") (Text.has g "\n---") h in
      let fresh : Text.starts_with (c ∷ˢ g <> "\n---" <> rest) "\n---" ≡ false =
        ap (λ b. is 10 c && b) (dashes-append g rest) ∙ here in
      rw (fresh, until_fence-append g rest later) refl

  -- The front-matter that is written between two fences, and a body that follows it, are read back,
  -- if the front-matter starts with no space and has no fence of its own; only the space in front of
  -- the body is lost.
  pub parse_frontmatter-fence :
      (g body : String)
      → starts (λ c. not (is_space I.libs c)) g ≡ true
      → Text.has g "\n---" ≡ false
      → parse_frontmatter I ("---\n" <> g <> "\n---" <> body)
        ≡ (meta_of I (I.yaml_load g), lstrip_space I body)
  unfolding parse_frontmatter frontmatter_re opened Text.starts_with Text.drop is_space
  parse_frontmatter-fence String.[] body full h = cc full
  parse_frontmatter-fence (c ∷ˢ g) body full h =
      let space : is_space I.libs c ≡ false = not-true (is_space I.libs c) full in
      rw (space, until_fence-append (c ∷ˢ g) body h, parse_frontmatter, frontmatter_re, opened) refl
