-- ===== src/Cli.antt =====
-- src/bbagent/cli.py: the name of the directory that a program's findings are written to.
pub mod Commands
use bugbounty_agent.Base.{
  ◌≡◌, refl, inl, inr, Char, String, Bool, true, false, not, ◌&&◌, ◌||◌, ◌==◌, Bool-cases, arith,
  if◌then◌else◌,
}
use Prim.Native.String.{◌∷◌ as ◌∷ˢ◌}
use bugbounty_agent.Base.Text
use bugbounty_agent.Base.Text.{◌<>◌, is, all_chars}
use bugbounty_agent.Base.Text.Laws.{strip-all}
use bugbounty_agent.Scope.Libs.{Libs}
use bugbounty_agent.Scope.Canonical.{lower, is_lower_alnum}

-- re.sub(r"[^a-z0-9]+", "-", s), where within a run of other characters nothing more is written
unfoldable pub dashed : Bool → String → String
unfolding is_lower_alnum
dashed inside String.[] = String.[]
dashed inside (c ∷ˢ s) =
    let rest = dashed (not (is_lower_alnum c)) s in
    if is_lower_alnum c then c ∷ˢ rest else if inside then rest else ("-" <> rest)

-- _slug
unfoldable pub slug : Libs → String → String
unfolding dashed lower Text.strip
slug L name =
    let s = Text.strip (is b'-') (dashed false (lower L name)) in if s == "" then "program" else s

-- a character of a slug
abbrev pub is_slug : Char → Bool
is_slug c = is_lower_alnum c || is b'-' c

abbrev pub IsSlug : String → Type 0
IsSlug s = (s == "" ≡ false) × (all_chars is_slug s ≡ true)

dashed-all : (inside : Bool) (s : String) → all_chars is_slug (dashed inside s) ≡ true
unfolding dashed
dashed-all inside String.[] = refl
dashed-all true (c ∷ˢ s) = ground (arith, dashed-all (not (is_lower_alnum c)) s)
dashed-all false (c ∷ˢ s) = ground (arith, dashed-all (not (is_lower_alnum c)) s)

or_program : (s : String) → all_chars is_slug s ≡ true → IsSlug (if s == "" then "program" else s)
unfolding is_lower_alnum
or_program s h = elim (Bool-cases (s == "")) [ inl e ↦ rw e (refl, refl) | inr e ↦ rw e (e, h) ]

-- The directory of a program's findings has a name that is not empty and has letters, digits and
-- hyphens only, whatever the program is called: no separator and no dot of a path.
pub slug-IsSlug : (L : Libs) (name : String) → IsSlug (slug L name)
unfolding slug
slug-IsSlug L name =
    or_program (Text.strip (is b'-') (dashed false (lower L name)))
      (strip-all (is b'-') is_slug (dashed false (lower L name)) (dashed-all false (lower L name)))
