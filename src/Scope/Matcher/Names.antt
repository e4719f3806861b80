-- ===== src/Scope/Matcher/Names.antt =====
-- What the tests of src/bbagent/scope/matcher.py on host names decide, in terms of concatenation and of the public suffix list.
use bugbounty_agent.Base.{
  String, ◌≡◌, ◌≢◌, ◌↔◌, ◌⊎◌, sym, ◌∙◌, true, List, [], ◌∷◌, eq_iff, Any, contains, arith, is_some,
  some,
}
use bugbounty_agent.Base.Text.{◌<>◌}
use bugbounty_agent.Base.Text.Laws.{ends_with_iff, append-ne}
use bugbounty_agent.Scope.Libs.{Libs}
use bugbounty_agent.Scope.Matcher.{is_subtree, subtree_rule, wild_match, wild_rule, first_net}
use bugbounty_agent.Scope.Ip.{Addr, Net, covers}

-- Some labels stand before the base.
abbrev pub IsBelow : String → String → Type 0
IsBelow host base = (p : String) × (host ≡ p <> ("." <> base))

-- The base itself or a name below it.
abbrev pub IsUnder : String → String → Type 0
IsUnder host base = (host ≡ base) ⊎ IsBelow host base

-- A name below the base that has the registrable domain of the base.
abbrev pub IsWild : Libs → String → String → Type 0
IsWild L host base = IsBelow host base × (L.registered_domain host ≡ L.registered_domain base)

-- An entry excludes its own name and every name below it, and no other.
pub is_subtree_iff : (host base : String) → (is_subtree host base ≡ true) ↔ IsUnder host base
unfolding is_subtree
is_subtree_iff host base = ground (arith, eq_iff host base, ends_with_iff host ("." <> base))

module _ (L : Libs) where
  -- A wildcard matches the names below its base, and neither the base itself nor a name whose
  -- registrable domain is another one.
  pub wild_match_iff : (host base : String) → (wild_match L host base ≡ true) ↔ IsWild L host base
  unfolding wild_match
  wild_match_iff host base =
      let registered = eq_iff (L.registered_domain host) (L.registered_domain base) in
      (
        λ h. ground (arith, ends_with_iff host ("." <> base), registered),
        λ (below, same).
            ground
              (arith, eq_iff host base, ends_with_iff host ("." <> base), registered, apex below),
      )
    where
      apex : IsBelow host base → host ≢ base
      apex (p, e) same = append-ne p base "." (sym same ∙ e)

  pub wild_rule-is_some_iff :
      (prefix host : String) (bases : List String)
      → (is_some (wild_rule L prefix host bases) ≡ true) ↔ Any (λ b. IsWild L host b) bases
  unfolding wild_rule
  wild_rule-is_some_iff prefix host [] = (λ h. cc h, λ h. absurd h)
  wild_rule-is_some_iff prefix host (b ∷ bases) =
      ground (arith, wild_match_iff host b, wild_rule-is_some_iff prefix host bases)

pub wild_rule-names :
    (L : Libs) (prefix host : String) (bases : List String) (rule : String)
    → wild_rule L prefix host bases ≡ some rule
    → Any (λ b. IsWild L host b × (rule ≡ prefix <> b)) bases
unfolding wild_rule
wild_rule-names L prefix host [] rule e = cc e
wild_rule-names L prefix host (b ∷ bases) rule e =
    ground (arith, wild_match_iff L host b, wild_rule-names L prefix host bases rule)

pub subtree_rule-names :
    (host : String) (ds : List String) (rule : String)
    → subtree_rule host ds ≡ some rule
    → Any (λ d. IsUnder host d × (rule ≡ "out_of_scope.domains:" <> d)) ds
unfolding subtree_rule
subtree_rule-names host [] rule e = cc e
subtree_rule-names host (d ∷ ds) rule e =
    ground (arith, is_subtree_iff host d, subtree_rule-names host ds rule)

pub subtree_rule-is_some_iff :
    (host : String) (ds : List String)
    → (is_some (subtree_rule host ds) ≡ true) ↔ Any (λ d. IsUnder host d) ds
unfolding subtree_rule
subtree_rule-is_some_iff host [] = (λ h. cc h, λ h. absurd h)
subtree_rule-is_some_iff host (d ∷ ds) =
    ground (arith, is_subtree_iff host d, subtree_rule-is_some_iff host ds)

pub first_net-is_some_iff :
    (L : Libs) (nets : List Net) (addr : Addr)
    → (is_some (first_net L nets addr) ≡ true) ↔ Any (λ net. covers net addr ≡ true) nets
unfolding first_net
first_net-is_some_iff L [] addr = (λ h. cc h, λ h. absurd h)
first_net-is_some_iff L (net ∷ nets) addr = ground (arith, first_net-is_some_iff L nets addr)

pub contains_iff : (xs : List String) (a : String) → (contains xs a ≡ true) ↔ Any (λ x. x ≡ a) xs
unfolding contains
contains_iff [] a = (λ h. cc h, λ h. absurd h)
contains_iff (x ∷ xs) a = ground (arith, eq_iff x a, contains_iff xs a)
