-- ===== src/Scope/Matcher.antt =====
-- src/bbagent/scope/matcher.py: the compiled scope and the tests on host names. Exceptions are
-- values of Exception. A set is a list: only the rule that a refusal names depends on the order in
-- which Python walks it.
pub mod Names
pub mod Compiled
use bugbounty_agent.Base.{
  String, Bool, false, ◌||◌, Option, none, some, List, [], ◌∷◌, ◌==◌, set_add, if◌then◌else◌,
  Result, ok, err,
}
use bugbounty_agent.Base.Results.{◌>>=◌, expect, traverse}
use bugbounty_agent.Base.Text
use bugbounty_agent.Base.Text.{◌<>◌}
use bugbounty_agent.Scope.Ip.{Addr, Net, covers}
use bugbounty_agent.Scope.Libs.{Libs}
use bugbounty_agent.Scope.Models.{ScopeConfig}
use bugbounty_agent.Scope.Canonical.{Error, canonical_host}

-- CanonicalizationError, and the ValueError of an ipaddress call
pub data Exception : Type 0 where
  canonicalization : Error → Exception
  value_error : String → Exception

abbrev pub from_canonical : {A : Type 0} → Result Error A → Result Exception A
from_canonical (ok a) = ok a
from_canonical (err e) = err (canonicalization e)

unfoldable pub wildcard_base : String → String
unfolding Text.starts_with Text.drop
wildcard_base entry = if Text.starts_with entry "*." then Text.drop 2 entry else entry

unfoldable pub is_subtree : String → String → Bool
unfolding Text.ends_with
is_subtree host base = host == base || Text.ends_with host ("." <> base)

-- ScopeMatcher
pub record ScopeMatcher : Type 0 where
  pub config : ScopeConfig
  pub oos_domains : List String
  pub oos_wild : List String
  pub oos_exact_sub : List String
  pub oos_nets : List Net
  pub in_domains : List String
  pub in_wild : List String
  pub in_exact_sub : List String
  pub in_nets : List Net

-- the loop over the domains that are out of scope
unfoldable pub subtree_rule : String → List String → Option String
subtree_rule host [] = none
subtree_rule host (d ∷ ds) =
    if is_subtree host d then some ("out_of_scope.domains:" <> d) else subtree_rule host ds

-- str(net) of the first network that holds the address
unfoldable pub first_net : Libs → List Net → Addr → Option String
unfolding covers
first_net L [] addr = none
first_net L (net ∷ nets) addr =
    if covers net addr then some (L.str_net net) else first_net L nets addr

module _ (L : Libs) where
  -- _canon_set
  unfoldable pub canon_set : List String → Result Exception (List String)
  unfolding set_add
  canon_set [] = ok []
  canon_set (x ∷ xs) = do
    host ← from_canonical (canonical_host L x)
    rest ← canon_set xs
    ok (set_add host rest)

  -- _split_subdomains: the bases of the wildcards, and the exact names
  unfoldable pub split_subdomains : List String → Result Exception (List String × List String)
  unfolding set_add wildcard_base Text.starts_with
  split_subdomains [] = ok ([], [])
  split_subdomains (it ∷ items) =
      if Text.starts_with it "*."
      then (do
        base ← from_canonical (canonical_host L (wildcard_base it))
        (wild, exact) ← split_subdomains items
        ok (base ∷ wild, exact))
      else (do
        host ← from_canonical (canonical_host L it)
        (wild, exact) ← split_subdomains items
        ok (wild, set_add host exact))

  -- _nets
  unfoldable pub nets : List String → Result Exception (List Net)
  nets = traverse (λ it. expect (value_error it) (L.ip_network it))

  -- ScopeMatcher.__init__
  unfoldable pub compile : ScopeConfig → Result Exception ScopeMatcher
  compile config = do
    oos_domains ← canon_set config.out_of_scope.domains
    (oos_wild, oos_exact_sub) ← split_subdomains config.out_of_scope.subdomains
    oos_nets ← nets config.out_of_scope.ip_ranges
    in_domains ← canon_set config.in_scope.domains
    (in_wild, in_exact_sub) ← split_subdomains config.in_scope.subdomains
    in_nets ← nets config.in_scope.ip_ranges
    ok (record {
      config = config;
      oos_domains = oos_domains;
      oos_wild = oos_wild;
      oos_exact_sub = oos_exact_sub;
      oos_nets = oos_nets;
      in_domains = in_domains;
      in_wild = in_wild;
      in_exact_sub = in_exact_sub;
      in_nets = in_nets;
    })

  unfoldable pub wild_match : String → String → Bool
  wild_match host base =
      if host == base
      then false
      else if Text.ends_with host ("." <> base)
      then L.registered_domain host == L.registered_domain base
      else false

  -- the loops over the wildcards; the rule is named after the base that matches
  unfoldable pub wild_rule : String → String → List String → Option String
  wild_rule prefix host [] = none
  wild_rule prefix host (base ∷ bases) =
      if wild_match host base then some (prefix <> base) else wild_rule prefix host bases
