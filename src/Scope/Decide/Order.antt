-- ===== src/Scope/Decide/Order.antt =====
-- The place of out-of-scope entries among the tests of src/bbagent/scope/matcher.py.
use bugbounty_agent.Base.{
  String, ◌≡◌, ◌≢◌, Option, some, List, Option-cases, inl, inr, arith, ok, refl, Any, [], ◌∷◌,
  contains, Bool-cases,
}
use bugbounty_agent.Base.Text.{◌<>◌}
use bugbounty_agent.Scope.Matcher.Names.{subtree_rule-names, wild_rule-names, contains_iff}
use bugbounty_agent.Scope.Libs.{Libs}
use bugbounty_agent.Scope.Models.{Kind, domain, ip, url, unknown, deny_halt, out_of_scope, host_is}
use bugbounty_agent.Scope.Matcher.{ScopeMatcher, subtree_rule}
use bugbounty_agent.Scope.Url.{canonical_target}
use bugbounty_agent.Scope.Decide.{decide, decide_inner, name_decision, name_out_of_scope, deny}
use bugbounty_agent.Scope.Decide.Policy.{IsOutName, IsOutRule}
use bugbounty_agent.Scope.Decide.Refinement.{name_out_of_scope-is_some_iff}

module _ (L : Libs) (m : ScopeMatcher) where
  decide-name_out_of_scope :
      (atom : String) (ips : Option (List String)) (kind : Kind) {canon rule : String}
      → canonical_target L atom ≡ ok (kind, canon)
      → kind ≢ ip
      → name_out_of_scope L m canon ≡ some rule
      → decide L m atom ips
        ≡ deny atom kind out_of_scope (host_is canon rule) (some rule) (some canon)
  unfolding decide decide_inner name_decision
  decide-name_out_of_scope atom ips ip e h r = absurd (h refl)
  decide-name_out_of_scope atom ips domain e h r = ground arith
  decide-name_out_of_scope atom ips url e h r = ground arith
  decide-name_out_of_scope atom ips unknown e h r = ground arith

  exact-names :
      (host rule : String) (xs : List String)
      → "out_of_scope.subdomains:" <> host ≡ rule
      → Any (λ x. x ≡ host) xs
      → Any (λ x. (x ≡ host) × (rule ≡ "out_of_scope.subdomains:" <> x)) xs
  exact-names host rule [] e h = elim h [ ]
  exact-names host rule (x ∷ xs) e (inl same) = inl (same, cc (e, same))
  exact-names host rule (x ∷ xs) e (inr h) = inr (exact-names host rule xs e h)

  name_out_of_scope-IsOutRule :
      (host rule : String) → name_out_of_scope L m host ≡ some rule → IsOutRule L m host rule
  unfolding name_out_of_scope
  name_out_of_scope-IsOutRule host rule e = elim (Option-cases (subtree_rule host m.oos_domains)) [
    | inr (r, hit) ↦ inl (subtree_rule-names host m.oos_domains rule (cc (e, hit)))
    | inl miss ↦ elim (Bool-cases (contains m.oos_exact_sub host)) [
      | inl listed ↦ inr (
          inl (
            exact-names host rule m.oos_exact_sub (cc (rw (miss, listed, name_out_of_scope) at e))
              ((contains_iff m.oos_exact_sub host).0 listed)))
      | inr unlisted ↦ inr (
          inr (
            wild_rule-names L "out_of_scope.subdomains:*." host m.oos_wild rule
              (rw (miss, unlisted, name_out_of_scope) at e)))
    ]
  ]

  -- A host that an out-of-scope entry excludes is refused as out of scope, with an out-of-scope entry
  -- that excludes it named as the matched rule, whatever in_scope says and whatever addresses it
  -- resolves to.
  pub decide_out_of_scope :
      (atom : String) (ips : Option (List String)) (kind : Kind) (canon : String)
      → canonical_target L atom ≡ ok (kind, canon)
      → kind ≢ ip
      → IsOutName L m canon
      → ((decide L m atom ips).verdict ≡ deny_halt)
        × ((decide L m atom ips).reason_code ≡ out_of_scope)
        × ((decide L m atom ips).canonical_host ≡ some canon)
        × ((rule : String) × ((decide L m atom ips).matched_rule ≡ some rule)
            × IsOutRule L m canon rule)
  unfolding deny
  decide_out_of_scope atom ips kind canon e h o =
      elim (Option-cases (name_out_of_scope L m canon)) [
        | inl clear ↦ absurd (ground (arith, name_out_of_scope-is_some_iff L m canon))
        | inr (rule, r) ↦
            let d = decide-name_out_of_scope atom ips kind e h r in
            let named = name_out_of_scope-IsOutRule canon rule r in
            (
              ground (arith, d),
              ground (arith, d),
              ground (arith, d),
              (rule, ground (arith, d), named),
            )
      ]
