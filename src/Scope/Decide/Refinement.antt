-- ===== src/Scope/Decide/Refinement.antt =====
-- decide of src/bbagent/scope/matcher.py and the policy.
use bugbounty_agent.Base.{
  String, ◌≡◌, ◌↔◌, inl, inr, true, Option, List, ok, err, is_some, arith, Option-cases,
}
use bugbounty_agent.Base.Results.{Result-cases}
use bugbounty_agent.Scope.Canonical.{Error}
use bugbounty_agent.Scope.Libs.{Libs}
use bugbounty_agent.Scope.Models.{Kind, domain, ip, url, unknown, allow}
use bugbounty_agent.Scope.Matcher.{ScopeMatcher}
use bugbounty_agent.Scope.Matcher.Names.{
  wild_rule-is_some_iff, subtree_rule-is_some_iff, contains_iff,
}
use bugbounty_agent.Scope.Decide.{
  deny, grant, name_out_of_scope, name_in_scope, name_decision, decide_inner, decide,
}
use bugbounty_agent.Scope.Url.{canonical_target}
use bugbounty_agent.Scope.Decide.Policy.{
  IsOutName, IsInName, PermitsName, PermitsTarget, Permits, Allows,
}
use bugbounty_agent.Scope.Decide.Addresses.{ip_decision_iff, pinned_decision-Checks}

module _ (L : Libs) (m : ScopeMatcher) where
  pub name_out_of_scope-is_some_iff :
      (host : String) → (is_some (name_out_of_scope L m host) ≡ true) ↔ IsOutName L m host
  unfolding name_out_of_scope
  name_out_of_scope-is_some_iff host = ground (
    arith,
    subtree_rule-is_some_iff host m.oos_domains,
    contains_iff m.oos_exact_sub host,
    wild_rule-is_some_iff L "out_of_scope.subdomains:*." host m.oos_wild,
  )

  pub name_in_scope-is_some_iff :
      (host : String) → (is_some (name_in_scope L m host) ≡ true) ↔ IsInName L m host
  unfolding name_in_scope
  name_in_scope-is_some_iff host = ground (
    arith,
    contains_iff m.in_domains host,
    contains_iff m.in_exact_sub host,
    wild_rule-is_some_iff L "in_scope.subdomains:*." host m.in_wild,
  )

  -- A host name is allowed exactly when nothing excludes it, some entry names it and its resolved
  -- addresses, where there are any, are safe and keep the boundary.
  pub name_decision_iff :
      (atom : String) (kind : Kind) (canon : String) (ips : Option (List String))
      → Allows (name_decision L m atom kind canon ips) ↔ PermitsName L m canon ips
  unfolding name_decision deny grant
  name_decision_iff atom kind canon ips =
      let out = name_out_of_scope-is_some_iff canon in
      let inside = name_in_scope-is_some_iff canon in
      elim (Option-cases (name_out_of_scope L m canon)) [
        | inr (rule, e) ↦ (λ h. ground arith, λ h. absurd (h.0 (out.0 (rw e))))
        | inl clear ↦ elim (Option-cases (name_in_scope L m canon)) [
          | inl e ↦ (λ h. ground arith, λ h. cc (e, inside.1 h.1))
          | inr (rule, e) ↦ elim (pinned_decision-Checks L m atom kind canon ips) [
            | inl (fine, p) ↦
                (λ _. (λ o. cc (clear, out.1 o), inside.0 (rw e), fine), λ _. ground arith)
            | inr (bad, (d, p, v)) ↦ (λ h. ground arith, λ h. absurd (bad h.2))
          ]
        ]
      ]

  target_decision_iff :
      (atom : String) (ips : Option (List String)) (kind : Kind) (canon : String)
      → canonical_target L atom ≡ ok (kind, canon)
      → Allows (decide_inner L m atom ips) ↔ PermitsTarget L m kind canon ips
  unfolding decide_inner
  target_decision_iff atom ips ip canon e = rw e (ip_decision_iff L m atom canon)
  target_decision_iff atom ips domain canon e = rw e (name_decision_iff atom domain canon ips)
  target_decision_iff atom ips url canon e = rw e (name_decision_iff atom url canon ips)
  target_decision_iff atom ips unknown canon e = rw e (name_decision_iff atom unknown canon ips)

  decide-Allows_iff :
      (atom : String) (ips : Option (List String))
      → ((decide L m atom ips).verdict ≡ allow) ↔ Allows (decide_inner L m atom ips)
  unfolding decide deny
  decide-Allows_iff atom ips = ground arith

  target_refused :
      (atom : String) (ips : Option (List String)) {e : Error}
      → canonical_target L atom ≡ err e
      → Allows (decide_inner L m atom ips)
      → ⊥
  unfolding decide_inner
  target_refused atom ips p h = ground arith

  -- decide allows a target exactly when the scope permits it.
  pub decide-allow_iff :
      (atom : String) (ips : Option (List String))
      → ((decide L m atom ips).verdict ≡ allow) ↔ Permits L m atom ips
  decide-allow_iff atom ips =
      let reached = decide-Allows_iff atom ips in
      (
        λ h. elim (Result-cases (canonical_target L atom)) [
          | inl ((kind, canon), e) ↦
              (kind, canon, e, (target_decision_iff atom ips kind canon e).0 (reached.0 h))
          | inr (x, e) ↦ absurd (target_refused atom ips e (reached.0 h))
        ],
        λ (kind, canon, e, p). reached.1 ((target_decision_iff atom ips kind canon e).1 p),
      )
