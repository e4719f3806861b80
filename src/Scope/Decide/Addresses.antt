-- ===== src/Scope/Decide/Addresses.antt =====
-- The tests of src/bbagent/scope/matcher.py on IP addresses, single and resolved, and the policy.
use bugbounty_agent.Base.{
  String, ◌≡◌, ◌≢◌, ◌↔◌, ◌⊎◌, inl, inr, refl, Bool, true, false, Option, none, some, List, [], ◌∷◌,
  All, Any, Result, ok, arith, Option-cases, ◌∙◌, Bool-cases,
}
use bugbounty_agent.Scope.Ip.{Addr, Net, DenyReason}
use bugbounty_agent.Scope.Libs.{Libs, private_deny_reason}
use bugbounty_agent.Scope.Models.{
  Kind, deny_halt, private_ip, out_of_scope, ip_boundary_miss, resolves_to_denied,
  resolves_out_of_scope, resolves_outside, IpRangesMode, boundary, additional, ScopeDecision,
}
use bugbounty_agent.Scope.Matcher.{Exception, ScopeMatcher, first_net}
use bugbounty_agent.Scope.Matcher.Names.{first_net-is_some_iff}
use bugbounty_agent.Scope.Decide.{
  deny, grant, ip_in, ip_decision, refuse_resolved, any_inside, has_boundary, check_resolved_ips,
  pinned_decision,
}
use bugbounty_agent.Scope.Decide.Policy.{
  IsOutAddr, IsInAddr, IsSafeIp, IsInsideIp, PermitsIp, KeepsBoundary, PermitsPinned, Allows,
}

module _ (L : Libs) (m : ScopeMatcher) where
  module _ (text : String) {addr : Addr} (parsed : L.ip_address text ≡ some addr) where
    ip_decision-parsed :
        (atom : String)
        → private_deny_reason L text ≡ none
        → Allows (ip_decision L m atom text) ↔ ((¬ IsOutAddr L m addr) × IsInAddr L m addr)
    unfolding ip_decision ip_in deny grant
    ip_decision-parsed atom safe =
        ground
          (arith, first_net-is_some_iff L m.oos_nets addr, first_net-is_some_iff L m.in_nets addr)

  ip_decision-denied :
      (atom text : String) {r : DenyReason}
      → private_deny_reason L text ≡ some r
      → Allows (ip_decision L m atom text)
      → ⊥
  unfolding ip_decision deny
  ip_decision-denied atom text e h = ground arith

  safe_parsed :
      (text : String)
      → private_deny_reason L text ≡ none
      → (a : Addr) × (L.ip_address text ≡ some a)
  unfolding private_deny_reason
  safe_parsed text e = elim (Option-cases (L.ip_address text)) [
    | inl bad ↦ absurd (ground arith)
    | inr good ↦ good
  ]

  some_unique :
      (text : String) {a b : Addr} → L.ip_address text ≡ some a → L.ip_address text ≡ some b → a ≡ b
  some_unique text p q = cc

  -- An address is allowed exactly when it is not hard-denied, in no range that is out of scope and
  -- in some range that is in scope.
  pub ip_decision_iff :
      (atom text : String) → Allows (ip_decision L m atom text) ↔ PermitsIp L m text
  ip_decision_iff atom text = elim (Option-cases (private_deny_reason L text)) [
    | inl safe ↦
        let (a, parsed) = safe_parsed text safe in
        let step = ip_decision-parsed text parsed atom safe in
        (
          λ h. let (out, inside) = step.0 h in ((a, parsed, safe, out), (a, parsed, inside)),
          λ ((b, pb, _, out), (c, pc, inside)).
              step.1 (rw (some_unique text parsed pb) out, rw (some_unique text parsed pc) inside),
        )
    | inr (r, hard) ↦
        (λ h. absurd (ip_decision-denied atom text hard h), λ ((_, _, safe, _), _). cc (hard, safe))
  ]

  refuse_resolved-safe :
      (atom : String) (kind : Kind) (canon text : String) (ips : List String)
      → IsSafeIp L m text
      → refuse_resolved L m atom kind canon (text ∷ ips) ≡ refuse_resolved L m atom kind canon ips
  unfolding refuse_resolved ip_in
  refuse_resolved-safe atom kind canon text ips (a, parsed, safe, out) =
      ground (arith, first_net-is_some_iff L m.oos_nets a)

  -- What a check returns: nothing where the condition holds, and a refusal where it does not.
  abbrev pub Checks : Type 0 → Result Exception (Option ScopeDecision) → Type 0
  Checks P r =
      (P × (r ≡ ok none))
      ⊎ ((¬ P) × ((d : ScopeDecision) × (r ≡ ok (some d)) × (d.verdict ≡ deny_halt)))

  refuse_resolved-denied :
      (atom : String) (kind : Kind) (canon text : String) (ips : List String) {r : DenyReason}
      → private_deny_reason L text ≡ some r
      → Checks
          (All (λ x. IsSafeIp L m x) (text ∷ ips))
          (refuse_resolved L m atom kind canon (text ∷ ips))
  unfolding refuse_resolved deny
  refuse_resolved-denied atom kind canon text ips {r} e = inr (
    λ ((_, _, safe, _), _). cc (e, safe),
    (
      deny atom kind private_ip (resolves_to_denied canon text r) none (some canon),
      ground arith,
      refl,
    ),
  )

  refuse_resolved-out :
      (atom : String) (kind : Kind) (canon text : String) (ips : List String) {a : Addr}
      {net : String}
      → private_deny_reason L text ≡ none
      → L.ip_address text ≡ some a
      → first_net L m.oos_nets a ≡ some net
      → Checks
          (All (λ x. IsSafeIp L m x) (text ∷ ips))
          (refuse_resolved L m atom kind canon (text ∷ ips))
  unfolding refuse_resolved ip_in deny
  refuse_resolved-out atom kind canon text ips {a} {net} safe parsed out = inr (
    λ ((b, pb, _, fine), _).
        fine
          (rw (← some_unique text parsed pb) ((first_net-is_some_iff L m.oos_nets a).0 (rw out))),
    (
      deny atom kind out_of_scope (resolves_out_of_scope canon net) (some net) (some canon),
      ground arith,
      refl,
    ),
  )

  refuse_resolved-Checks :
      (atom : String) (kind : Kind) (canon : String) (ips : List String)
      → Checks (All (λ x. IsSafeIp L m x) ips) (refuse_resolved L m atom kind canon ips)
  unfolding refuse_resolved
  refuse_resolved-Checks atom kind canon [] = inl (tt, refl)
  refuse_resolved-Checks atom kind canon (text ∷ ips) =
      elim (Option-cases (private_deny_reason L text)) [
        | inr (r, e) ↦ refuse_resolved-denied atom kind canon text ips e
        | inl safe ↦
            let (a, parsed) = safe_parsed text safe in
            elim (Option-cases (first_net L m.oos_nets a)) [
              | inr (net, out) ↦ refuse_resolved-out atom kind canon text ips safe parsed out
              | inl fine ↦
                  let this : IsSafeIp L m text = (
                    a,
                    parsed,
                    safe,
                    λ out. cc (fine, (first_net-is_some_iff L m.oos_nets a).1 out),
                  ) in
                  let same = refuse_resolved-safe atom kind canon text ips this in
                  elim (refuse_resolved-Checks atom kind canon ips) [
                    | inl (rest, e) ↦ inl ((this, rest), same ∙ e)
                    | inr (bad, (d, e, v)) ↦ inr (λ h. bad h.1, (d, same ∙ e, v))
                  ]
            ]
      ]

  any_inside_iff :
      (ips : List String)
      → All (λ x. IsSafeIp L m x) ips
      → (b : Bool) × (any_inside L m ips ≡ ok b) × ((b ≡ true) ↔ Any (λ x. IsInsideIp L m x) ips)
  unfolding any_inside ip_in
  any_inside_iff [] h = (false, refl, (λ e. cc e, λ e. absurd e))
  any_inside_iff (text ∷ ips) ((a, parsed, _, _), h) =
      let (b, e, found) = any_inside_iff ips h in
      elim (Option-cases (first_net L m.in_nets a)) [
        | inr (net, hit) ↦ (
          true,
          ground arith,
          (λ _. inl (a, parsed, (first_net-is_some_iff L m.in_nets a).0 (rw hit)), λ _. refl),
        )
        | inl miss ↦ (
          b,
          ground arith,
          (
            λ t. inr (found.0 t),
            elim [
              | inl (c, pc, inside) ↦ cc (
                miss,
                (first_net-is_some_iff L m.in_nets a).1 (rw (some_unique text parsed pc) inside),
              )
              | inr more ↦ found.1 more
            ],
          ),
        )
      ]

  has_boundary_iff :
      (mode : IpRangesMode) (ranges : List Net)
      → (has_boundary L m mode ranges ≡ true) ↔ ((mode ≡ boundary) × (ranges ≢ []))
  unfolding has_boundary
  has_boundary_iff additional ranges = ground arith
  has_boundary_iff boundary [] = ground arith
  has_boundary_iff boundary (net ∷ ranges) = ground arith

  check_resolved_ips-Checks :
      (atom : String) (kind : Kind) (canon : String) (ips : List String)
      → Checks
          (All (λ x. IsSafeIp L m x) ips × KeepsBoundary L m ips)
          (check_resolved_ips L m atom kind canon ips)
  unfolding check_resolved_ips deny
  check_resolved_ips-Checks atom kind canon ips =
      let edge = has_boundary_iff m.config.scope_semantics.ip_ranges_mode m.in_nets in
      elim (refuse_resolved-Checks atom kind canon ips) [
        | inr (bad, (d, e, v)) ↦ inr (λ h. bad h.0, (d, ground arith, v))
        | inl (safe, e) ↦
            elim (Bool-cases (has_boundary L m m.config.scope_semantics.ip_ranges_mode m.in_nets)) [
              | inr off ↦ inl ((safe, λ b r. cc (off, edge.1 (b, r))), ground arith)
              | inl on ↦
                  let (b, found, inside) = any_inside_iff ips safe in
                  elim (Bool-cases b) [
                    | inl yes' ↦ inl ((safe, λ _ _. inside.0 yes'), ground arith)
                    | inr no' ↦ inr (
                      λ h. cc (no', inside.1 (h.1 (edge.0 on).0 (edge.0 on).1)),
                      (
                        deny atom kind ip_boundary_miss (resolves_outside canon) none (some canon),
                        ground arith,
                        refl,
                      ),
                    )
                  ]
            ]
      ]

  pub pinned_decision-Checks :
      (atom : String) (kind : Kind) (canon : String) (ips : Option (List String))
      → Checks (PermitsPinned L m ips) (pinned_decision L m atom kind canon ips)
  unfolding pinned_decision
  pinned_decision-Checks atom kind canon none = inl (tt, refl)
  pinned_decision-Checks atom kind canon (some []) = inl (tt, refl)
  pinned_decision-Checks atom kind canon (some (x ∷ ips)) =
      check_resolved_ips-Checks atom kind canon (x ∷ ips)
