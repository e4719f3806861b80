-- ===== src/Scope/Decide.antt =====
-- src/bbagent/scope/matcher.py: the decision on one target.
pub mod Policy
pub mod Addresses
pub mod Refinement
pub mod Order
pub mod Declared
use bugbounty_agent.Base.{
  String, Bool, true, false, Option, none, some, List, [], ◌∷◌, map, contains, if◌then◌else◌,
  Result, ok, err,
}
use bugbounty_agent.Base.Results.{◌>>=◌, expect}
use bugbounty_agent.Base.Text
use bugbounty_agent.Base.Text.{◌<>◌}
use bugbounty_agent.Scope.Ip.{Net}
use bugbounty_agent.Scope.Libs.{Libs, private_deny_reason}
use bugbounty_agent.Scope.Models.{
  Kind, ip, unknown, allow, deny_halt, ReasonCode, in_scope_exact, in_scope_wildcard, in_scope_ip,
  out_of_scope, unverified, private_ip, parse_error, ip_boundary_miss, IpRangesMode, boundary,
  additional, Reason, canonicalization_failed, unexpected_error, ip_hard_denied, ip_out_of_scope,
  ip_in_scope, ip_unmatched, host_is, host_matches, host_unmatched, resolves_to_denied,
  resolves_out_of_scope, resolves_outside, ScopeDecision,
}
use bugbounty_agent.Scope.Url.{canonical_target}
use bugbounty_agent.Scope.Matcher.{
  Exception, canonicalization, value_error, from_canonical, ScopeMatcher, subtree_rule, first_net,
  wild_rule,
}

unfoldable pub deny :
    String → Kind → ReasonCode → Reason → Option String → Option String → ScopeDecision
deny atom kind code reason rule canon = record {
  atom = atom;
  kind = kind;
  verdict = deny_halt;
  reason_code = code;
  reason = reason;
  matched_rule = rule;
  canonical_host = canon;
}

unfoldable pub grant : String → Kind → ReasonCode → Reason → String → String → ScopeDecision
grant atom kind code reason rule canon = record {
  atom = atom;
  kind = kind;
  verdict = allow;
  reason_code = code;
  reason = reason;
  matched_rule = some rule;
  canonical_host = some canon;
}

module _ (L : Libs) (m : ScopeMatcher) where
  unfoldable pub name_out_of_scope : String → Option String
  name_out_of_scope host = elim (subtree_rule host m.oos_domains) [
    | some rule ↦ some rule
    | none ↦
        if contains m.oos_exact_sub host
        then some ("out_of_scope.subdomains:" <> host)
        else wild_rule L "out_of_scope.subdomains:*." host m.oos_wild
  ]

  unfoldable pub name_in_scope : String → Option String
  name_in_scope host =
      if contains m.in_domains host
      then some ("in_scope.domains:" <> host)
      else if contains m.in_exact_sub host
      then some ("in_scope.subdomains:" <> host)
      else wild_rule L "in_scope.subdomains:*." host m.in_wild

  -- _ip_in
  unfoldable pub ip_in : List Net → String → Result Exception (Option String)
  unfolding first_net
  ip_in ranges text = do
    addr ← expect (value_error text) (L.ip_address text)
    ok (first_net L ranges addr)

  unfoldable pub ip_decision : String → String → Result Exception ScopeDecision
  ip_decision atom addr = elim (private_deny_reason L addr) [
    | some reason ↦ ok (deny atom ip private_ip (ip_hard_denied reason) none none)
    | none ↦ do
      oos ← ip_in m.oos_nets addr
      elim oos [
        | some net ↦ ok (deny atom ip out_of_scope (ip_out_of_scope net) (some net) none)
        | none ↦ do
          ins ← ip_in m.in_nets addr
          elim ins [
            | some net ↦
                ok (grant atom ip in_scope_ip (ip_in_scope net) ("in_scope.ip_ranges:" <> net) addr)
            | none ↦ ok (deny atom ip unverified ip_unmatched none none)
          ]
      ]
  ]

  -- the loop over the resolved addresses: the first refusal
  unfoldable pub refuse_resolved :
      String → Kind → String → List String → Result Exception (Option ScopeDecision)
  refuse_resolved atom kind canon [] = ok none
  refuse_resolved atom kind canon (addr ∷ ips) = elim (private_deny_reason L addr) [
    | some reason ↦
        ok (
          some (deny atom kind private_ip (resolves_to_denied canon addr reason) none (some canon)))
    | none ↦ do
      oos ← ip_in m.oos_nets addr
      elim oos [
        | some net ↦ ok (
            some (
              deny atom kind out_of_scope (resolves_out_of_scope canon net) (some net)
                (some canon)))
        | none ↦ refuse_resolved atom kind canon ips
      ]
  ]

  -- any(self._ip_in(self._in_nets, ip) for ip in resolved_ips)
  unfoldable pub any_inside : List String → Result Exception Bool
  any_inside [] = ok false
  any_inside (addr ∷ ips) = do
    ins ← ip_in m.in_nets addr
    elim ins [ some net ↦ ok true | none ↦ any_inside ips ]

  -- the boundary mode is on, and ranges are declared
  unfoldable pub has_boundary : IpRangesMode → List Net → Bool
  has_boundary additional ranges = false
  has_boundary boundary [] = false
  has_boundary boundary (net ∷ ranges) = true

  unfoldable pub check_resolved_ips :
      String → Kind → String → List String → Result Exception (Option ScopeDecision)
  unfolding has_boundary
  check_resolved_ips atom kind canon ips = do
    refused ← refuse_resolved atom kind canon ips
    elim refused [
      | some d ↦ ok (some d)
      | none ↦
          if has_boundary m.config.scope_semantics.ip_ranges_mode m.in_nets
          then (do
            inside ← any_inside ips
            if inside
                then ok none
                else ok (
                    some
                      (deny atom kind ip_boundary_miss (resolves_outside canon) none (some canon))))
          else ok none
    ]

  -- if resolved_ips: ...
  unfoldable pub pinned_decision :
      String → Kind → String → Option (List String) → Result Exception (Option ScopeDecision)
  pinned_decision atom kind canon none = ok none
  pinned_decision atom kind canon (some []) = ok none
  pinned_decision atom kind canon (some (addr ∷ ips)) =
      check_resolved_ips atom kind canon (addr ∷ ips)

  -- what decide does with a canonical host name
  unfoldable pub name_decision :
      String → Kind → String → Option (List String) → Result Exception ScopeDecision
  name_decision atom kind canon resolved_ips = elim (name_out_of_scope canon) [
    | some oos ↦ ok (deny atom kind out_of_scope (host_is canon oos) (some oos) (some canon))
    | none ↦ elim (name_in_scope canon) [
      | none ↦ ok (deny atom kind unverified (host_unmatched canon) none (some canon))
      | some rule ↦ do
        refused ← pinned_decision atom kind canon resolved_ips
        elim refused [
          | some d ↦ ok d
          | none ↦ ok (
              grant atom kind (if Text.has rule ":*." then in_scope_wildcard else in_scope_exact)
                (host_matches canon rule) rule canon)
        ]
    ]
  ]

  -- _decide_inner
  unfoldable pub decide_inner : String → Option (List String) → Result Exception ScopeDecision
  decide_inner atom resolved_ips = do
    (kind, canon) ← from_canonical (canonical_target L atom)
    elim kind [ ip ↦ ip_decision atom canon | k ↦ name_decision atom k canon resolved_ips ]

  unfoldable pub decide : String → Option (List String) → ScopeDecision
  decide atom resolved_ips = elim (decide_inner atom resolved_ips) [
    | ok d ↦ d
    | err (canonicalization e) ↦ deny atom unknown parse_error canonicalization_failed none none
    | err (value_error s) ↦ deny atom unknown parse_error unexpected_error none none
  ]

  unfoldable pub decide_all : List String → List ScopeDecision
  decide_all atoms = map (λ a. decide a none) atoms
