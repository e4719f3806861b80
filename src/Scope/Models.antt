-- ===== src/Scope/Models.antt =====
-- src/bbagent/scope/models.py: the scope configuration and the decision on one target. A date is
-- its ordinal (date.toordinal), a rate a number of requests per thousand seconds.
use bugbounty_agent.Base.{
  ℕ, ◌+◌, String, Bool, true, false, Option, none, some, List, ltb, if◌then◌else◌,
}
use bugbounty_agent.Scope.Ip.{DenyReason}

pub data Platform : Type 0 where
  hackerone bugcrowd intigriti yeswehack self_hosted other : Platform

pub data Verdict : Type 0 where
  allow deny_halt : Verdict

pub data ReasonCode : Type 0 where
  in_scope_exact in_scope_wildcard in_scope_ip out_of_scope : ReasonCode
  unverified private_ip parse_error ip_boundary_miss : ReasonCode

pub data IpRangesMode : Type 0 where
  boundary additional : IpRangesMode

pub record ProgramInfo : Type 0 where
  pub name : String
  pub platform : Platform
  pub policy_url : Option String
  pub authorized_until : Option ℕ
  pub last_verified_at : Option ℕ

pub record InScope : Type 0 where
  pub domains : List String
  pub subdomains : List String
  pub ip_ranges : List String

pub record OutOfScope : Type 0 where
  pub domains : List String
  pub subdomains : List String
  pub ip_ranges : List String
  pub notes : List String

pub record ScopeSemantics : Type 0 where
  pub ip_ranges_mode : IpRangesMode

pub record RateLimits : Type 0 where
  pub requests_per_second : ℕ
  pub max_concurrency : ℕ

pub record ScopeConfig : Type 0 where
  pub program : ProgramInfo
  pub authorized : Bool
  pub in_scope : InScope
  pub scope_semantics : ScopeSemantics
  pub out_of_scope : OutOfScope
  pub rate_limits : RateLimits
  pub active_actions_allowed : Bool
  pub notes : Option String

-- authorized_until is not None and authorized_until < today
unfoldable pub expired : Option ℕ → ℕ → Bool
expired none today = false
expired (some until) today = ltb until today

-- last_verified_at is not None and (today - last_verified_at).days > max_verify_age_days
unfoldable pub too_old : Option ℕ → ℕ → ℕ → Bool
too_old none today age = false
too_old (some verified) today age = ltb (verified + age) today

unfoldable pub is_stale : ScopeConfig → ℕ → ℕ → Bool
unfolding expired too_old
is_stale c today max_verify_age_days =
    if expired c.program.authorized_until today
    then true
    else if too_old c.program.last_verified_at today max_verify_age_days
    then true
    else false

-- What a target is said to be.
pub data Kind : Type 0 where
  domain ip url unknown : Kind

-- The reason texts, by what they are formatted from.
pub data Reason : Type 0 where
  canonicalization_failed unexpected_error : Reason
  ip_hard_denied : DenyReason → Reason
  ip_out_of_scope ip_in_scope : String → Reason
  ip_unmatched : Reason
  host_is host_matches : String → String → Reason
  host_unmatched : String → Reason
  resolves_to_denied : String → String → DenyReason → Reason
  resolves_out_of_scope : String → String → Reason
  resolves_outside : String → Reason

pub record ScopeDecision : Type 0 where
  pub atom : String
  pub kind : Kind
  pub verdict : Verdict
  pub reason_code : ReasonCode
  pub reason : Reason
  pub matched_rule : Option String
  pub canonical_host : Option String

unfoldable pub allowed : ScopeDecision → Bool
allowed d = elim d.verdict [ allow ↦ true | deny_halt ↦ false ]
