-- ===== src/Scope/Decide/Policy.antt =====
-- What a scope permits, said without the order of tests in src/bbagent/scope/matcher.py.
use bugbounty_agent.Base.{
  String, ◌≡◌, ◌≢◌, ◌⊎◌, Option, none, some, List, [], ◌∷◌, All, Any, Result, ok, err, true,
}
use bugbounty_agent.Base.Text.{◌<>◌}
use bugbounty_agent.Scope.Ip.{Addr, covers}
use bugbounty_agent.Scope.Libs.{Libs, private_deny_reason}
use bugbounty_agent.Scope.Models.{Kind, ip, allow, boundary, ScopeDecision}
use bugbounty_agent.Scope.Matcher.{Exception, ScopeMatcher}
use bugbounty_agent.Scope.Matcher.Names.{IsUnder, IsWild}
use bugbounty_agent.Scope.Url.{canonical_target}

module _ (L : Libs) (m : ScopeMatcher) where
  -- An entry of out_of_scope excludes the name.
  abbrev pub IsOutName : String → Type 0
  IsOutName host =
      Any (λ d. IsUnder host d) m.oos_domains
      ⊎ Any (λ x. x ≡ host) m.oos_exact_sub
      ⊎ Any (λ b. IsWild L host b) m.oos_wild

  -- The rule names an entry of out_of_scope that excludes the name.
  abbrev pub IsOutRule : String → String → Type 0
  IsOutRule host rule =
      Any (λ d. IsUnder host d × (rule ≡ "out_of_scope.domains:" <> d)) m.oos_domains
      ⊎ Any (λ x. (x ≡ host) × (rule ≡ "out_of_scope.subdomains:" <> x)) m.oos_exact_sub
      ⊎ Any (λ b. IsWild L host b × (rule ≡ "out_of_scope.subdomains:*." <> b)) m.oos_wild

  -- An entry of in_scope names the host.
  abbrev pub IsInName : String → Type 0
  IsInName host =
      Any (λ x. x ≡ host) m.in_domains
      ⊎ Any (λ x. x ≡ host) m.in_exact_sub
      ⊎ Any (λ b. IsWild L host b) m.in_wild

  abbrev pub IsOutAddr : Addr → Type 0
  IsOutAddr addr = Any (λ net. covers net addr ≡ true) m.oos_nets

  abbrev pub IsInAddr : Addr → Type 0
  IsInAddr addr = Any (λ net. covers net addr ≡ true) m.in_nets

  -- An address that is neither hard-denied nor out of scope.
  abbrev pub IsSafeIp : String → Type 0
  IsSafeIp text =
      (addr : Addr) × (L.ip_address text ≡ some addr)
      × (private_deny_reason L text ≡ none)
      × (¬ IsOutAddr addr)

  -- An address that in_scope.ip_ranges hold.
  abbrev pub IsInsideIp : String → Type 0
  IsInsideIp text = (addr : Addr) × (L.ip_address text ≡ some addr) × IsInAddr addr

  abbrev pub PermitsIp : String → Type 0
  PermitsIp text = IsSafeIp text × IsInsideIp text

  -- In boundary mode, with ranges declared, one of the addresses lies in a range.
  abbrev pub KeepsBoundary : List String → Type 0
  KeepsBoundary ips =
      m.config.scope_semantics.ip_ranges_mode ≡ boundary
      → m.in_nets ≢ []
      → Any (λ text. IsInsideIp text) ips

  abbrev pub PermitsPinned : Option (List String) → Type 0
  PermitsPinned none = Unit
  PermitsPinned (some []) = Unit
  PermitsPinned (some (x ∷ ips)) = All (λ text. IsSafeIp text) (x ∷ ips) × KeepsBoundary (x ∷ ips)

  abbrev pub PermitsName : String → Option (List String) → Type 0
  PermitsName host ips = (¬ IsOutName host) × IsInName host × PermitsPinned ips

  abbrev pub PermitsTarget : Kind → String → Option (List String) → Type 0
  PermitsTarget ip canon ips = PermitsIp canon
  PermitsTarget _ canon ips = PermitsName canon ips

  -- The target has a canonical form that the scope permits.
  abbrev pub Permits : String → Option (List String) → Type 0
  Permits atom ips =
      (kind : Kind) × (canon : String) × (canonical_target L atom ≡ ok (kind, canon))
      × PermitsTarget kind canon ips

-- A decision that was reached, and that allows.
abbrev pub Allows : Result Exception ScopeDecision → Type 0
Allows (ok d) = d.verdict ≡ allow
Allows (err e) = ⊥
