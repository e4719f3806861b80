-- ===== src/Orchestrator/Safety.antt =====
-- What a lawful probe of src/bbagent/orchestrator/orchestrator.py means for its host and address.
use bugbounty_agent.Base.{◌≡◌, subst, sym, ◌∙◌, String, true, Option, some, ◌∷◌, ok, arith}
use bugbounty_agent.Scope.Models.{domain}
use bugbounty_agent.Scope.Url.{canonical_target}
use bugbounty_agent.Scope.Decide.Policy.{IsOutName, IsInName, IsSafeIp, PermitsTarget}
use bugbounty_agent.Scope.Decide.Refinement.{decide-allow_iff}
use bugbounty_agent.Kernel.Auth.{Headers}
use bugbounty_agent.Kernel.Gate.{active_preconditions_ok}
use bugbounty_agent.Orchestrator.{Orchestrator, probe}
use bugbounty_agent.Orchestrator.Lawful.{IsLawful}

-- A lawful probe of a host name belongs to an authorized scope that permits active actions, its
-- host is in scope and not out of scope, and its address is neither internal nor out of scope.
pub probe-IsSafeIp :
    (o : Orchestrator) (host addr canon : String) {headers : Option Headers}
    → IsLawful o (probe host addr headers)
    → canonical_target o.libs host ≡ ok (domain, canon)
    → (o.config.authorized ≡ true)
      × (o.config.active_actions_allowed ≡ true)
      × (¬ IsOutName o.libs o.matcher canon)
      × IsInName o.libs o.matcher canon
      × IsSafeIp o.libs o.matcher addr
unfolding active_preconditions_ok
probe-IsSafeIp o host addr canon (pre, granted, (addrs, resolved, allows), same) named =
    let (kind, found, e, permitted) =
      (decide-allow_iff o.libs o.matcher host (some (addr ∷ addrs))).0 allows in
    let both : ok (kind, found) ≡ ok (domain, canon) = sym e ∙ named in
    let kinds : kind ≡ domain = cc both in
    let names : found ≡ canon = cc both in
    let here =
      subst (λ k. PermitsTarget o.libs o.matcher k found (some (addr ∷ addrs))) kinds permitted in
    let at =
      subst (λ c. PermitsTarget o.libs o.matcher domain c (some (addr ∷ addrs))) names here in
    (ground arith, ground arith, at.0, at.1, at.2.0.0)
