-- ===== src/Tests/Actions.antt =====
-- The kernel at concrete inputs.
use bugbounty_agent.Base.{
  ◌+◌, ◌≤◌, ◌<◌, ◌≡◌, ◌≢◌, ◌↔◌, ◌⊎◌, refl, true, false, none, some, [], ◌∷◌, ◌==◌, All, contains,
  arith, ok,
}
use bugbounty_agent.Kernel.Approval.{
  Digest, ApprovalRequest, ApprovalGrant, fp, approve, approvals, fingerprint,
}
use bugbounty_agent.Kernel.Approval.OneShot.{times, times-le_one}
use bugbounty_agent.Kernel.Approval.Binding.{SameCommand, Collision, approve_binds}
use bugbounty_agent.Kernel.Gate.{assert_active_allowed}
use bugbounty_agent.Kernel.Gate.Tiers.{IsPast, IsOlder, assert_active_allowed_iff}
use bugbounty_agent.Kernel.Rate.{RateGovernor, init, interval, pace, narrowed, release, acquire}
use bugbounty_agent.Kernel.Rate.Pacing.{starts, IsSpaced, starts-IsSpaced}
use bugbounty_agent.Kernel.Rate.Slots.{enter, unused, used, holders-le-cap}
use bugbounty_agent.Kernel.Sandbox.{EgressGuard, control}
use bugbounty_agent.Kernel.Sandbox.Containment.{control_allowed_iff}
use bugbounty_agent.Scope.Models.{ScopeDecision, allow}
use bugbounty_agent.Tests.Targets.{config}

abbrev pub digest : Digest
digest c = c.tool

abbrev request : ApprovalRequest
request = record {
  program = "toy";
  tool = "liveness-probe";
  argv = "HEAD" ∷ "www.example.com" ∷ [];
  targets = "www.example.com" ∷ [];
  is_active = true;
  phase = "ENUMERATION";
  run_id = "1";
  rationale = "";
  out_of_scope_notes = [];
  est_requests = 1;
  rps = 1000;
  concurrency = 1;
}

abbrev yes_grant : ApprovalGrant
yes_grant = record { fp = "liveness-probe"; granted = true; approver = "cli-human" }

-- the second of two equal requests is refused
spent : approvals digest [] ((request, yes_grant) ∷ (request, yes_grant) ∷ []) ≡ true ∷ false ∷ []
unfolding approvals approve fp fingerprint contains
spent = refl

times-le_one_example :
    times digest "liveness-probe"
      ((request, yes_grant) ∷ (request, yes_grant) ∷ [])
      (approvals digest [] ((request, yes_grant) ∷ (request, yes_grant) ∷ []))
    ≤ 1
times-le_one_example =
    times-le_one digest "liveness-probe" [] ((request, yes_grant) ∷ (request, yes_grant) ∷ [])

made : yes_grant.fp ≡ fp digest request
unfolding fp fingerprint
made = refl

said : (approve digest [] request yes_grant).0 ≡ true
unfolding approve fp fingerprint contains
said = refl

approve_binds_example : SameCommand request request ⊎ Collision digest
approve_binds_example = approve_binds digest [] request request yes_grant made said

assert_active_allowed_iff_example : (assert_active_allowed config 738930 [] true ≡ ok tt) ↔ (
    All {A = ScopeDecision} (λ d. d.verdict ≡ allow) []
    × (true ≡ true)
    × (true ≡ true)
    × (¬ (IsPast (some 739000) 738930 ⊎ IsOlder (some 738900) 30 738930))
    × (true ≡ true))
assert_active_allowed_iff_example = assert_active_allowed_iff config 738930 [] true

-- one request a second, two slots
abbrev pub governor : RateGovernor
governor = record {
  rps = 1000;
  max_concurrency = 2;
  next_free = 5;
  available = 2;
  total_acquires = 0;
}

starts-IsSpaced_example : IsSpaced (interval 1000) 5 (starts governor (7 ∷ 8 ∷ []))
starts-IsSpaced_example = starts-IsSpaced governor (7 ∷ 8 ∷ [])

first_starts : All (λ t. t < 5 + 1000000003) (starts governor (7 ∷ 8 ∷ []))
unfolding pace interval
first_starts = omega arith

abbrev slower : RateGovernor
slower = record { rps = 500; max_concurrency = 2; next_free = 9; available = 2; total_acquires = 0 }

made_slower : narrowed governor 500 3 9 ≡ ok slower
unfolding narrowed init
made_slower = refl

made_governor : init 1000 2 5 ≡ ok governor
unfolding init
made_governor = refl

abbrev entered : RateGovernor
entered = record governor { available = 1 }

one_enters : acquire governor ≡ some entered
unfolding acquire
one_enters = refl

holders-le-cap_example : (1 ≤ 2) × (0 < 1 → release entered ≢ none)
holders-le-cap_example =
    holders-le-cap 1000 2 5 governor {t = record { governor = entered; holders = 1 }} made_governor
      (used (enter entered one_enters) unused)

abbrev pub guard : EgressGuard
guard = record {
  allowed_ips = "203.0.113.7" ∷ "1.1.1.1" ∷ [];
  control_ip = "1.1.1.1";
  control_port = 53;
  connect_fn = λ ip port. ip == "203.0.113.7";
}

control_allowed_iff_example : (contains guard.allowed_ips (control guard) ≡ true) ↔ (
    (contains guard.allowed_ips "1.1.1.1" ≡ true) × (contains guard.allowed_ips "8.8.8.8" ≡ true))
control_allowed_iff_example = control_allowed_iff guard
