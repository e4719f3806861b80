-- ===== src/Kernel/Gate.antt =====
-- src/bbagent/kernel/gate.py: the status of a decision and the gate of active actions. The clock is
-- an argument, the ordinal of today's date.
pub mod Tiers
use bugbounty_agent.Base.{
  ℕ, String, Bool, true, false, not, Option, List, [], ◌∷◌, if◌then◌else◌, Result, ok, err,
}
use bugbounty_agent.Base.Results.{◌>>=◌, ◌>>◌}
use bugbounty_agent.Scope.Models.{
  ScopeConfig, ScopeDecision, allowed, is_stale, Verdict, allow, deny_halt, ReasonCode, Reason,
}
use bugbounty_agent.Scope.Libs.{Libs}
use bugbounty_agent.Scope.Matcher.{ScopeMatcher}
use bugbounty_agent.Scope.Decide.{decide}
use bugbounty_agent.Store.Models.{ScopeStatus, in_scope}
use bugbounty_agent.Store.Audit.{Hashing}
use bugbounty_agent.Store.Findings.{FindingsStore, record_scope_decision}

-- The reasons that active_preconditions_ok gives.
pub data Precondition : Type 0 where
  not_authorized active_not_allowed stale : Precondition

-- GateError, by the text that it carries
pub data GateError : Type 0 where
  scope_denied : String → Reason → GateError
  active_denied : String → Reason → GateError
  precondition : Precondition → GateError
  no_approval : GateError

unfoldable pub scope_status_for : ScopeDecision → ScopeStatus
scope_status_for d = elim d.verdict [
  | allow ↦ in_scope
  | deny_halt ↦ elim d.reason_code [
    | ReasonCode.out_of_scope ↦ ScopeStatus.out_of_scope
    | _ ↦ ScopeStatus.unverified
  ]
]

-- active_preconditions_ok: what fails first, or ok
unfoldable pub active_preconditions_ok : ScopeConfig → ℕ → Result Precondition Unit
active_preconditions_ok config today =
    if not config.authorized
    then err not_authorized
    else if not config.active_actions_allowed
    then err active_not_allowed
    else if is_stale config today 30
    then err stale
    else ok tt

-- the loop over the decisions
unfoldable pub require_allowed : List ScopeDecision → Result GateError Unit
require_allowed [] = ok tt
require_allowed (d ∷ ds) =
    if allowed d then require_allowed ds else err (active_denied d.atom d.reason)

abbrev pub from_precondition : {A : Type 0} → Result Precondition A → Result GateError A
from_precondition (ok a) = ok a
from_precondition (err e) = err (precondition e)

unfoldable pub assert_active_allowed :
    ScopeConfig → ℕ → List ScopeDecision → Bool → Result GateError Unit
assert_active_allowed config today decisions approval_ok = do
  require_allowed decisions
  from_precondition (active_preconditions_ok config today)
  if approval_ok then ok tt else err no_approval

module _ (L : Libs) (H : Hashing) (m : ScopeMatcher) where
  -- Kernel.scope_check: the store with the decision recorded, the decision and its id
  unfoldable pub scope_check :
      FindingsStore → String → Option (List String) → FindingsStore × ScopeDecision × ℕ
  scope_check s atom resolved_ips =
      let d = decide L m atom resolved_ips in
      let (s', id) = record_scope_decision H s d in (s', d, id)

  -- Kernel.require_in_scope: what scope_check leaves, and the error that is raised
  unfoldable pub require_in_scope :
      FindingsStore
      → String
      → Option (List String)
      → FindingsStore × Result GateError (ScopeDecision × ℕ)
  unfolding scope_check
  require_in_scope s atom resolved_ips =
      let (s', d, id) = scope_check s atom resolved_ips in
      if allowed d then (s', ok (d, id)) else (s', err (scope_denied atom d.reason))
