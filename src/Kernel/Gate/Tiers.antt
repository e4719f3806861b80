-- ===== src/Kernel/Gate/Tiers.antt =====
-- The two tiers of src/bbagent/kernel/gate.py: what an active action needs.
use bugbounty_agent.Base.{
  ℕ, ◌+◌, ◌<◌, ◌≡◌, ◌↔◌, ◌⊎◌, refl, Bool, true, false, Option, none, some, List, [], ◌∷◌, All,
  arith, ok,
}
use bugbounty_agent.Scope.Models.{
  ScopeConfig, ScopeDecision, allowed, is_stale, expired, too_old, allow,
}
use bugbounty_agent.Kernel.Gate.{active_preconditions_ok, require_allowed, assert_active_allowed}

-- A date that is there and has passed.
abbrev pub IsPast : Option ℕ → ℕ → Type 0
IsPast none today = ⊥
IsPast (some until) today = until < today

-- A date that is there and lies more than so many days back.
abbrev pub IsOlder : Option ℕ → ℕ → ℕ → Type 0
IsOlder none days today = ⊥
IsOlder (some verified) days today = verified + days < today

expired_iff : (o : Option ℕ) (today : ℕ) → (expired o today ≡ true) ↔ IsPast o today
unfolding expired
expired_iff none today = ground arith
expired_iff (some until) today = ground arith

too_old_iff : (o : Option ℕ) (today days : ℕ) → (too_old o today days ≡ true) ↔ IsOlder o days today
unfolding too_old
too_old_iff none today days = ground arith
too_old_iff (some verified) today days = ground arith

-- A scope is stale exactly when its authorization has ended or its last verification is too old.
pub is_stale_iff :
    (c : ScopeConfig) (today days : ℕ)
    → (is_stale c today days ≡ true)
      ↔ (IsPast c.program.authorized_until today ⊎ IsOlder c.program.last_verified_at days today)
unfolding is_stale
is_stale_iff c today days = ground (
  arith,
  expired_iff c.program.authorized_until today,
  too_old_iff c.program.last_verified_at today days,
)

require_allowed_iff :
    (ds : List ScopeDecision) → (require_allowed ds ≡ ok tt) ↔ All (λ d. d.verdict ≡ allow) ds
unfolding require_allowed allowed
require_allowed_iff [] = (λ _. tt, λ _. refl)
require_allowed_iff (d ∷ ds) = ground (arith, require_allowed_iff ds)

active_preconditions_ok_iff :
    (c : ScopeConfig) (today : ℕ)
    → (active_preconditions_ok c today ≡ ok tt)
      ↔ ((c.authorized ≡ true) × (c.active_actions_allowed ≡ true) × (is_stale c today 30 ≡ false))
unfolding active_preconditions_ok
active_preconditions_ok_iff c today = ground arith

-- The gate lets an active action pass exactly when every decision allows, the scope is authorized,
-- permits active actions and is not stale by 30 days, and the approval was given.
pub assert_active_allowed_iff :
    (c : ScopeConfig) (today : ℕ) (ds : List ScopeDecision) (approval_ok : Bool)
    → (assert_active_allowed c today ds approval_ok ≡ ok tt) ↔ (
        All (λ d. d.verdict ≡ allow) ds
        × (c.authorized ≡ true)
        × (c.active_actions_allowed ≡ true)
        × (¬ (
            IsPast c.program.authorized_until today ⊎ IsOlder c.program.last_verified_at 30 today))
        × (approval_ok ≡ true))
unfolding assert_active_allowed
assert_active_allowed_iff c today ds approval_ok =
    ground
      (arith, require_allowed_iff ds, active_preconditions_ok_iff c today, is_stale_iff c today 30)
