-- ===== src/Cli/Commands.antt =====
-- The commands recon, run and map of src/bbagent/cli.py: what they make of a scope file and of their
-- flags. build is the constructor of Orchestrator with its defaults, ask the prompt that a reviewer
-- answers. What is printed is left out.
use bugbounty_agent.Base.{
  ℕ, ◌≡◌, ◌⊎◌, inl, inr, refl, sym, subst, String, Bool, true, false, Option, none, some, All,
  if◌then◌else◌, Result, ok,
}
use bugbounty_agent.Base.Results.{◌>>=◌, Ensures-ok, any-Ensures}
use bugbounty_agent.Scope.Models.{ScopeConfig}
use bugbounty_agent.Scope.Loader.{Loading, LoadError, load_scope}
use bugbounty_agent.Kernel.Approval.{ApprovalRequest, ApprovalGrant, Digest, auto_deny}
use bugbounty_agent.Kernel.Auth.{AuthProfile, is_empty}
use bugbounty_agent.Orchestrator.{Orchestrator, Run}
use bugbounty_agent.Orchestrator.Runs.{Mode, recon_only, full}
use bugbounty_agent.Orchestrator.Runs
use bugbounty_agent.Orchestrator.Contacts.{left}
use bugbounty_agent.Orchestrator.Lawful.{IsPassive, run-IsPassive}

-- the commands that run the orchestrator, with their flag --active
pub data Command : Type 0 where
  recon map : Bool → Command
  run : Command

unfoldable pub is_active : Command → Bool
is_active (recon active) = active
is_active (map active) = active
is_active run = true

unfoldable pub mode_of : Command → Mode
unfolding is_active
mode_of c = if is_active c then full else recon_only

-- _load_auth: a profile without headers counts as none
unfoldable pub load_auth : AuthProfile → Option AuthProfile
unfolding is_empty
load_auth profile = if is_empty profile then none else some profile

-- The commands recon and map without their flag --active. The command run has no such flag and is
-- always active.
abbrev pub IsWithoutActive : Command → Type 0
IsWithoutActive c = (c ≡ recon false) ⊎ (c ≡ map false)

mode_of-passive : (c : Command) → IsWithoutActive c → mode_of c ≡ recon_only
unfolding mode_of is_active
mode_of-passive c (inl e) = rw e refl
mode_of-passive c (inr e) = rw e refl

-- the constructor of Orchestrator, from a scope, a reviewer and a profile
abbrev pub Build : Type 0
Build = ScopeConfig → (ApprovalRequest → ApprovalGrant) → Option AuthProfile → Orchestrator

-- the orchestrator that a command makes; without a provider it denies every request
unfoldable pub orchestrator_of :
    Digest
    → Build
    → (ApprovalRequest → ApprovalGrant)
    → Command
    → ScopeConfig
    → AuthProfile
    → Orchestrator
unfolding is_active load_auth
orchestrator_of digest build ask c config profile =
    build config (if is_active c then ask else auto_deny digest)
      (if is_active c then load_auth profile else none)

module _ (D : Loading) (digest : Digest) (today : ℕ) (build : Build)
    (ask : ApprovalRequest → ApprovalGrant) where
  -- a command on the text of a scope file, from a run that has begun
  unfoldable pub execute :
      Command → Option String → AuthProfile → Run → Result LoadError (Result Run Run)
  unfolding load_scope orchestrator_of mode_of
  execute c file profile start = do
    config ← load_scope D file false true today
    ok (Runs.run (orchestrator_of digest build ask c config profile) (mode_of c) start)

  -- The commands recon and map, when they are given without --active, make no contact with the
  -- target, whatever the scope file, the profile and the reviewer say: if the contacts before them are
  -- with sources of public records alone, so are those that they leave. The command run, which has no
  -- such flag, is not meant.
  pub execute-IsPassive :
      (c : Command) (file : Option String) (profile : AuthProfile) (start : Run)
      {ended : Result Run Run}
      → IsWithoutActive c
      → All IsPassive start.trace
      → execute c file profile start ≡ ok ended
      → All IsPassive (left ended).trace
  unfolding execute
  execute-IsPassive c file profile start passive h =
      Ensures-ok (λ (ended : Result Run Run). All IsPassive (left ended).trace)
        (execute c file profile start)
        (any-Ensures (λ (ended : Result Run Run). All IsPassive (left ended).trace)
          (load_scope D file false true today) _
          λ config.
            subst
              (λ m.
                All IsPassive
                  (left
                    (Runs.run (orchestrator_of digest build ask c config profile) m start)).trace)
              (sym (mode_of-passive c passive))
              (run-IsPassive (orchestrator_of digest build ask c config profile) start h))
