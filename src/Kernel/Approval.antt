-- ===== src/Kernel/Approval.antt =====
-- src/bbagent/kernel/approval.py: the fingerprint of a command, the providers and the broker. The
-- digest of the canonical JSON text (json.dumps, then sha256) is a parameter; a reviewer's answer is
-- an argument.
pub mod OneShot
pub mod Binding
use bugbounty_agent.Base.{
  ℕ, String, Bool, true, false, not, ◌&&◌, ◌||◌, Option, none, some, List, [], ◌∷◌, ◌==◌, contains,
  if◌then◌else◌,
}
use bugbounty_agent.Base.Sorted.{sorted}

-- The dictionary that fingerprint dumps, its lists sorted.
pub record Command : Type 0 where
  pub tool : String
  pub argv : List String
  pub targets : List String
  pub is_active : Bool
  pub phase : String
  pub run_id : String

abbrev pub Digest : Type 0
Digest = Command → String

unfoldable pub fingerprint :
    Digest → String → List String → List String → Bool → String → String → String
fingerprint digest tool argv targets is_active phase run_id = digest (record {
  tool = tool;
  argv = sorted argv;
  targets = sorted targets;
  is_active = is_active;
  phase = phase;
  run_id = run_id;
})

pub record ApprovalRequest : Type 0 where
  pub program : String
  pub tool : String
  pub argv : List String
  pub targets : List String
  pub is_active : Bool
  pub phase : String
  pub run_id : String
  pub rationale : String
  pub out_of_scope_notes : List String
  pub est_requests : ℕ
  pub rps : ℕ
  pub concurrency : ℕ

pub record ApprovalGrant : Type 0 where
  pub fp : String
  pub granted : Bool
  pub approver : String

-- How the prompt of CLIApprovalProvider ends: a line, or EOFError or KeyboardInterrupt.
pub data Answer : Type 0 where
  line : String → Answer
  aborted : Answer

module _ (digest : Digest) where
  unfoldable pub fp : ApprovalRequest → String
  unfolding fingerprint
  fp r = fingerprint digest r.tool r.argv r.targets r.is_active r.phase r.run_id

  -- AutoDenyProvider.review, FixedGrantProvider.review
  unfoldable pub auto_deny : ApprovalRequest → ApprovalGrant
  auto_deny r = record { fp = fp r; granted = false; approver = "auto-deny" }

  unfoldable pub fixed_grant : Bool → ApprovalRequest → ApprovalGrant
  fixed_grant grant r = record { fp = fp r; granted = grant; approver = "test" }

  -- CLIApprovalProvider.review; normal is line.strip().lower()
  unfoldable pub cli_review : (String → String) → Bool → Answer → ApprovalRequest → ApprovalGrant
  cli_review normal isatty answer r =
      if not isatty
      then record { fp = fp r; granted = false; approver = "no-tty" }
      else elim answer [
        | aborted ↦ record { fp = fp r; granted = false; approver = "aborted" }
        | line text ↦ record {
          fp = fp r;
          granted = normal text == "y" || normal text == "yes";
          approver = "cli-human";
        }
      ]

  -- ApprovalBroker.approve: the burned fingerprints, the request and the grant of its review
  unfoldable pub approve : List String → ApprovalRequest → ApprovalGrant → Bool × List String
  approve burned request grant =
      if not grant.granted
      then (false, burned)
      else if not (grant.fp == fp request)
      then (false, burned)
      else if contains burned (fp request)
      then (false, burned)
      else (true, fp request ∷ burned)

  -- A broker's life: the answers to the calls of approve, in order.
  unfoldable pub approvals : List String → List (ApprovalRequest × ApprovalGrant) → List Bool
  approvals burned [] = []
  approvals burned ((request, grant) ∷ calls) =
      let (answer, burned') = approve burned request grant in answer ∷ approvals burned' calls
