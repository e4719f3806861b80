-- ===== src/Kernel/Approval/Binding.antt =====
-- What a grant of src/bbagent/kernel/approval.py is bound to.
use mathlib.Core.List.{Perm}
use mathlib.Core.List.Perm
use bugbounty_agent.Base.{
  ◌≡◌, ◌≢◌, ◌⊎◌, inl, inr, refl, sym, ap, ◌∙◌, subst, String, true, List, String-discrete,
}
use bugbounty_agent.Base.Sorted.{sorted, sorted-perm}
use bugbounty_agent.Kernel.Approval.{
  Command, Digest, fingerprint, ApprovalRequest, ApprovalGrant, fp, approve,
}
use bugbounty_agent.Kernel.Approval.OneShot.{approve_iff}

Command-discrete : Discrete Command
Command-discrete = hlevel String-discrete

-- Two commands with one digest.
abbrev pub Collision : Digest → Type 0
Collision digest = (a : Command) × (b : Command) × (a ≢ b) × (digest a ≡ digest b)

-- The same tool in the same phase of the same run, with the same arguments and targets up to order.
pub record SameCommand (a b : ApprovalRequest) : Type 0 where
  pub tool : a.tool ≡ b.tool
  pub argv : Perm a.argv b.argv
  pub targets : Perm a.targets b.targets
  pub is_active : a.is_active ≡ b.is_active
  pub phase : a.phase ≡ b.phase
  pub run_id : a.run_id ≡ b.run_id

perm_of_sorted : (xs ys : List String) → sorted xs ≡ sorted ys → Perm xs ys
perm_of_sorted xs ys e =
    Perm.trans (Perm.symm (sorted-perm xs)) (subst (λ l. Perm l ys) (sym e) (sorted-perm ys))

abbrev command : ApprovalRequest → Command
command r = record {
  tool = r.tool;
  argv = sorted r.argv;
  targets = sorted r.targets;
  is_active = r.is_active;
  phase = r.phase;
  run_id = r.run_id;
}

module _ (digest : Digest) where
  fp-command : (r : ApprovalRequest) → fp digest r ≡ digest (command r)
  unfolding fp fingerprint
  fp-command r = refl

  same_of_command : (a b : ApprovalRequest) → command a ≡ command b → SameCommand a b
  same_of_command a b e = record {
    tool = ap (λ (c : Command). c.tool) e;
    argv = perm_of_sorted a.argv b.argv (ap (λ (c : Command). c.argv) e);
    targets = perm_of_sorted a.targets b.targets (ap (λ (c : Command). c.targets) e);
    is_active = ap (λ (c : Command). c.is_active) e;
    phase = ap (λ (c : Command). c.phase) e;
    run_id = ap (λ (c : Command). c.run_id) e;
  }

  -- A grant that was made for one request and that approves another shows a collision of the digest,
  -- unless both are the same command.
  pub approve_binds :
      (burned : List String) (reviewed r : ApprovalRequest) (g : ApprovalGrant)
      → g.fp ≡ fp digest reviewed
      → (approve digest burned r g).0 ≡ true
      → SameCommand reviewed r ⊎ Collision digest
  approve_binds burned reviewed r g made said =
      let (_, same, _) = (approve_iff digest burned r g).0 said in
      let equal : digest (command reviewed) ≡ digest (command r) =
        sym (fp-command reviewed) ∙ sym made ∙ same ∙ fp-command r in
      elim (Command-discrete (command reviewed) (command r)) [
        | yes e ↦ inl (same_of_command reviewed r e)
        | no other ↦ inr (command reviewed, command r, other, equal)
      ]
