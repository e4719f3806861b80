-- ===== src/Kernel/Approval/OneShot.antt =====
-- The answers of the broker of src/bbagent/kernel/approval.py, one request after the other.
use bugbounty_agent.Base.{
  ℕ, ◌+◌, ◌≤◌, ◌≡◌, ◌↔◌, inl, inr, refl, String, Bool, true, false, ◌&&◌, List, [], ◌∷◌, ◌==◌,
  eq_iff, contains, arith, Bool-cases, if◌then◌else◌,
}
use bugbounty_agent.Kernel.Approval.{Digest, ApprovalRequest, ApprovalGrant, fp, approve, approvals}

module _ (digest : Digest) where
  -- approve answers yes exactly for a grant that was given, that bears the fingerprint of the
  -- request, and whose fingerprint is not burned.
  pub approve_iff :
      (burned : List String) (r : ApprovalRequest) (g : ApprovalGrant)
      → ((approve digest burned r g).0 ≡ true)
        ↔ ((g.granted ≡ true) × (g.fp ≡ fp digest r) × (contains burned (fp digest r) ≡ false))
  unfolding approve
  approve_iff burned r g = ground (arith, eq_iff g.fp (fp digest r))

  -- how many of the answers say yes to a request with the fingerprint
  abbrev pub times : String → List (ApprovalRequest × ApprovalGrant) → List Bool → ℕ
  times x [] answers = 0
  times x (call ∷ calls) [] = 0
  times x ((r, g) ∷ calls) (answer ∷ answers) =
      (if answer && fp digest r == x then 1 else 0) + times x calls answers

  burned_stays :
      (x : String) (burned : List String) (r : ApprovalRequest) (g : ApprovalGrant)
      → contains burned x ≡ true
      → (contains (approve digest burned r g).1 x ≡ true)
        × (((approve digest burned r g).0 && fp digest r == x) ≡ false)
  unfolding approve contains
  burned_stays x burned r g h = ground (arith, eq_iff (fp digest r) x)

  times-burned :
      (x : String) (burned : List String) (calls : List (ApprovalRequest × ApprovalGrant))
      → contains burned x ≡ true
      → times x calls (approvals digest burned calls) ≡ 0
  unfolding approvals
  times-burned x burned [] h = refl
  times-burned x burned ((r, g) ∷ calls) h =
      let (stays, silent) = burned_stays x burned r g h in
      rw silent (omega (arith, times-burned x (approve digest burned r g).1 calls stays))

  approved_burns :
      (burned : List String) (r : ApprovalRequest) (g : ApprovalGrant)
      → (approve digest burned r g).0 ≡ true
      → contains (approve digest burned r g).1 (fp digest r) ≡ true
  unfolding approve contains
  approved_burns burned r g h = ground (arith, eq_iff (fp digest r) (fp digest r))

  -- Whatever requests and grants a broker is given, it says yes at most once for a fingerprint.
  pub times-le_one :
      (x : String) (burned : List String) (calls : List (ApprovalRequest × ApprovalGrant))
      → times x calls (approvals digest burned calls) ≤ 1
  unfolding approvals
  times-le_one x burned [] = omega arith
  times-le_one x burned ((r, g) ∷ calls) =
      let after = (approve digest burned r g).1 in
      elim (Bool-cases ((approve digest burned r g).0 && fp digest r == x)) [
        | inr quiet ↦ rw quiet (omega (arith, times-le_one x after calls))
        | inl spent ↦
            let said : (approve digest burned r g).0 ≡ true = ground arith in
            let same : fp digest r ≡ x = (eq_iff (fp digest r) x).0 (ground arith) in
            let stays : contains after x ≡ true = rw same at (approved_burns burned r g said) in
            rw spent (omega (arith, times-burned x after calls stays))
      ]
