-- ===== src/Kernel/Sandbox/Containment.antt =====
-- What the egress guard of src/bbagent/kernel/sandbox.py checks.
use bugbounty_agent.Base.{
  ◌≡◌, ◌↔◌, String, true, false, Option, none, some, eq_iff, contains, arith, ok,
}
use bugbounty_agent.Kernel.Sandbox.{EgressGuard, control, has_sentinel, verify_active}

-- The guard passes exactly when the launcher's sentinel is set and the connection to the control
-- host fails.
pub verify_active_iff :
    (g : EgressGuard) (sentinel : Option String)
    → (verify_active g sentinel ≡ ok tt)
      ↔ ((sentinel ≡ some "1") × (g.connect_fn (control g) g.control_port ≡ false))
unfolding verify_active has_sentinel
verify_active_iff g none = ground arith
verify_active_iff g (some value) = ground (arith, eq_iff value "1")

-- The control host is one of the allowed addresses exactly when both candidates are: the configured
-- one and 8.8.8.8.
pub control_allowed_iff :
    (g : EgressGuard)
    → (contains g.allowed_ips (control g) ≡ true)
      ↔ ((contains g.allowed_ips g.control_ip ≡ true) × (contains g.allowed_ips "8.8.8.8" ≡ true))
unfolding control
control_allowed_iff g = ground arith
