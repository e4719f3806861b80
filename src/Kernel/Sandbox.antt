-- ===== src/Kernel/Sandbox.antt =====
-- src/bbagent/kernel/sandbox.py: the egress guard. The environment variable and the answer of a
-- connection attempt are arguments.
pub mod Containment
use bugbounty_agent.Base.{
  ℕ, String, Bool, true, false, not, Option, none, some, List, [], ◌∷◌, ◌++◌, map, ◌==◌, contains,
  if◌then◌else◌, Result, ok, err,
}
use bugbounty_agent.Base.Text.{◌<>◌}
use bugbounty_agent.Base.Sorted.{sorted}

pub record EgressGuard : Type 0 where
  pub allowed_ips : List String
  pub control_ip : String
  pub control_port : ℕ
  pub connect_fn : String → ℕ → Bool

-- why verify_active refuses
pub data Refusal : Type 0 where
  no_sentinel : Refusal
  reached : String → Refusal

unfoldable pub control : EgressGuard → String
control g = if contains g.allowed_ips g.control_ip then "8.8.8.8" else g.control_ip

-- os.environ.get("BBAGENT_EGRESS_VERIFIED") == "1"
unfoldable pub has_sentinel : Option String → Bool
has_sentinel none = false
has_sentinel (some value) = value == "1"

unfoldable pub verify_active : EgressGuard → Option String → Result Refusal Unit
verify_active g sentinel =
    if not (has_sentinel sentinel)
    then err no_sentinel
    else if g.connect_fn (control g) g.control_port
    then err (reached (control g))
    else ok tt

abbrev pub accept_rule : String → String
accept_rule ip = "nft add rule inet bbagent egress ip daddr " <> ip <> " accept"

unfoldable pub nftables_allowlist_commands : EgressGuard → List String
nftables_allowlist_commands g =
    "nft add table inet bbagent"
    ∷ "nft add chain inet bbagent egress '{ type filter hook output priority 0 ; policy drop ; }'"
    ∷ "nft add rule inet bbagent egress ct state established,related accept"
    ∷ "nft add rule inet bbagent egress ip daddr 127.0.0.1 accept"
    ∷ map accept_rule (sorted g.allowed_ips)
