-- ===== src/Kernel.antt =====
-- src/bbagent/kernel: approval, the active gate, the rate governor, the egress guard, credentials.
pub mod Approval
pub mod Gate
pub mod Rate
pub mod Sandbox
pub mod Auth
