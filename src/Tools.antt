-- ===== src/Tools.antt =====
-- src/bbagent/tools: the command line of an external tool and the order of checks before it runs.
pub mod External
pub mod Sources
pub mod Probes
pub mod Dns
