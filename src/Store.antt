-- ===== src/Store.antt =====
-- src/bbagent/store: the models, the hash-chained audit log and the findings store.
pub mod Models
pub mod Audit
pub mod Findings
