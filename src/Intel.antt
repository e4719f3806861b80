-- ===== src/Intel.antt =====
-- src/bbagent/intel: the signals that a host gives and the score that is made of them.
pub mod Tables
pub mod Signals
pub mod Paths
pub mod Params
pub mod Servers
pub mod Score
pub mod Actions
pub mod Ranking
pub mod Report
