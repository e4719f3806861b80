-- ===== src/Scope.antt =====
-- src/bbagent/scope: the data of a scope, the canonical form of a target, and the decision.
pub mod Ip
pub mod Libs
pub mod Models
pub mod Loader
pub mod Canonical
pub mod Url
pub mod Matcher
pub mod Decide
