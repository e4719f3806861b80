-- ===== src/Importer.antt =====
-- src/bbagent/importer: a program page, a JSON file or a brief becomes a draft of a scope.
pub mod Values
pub mod Kept
pub mod Listed
pub mod Refused
pub mod Draft
pub mod Platforms
pub mod Brief
pub mod Files
