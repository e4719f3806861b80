-- ===== src/Tests.antt =====
-- The theorems at concrete inputs, and runs of the code's functions.
mod Targets
mod Actions
mod Records
mod Runs
mod Plans
mod Imports
mod Exclusions
mod Rankings
