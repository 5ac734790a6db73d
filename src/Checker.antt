-- ===== src/Checker.antt =====
-- scripts/checkProductionMainnet.ts: the approved state from the environment, and the snapshot of both
-- chains that the policy is held against.
pub mod Environment
pub mod Answers
pub mod Programs
pub mod Snapshot
pub mod Collect
pub mod Text
pub mod Normalized
pub mod Main
mod Backed
mod Variables
pub mod Example
mod Tests
mod Linked
