-- ===== src/Mainnet.antt =====
-- scripts/productionMainnetPolicy.ts: the complete production snapshot is held against the approved
-- addresses and amounts.
pub mod Data
pub mod Checks
pub mod Approved
pub mod Context
pub mod Programs
pub mod Accounting
pub mod Roles
pub mod Activation
pub mod Validate
pub mod Collect
mod Parts
pub mod Spec
mod Authority
mod Launch
mod Wiring
mod Evidence
pub mod Solvency
pub mod Example
mod Tests
