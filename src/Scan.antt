-- ===== src/Scan.antt =====
-- scripts/scanProductionInFlight.ts: the manifest built from what two providers saw on both chains.
-- The calls of the chains' nodes and of the LayerZero API are not modelled; what they answer is the
-- input.
pub mod Range
pub mod Build
pub mod Manifest
pub mod Spec
pub mod Node
pub mod Solana
pub mod Robinhood
pub mod Statuses
pub mod Sees
mod Grouping
pub mod Corroborated
mod Whole
pub mod Example
mod Runs
pub mod Production
mod Status
mod Told
mod Matching
mod Agreement
mod Sums
mod Tests
