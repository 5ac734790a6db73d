-- ===== src/Scan/Solana.antt =====
-- scanSolana of scripts/scanProductionInFlight.ts: what a node of Solana shows of both directions.
pub mod Events
pub mod Pages
pub mod Messages
pub mod Layout
pub mod Order
pub mod History
pub mod Complete
pub mod Evidence
pub mod Backed
pub mod Receiver
mod Tests
