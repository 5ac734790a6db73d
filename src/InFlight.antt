-- ===== src/InFlight.antt =====
-- scripts/inFlightInventory.ts: the manifest of messages in flight, and its validation.
pub mod Json
pub mod Data
pub mod Encode
pub mod Checks
pub mod Message
pub mod Parse
pub mod Spec
pub mod Inversion
pub mod Rounds
pub mod RoundSums
pub mod Totals
pub mod Tests
