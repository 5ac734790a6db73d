-- ===== src/Scan/Robinhood.antt =====
-- scanRobinhood of scripts/scanProductionInFlight.ts: its definitions, and what they establish.
pub mod Logs
pub mod Coverage
pub mod Backed
pub mod Range
pub mod Tests
