-- ===== src/ConfigCheck.antt =====
-- scripts/checkLayerZeroConfig.ts: the LayerZero configuration is read from both chains and held
-- against the pinned policy.
pub mod Answers
pub mod Robinhood
pub mod Solana
pub mod Collect
mod Explicit
mod Own
mod Deployed
pub mod Example
mod Tests
