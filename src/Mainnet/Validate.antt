-- ===== src/Mainnet/Validate.antt =====
-- `validateProductionMainnetObservation`, its parts in the order of the source.
use san_layerzero_bridge.Base.{String, Check, ◌>>◌}
use san_layerzero_bridge.External.{External}
use san_layerzero_bridge.RateLimit.{validate_production_rate_limit_plan}
use san_layerzero_bridge.Mainnet.Data.{Observation, ApprovedState}
use san_layerzero_bridge.Mainnet.Approved.{validate_approved_state}
use san_layerzero_bridge.Mainnet.Context.{validate_solana_context_evidence}
use san_layerzero_bridge.Mainnet.Programs.{
  validate_chains, validate_mint, validate_oft_program, validate_endpoint_program,
  validate_uln_program, validate_escrow, validate_san_oft,
}
use san_layerzero_bridge.Mainnet.Accounting.{
  validate_amounts, validate_identities, validate_anchors, validate_inventory, validate_tvl,
}
use san_layerzero_bridge.Mainnet.Roles.{validate_roles, validate_enforced_options}
use san_layerzero_bridge.Mainnet.Activation.{
  validate_wiring, validate_available, validate_activation,
}

module _ (x : External) where
  -- The programs and their code.
  unfoldable pub validate_programs : Observation → ApprovedState → Check
  validate_programs o approved = do
    validate_chains x approved o
    validate_mint x approved o.solana
    validate_oft_program x approved o.solana
    validate_endpoint_program x approved o.solana
    validate_uln_program x approved o.solana
    validate_escrow x approved o.solana
    validate_san_oft x approved o.robinhood

  -- The amounts.
  unfoldable pub validate_accounting : Observation → ApprovedState → Check
  validate_accounting o approved = do
    validate_amounts o approved
    validate_identities x o.in_flight.manifest approved
    validate_anchors o approved.expected_in_flight
    validate_inventory o approved.expected_in_flight
    validate_tvl o

  unfoldable pub validate_production_mainnet_observation :
      Observation → ApprovedState → String → Check
  validate_production_mainnet_observation o approved expected_state = do
    validate_approved_state x approved
    validate_solana_context_evidence o.solana_context
    validate_programs o approved
    validate_accounting o approved
    validate_roles x approved o
    validate_enforced_options o.enforced_options
    validate_wiring x o approved
    validate_production_rate_limit_plan o.rate_limits approved.rate_limit_profile
    validate_available o.rate_limits
    validate_activation o expected_state
