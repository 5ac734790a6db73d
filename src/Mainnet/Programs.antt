-- ===== src/Mainnet/Programs.antt =====
-- The first part of `validateProductionMainnetObservation`: the chains, the programs and their code.
use san_layerzero_bridge.Base.{
  String, Bool, not, ◌||◌, Option, none, some, ◌!=◌, option_Eq, int_Eq, string_Eq, pos, is_int,
  Check, throw_if, ◌>>◌,
}
use san_layerzero_bridge.Base.Text.{to_lower}
use san_layerzero_bridge.External.{External}
use san_layerzero_bridge.Config.{
  solana_eid, robinhood_eid, robinhood_chain_id, canonical_san_mint, legacy_spl_token_program,
  production_solana_oft_program, production_solana_endpoint, production_robinhood_endpoint,
  solana_mainnet_genesis_hash, solana_upgradeable_loader,
}
use san_layerzero_bridge.Mainnet.Data.{
  Observation, ApprovedState, SolanaObservation, RobinhoodObservation,
}
use san_layerzero_bridge.Mainnet.Checks.{require_hash, equal_solana_address, equal_evm_address}

-- A hash that is written as one, and is the approved one up to letter case.
unfoldable pub equal_hash : String → String → String → String → Check
equal_hash actual expected label message = do
  require_hash actual label
  throw_if (to_lower actual != to_lower expected) message

abbrev pub is_present : Option String → Bool
is_present none = Bool.false
is_present (some _) = Bool.true

module _ (x : External) (approved : ApprovedState) where
  unfoldable pub validate_chains : Observation → Check
  validate_chains o = do
    throw_if (not (is_int o.solana.eid solana_eid)) "Solana EID is not 30168"
    throw_if (o.solana.genesis_hash != solana_mainnet_genesis_hash)
        "Solana observation is not bound to the mainnet genesis hash"
    throw_if (not (is_int o.robinhood.chain_id robinhood_chain_id)) "Robinhood chainId is not 4663"
    throw_if (not (is_int o.robinhood.eid robinhood_eid)) "Robinhood EID is not 30416"
    equal_solana_address x o.solana.mint canonical_san_mint "canonical SAN mint"
    equal_solana_address x o.solana.token_program legacy_spl_token_program "SAN token program"
    equal_solana_address x o.solana.program_id production_solana_oft_program
        "production Solana OFT program"
    equal_solana_address x o.solana.endpoint production_solana_endpoint "Solana Endpoint"
    equal_evm_address x o.robinhood.endpoint production_robinhood_endpoint "Robinhood Endpoint"
    equal_solana_address x o.solana.oft_store approved.solana_oft_store "Solana OFT Store"
    equal_solana_address x o.solana.escrow approved.solana_escrow "Solana escrow"
    equal_evm_address x o.robinhood.oft approved.robinhood_oft "Robinhood OFT"

  unfoldable pub validate_mint : SolanaObservation → Check
  validate_mint s = do
    throw_if (not (is_int s.decimals (pos 6)) || not (is_int s.shared_decimals (pos 6)))
        "Solana decimals/sharedDecimals must both equal 6"
    throw_if (not (is_int s.oft_type (pos 1))) "Solana OFT Store is not in Adapter mode"
    throw_if (s.mint_supply_raw != approved.expected_solana_mint_supply_raw)
        "Canonical SAN mint supply differs from the approved snapshot"
    throw_if (s.mint_authority != approved.expected_solana_mint_authority)
        "Canonical SAN mint authority differs from the approved value"
    throw_if (s.freeze_authority != approved.expected_solana_freeze_authority)
        "Canonical SAN freeze authority differs from the approved value"

  unfoldable pub validate_oft_program : SolanaObservation → Check
  validate_oft_program s = do
    throw_if (not s.program_executable) "Solana OFT program account is not executable"
    equal_solana_address x s.program_owner solana_upgradeable_loader "Solana program owner"
    equal_solana_address x s.program_data approved.expected_solana_program_data
        "Solana ProgramData account"
    equal_solana_address x s.program_data_owner solana_upgradeable_loader "Solana ProgramData owner"
    throw_if s.program_data_executable "Solana ProgramData account must not be executable"
    equal_hash s.program_data_sha256 approved.expected_solana_program_data_sha256
        "observed Solana ProgramData SHA-256"
        "Solana ProgramData hash differs from the approved reproducible artifact"

  unfoldable pub validate_endpoint_program : SolanaObservation → Check
  validate_endpoint_program s = do
    equal_solana_address x s.endpoint_program_data approved.expected_solana_endpoint_program_data
        "LayerZero Endpoint ProgramData"
    equal_hash s.endpoint_program_data_sha256 approved.expected_solana_endpoint_program_data_sha256
        "observed LayerZero Endpoint ProgramData SHA-256"
        "LayerZero Endpoint executable hash differs from the approved artifact"
    equal_solana_address x s.endpoint_upgrade_authority
        approved.expected_solana_endpoint_upgrade_authority "LayerZero Endpoint upgrade authority"
    equal_solana_address x s.endpoint_program_data_owner solana_upgradeable_loader
        "LayerZero Endpoint ProgramData owner"
    throw_if s.endpoint_program_data_executable
        "LayerZero Endpoint ProgramData account must not be executable"

  unfoldable pub validate_uln_program : SolanaObservation → Check
  validate_uln_program s = do
    equal_solana_address x s.uln_program_data approved.expected_solana_uln_program_data
        "LayerZero ULN302 ProgramData"
    equal_hash s.uln_program_data_sha256 approved.expected_solana_uln_program_data_sha256
        "observed LayerZero ULN302 ProgramData SHA-256"
        "LayerZero ULN302 executable hash differs from the approved artifact"
    equal_solana_address x s.uln_upgrade_authority approved.expected_solana_uln_upgrade_authority
        "LayerZero ULN302 upgrade authority"
    equal_solana_address x s.uln_program_data_owner solana_upgradeable_loader
        "LayerZero ULN302 ProgramData owner"
    throw_if s.uln_program_data_executable
        "LayerZero ULN302 ProgramData account must not be executable"

  unfoldable pub validate_escrow : SolanaObservation → Check
  validate_escrow s = do
    equal_solana_address x s.escrow_program_owner legacy_spl_token_program
        "escrow token program owner"
    equal_solana_address x s.escrow_mint canonical_san_mint "escrow mint"
    equal_solana_address x s.escrow_authority approved.solana_oft_store "escrow authority"

  unfoldable pub validate_san_oft : RobinhoodObservation → Check
  validate_san_oft r = do
    equal_hash r.runtime_code_hash approved.expected_robinhood_runtime_code_hash
        "observed Robinhood runtime code hash"
        "Robinhood runtime bytecode hash differs from the approved artifact"
    throw_if (is_present r.proxy_implementation || is_present r.proxy_admin)
        "Robinhood SanOFT must be a non-proxy deployment"
    throw_if (not (is_int r.decimals (pos 6)) || not (is_int r.shared_decimals (pos 6)))
        "Robinhood decimals/sharedDecimals must both equal 6"
