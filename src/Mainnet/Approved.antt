-- ===== src/Mainnet/Approved.antt =====
-- `validateApprovedState`: the approved values themselves, before anything is held against them.
use san_layerzero_bridge.Base.{
  String, not, ◌||◌, Option, none, some, List, [], ◌∷◌, ℤ, pos, leb_ℤ, ltb_ℤ, ◌==◌, ◌!=◌, option_Eq,
  int_Eq, nat_Eq, length, ok, err, Check, throw_if, for_each, ◌>>◌,
}
use san_layerzero_bridge.Base.Text.{concat, is_blank, is_git_commit, show_nat}
use san_layerzero_bridge.External.{External}
use san_layerzero_bridge.LayerZero.{san_layerzero_policy}
use san_layerzero_bridge.Mainnet.Data.{ApprovedState, ExpectedInFlight}
use san_layerzero_bridge.Mainnet.Checks.{
  require_hash, require_solana_address, require_evm_address, for_each_index,
}

unfoldable pub require_confirmations : Option ℤ → Check
require_confirmations none =
    err "Approved Robinhood-source confirmations are required; production policy fails closed"
require_confirmations (some n) = do
  throw_if (leb_ℤ n (pos 0)) "Approved Robinhood-source confirmations must be positive"
  throw_if (some n != san_layerzero_policy.robinhood_source_confirmations)
      "Approved Robinhood-source confirmations must equal the frozen 30-block policy"

abbrev pub solana_addresses : ApprovedState → List (String × String)
solana_addresses approved =
    ("approved Solana OFT Store", approved.solana_oft_store)
    ∷ ("approved Solana escrow", approved.solana_escrow)
    ∷ ("approved Solana upgrade authority", approved.solana_upgrade_authority)
    ∷ ("approved Solana Store admin", approved.solana_store_admin)
    ∷ ("approved Solana delegate", approved.solana_delegate)
    ∷ ("approved Solana pauser", approved.solana_pauser)
    ∷ ("approved Solana unpauser", approved.solana_unpauser)
    ∷ ("approved Solana ProgramData", approved.expected_solana_program_data)
    ∷ ("approved LayerZero Endpoint ProgramData", approved.expected_solana_endpoint_program_data)
    ∷ (
      "approved LayerZero Endpoint upgrade authority",
      approved.expected_solana_endpoint_upgrade_authority,
    )
    ∷ ("approved LayerZero ULN302 ProgramData", approved.expected_solana_uln_program_data)
    ∷ (
      "approved LayerZero ULN302 upgrade authority", approved.expected_solana_uln_upgrade_authority,
    )
    ∷ []

unfoldable pub validate_ranges : ExpectedInFlight → Check
validate_ranges e =
    throw_if
      (ltb_ℤ e.solana_from_slot (pos 0)
        || leb_ℤ e.solana_to_slot (pos 0)
        || ltb_ℤ e.solana_to_slot e.solana_from_slot
        || ltb_ℤ e.robinhood_from_block (pos 0)
        || leb_ℤ e.robinhood_to_block (pos 0)
        || ltb_ℤ e.robinhood_to_block e.robinhood_from_block)
      "Approved in-flight finalized scan ranges are invalid"

unfoldable pub validate_hashes : ApprovedState → Check
validate_hashes approved = do
  require_hash approved.expected_solana_program_data_sha256 "approved Solana ProgramData SHA-256"
  require_hash approved.expected_solana_endpoint_program_data_sha256
      "approved LayerZero Endpoint ProgramData SHA-256"
  require_hash approved.expected_solana_uln_program_data_sha256
      "approved LayerZero ULN302 ProgramData SHA-256"
  require_hash approved.expected_robinhood_runtime_code_hash "approved Robinhood runtime code hash"
  require_hash approved.expected_in_flight.inventory_sha256 "approved in-flight inventory SHA-256"
  throw_if (not (is_git_commit approved.expected_in_flight.scanner_source_commit))
      "Approved in-flight scanner source commit must be an exact Git commit"

module _ (x : External) where
  -- An authority that is null is not checked.
  unfoldable pub require_optional_address : String × Option String → Check
  require_optional_address (label, none) = ok tt
  require_optional_address (label, some value) = require_solana_address x value label

  unfoldable pub validate_bootstrap : ApprovedState → Check
  validate_bootstrap approved = do
    throw_if (length approved.forbidden_solana_bootstrap_authorities == 0)
        "At least one forbidden Solana bootstrap authority is required"
    throw_if (length approved.forbidden_robinhood_bootstrap_authorities == 0)
        "At least one forbidden Robinhood bootstrap authority is required"
    for_each_index
        (λ value index.
          require_solana_address x value
            (concat "forbidden Solana bootstrap authority " (show_nat index)))
        0 approved.forbidden_solana_bootstrap_authorities
    for_each_index
        (λ value index.
          require_evm_address x value
            (concat "forbidden Robinhood bootstrap authority " (show_nat index)))
        0 approved.forbidden_robinhood_bootstrap_authorities

  unfoldable pub validate_approved_state : ApprovedState → Check
  validate_approved_state approved = do
    require_confirmations approved.robinhood_source_confirmations
    for_each (λ (item : String × String). require_solana_address x item.1 item.0)
        (solana_addresses approved)
    require_evm_address x approved.robinhood_oft "approved Robinhood OFT"
    require_evm_address x approved.robinhood_owner "approved Robinhood owner"
    require_evm_address x approved.robinhood_delegate "approved Robinhood delegate"
    validate_hashes approved
    for_each require_optional_address (
        ("approved Solana mint authority", approved.expected_solana_mint_authority)
        ∷ ("approved Solana freeze authority", approved.expected_solana_freeze_authority)
        ∷ [])
    throw_if (ltb_ℤ approved.expected_solana_mint_supply_raw (pos 0))
        "Approved Solana mint supply cannot be negative"
    validate_bootstrap approved
    throw_if
        (ltb_ℤ approved.expected_in_flight.solana_to_robinhood_raw (pos 0)
          || ltb_ℤ approved.expected_in_flight.robinhood_to_solana_raw (pos 0))
        "Approved in-flight amounts cannot be negative"
    validate_ranges approved.expected_in_flight
    throw_if (is_blank approved.expected_in_flight.inventory_id)
        "Approved in-flight inventory ID is required"
