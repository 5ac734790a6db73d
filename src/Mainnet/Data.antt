-- ===== src/Mainnet/Data.antt =====
-- The interfaces of scripts/productionMainnetPolicy.ts, and those of scripts/solanaCommonContext.ts
-- that it uses. A union with null is an option.
use san_layerzero_bridge.Base.{String, Bool, Option, List, ℤ, Number}
use san_layerzero_bridge.RateLimit.{Plan, Profile}
use san_layerzero_bridge.LayerZero.{BridgeObservation}
use san_layerzero_bridge.InFlight.Data.{Manifest}

-- `SolanaContextAccountEvidence`
pub record AccountEvidence : Type 0 where
  pub label : String
  pub address : String
  pub owner : String
  pub executable : Bool
  pub lamports : String
  pub data_length : Number
  pub account_sha256 : String

-- `SolanaCommonContextEvidence`
pub record ContextEvidence : Type 0 where
  pub model : String
  pub commitment : String
  pub context_slot : ℤ
  pub finalized_slot_before : ℤ
  pub finalized_slot_after : ℤ
  pub blockhash : String
  pub parent_slot : ℤ
  pub accounts : List AccountEvidence
  pub remaining_cross_call_gaps : List String

-- `ProductionAuthorityPolicy`
pub record AuthorityPolicy : Type 0 where
  pub solana_upgrade_authority : String
  pub solana_store_admin : String
  pub solana_delegate : String
  pub robinhood_owner : String
  pub robinhood_delegate : String
  pub solana_pauser : String
  pub solana_unpauser : String

pub record ExpectedInFlight : Type 0 where
  pub inventory_id : String
  pub inventory_sha256 : String
  pub scanner_source_commit : String
  pub solana_from_slot : ℤ
  pub solana_to_slot : ℤ
  pub robinhood_from_block : ℤ
  pub robinhood_to_block : ℤ
  pub solana_to_robinhood_raw : ℤ
  pub robinhood_to_solana_raw : ℤ

pub record ApprovedState : Type 0 where
  pub authorities : AuthorityPolicy
  pub open authorities use *
  pub solana_oft_store : String
  pub solana_escrow : String
  pub robinhood_oft : String
  pub robinhood_source_confirmations : Option ℤ
  pub rate_limit_profile : Profile
  pub expected_robinhood_supply_raw : ℤ
  pub expected_solana_mint_supply_raw : ℤ
  pub expected_solana_mint_authority : Option String
  pub expected_solana_freeze_authority : Option String
  pub forbidden_solana_bootstrap_authorities : List String
  pub forbidden_robinhood_bootstrap_authorities : List String
  pub expected_solana_program_data : String
  pub expected_solana_program_data_sha256 : String
  pub expected_solana_endpoint_program_data : String
  pub expected_solana_endpoint_program_data_sha256 : String
  pub expected_solana_endpoint_upgrade_authority : String
  pub expected_solana_uln_program_data : String
  pub expected_solana_uln_program_data_sha256 : String
  pub expected_solana_uln_upgrade_authority : String
  pub expected_robinhood_runtime_code_hash : String
  pub expected_in_flight : ExpectedInFlight

pub record SolanaObservation : Type 0 where
  pub eid : Number
  pub genesis_hash : String
  pub mint : String
  pub token_program : String
  pub decimals : Number
  pub shared_decimals : Number
  pub oft_type : Number
  pub mint_supply_raw : ℤ
  pub mint_authority : Option String
  pub freeze_authority : Option String
  pub program_id : String
  pub endpoint : String
  pub oft_store : String
  pub escrow : String
  pub tvl_raw : ℤ
  pub escrow_balance_raw : ℤ
  pub upgrade_authority : String
  pub store_admin : String
  pub delegate : String
  pub paused : Bool
  pub pauser : Option String
  pub unpauser : Option String
  pub program_executable : Bool
  pub program_owner : String
  pub program_data : String
  pub program_data_sha256 : String
  pub program_data_owner : String
  pub program_data_executable : Bool
  pub endpoint_program_data : String
  pub endpoint_program_data_sha256 : String
  pub endpoint_upgrade_authority : String
  pub endpoint_program_data_owner : String
  pub endpoint_program_data_executable : Bool
  pub uln_program_data : String
  pub uln_program_data_sha256 : String
  pub uln_upgrade_authority : String
  pub uln_program_data_owner : String
  pub uln_program_data_executable : Bool
  pub escrow_program_owner : String
  pub escrow_mint : String
  pub escrow_authority : String

pub record RobinhoodObservation : Type 0 where
  pub chain_id : Number
  pub eid : Number
  pub endpoint : String
  pub oft : String
  pub decimals : Number
  pub shared_decimals : Number
  pub total_supply_raw : ℤ
  pub owner : String
  pub delegate : String
  pub paused : Bool
  pub runtime_code_hash : String
  pub proxy_implementation : Option String
  pub proxy_admin : Option String
  pub block_hash : String

pub record EnforcedOption : Type 0 where
  pub gas_or_compute : ℤ
  pub value : ℤ

pub record EnforcedOptions : Type 0 where
  pub solana_receive : EnforcedOption
  pub robinhood_receive : EnforcedOption

pub record InFlightObservation : Type 0 where
  pub manifest : Manifest
  pub inventory_id : String
  pub inventory_sha256 : String
  pub message_count : Number
  pub solana_slot : ℤ
  pub robinhood_block : ℤ
  pub solana_to_robinhood_raw : ℤ
  pub robinhood_to_solana_raw : ℤ

-- `ProductionMainnetObservation`
pub record Observation : Type 0 where
  pub solana : SolanaObservation
  pub robinhood : RobinhoodObservation
  pub layer_zero : BridgeObservation
  pub enforced_options : EnforcedOptions
  pub rate_limits : Plan
  pub solana_context : ContextEvidence
  pub in_flight : InFlightObservation
