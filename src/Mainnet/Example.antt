-- ===== src/Mainnet/Example.antt =====
-- An approved state and a snapshot that agrees with it, for the tests.
use san_layerzero_bridge.Base.{String, true, false, none, some, [], ◌∷◌, int, pos}
use san_layerzero_bridge.Config.{
  canonical_san_mint, legacy_spl_token_program, production_solana_oft_program,
  production_solana_endpoint, production_robinhood_endpoint, solana_upgradeable_loader,
  solana_mainnet_genesis_hash, solana_eid, robinhood_eid, robinhood_chain_id,
}
use san_layerzero_bridge.Example.{hash, oft, store, inventory, profile, plan, bridge}
use san_layerzero_bridge.InFlight.Checks.{bridge_code_audit_target}
use san_layerzero_bridge.Mainnet.Data.{
  AccountEvidence, ContextEvidence, ApprovedState, Observation, EnforcedOption,
}
use san_layerzero_bridge.Mainnet.Collect.{in_flight_observation}

abbrev owner : String
owner = "0x00000000000000000000000000000000000000bb"

abbrev pub approved : ApprovedState
approved = record {
  authorities = record {
    solana_upgrade_authority = "upgrader";
    solana_store_admin = "admin";
    solana_delegate = "delegate";
    robinhood_owner = owner;
    robinhood_delegate = owner;
    solana_pauser = "pauser";
    solana_unpauser = "unpauser";
  };
  solana_oft_store = store;
  solana_escrow = "escrow";
  robinhood_oft = oft;
  robinhood_source_confirmations = some (pos 30);
  rate_limit_profile = profile;
  expected_robinhood_supply_raw = pos 900;
  expected_solana_mint_supply_raw = pos 1_000_000;
  expected_solana_mint_authority = none;
  expected_solana_freeze_authority = none;
  forbidden_solana_bootstrap_authorities = "deployer" ∷ [];
  forbidden_robinhood_bootstrap_authorities = "0x00000000000000000000000000000000000000cc" ∷ [];
  expected_solana_program_data = "programdata";
  expected_solana_program_data_sha256 = hash;
  expected_solana_endpoint_program_data = "endpointdata";
  expected_solana_endpoint_program_data_sha256 = hash;
  expected_solana_endpoint_upgrade_authority = "endpointauthority";
  expected_solana_uln_program_data = "ulndata";
  expected_solana_uln_program_data_sha256 = hash;
  expected_solana_uln_upgrade_authority = "ulnauthority";
  expected_robinhood_runtime_code_hash = hash;
  expected_in_flight = record {
    inventory_id = "inventory";
    inventory_sha256 = inventory.inventory_sha256;
    scanner_source_commit = bridge_code_audit_target;
    solana_from_slot = pos 100;
    solana_to_slot = pos 200;
    robinhood_from_block = pos 10;
    robinhood_to_block = pos 50;
    solana_to_robinhood_raw = pos 70;
    robinhood_to_solana_raw = pos 30;
  };
}

abbrev evidence : String → String → AccountEvidence
evidence address label = record {
  label = label;
  address = address;
  owner = "owner";
  executable = false;
  lamports = "1";
  data_length = int (pos 1);
  account_sha256 = hash;
}

abbrev pub context : ContextEvidence
context = record {
  model = "COMMON_CONTEXT_STRONG";
  commitment = "finalized";
  context_slot = pos 250;
  finalized_slot_before = pos 249;
  finalized_slot_after = pos 251;
  blockhash = "b";
  parent_slot = pos 249;
  accounts =
      evidence "a" "OFT Store"
      ∷ evidence "a0" "OFT peer config"
      ∷ evidence "a1" "canonical SAN mint"
      ∷ evidence "a2" "SAN escrow token account"
      ∷ evidence "a3" "production OFT program"
      ∷ evidence "a4" "production OFT ProgramData"
      ∷ evidence "a5" "LayerZero Endpoint program"
      ∷ evidence "a6" "LayerZero Endpoint ProgramData"
      ∷ evidence "a7" "LayerZero ULN302 program"
      ∷ evidence "a8" "LayerZero ULN302 ProgramData"
      ∷ evidence "a9" "Endpoint OApp registry"
      ∷ evidence "a10" "Endpoint default send-library config"
      ∷ evidence "a11" "Endpoint app send-library config"
      ∷ evidence "a12" "Endpoint default receive-library config"
      ∷ evidence "a13" "Endpoint app receive-library config"
      ∷ evidence "a14" "ULN message-library PDA"
      ∷ evidence "a15" "ULN custom send config"
      ∷ evidence "a16" "ULN custom receive config"
      ∷ [];
  remaining_cross_call_gaps = [];
}

abbrev standard : EnforcedOption
standard = record { gas_or_compute = pos 200_000; value = pos 0 }

abbrev pub observation : Observation
observation = record {
  solana = record {
    eid = int solana_eid;
    genesis_hash = solana_mainnet_genesis_hash;
    mint = canonical_san_mint;
    token_program = legacy_spl_token_program;
    decimals = int (pos 6);
    shared_decimals = int (pos 6);
    oft_type = int (pos 1);
    mint_supply_raw = pos 1_000_000;
    mint_authority = none;
    freeze_authority = none;
    program_id = production_solana_oft_program;
    endpoint = production_solana_endpoint;
    oft_store = store;
    escrow = "escrow";
    tvl_raw = pos 1_000;
    escrow_balance_raw = pos 1_001;
    upgrade_authority = "upgrader";
    store_admin = "admin";
    delegate = "delegate";
    paused = true;
    pauser = some "pauser";
    unpauser = some "unpauser";
    program_executable = true;
    program_owner = solana_upgradeable_loader;
    program_data = "programdata";
    program_data_sha256 = hash;
    program_data_owner = solana_upgradeable_loader;
    program_data_executable = false;
    endpoint_program_data = "endpointdata";
    endpoint_program_data_sha256 = hash;
    endpoint_upgrade_authority = "endpointauthority";
    endpoint_program_data_owner = solana_upgradeable_loader;
    endpoint_program_data_executable = false;
    uln_program_data = "ulndata";
    uln_program_data_sha256 = hash;
    uln_upgrade_authority = "ulnauthority";
    uln_program_data_owner = solana_upgradeable_loader;
    uln_program_data_executable = false;
    escrow_program_owner = legacy_spl_token_program;
    escrow_mint = canonical_san_mint;
    escrow_authority = store;
  };
  robinhood = record {
    chain_id = int robinhood_chain_id;
    eid = int robinhood_eid;
    endpoint = production_robinhood_endpoint;
    oft = oft;
    decimals = int (pos 6);
    shared_decimals = int (pos 6);
    total_supply_raw = pos 900;
    owner = owner;
    delegate = owner;
    paused = true;
    runtime_code_hash = hash;
    proxy_implementation = none;
    proxy_admin = none;
    block_hash = hash;
  };
  layer_zero = bridge;
  enforced_options = record { solana_receive = standard; robinhood_receive = standard };
  rate_limits = plan;
  solana_context = context;
  in_flight = in_flight_observation inventory (pos 250) 60;
}
