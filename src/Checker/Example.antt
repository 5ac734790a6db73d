-- ===== src/Checker/Example.antt =====
-- Both chains as the production checker may find them before the activation, for the tests.
use san_layerzero_bridge.Base.{
  ℕ, String, true, false, Option, none, some, List, [], ◌∷◌, ◌==◌, if◌then◌else◌, ok, pos, int,
}
use san_layerzero_bridge.Base.{string_Eq, nat_Eq}
use san_layerzero_bridge.Base.Text.{is_digits, parse_digits, show_nat}
use san_layerzero_bridge.Checker.Answers.{Decoders, EvmLimiter, TokenAnswers}
use san_layerzero_bridge.Checker.Collect.{Services}
use san_layerzero_bridge.Checker.Environment.{Environment}
use san_layerzero_bridge.Checker.Programs.{solana_uln_program}
use san_layerzero_bridge.Config.{
  canonical_san_mint, legacy_spl_token_program, production_solana_oft_program,
  production_solana_endpoint, production_robinhood_endpoint, solana_upgradeable_loader,
  solana_mainnet_genesis_hash,
}
use san_layerzero_bridge.ConfigCheck.Example.{contracts, programs, metadata}
use san_layerzero_bridge.ConfigCheck.Solana.{solana_message_lib}
use san_layerzero_bridge.Example.{packages, hash, oft, store, manifest, inventory, number_of}
use san_layerzero_bridge.External.{External}
use san_layerzero_bridge.InFlight.Checks.{bridge_code_audit_target}
use san_layerzero_bridge.SolanaContext.{AccountInfo}

-- A key is written in decimal digits, but for the message library's; any other text spells a number.
abbrev pub checker_packages : External
checker_packages = record packages {
  public_key = λ s.
      if s == "" then none else if is_digits s then some (parse_digits s) else some (number_of 0 s);
  to_base58 = λ n. if n == number_of 0 solana_message_lib then solana_message_lib else show_nat n;
}

abbrev find_value : List (String × String) → Environment
find_value [] name = none
find_value ((key, value) ∷ rest) name =
    let later = find_value rest name in if key == name then some value else later

abbrev owner : String
owner = "0x00000000000000000000000000000000000000bb"

abbrev pub variables_set : List (String × String)
variables_set =
    ("SAN_EXPECTED_ACTIVATION_STATE", "PRE_ACTIVATION_INERT")
    ∷ ("SAN_OBSERVED_IN_FLIGHT_INVENTORY_PATH", "inventory.json")
    ∷ ("SAN_SOLANA_OFT_STORE", store)
    ∷ ("SAN_SOLANA_ESCROW", "escrow")
    ∷ ("SAN_SOLANA_UPGRADE_AUTHORITY", "77")
    ∷ ("SAN_SOLANA_STORE_ADMIN", "admin")
    ∷ ("SAN_SOLANA_DELEGATE", "delegate")
    ∷ ("SAN_SOLANA_PAUSER", "pauser")
    ∷ ("SAN_SOLANA_UNPAUSER", "unpauser")
    ∷ ("SAN_ROBINHOOD_OFT_ADDRESS", oft)
    ∷ ("SAN_ROBINHOOD_OWNER", owner)
    ∷ ("SAN_ROBINHOOD_DELEGATE", owner)
    ∷ ("SAN_ROBINHOOD_SOURCE_CONFIRMATIONS", "30")
    ∷ ("SAN_RATE_LIMIT_PROFILE", "canary")
    ∷ ("SAN_EXPECTED_ROBINHOOD_SUPPLY_RAW", "900")
    ∷ ("SAN_EXPECTED_SOLANA_MINT_SUPPLY_RAW", "1000000")
    ∷ ("SAN_EXPECTED_SOLANA_MINT_AUTHORITY", "NONE")
    ∷ ("SAN_EXPECTED_SOLANA_FREEZE_AUTHORITY", "NONE")
    ∷ ("SAN_FORBIDDEN_SOLANA_BOOTSTRAP_AUTHORITIES", " deployer, helper")
    ∷ (
      "SAN_FORBIDDEN_ROBINHOOD_BOOTSTRAP_AUTHORITIES", "0x00000000000000000000000000000000000000cc",
    )
    ∷ ("SAN_SOLANA_PROGRAM_DATA", "201")
    ∷ ("SAN_SOLANA_PROGRAM_DATA_SHA256", inventory.inventory_sha256)
    ∷ ("SAN_SOLANA_ENDPOINT_PROGRAM_DATA", "202")
    ∷ ("SAN_SOLANA_ENDPOINT_PROGRAM_DATA_SHA256", inventory.inventory_sha256)
    ∷ ("SAN_SOLANA_ENDPOINT_UPGRADE_AUTHORITY", "78")
    ∷ ("SAN_SOLANA_ULN_PROGRAM_DATA", "203")
    ∷ ("SAN_SOLANA_ULN_PROGRAM_DATA_SHA256", inventory.inventory_sha256)
    ∷ ("SAN_SOLANA_ULN_UPGRADE_AUTHORITY", "79")
    ∷ ("SAN_ROBINHOOD_RUNTIME_CODE_HASH", hash)
    ∷ ("SAN_APPROVED_IN_FLIGHT_INVENTORY_ID", "inventory")
    ∷ ("SAN_APPROVED_IN_FLIGHT_INVENTORY_SHA256", inventory.inventory_sha256)
    ∷ ("SAN_APPROVED_IN_FLIGHT_SCANNER_COMMIT", bridge_code_audit_target)
    ∷ ("SAN_APPROVED_IN_FLIGHT_SOLANA_FROM_SLOT", "100")
    ∷ ("SAN_APPROVED_IN_FLIGHT_SOLANA_TO_SLOT", "200")
    ∷ ("SAN_APPROVED_IN_FLIGHT_ROBINHOOD_FROM_BLOCK", "10")
    ∷ ("SAN_APPROVED_IN_FLIGHT_ROBINHOOD_TO_BLOCK", "50")
    ∷ ("SAN_APPROVED_IN_FLIGHT_SOLANA_TO_ROBINHOOD_RAW", "70")
    ∷ ("SAN_APPROVED_IN_FLIGHT_ROBINHOOD_TO_SOLANA_RAW", "30")
    ∷ []

abbrev pub checker_env : Environment
checker_env = find_value variables_set

abbrev pub decoders : Decoders
decoders = record {
  endpoint_program = number_of 0 production_solana_endpoint;
  store = λ info. ok (record {
    token_mint = canonical_san_mint;
    token_escrow = "escrow";
    endpoint_program = production_solana_endpoint;
    oft_type = 1;
    ld2sd_rate = 1;
    tvl = 1_000;
    admin = "admin";
    paused = true;
    pauser = some "pauser";
    unpauser = some "unpauser";
  });
  peer = λ info. ok (record {
    outbound =
        some (record { capacity = 500_000_000_000; tokens = 7; refill_per_second = 5_787_037 });
    inbound =
        some (record { capacity = 500_000_000_000; tokens = 7; refill_per_second = 5_787_037 });
    send_options = "0x0003";
  });
  escrow = λ info.
      ok (record {
        amount = 1_001;
        mint = number_of 0 canonical_san_mint;
        owner = number_of 0 store;
      });
  mint = λ info.
      ok (record {
        decimals = 6;
        supply = 1_000_000;
        mint_authority = none;
        freeze_authority = none;
      });
  delegate = λ info. ok (number_of 0 "delegate");
  shared_decimals = λ digits rate. int (pos digits);
  decode_receive_option = λ s. ok (some (200_000, 0));
  keccak256 = λ s. hash;
}

abbrev evm_limiter : EvmLimiter
evm_limiter = record {
  capacity = 500_000_000_000;
  available = 7;
  refill_amount = 500_000_000_000;
  refill_duration = 86_400;
}

abbrev token : TokenAnswers
token = record {
  owner = ok owner;
  paused = ok true;
  endpoint = ok production_robinhood_endpoint;
  decimals = ok 6;
  shared_decimals = ok 6;
  total_supply = ok 900;
  outbound = ok evm_limiter;
  inbound = ok evm_limiter;
  enforced_options = ok "0x0003";
  delegate = ok owner;
  code = ok "0x60";
  implementation_slot = ok "0x0";
  admin_slot = ok "0x0";
}

-- A key below 256, as its 32 bytes, before further bytes
abbrev small_key : ℕ → List ℕ → List ℕ
small_key n rest =
    0 ∷ 0 ∷ 0 ∷ 0 ∷ 0 ∷ 0 ∷ 0 ∷ 0 ∷ 0 ∷ 0 ∷ 0 ∷ 0 ∷ 0 ∷ 0 ∷ 0 ∷ 0 ∷ 0 ∷ 0 ∷ 0 ∷ 0 ∷ 0 ∷ 0 ∷ 0 ∷ 0
    ∷ 0 ∷ 0 ∷ 0 ∷ 0 ∷ 0 ∷ 0 ∷ 0 ∷ n ∷ rest

abbrev plain : String → AccountInfo
plain program = record {
  owner = number_of 0 program;
  executable = false;
  lamports = 1;
  rent_epoch = none;
  bytes = 0 ∷ [];
}

abbrev program_account : ℕ → AccountInfo
program_account linked = record (plain solana_upgradeable_loader) {
  executable = true;
  bytes = 2 ∷ 0 ∷ 0 ∷ 0 ∷ small_key linked [];
}

abbrev program_data_account : ℕ → AccountInfo
program_data_account authority = record (plain solana_upgradeable_loader) {
  bytes = 3 ∷ 0 ∷ 0 ∷ 0 ∷ 1 ∷ 2 ∷ 3 ∷ 4 ∷ 5 ∷ 6 ∷ 7 ∷ 8 ∷ 1 ∷ small_key authority (127 ∷ 69 ∷ []);
}

abbrev values : List (Option AccountInfo)
values =
    some (plain production_solana_oft_program)
    ∷ some (plain legacy_spl_token_program)
    ∷ some (plain legacy_spl_token_program)
    ∷ some (program_account 201)
    ∷ some (program_data_account 77)
    ∷ some (program_account 202)
    ∷ some (program_data_account 78)
    ∷ some (program_account 203)
    ∷ some (program_data_account 79)
    ∷ some (plain production_solana_oft_program)
    ∷ some (plain production_solana_endpoint)
    ∷ some (plain production_solana_endpoint)
    ∷ some (plain production_solana_endpoint)
    ∷ some (plain production_solana_endpoint)
    ∷ some (plain production_solana_endpoint)
    ∷ some (plain solana_uln_program)
    ∷ some (plain solana_uln_program)
    ∷ some (plain solana_uln_program)
    ∷ []

-- The two collections see different finalized slots and blocks.
abbrev services_at : ℕ → String → Services
services_at slot block = record {
  env = checker_env;
  inventory_file = λ path. ok manifest;
  nodes = record {
    chain_id = ok 4663;
    finalized = ok (some (record { number = some block; hash = some hash }));
    genesis_hash = ok solana_mainnet_genesis_hash;
    token_at = λ tag. token;
    common_context = λ requests. ok (record {
      finalized_slot_before = int (pos slot);
      context_slot = int (pos slot);
      values = values;
      finalized_slot_after = int (pos slot);
      block = some (record { blockhash = "b"; parent_slot = 249 });
    });
  };
  metadata = metadata;
  programs = programs store;
  contracts = λ tag. contracts;
}

abbrev pub first_read : Services
first_read = services_at 250 "0x3c"

abbrev pub second_read : Services
second_read = services_at 251 "0x3d"
