-- ===== src/ConfigCheck/Example.antt =====
-- A bridge that is configured as the policy says, for the tests.
use san_layerzero_bridge.Base.{
  ℕ, String, false, Option, none, some, [], ◌∷◌, ◌==◌, if◌then◌else◌, ok,
}
use san_layerzero_bridge.Base.{string_Eq}
use san_layerzero_bridge.Config.{production_robinhood_endpoint}
use san_layerzero_bridge.ConfigCheck.Answers.{
  EvmUln, EvmExecutor, RobinhoodContracts, SolanaUln, SolanaLibrary, SolanaPrograms, SolanaAccounts,
  Metadata,
}
use san_layerzero_bridge.ConfigCheck.Solana.{solana_message_lib}
use san_layerzero_bridge.Example.{oft, store, number_of}
use san_layerzero_bridge.Base.Text.{show_nat}
use san_layerzero_bridge.LayerZero.{san_layerzero_policy}

abbrev pub env : String → Option String
env name = if name == "SAN_SOLANA_OFT_STORE" then some store else some oft

abbrev evm_uln : ℕ → EvmUln
evm_uln depth = record {
  confirmations = depth;
  required_dvn_count = 255;
  optional_dvn_count = 3;
  optional_dvn_threshold = 2;
  required_dvns = [];
  optional_dvns = san_layerzero_policy.robinhood.optional_dvns;
}

abbrev uln_at : String → EvmUln
uln_at library =
    if library == san_layerzero_policy.robinhood.send_library then evm_uln 30 else evm_uln 32

abbrev executor : EvmExecutor
executor = record { max_message_size = 10_000; executor = san_layerzero_policy.robinhood.executor }

abbrev pub contracts : String → String → RobinhoodContracts
contracts token endpoint = record {
  chain_id = ok 4663;
  send_library = ok san_layerzero_policy.robinhood.send_library;
  is_default_send_library = ok false;
  receive_library = ok (san_layerzero_policy.robinhood.receive_library, false);
  uln_config = λ library. ok (uln_at library);
  app_uln_config = λ library. ok (uln_at library);
  executor_config = λ library. ok executor;
  executor_configs = λ library. ok executor;
  peer = ok (show_nat (number_of 0 store));
}

abbrev solana_uln : ℕ → SolanaUln
solana_uln depth = record {
  confirmations = depth;
  required_dvn_count = 255;
  optional_dvn_count = 3;
  optional_dvn_threshold = 2;
  required_dvns = [];
  optional_dvns = san_layerzero_policy.solana.optional_dvns;
  executor = san_layerzero_policy.solana.executor;
}

abbrev library : SolanaLibrary
library = record {
  message_lib = solana_message_lib;
  program_id = san_layerzero_policy.solana.send_library;
  is_default = false;
}

abbrev pub programs : String → SolanaPrograms
programs token = record {
  send_library = ok (some library);
  receive_library = ok (some library);
  send_config = ok (some (solana_uln 32));
  receive_config = ok (some (solana_uln 30));
  peer = ok oft;
}

abbrev pub accounts : SolanaAccounts
accounts = record {
  peer_address = λ key. ok 1;
  oapp_registry = λ key. 2;
  send_library_config = λ key. 3;
  default_send_library_config = 4;
  receive_library_config = λ key. 5;
  default_receive_library_config = 6;
  send_config = λ key. 7;
  receive_config = λ key. 8;
  decode_peer = λ info. ok oft;
  decode_send_library = λ info. ok (number_of 0 solana_message_lib);
  decode_receive_library = λ info. ok (number_of 0 solana_message_lib);
  decode_send_config = λ info. ok (solana_uln 32);
  decode_receive_config = λ info. ok (solana_uln 30);
}

abbrev pub metadata : Metadata
metadata = record {
  robinhood = some (record {
    deployments =
        record { eid = 30101; endpoint = none }
        ∷ record { eid = 30416; endpoint = some production_robinhood_endpoint }
        ∷ [];
    dvns = some (record { address = "0xdead"; deprecated = false; id = "lz-dead-dvn" } ∷ []);
  });
  solana = some (record { deployments = []; dvns = none });
}
