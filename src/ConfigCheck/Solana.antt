-- ===== src/ConfigCheck/Solana.antt =====
-- `inspectSolanaLayerZero`, through a connection and from the accounts of a common context, and
-- `solanaLayerZeroContextAccounts`
use san_layerzero_bridge.Base.{
  String, true, not, ◌&&◌, ◌||◌, Option, none, some, List, [], ◌∷◌, ltb, ◌==◌, ◌!=◌, Result, ok,
  throw_if, or_throw, ◌>>=◌, ◌>>◌, pos, length, string_Eq, nat_Eq,
}
use san_layerzero_bridge.Base.Text.{to_lower}
use san_layerzero_bridge.ConfigCheck.Answers.{SolanaUln, SolanaPrograms, SolanaAccounts}
use san_layerzero_bridge.External.{External}
use san_layerzero_bridge.LayerZero.{UlnObservation, ChainObservation}
use san_layerzero_bridge.SolanaContext.{AccountRequest, AccountInfo, account}

-- `SOLANA_MESSAGE_LIB`
abbrev pub solana_message_lib : String
solana_message_lib = "2XgGZG4oP29U3w5h4nTk1V2LFHL23zKDPJjs3psGzLKQ"

-- `normalizeSolanaUln`
unfoldable pub normalize_solana_uln : SolanaUln → UlnObservation
normalize_solana_uln state = record {
  confirmations = pos state.confirmations;
  required_dvns = state.required_dvns;
  optional_dvns = state.optional_dvns;
  optional_threshold = pos state.optional_dvn_threshold;
  explicit_no_required = state.required_dvn_count == 255;
  explicit_confirmations = ltb 0 state.confirmations;
  explicit_optional_dvns =
      ltb 0 state.optional_dvn_count && state.optional_dvn_count == length state.optional_dvns;
}

module _ (x : External) where
  open x use {public_key, to_base58}

  -- `PublicKey.default.toBase58()`: the key of zeros
  abbrev pub default_key : String
  default_key = to_base58 0

  -- The case without a snapshot
  unfoldable pub inspect_solana_programs : SolanaPrograms → Result ChainObservation
  inspect_solana_programs programs = do
    send_answer ← programs.send_library
    receive_answer ← programs.receive_library
    send_state ← programs.send_config
    receive_state ← programs.receive_config
    send ← or_throw send_state "Solana custom send/receive ULN config is missing"
    receive ← or_throw receive_state "Solana custom send/receive ULN config is missing"
    send_library ← or_throw send_answer "Solana send/receive library is missing"
    receive_library ← or_throw receive_answer "Solana send/receive library is missing"
    throw_if
        (send_library.message_lib != solana_message_lib
          || receive_library.message_lib != solana_message_lib)
        "Solana resolved message-library PDA differs"
    peer ← programs.peer
    ok (record {
      send_library = send_library.program_id;
      receive_library = receive_library.program_id;
      executor = send.executor;
      send_library_explicit = not send_library.is_default;
      receive_library_explicit = not receive_library.is_default;
      executor_explicit = send.executor != default_key;
      peer = to_lower peer;
      send = normalize_solana_uln send;
      receive = normalize_solana_uln receive;
    })

  module _ (accounts : SolanaAccounts) where
    unfoldable pub solana_layer_zero_context_accounts : String → Result (List AccountRequest)
    solana_layer_zero_context_accounts oft_store_address = do
      store ← or_throw (public_key oft_store_address) "Invalid public key input"
      peer ← accounts.peer_address store
      library ← or_throw (public_key solana_message_lib) "Invalid public key input"
      ok (
          record { label = "OFT peer config"; address = peer }
          ∷ record { label = "Endpoint OApp registry"; address = accounts.oapp_registry store }
          ∷ record {
            label = "Endpoint app send-library config";
            address = accounts.send_library_config store;
          }
          ∷ record {
            label = "Endpoint default send-library config";
            address = accounts.default_send_library_config;
          }
          ∷ record {
            label = "Endpoint app receive-library config";
            address = accounts.receive_library_config store;
          }
          ∷ record {
            label = "Endpoint default receive-library config";
            address = accounts.default_receive_library_config;
          }
          ∷ record { label = "ULN message-library PDA"; address = library }
          ∷ record { label = "ULN custom send config"; address = accounts.send_config store }
          ∷ record { label = "ULN custom receive config"; address = accounts.receive_config store }
          ∷ [])

    -- `inspectSolanaLayerZeroSnapshot`, on the accounts that were bound to the common context
    unfoldable pub inspect_solana_snapshot :
        String → List (String × AccountInfo) → Result ChainObservation
    inspect_solana_snapshot oft_store_address values = do
      store ← or_throw (public_key oft_store_address) "Invalid public key input"
      peer_key ← accounts.peer_address store
      peer_info ← account x values peer_key
      peer ← accounts.decode_peer peer_info
      send_info ← account x values (accounts.send_library_config store)
      send_library ← accounts.decode_send_library send_info
      receive_info ← account x values (accounts.receive_library_config store)
      receive_library ← accounts.decode_receive_library receive_info
      throw_if (send_library == 0 || receive_library == 0)
          "Solana send/receive library is inherited from Endpoint defaults"
      throw_if
          (to_base58 send_library != solana_message_lib
            || to_base58 receive_library != solana_message_lib)
          "Solana resolved message-library PDA differs"
      library_key ← or_throw (public_key solana_message_lib) "Invalid public key input"
      library_info ← account x values library_key
      send_config_info ← account x values (accounts.send_config store)
      send ← accounts.decode_send_config send_config_info
      receive_config_info ← account x values (accounts.receive_config store)
      receive ← accounts.decode_receive_config receive_config_info
      ok (record {
        send_library = to_base58 library_info.owner;
        receive_library = to_base58 library_info.owner;
        executor = send.executor;
        send_library_explicit = true;
        receive_library_explicit = true;
        executor_explicit = send.executor != default_key;
        peer = to_lower peer;
        send = normalize_solana_uln send;
        receive = normalize_solana_uln receive;
      })

    -- `inspectSolanaLayerZero`
    unfoldable pub inspect_solana_layer_zero :
        SolanaPrograms → String → Option (List (String × AccountInfo)) → Result ChainObservation
    inspect_solana_layer_zero programs oft_store_address none =
        or_throw (public_key oft_store_address) "Invalid public key input" >>= λ store.
        inspect_solana_programs programs
    inspect_solana_layer_zero programs oft_store_address (some values) =
        inspect_solana_snapshot oft_store_address values
