-- ===== src/ConfigCheck/Answers.antt =====
-- What the contracts and programs of LayerZero answer to scripts/checkLayerZeroConfig.ts, read by the
-- packages of both chains, and the package's metadata. A request that throws is `err`.
use san_layerzero_bridge.Base.{ℕ, String, Bool, Option, List, Result}
use san_layerzero_bridge.SolanaContext.{AccountInfo}

-- A configuration of the message library of Robinhood
pub record EvmUln : Type 0 where
  pub confirmations : ℕ
  pub required_dvn_count : ℕ
  pub optional_dvn_count : ℕ
  pub optional_dvn_threshold : ℕ
  pub required_dvns : List String
  pub optional_dvns : List String

pub record EvmExecutor : Type 0 where
  pub max_message_size : ℕ
  pub executor : String

-- The view functions of the endpoint, of its libraries and of the token, at the block of the call
pub record RobinhoodContracts : Type 0 where
  pub chain_id : Result ℕ
  pub send_library : Result String
  pub is_default_send_library : Result Bool
  pub receive_library : Result (String × Bool)
  pub uln_config : String → Result EvmUln
  pub app_uln_config : String → Result EvmUln
  pub executor_config : String → Result EvmExecutor
  pub executor_configs : String → Result EvmExecutor
  pub peer : Result String

-- A send or receive configuration of the message library of Solana, with the executor of the former
pub record SolanaUln : Type 0 where
  pub confirmations : ℕ
  pub required_dvn_count : ℕ
  pub optional_dvn_count : ℕ
  pub optional_dvn_threshold : ℕ
  pub required_dvns : List String
  pub optional_dvns : List String
  pub executor : String

pub record SolanaLibrary : Type 0 where
  pub message_lib : String
  pub program_id : String
  pub is_default : Bool

-- The reads of the endpoint and of the message library through a connection
pub record SolanaPrograms : Type 0 where
  pub send_library : Result (Option SolanaLibrary)
  pub receive_library : Result (Option SolanaLibrary)
  pub send_config : Result (Option SolanaUln)
  pub receive_config : Result (Option SolanaUln)
  pub peer : Result String

-- The derived addresses of a store's accounts, and the decoders of their data
pub record SolanaAccounts : Type 0 where
  pub peer_address : ℕ → Result ℕ
  pub oapp_registry : ℕ → ℕ
  pub send_library_config : ℕ → ℕ
  pub default_send_library_config : ℕ
  pub receive_library_config : ℕ → ℕ
  pub default_receive_library_config : ℕ
  pub send_config : ℕ → ℕ
  pub receive_config : ℕ → ℕ
  pub decode_peer : AccountInfo → Result String
  pub decode_send_library : AccountInfo → Result ℕ
  pub decode_receive_library : AccountInfo → Result ℕ
  pub decode_send_config : AccountInfo → Result SolanaUln
  pub decode_receive_config : AccountInfo → Result SolanaUln

pub record DvnMetadata : Type 0 where
  pub address : String
  pub deprecated : Bool
  pub id : String

pub record Deployment : Type 0 where
  pub eid : ℕ
  pub endpoint : Option String

pub record ChainMetadata : Type 0 where
  pub deployments : List Deployment
  pub dvns : Option (List DvnMetadata)

pub record Metadata : Type 0 where
  pub robinhood : Option ChainMetadata
  pub solana : Option ChainMetadata
