-- ===== src/Checker/Collect.antt =====
-- `loadInFlightInventory`, and the whole of `collectProductionMainnetObservation`
use san_layerzero_bridge.Base.{
  ℕ, String, Bool, some, ◌==◌, ◌!=◌, Result, ok, throw_if, or_throw, ◌>>=◌, ◌>>◌, pos, int,
}
use san_layerzero_bridge.Base.{string_Eq, nat_Eq}
use san_layerzero_bridge.Base.Text.{to_lower}
use san_layerzero_bridge.Checker.Answers.{Decoders, EvmLimiter, Nodes, TokenAnswers}
use san_layerzero_bridge.Checker.Environment.{Environment, required_env}
use san_layerzero_bridge.Checker.Programs.{Keys, production_keys, context_requests}
use san_layerzero_bridge.Checker.Snapshot.{
  SolanaAnswers, finalized_tag, read_solana, solana_observation, solana_limit, robinhood_limit,
  decode_receive_option,
}
use san_layerzero_bridge.Config.{robinhood_eid}
use san_layerzero_bridge.ConfigCheck.Answers.{
  RobinhoodContracts, SolanaPrograms, SolanaAccounts, Metadata,
}
use san_layerzero_bridge.ConfigCheck.Collect.{collect_layer_zero_observation}
use san_layerzero_bridge.External.{External}
use san_layerzero_bridge.InFlight.Data.{Manifest, Inventory}
use san_layerzero_bridge.InFlight.Parse.{parse_in_flight_inventory}
use san_layerzero_bridge.LayerZero.{BridgeObservation}
use san_layerzero_bridge.Mainnet.Collect.{address_from_storage, in_flight_observation}
use san_layerzero_bridge.Mainnet.Data.{ApprovedState, RobinhoodObservation, Observation}
use san_layerzero_bridge.SolanaContext.{Snapshot, collect_solana_common_context}
use san_layerzero_bridge.StoreBindings.{new_public_key}

-- What the checker calls. A file of the inventory is as `JSON.parse` gives it; the contracts of
-- Robinhood are at a block, for a token and an endpoint.
pub record Services : Type 0 where
  pub env : Environment
  pub inventory_file : String → Result Manifest
  pub nodes : Nodes
  pub metadata : Metadata
  pub programs : SolanaPrograms
  pub contracts : ℕ → String → String → RobinhoodContracts

-- The answers of `Promise.all`, but for the genesis hash
pub record TokenReads : Type 0 where
  pub owner : String
  pub paused : Bool
  pub endpoint : String
  pub decimals : ℕ
  pub shared_decimals : ℕ
  pub total_supply : ℕ
  pub outbound : EvmLimiter
  pub inbound : EvmLimiter
  pub enforced_options : String
  pub delegate : String
  pub code : String
  pub implementation_slot : String
  pub admin_slot : String

unfoldable pub read_token : TokenAnswers → Result TokenReads
read_token token = do
  owner ← token.owner
  paused ← token.paused
  endpoint ← token.endpoint
  decimals ← token.decimals
  shared_decimals ← token.shared_decimals
  total_supply ← token.total_supply
  outbound ← token.outbound
  inbound ← token.inbound
  enforced_options ← token.enforced_options
  delegate ← token.delegate
  code ← token.code
  implementation_slot ← token.implementation_slot
  admin_slot ← token.admin_slot
  ok (record {
    owner = owner;
    paused = paused;
    endpoint = endpoint;
    decimals = decimals;
    shared_decimals = shared_decimals;
    total_supply = total_supply;
    outbound = outbound;
    inbound = inbound;
    enforced_options = enforced_options;
    delegate = delegate;
    code = code;
    implementation_slot = implementation_slot;
    admin_slot = admin_slot;
  })

module _ (x : External) where
  unfoldable pub load_in_flight_inventory :
      Environment → (String → Result Manifest) → Result Inventory
  load_in_flight_inventory env inventory_file = do
    path ← required_env env "SAN_OBSERVED_IN_FLIGHT_INVENTORY_PATH"
    manifest ← inventory_file path
    parse_in_flight_inventory x manifest

  module _ (decoders : Decoders) where
    -- `robinhood` of the returned object
    unfoldable pub robinhood_observation :
        ApprovedState → ℕ → String → TokenReads → Result RobinhoodObservation
    robinhood_observation approved chain_id block_hash token = do
      oft ← or_throw (x.get_address approved.robinhood_oft) "invalid address"
      implementation ← address_from_storage x token.implementation_slot
      admin ← address_from_storage x token.admin_slot
      ok (record {
        chain_id = int (pos chain_id);
        eid = int robinhood_eid;
        endpoint = token.endpoint;
        oft = oft;
        decimals = int (pos token.decimals);
        shared_decimals = int (pos token.shared_decimals);
        total_supply_raw = pos token.total_supply;
        owner = token.owner;
        delegate = token.delegate;
        paused = token.paused;
        runtime_code_hash = decoders.keccak256 token.code;
        proxy_implementation = implementation;
        proxy_admin = admin;
        block_hash = to_lower block_hash;
      })

    -- The returned object, from what was read of both chains
    unfoldable pub assemble :
        ApprovedState
        → Inventory
        → Keys
        → Snapshot
        → SolanaAnswers
        → (chain_id tag : ℕ) → (genesis_hash block_hash : String) → TokenReads
        → BridgeObservation
        → Result Observation
    assemble approved inventory keys snapshot read chain_id tag genesis_hash block_hash token
          layer_zero =
        do
          throw_if (token.code == "0x") "Robinhood SanOFT runtime bytecode is empty"
          outbound ←
              or_throw read.peer.outbound "Solana peer is missing a required directional limiter"
          inbound ←
              or_throw read.peer.inbound "Solana peer is missing a required directional limiter"
          robinhood ← robinhood_observation approved chain_id block_hash token
          solana_receive ← decode_receive_option decoders token.enforced_options
          robinhood_receive ← decode_receive_option decoders read.peer.send_options
          ok (record {
            solana = solana_observation x decoders approved keys genesis_hash read;
            robinhood = robinhood;
            layer_zero = layer_zero;
            enforced_options = record {
              solana_receive = solana_receive;
              robinhood_receive = robinhood_receive;
            };
            rate_limits = record {
              solana = some (record {
                outbound = some (solana_limit outbound);
                inbound = some (solana_limit inbound);
              });
              robinhood = some (record {
                outbound = some (robinhood_limit token.outbound);
                inbound = some (robinhood_limit token.inbound);
              });
            };
            solana_context = snapshot.evidence;
            in_flight = in_flight_observation inventory snapshot.evidence.context_slot tag;
          })

    unfoldable pub collect_production_mainnet_observation :
        SolanaAccounts → Services → ApprovedState → Result Observation
    collect_production_mainnet_observation accounts services approved = do
      chain_id ← services.nodes.chain_id
      throw_if (chain_id != 4663) "Robinhood RPC chainId is not 4663"
      store ← new_public_key x approved.solana_oft_store
      (tag, block_hash) ← finalized_tag services.nodes
      inventory ← load_in_flight_inventory services.env services.inventory_file
      keys ← production_keys x accounts decoders.endpoint_program approved store
      responses ← services.nodes.common_context (context_requests keys)
      snapshot ← collect_solana_common_context x (context_requests keys) responses
      read ← read_solana x decoders accounts keys snapshot.values
      genesis_hash ← services.nodes.genesis_hash
      token ← read_token (services.nodes.token_at tag)
      layer_zero ←
          collect_layer_zero_observation x accounts services.metadata services.programs
            (services.contracts tag approved.robinhood_oft) approved.solana_oft_store
            (some snapshot.values)
      assemble approved inventory keys snapshot read chain_id tag genesis_hash block_hash token
          layer_zero
