-- ===== src/Checker/Backed.antt =====
-- What a successful run of the production checker establishes.
use san_layerzero_bridge.Base.{
  ℕ, String, ◌≡◌, sym, ap, ◌∙◌, some, Result, ok, or_throw, ℤ, pos, string_Eq,
}
use san_layerzero_bridge.Base.{>>=-eq-ok, >>-eq-ok, ok_inj, ◌+ℤ◌, ◌≤ℤ◌}
use san_layerzero_bridge.Base.Accepts.{Accepts, throw_if-eq}
use san_layerzero_bridge.Checker.Answers.{Decoders}
use san_layerzero_bridge.Checker.Collect.{
  Services, load_in_flight_inventory, assemble, collect_production_mainnet_observation,
  robinhood_observation, read_token,
}
use san_layerzero_bridge.Checker.Environment.{required_env, approved_state_from_env}
use san_layerzero_bridge.Checker.Main.{
  stable, validate_repeated_production_observations, collect_repeated_production_observations,
  check_production_mainnet,
}
use san_layerzero_bridge.Checker.Programs.{Keys, production_keys, context_requests}
use san_layerzero_bridge.Checker.Snapshot.{
  SolanaAnswers, finalized_tag, read_solana, decode_receive_option,
}
use san_layerzero_bridge.ConfigCheck.Answers.{SolanaAccounts}
use san_layerzero_bridge.ConfigCheck.Collect.{collect_layer_zero_observation}
use san_layerzero_bridge.External.{External}
use san_layerzero_bridge.InFlight.Data.{Manifest, Inventory}
use san_layerzero_bridge.InFlight.Parse.{parse_in_flight_inventory}
use san_layerzero_bridge.InFlight.Spec.{total}
use san_layerzero_bridge.InFlight.Message.{solana_to_robinhood, robinhood_to_solana}
use san_layerzero_bridge.Mainnet.Collect.{in_flight_observation}
use san_layerzero_bridge.Mainnet.Data.{ApprovedState, Observation}
use san_layerzero_bridge.Mainnet.Solvency.{validate_production_mainnet_observation-backed}
use san_layerzero_bridge.Mainnet.Validate.{validate_production_mainnet_observation}
use san_layerzero_bridge.SolanaContext.{Snapshot, collect_solana_common_context}
use san_layerzero_bridge.StoreBindings.{new_public_key}

-- The manifest that a run reads, and the amounts of a snapshot of it
pub record IsBacked (x : External) (services : Services) (o : Observation) : Type 0 where
  pub path : String
  pub manifest : Manifest
  pub inventory : Inventory
  pub named : required_env services.env "SAN_OBSERVED_IN_FLIGHT_INVENTORY_PATH" ≡ ok path
  pub reads : services.inventory_file path ≡ ok manifest
  pub parses : parse_in_flight_inventory x manifest ≡ ok inventory
  pub tvl :
      o.solana.tvl_raw
      ≡ o.robinhood.total_supply_raw
        +ℤ pos (total solana_to_robinhood manifest.messages)
        +ℤ pos (total robinhood_to_solana manifest.messages)
  pub escrow : o.solana.tvl_raw ≤ℤ o.solana.escrow_balance_raw

-- Where the amounts in flight of a snapshot come from
record IsFromManifest (x : External) (services : Services) (o : Observation) : Type 0 where
  path : String
  manifest : Manifest
  inventory : Inventory
  slot : ℤ
  tag : ℕ
  named : required_env services.env "SAN_OBSERVED_IN_FLIGHT_INVENTORY_PATH" ≡ ok path
  reads : services.inventory_file path ≡ ok manifest
  parses : parse_in_flight_inventory x manifest ≡ ok inventory
  observed : o.in_flight ≡ in_flight_observation inventory slot tag

collect_repeated_production_observations-both :
    (a b : Result Observation) {pair : Observation × Observation}
    → collect_repeated_production_observations a b ≡ ok pair
    → (a ≡ ok pair.0) × (b ≡ ok pair.1)
unfolding collect_repeated_production_observations
collect_repeated_production_observations-both a b h =
    let (o, one, h1) = >>=-eq-ok a _ h in
    let (again, two, h2) = >>=-eq-ok b _ h1 in
    let same = ok_inj h2 in
    (
      one ∙ ap (λ (k : Observation × Observation). ok k.0) same,
      two ∙ ap (λ (k : Observation × Observation). ok k.1) same,
    )

module _ (x : External) (decoders : Decoders) where
  assemble-in_flight :
      (approved : ApprovedState) (inventory : Inventory) (keys : Keys) (snapshot : Snapshot)
      (read : SolanaAnswers) (chain_id tag : ℕ) (genesis_hash block_hash : String) (token : _)
      (layer_zero : _) {o : Observation}
      → assemble x decoders approved inventory keys snapshot read chain_id tag genesis_hash
          block_hash token layer_zero
        ≡ ok o
      → o.in_flight ≡ in_flight_observation inventory snapshot.evidence.context_slot tag
  unfolding assemble
  assemble-in_flight approved inventory keys snapshot read chain_id tag genesis_hash block_hash
        token layer_zero h =
      let (_, h1) = >>-eq-ok _ _ h in
      let (out, _, h2) = >>=-eq-ok (or_throw read.peer.outbound _) _ h1 in
      let (inn, _, h3) = >>=-eq-ok (or_throw read.peer.inbound _) _ h2 in
      let (robinhood, _, h4) =
        >>=-eq-ok (robinhood_observation x decoders approved chain_id block_hash token) _ h3 in
      let (a, _, h5) = >>=-eq-ok (decode_receive_option decoders token.enforced_options) _ h4 in
      let (b, _, h6) = >>=-eq-ok (decode_receive_option decoders read.peer.send_options) _ h5 in
      sym (ap (λ (k : Observation). k.in_flight) (ok_inj h6))

  module _ (accounts : SolanaAccounts) where
    collect_production_mainnet_observation-IsFromManifest :
        (services : Services) (approved : ApprovedState) {o : Observation}
        → collect_production_mainnet_observation x decoders accounts services approved ≡ ok o
        → IsFromManifest x services o
    unfolding collect_production_mainnet_observation load_in_flight_inventory
    collect_production_mainnet_observation-IsFromManifest services approved h =
        let (chain, _, h1) = >>=-eq-ok services.nodes.chain_id _ h in
        let (_, h2) = >>-eq-ok _ _ h1 in
        let (store, _, h3) = >>=-eq-ok (new_public_key x approved.solana_oft_store) _ h2 in
        let (head, _, h4) = >>=-eq-ok (finalized_tag services.nodes) _ h3 in
        let (inventory, loaded, h5) =
          >>=-eq-ok (load_in_flight_inventory x services.env services.inventory_file) _ h4 in
        let (path, named, loaded1) =
          >>=-eq-ok (required_env services.env "SAN_OBSERVED_IN_FLIGHT_INVENTORY_PATH") _ loaded in
        let (manifest, reads, parses) = >>=-eq-ok (services.inventory_file path) _ loaded1 in
        let (keys, _, h6) =
          >>=-eq-ok (production_keys x accounts decoders.endpoint_program approved store) _ h5 in
        let (responses, _, h7) =
          >>=-eq-ok (services.nodes.common_context (context_requests keys)) _ h6 in
        let (snapshot, _, h8) =
          >>=-eq-ok (collect_solana_common_context x (context_requests keys) responses) _ h7 in
        let (read, _, h9) = >>=-eq-ok (read_solana x decoders accounts keys snapshot.values) _ h8 in
        let (genesis, _, h10) = >>=-eq-ok services.nodes.genesis_hash _ h9 in
        let (token, _, h11) = >>=-eq-ok (read_token (services.nodes.token_at head.0)) _ h10 in
        let (layer_zero, _, h12) =
          >>=-eq-ok
            (collect_layer_zero_observation x accounts services.metadata services.programs
              (services.contracts head.0 approved.robinhood_oft) approved.solana_oft_store
              (some snapshot.values))
            _ h11 in
        record {
          path = path;
          manifest = manifest;
          inventory = inventory;
          slot = snapshot.evidence.context_slot;
          tag = head.0;
          named = named;
          reads = reads;
          parses = parses;
          observed =
              assemble-in_flight approved inventory keys snapshot read chain head.0 genesis head.1
                token layer_zero h12;
        }

    validated-IsBacked :
        (services : Services) (approved : ApprovedState) (expected_state : String) (o : Observation)
        → collect_production_mainnet_observation x decoders accounts services approved ≡ ok o
        → Accepts (validate_production_mainnet_observation x o approved expected_state)
        → IsBacked x services o
    validated-IsBacked services approved expected_state o collected accepted =
        let from =
          collect_production_mainnet_observation-IsFromManifest services approved collected in
        let (tvl, escrow) =
          validate_production_mainnet_observation-backed x o approved expected_state from.manifest
            from.inventory from.slot from.tag from.parses from.observed accepted in
        record {
          path = from.path;
          manifest = from.manifest;
          inventory = from.inventory;
          named = from.named;
          reads = from.reads;
          parses = from.parses;
          tvl = tvl;
          escrow = escrow;
        }

    -- A run of the production checker that succeeds has approved values that the environment gives,
    -- and two snapshots, one from each collection: each was accepted against those values, in each
    -- the TVL is to the unit the supply of Robinhood with the amounts of the undelivered messages of
    -- the manifest that this collection read and parsed, and the escrow covers it, and the two print
    -- the same text but for the slots and blocks of the reads.
    pub check_production_mainnet-IsBacked :
        (first second : Services)
        → check_production_mainnet x decoders accounts first second ≡ ok tt
        → (state : String) × (approved : ApprovedState) × (o : Observation) × (again : Observation)
          × (approved_state_from_env first.env x ≡ ok approved)
          × (collect_production_mainnet_observation x decoders accounts first approved ≡ ok o)
          × (collect_production_mainnet_observation x decoders accounts second approved ≡ ok again)
          × Accepts (validate_production_mainnet_observation x o approved state)
          × Accepts (validate_production_mainnet_observation x again approved state)
          × IsBacked x first o
          × IsBacked x second again
          × (stable o ≡ stable again)
    unfolding check_production_mainnet validate_repeated_production_observations
    check_production_mainnet-IsBacked first second h =
        let (state, _, h1) =
          >>=-eq-ok (required_env first.env "SAN_EXPECTED_ACTIVATION_STATE") _ h in
        let (_, h2) = >>-eq-ok _ _ h1 in
        let (approved, read, h3) = >>=-eq-ok (approved_state_from_env first.env x) _ h2 in
        let (pair, both, h4) =
          >>=-eq-ok
            (collect_repeated_production_observations
              (collect_production_mainnet_observation x decoders accounts first approved)
              (collect_production_mainnet_observation x decoders accounts second approved))
            _ h3 in
        let (one, two) = collect_repeated_production_observations-both _ _ both in
        let (accepted, h5) = >>-eq-ok _ _ h4 in
        let (confirmed, equal) = >>-eq-ok _ _ h5 in
        (
          state,
          approved,
          pair.0,
          pair.1,
          read,
          one,
          two,
          accepted,
          confirmed,
          validated-IsBacked first approved state pair.0 one accepted,
          validated-IsBacked second approved state pair.1 two confirmed,
          throw_if-eq _ _ _ equal,
        )
