-- ===== src/ConfigCheck/Deployed.antt =====
-- What `checkLayerZeroConfig` establishes of both chains.
use san_layerzero_bridge.Base.{
  String, ◌≡◌, refl, sym, ap, ◌∙◌, false, not, Option, none, some, ok, or_throw, pos, string_Eq,
  ◌≢◌,
}
use mathlib.Core.Path.{subst}
use san_layerzero_bridge.Base.{>>=-eq-ok, >>-eq-ok, or_throw-eq-ok, ok_inj}
use san_layerzero_bridge.Base.Accepts.{throw_if-eq, not-eq-true, beq-ne}
use san_layerzero_bridge.Config.{production_robinhood_endpoint}
use san_layerzero_bridge.ConfigCheck.Answers.{
  RobinhoodContracts, SolanaPrograms, SolanaAccounts, ChainMetadata, Metadata,
}
use san_layerzero_bridge.ConfigCheck.Robinhood.{inspect_robinhood_layer_zero}
use san_layerzero_bridge.ConfigCheck.Solana.{default_key, inspect_solana_layer_zero}
use san_layerzero_bridge.ConfigCheck.Collect.{
  required_env, endpoint_of, find_deployment, deprecated_dvns, collect_layer_zero_observation,
  check_layer_zero_config,
}
use san_layerzero_bridge.ConfigCheck.Explicit.{
  HasOwnUln, HasOwnExecutor, IsRead, inspect_robinhood_layer_zero-IsRead,
  normalize_evm_uln-HasOwnUln, is_executor_explicit-HasOwnExecutor,
}
use san_layerzero_bridge.ConfigCheck.Own.{
  IsOwnUln, IsReadPrograms, inspect_solana_programs-IsReadPrograms, normalize_solana_uln-IsOwnUln,
}
use san_layerzero_bridge.External.{External}
use san_layerzero_bridge.LayerZero.{
  Chain, solana, robinhood, BridgeObservation, Peers, san_layerzero_policy, intended_on,
}
use san_layerzero_bridge.LayerZero.Accepted.{validate_layer_zero_observation-IsConfigured}
use san_layerzero_bridge.LayerZero.Spec.{IsConfigured}
use san_layerzero_bridge.LayerZero.Uln.{IsDistinct}
use san_layerzero_bridge.Mainnet.Checks.{bytes32_from_evm, bytes32_from_solana}
use san_layerzero_bridge.Base.Text.{to_lower}

-- The contracts of Robinhood hold configurations of the token itself, of the pinned depths, and answer
-- with `bytes` as their peer.
pub record IsOwnRobinhood (x : External) (contracts : RobinhoodContracts) (bytes : String)
    (o : BridgeObservation) : Type 0 where
  pub read : IsRead x contracts o.robinhood
  pub chain : contracts.chain_id ≡ ok 4663
  pub send_library : contracts.send_library ≡ ok o.robinhood.send_library
  pub not_default : contracts.is_default_send_library ≡ ok false
  pub receive_library : contracts.receive_library ≡ ok (o.robinhood.receive_library, false)
  pub send : HasOwnUln contracts o.robinhood.send_library o.robinhood.send (pos 30)
  pub receive : HasOwnUln contracts o.robinhood.receive_library o.robinhood.receive (pos 32)
  pub peer : (p : String) × (contracts.peer ≡ ok p) × (to_lower (to_lower p) ≡ to_lower bytes)
  pub executor : HasOwnExecutor x contracts o.robinhood.send_library o.robinhood.executor

-- The programs of Solana hold configurations of the store itself, of the pinned depths, and answer with
-- `bytes` as their peer.
pub record IsOwnSolana (x : External) (programs : SolanaPrograms) (bytes : String)
    (o : BridgeObservation) : Type 0 where
  pub read : IsReadPrograms x programs o.solana
  pub not_default_send : read.send_library.is_default ≡ false
  pub not_default_receive : read.receive_library.is_default ≡ false
  pub executor_set : read.send.executor ≢ default_key x
  pub send : IsOwnUln read.send o.solana.send (pos 32)
  pub receive : IsOwnUln read.receive o.solana.receive (pos 30)
  pub peer : (p : String) × (programs.peer ≡ ok p) × (to_lower (to_lower p) ≡ to_lower bytes)

pub record IsDeployed (x : External) (env : String → Option String) (metadata : Metadata)
    (programs : String → SolanaPrograms) (contracts : String → String → RobinhoodContracts)
    : Type 0 where
  pub store : String
  pub oft_text : String
  pub oft : String
  pub endpoint : String
  pub on_robinhood : ChainMetadata
  pub on_solana : ChainMetadata
  pub peers : Peers
  pub observation : BridgeObservation
  pub store_set : required_env env "SAN_SOLANA_OFT_STORE" ≡ ok store
  pub oft_set : required_env env "SAN_ROBINHOOD_OFT_ADDRESS" ≡ ok oft_text
  pub oft_named : x.get_address oft_text ≡ some oft
  pub robinhood_listed : metadata.robinhood ≡ some on_robinhood
  pub solana_listed : metadata.solana ≡ some on_solana
  pub endpoint_listed : endpoint_of (find_deployment on_robinhood.deployments) ≡ some endpoint
  pub endpoint_pinned : x.get_address endpoint ≡ x.get_address production_robinhood_endpoint
  pub oft_bytes : bytes32_from_evm x oft ≡ ok peers.solana
  pub store_bytes : bytes32_from_solana x store ≡ ok peers.robinhood
  pub dead_dvns : observation.deprecated_dvns ≡ deprecated_dvns on_robinhood on_solana
  pub configured : (c : Chain) → IsConfigured x c observation peers san_layerzero_policy (pos 30)
  pub own_robinhood : IsOwnRobinhood x (contracts oft endpoint) peers.robinhood observation
  pub own_solana : IsOwnSolana x (programs store) peers.solana observation

module _ (x : External) (peers : Peers) (o : BridgeObservation) where
  read-IsOwnRobinhood :
      (contracts : RobinhoodContracts)
      → IsRead x contracts o.robinhood
      → IsConfigured x robinhood o peers san_layerzero_policy (pos 30)
      → IsOwnRobinhood x contracts peers.robinhood o
  read-IsOwnRobinhood contracts read is = record {
    read = read;
    chain = read.chain;
    send_library = read.send_library;
    not_default = read.send_default ∙ ap (λ b. ok (not b)) is.send_explicit;
    receive_library =
        read.receive_library
        ∙ ap (λ b. ok (o.robinhood.receive_library, not b)) is.receive_explicit;
    send =
        normalize_evm_uln-HasOwnUln x contracts _ _ (pos 30) read.send is.send.explicit_no_required
          is.send.explicit_confirmations is.send.explicit_optional_dvns is.send.confirmations;
    receive =
        normalize_evm_uln-HasOwnUln x contracts _ _ (pos 32) read.receive
          is.receive.explicit_no_required is.receive.explicit_confirmations
          is.receive.explicit_optional_dvns is.receive.confirmations;
    peer = let (p, asked, same) = read.peer in (p, asked, sym (ap to_lower same) ∙ is.peer);
    executor = subst (HasOwnExecutor x contracts o.robinhood.send_library) read.executor (
        is_executor_explicit-HasOwnExecutor x contracts _ read.final read.raw read.reads_raw
          (read.explicit ∙ ap ok is.executor_explicit));
  }

  read-IsOwnSolana :
      (programs : SolanaPrograms)
      → IsReadPrograms x programs o.solana
      → IsConfigured x solana o peers san_layerzero_policy (pos 30)
      → IsOwnSolana x programs peers.solana o
  read-IsOwnSolana programs read is = record {
    read = read;
    not_default_send = not-eq-true _ (sym read.send_explicit ∙ is.send_explicit);
    not_default_receive = not-eq-true _ (sym read.receive_explicit ∙ is.receive_explicit);
    executor_set = beq-ne _ _ (not-eq-true _ (sym read.executor_set ∙ is.executor_explicit));
    peer = let (p, asked, same) = read.peer in (p, asked, sym (ap to_lower same) ∙ is.peer);
    send =
        normalize_solana_uln-IsOwnUln read.send o.solana.send (pos 32) read.sent
          is.send.explicit_no_required is.send.explicit_confirmations is.send.explicit_optional_dvns
          is.send.confirmations;
    receive =
        normalize_solana_uln-IsOwnUln read.receive o.solana.receive (pos 30) read.received
          is.receive.explicit_no_required is.receive.explicit_confirmations
          is.receive.explicit_optional_dvns is.receive.confirmations;
  }

-- What a collected observation was read from
record IsCollected (x : External) (metadata : Metadata) (programs : SolanaPrograms)
    (contracts : String → RobinhoodContracts) (o : BridgeObservation) : Type 0 where
  endpoint : String
  on_robinhood : ChainMetadata
  on_solana : ChainMetadata
  robinhood_listed : metadata.robinhood ≡ some on_robinhood
  solana_listed : metadata.solana ≡ some on_solana
  endpoint_listed : endpoint_of (find_deployment on_robinhood.deployments) ≡ some endpoint
  endpoint_pinned : x.get_address endpoint ≡ x.get_address production_robinhood_endpoint
  dead_dvns : o.deprecated_dvns ≡ deprecated_dvns on_robinhood on_solana
  reads_robinhood : IsRead x (contracts endpoint) o.robinhood
  reads_solana : IsReadPrograms x programs o.solana

module _ (x : External) (accounts : SolanaAccounts) (metadata : Metadata) where
  collect_layer_zero_observation-IsCollected :
      (programs : SolanaPrograms) (contracts : String → RobinhoodContracts) (store : String)
      {o : BridgeObservation}
      → collect_layer_zero_observation x accounts metadata programs contracts store none ≡ ok o
      → IsCollected x metadata programs contracts o
  unfolding collect_layer_zero_observation inspect_solana_layer_zero
  collect_layer_zero_observation-IsCollected programs contracts store h =
      let (listed, p, h1) = >>=-eq-ok (or_throw metadata.robinhood _) _ h in
      let (on_solana, q, h2) = >>=-eq-ok (or_throw metadata.solana _) _ h1 in
      let (endpoint, r, h3) =
        >>=-eq-ok (or_throw (endpoint_of (find_deployment listed.deployments)) _) _ h2 in
      let (named, s, h4) = >>=-eq-ok (or_throw (x.get_address endpoint) _) _ h3 in
      let (pinned, t, h5) =
        >>=-eq-ok (or_throw (x.get_address production_robinhood_endpoint) _) _ h4 in
      let (equal, h6) = >>-eq-ok _ _ h5 in
      let same : named ≡ pinned = throw_if-eq _ _ _ equal in
      let (chain, u, h7) =
        >>=-eq-ok (inspect_solana_layer_zero x accounts programs store none) _ h6 in
      let (key, _, v) = >>=-eq-ok (or_throw (x.public_key store) _) _ u in
      let (other_chain, w, h8) =
        >>=-eq-ok (inspect_robinhood_layer_zero x (contracts endpoint)) _ h7 in
      subst (IsCollected x metadata programs contracts) (ok_inj h8) (record {
        endpoint = endpoint;
        on_robinhood = listed;
        on_solana = on_solana;
        robinhood_listed = or_throw-eq-ok _ _ p;
        solana_listed = or_throw-eq-ok _ _ q;
        endpoint_listed = or_throw-eq-ok _ _ r;
        endpoint_pinned = or_throw-eq-ok _ _ s ∙ ap some same ∙ sym (or_throw-eq-ok _ _ t);
        dead_dvns = refl;
        reads_robinhood = inspect_robinhood_layer_zero-IsRead x (contracts endpoint) w;
        reads_solana = inspect_solana_programs-IsReadPrograms x programs v;
      })

  -- Where the configuration check accepts, the store and the token of the environment are configured
  -- on both chains as the pinned policy says, against verifiers that the metadata does not retire, and
  -- the endpoint of the metadata is the pinned one. Everything that is held against the policy is what
  -- the chains answered: the libraries, executors, verifiers, thresholds, depths and peers, and each
  -- chain's own answer for its peer is, up to letter case, the address of the other chain's token. What
  -- was read is a configuration of the token itself: its libraries are not the endpoint's defaults, no
  -- verifier is required, and the depths (30 from Robinhood, 32 from Solana), the verifiers and the
  -- executors are set and not resolved. The pinned verifiers are assumed to be read as different
  -- accounts.
  pub check_layer_zero_config-IsDeployed :
      (env : String → Option String) (programs : String → SolanaPrograms)
      (contracts : String → String → RobinhoodContracts)
      → ((c : Chain) → IsDistinct x c (intended_on c san_layerzero_policy).optional_dvns)
      → check_layer_zero_config x accounts env metadata programs contracts ≡ ok tt
      → IsDeployed x env metadata programs contracts
  unfolding check_layer_zero_config
  check_layer_zero_config-IsDeployed env programs contracts distinct h =
      let (store, p, h1) = >>=-eq-ok (required_env env "SAN_SOLANA_OFT_STORE") _ h in
      let (text, q, h2) = >>=-eq-ok (required_env env "SAN_ROBINHOOD_OFT_ADDRESS") _ h1 in
      let (oft, r, h3) = >>=-eq-ok (or_throw (x.get_address text) _) _ h2 in
      let (o, s, h4) =
        >>=-eq-ok
          (collect_layer_zero_observation x accounts metadata (programs store) (contracts oft) store
            none)
          _ h3 in
      let (on_solana, t, h5) = >>=-eq-ok (bytes32_from_evm x oft) _ h4 in
      let (on_robinhood, u, accepted) = >>=-eq-ok (bytes32_from_solana x store) _ h5 in
      let peers : Peers = record { solana = on_solana; robinhood = on_robinhood } in
      let (n, depth, each) =
        validate_layer_zero_observation-IsConfigured x o peers san_layerzero_policy distinct
          accepted in
      let thirty : n ≡ pos 30 = cc depth in
      let configured =
        λ (c : Chain). subst (IsConfigured x c o peers san_layerzero_policy) thirty (each c) in
      let read =
        collect_layer_zero_observation-IsCollected (programs store) (contracts oft) store s in
      record {
        store = store;
        oft_text = text;
        oft = oft;
        endpoint = read.endpoint;
        on_robinhood = read.on_robinhood;
        on_solana = read.on_solana;
        peers = peers;
        observation = o;
        store_set = p;
        oft_set = q;
        oft_named = or_throw-eq-ok _ _ r;
        robinhood_listed = read.robinhood_listed;
        solana_listed = read.solana_listed;
        endpoint_listed = read.endpoint_listed;
        endpoint_pinned = read.endpoint_pinned;
        oft_bytes = t;
        store_bytes = u;
        dead_dvns = read.dead_dvns;
        configured = configured;
        own_robinhood =
            read-IsOwnRobinhood x peers o (contracts oft read.endpoint) read.reads_robinhood
              (configured robinhood);
        own_solana =
            read-IsOwnSolana x peers o (programs store) read.reads_solana (configured solana);
      }
