-- ===== src/ConfigCheck/Collect.antt =====
-- `collectLayerZeroObservation` and `checkLayerZeroConfig`
use san_layerzero_bridge.Base.{
  String, Bool, ◌||◌, Option, none, some, List, [], ◌∷◌, ◌++◌, ◌==◌, ◌!=◌, if◌then◌else◌, Result,
  ok, err, Check, throw_if, or_throw, ◌>>=◌, ◌>>◌, string_Eq, nat_Eq,
}
use san_layerzero_bridge.Base.Text.{concat}
use san_layerzero_bridge.Base.BigInt.{trim}
use san_layerzero_bridge.Config.{production_robinhood_endpoint}
use san_layerzero_bridge.ConfigCheck.Answers.{
  RobinhoodContracts, SolanaPrograms, SolanaAccounts, DvnMetadata, Deployment, ChainMetadata,
  Metadata,
}
use san_layerzero_bridge.ConfigCheck.Robinhood.{inspect_robinhood_layer_zero}
use san_layerzero_bridge.ConfigCheck.Solana.{inspect_solana_layer_zero}
use san_layerzero_bridge.External.{External}
use san_layerzero_bridge.LayerZero.{
  BridgeObservation, validate_layer_zero_observation, san_layerzero_policy,
}
use san_layerzero_bridge.Mainnet.Checks.{bytes32_from_evm, bytes32_from_solana}
use san_layerzero_bridge.SolanaContext.{AccountInfo}

-- `requiredEnv`: a variable that is set and not blank, trimmed
unfoldable pub required_env : (String → Option String) → String → Result String
required_env env name = elim (env name) [
  | none ↦ err (concat name " is required; no SAN deployment is assumed")
  | some value ↦
      if trim value == ""
      then err (concat name " is required; no SAN deployment is assumed")
      else ok (trim value)
]

-- `robinhood.deployments.find((item) => Number(item.eid) === ROBINHOOD_EID)`
unfoldable pub find_deployment : List Deployment → Option Deployment
find_deployment [] = none
find_deployment (item ∷ items) =
    let rest = find_deployment items in if item.eid == 30416 then some item else rest

-- `robinhoodDeployment?.endpointV2?.address`, where it is not empty
unfoldable pub endpoint_of : Option Deployment → Option String
endpoint_of none = none
endpoint_of (some deployment) = elim deployment.endpoint [
  | none ↦ none
  | some address ↦ if address == "" then none else some address
]

-- `value.deprecated === true || value.id === 'lz-dead-dvn'`
abbrev pub is_retired : DvnMetadata → Bool
is_retired dvn = dvn.deprecated || dvn.id == "lz-dead-dvn"

unfoldable pub retired : List DvnMetadata → List String
retired [] = []
retired (dvn ∷ dvns) = if is_retired dvn then dvn.address ∷ retired dvns else retired dvns

-- `chain.dvns ?? {}`
abbrev pub dvns_of : ChainMetadata → List DvnMetadata
dvns_of chain = elim chain.dvns [ none ↦ [] | some dvns ↦ dvns ]

unfoldable pub deprecated_dvns : ChainMetadata → ChainMetadata → List String
deprecated_dvns robinhood solana = retired (dvns_of robinhood) ++ retired (dvns_of solana)

module _ (x : External) (accounts : SolanaAccounts) where
  unfoldable pub collect_layer_zero_observation :
      Metadata
      → SolanaPrograms
      → (String → RobinhoodContracts)
      → String
      → Option (List (String × AccountInfo))
      → Result BridgeObservation
  collect_layer_zero_observation metadata programs contracts solana_store snapshot = do
    robinhood ←
        or_throw metadata.robinhood "official LayerZero mainnet metadata is missing SAN chains"
    solana ← or_throw metadata.solana "official LayerZero mainnet metadata is missing SAN chains"
    endpoint ←
        or_throw (endpoint_of (find_deployment robinhood.deployments))
          "Robinhood EndpointV2 metadata missing"
    named ← or_throw (x.get_address endpoint) "invalid address"
    pinned ← or_throw (x.get_address production_robinhood_endpoint) "invalid address"
    throw_if (named != pinned)
        "LayerZero metadata Robinhood Endpoint differs from the pinned production Endpoint"
    on_solana ← inspect_solana_layer_zero x accounts programs solana_store snapshot
    on_robinhood ← inspect_robinhood_layer_zero x (contracts endpoint)
    ok (record {
      solana = on_solana;
      robinhood = on_robinhood;
      deprecated_dvns = deprecated_dvns robinhood solana;
    })

  -- `checkLayerZeroConfig`, which takes no snapshot. `contracts` is Robinhood at an endpoint.
  unfoldable pub check_layer_zero_config :
      (String → Option String)
      → Metadata
      → (String → SolanaPrograms)
      → (String → String → RobinhoodContracts)
      → Check
  check_layer_zero_config env metadata programs contracts = do
    solana_store ← required_env env "SAN_SOLANA_OFT_STORE"
    oft_text ← required_env env "SAN_ROBINHOOD_OFT_ADDRESS"
    robinhood_oft ← or_throw (x.get_address oft_text) "invalid address"
    observation ←
        collect_layer_zero_observation metadata (programs solana_store) (contracts robinhood_oft)
          solana_store none
    on_solana ← bytes32_from_evm x robinhood_oft
    on_robinhood ← bytes32_from_solana x solana_store
    validate_layer_zero_observation x observation
        (record { solana = on_solana; robinhood = on_robinhood }) san_layerzero_policy
