-- ===== src/Checker/Main.antt =====
-- `validateRepeatedProductionObservations`, `collectRepeatedProductionObservations` and
-- `checkProductionMainnet`
use san_layerzero_bridge.Base.{
  String, not, [], ◌∷◌, ◌!=◌, Result, ok, Check, throw_if, ◌>>=◌, ◌>>◌, includes,
}
use san_layerzero_bridge.Base.{string_Eq}
use san_layerzero_bridge.Checker.Answers.{Decoders}
use san_layerzero_bridge.Checker.Collect.{Services, collect_production_mainnet_observation}
use san_layerzero_bridge.Checker.Environment.{required_env, approved_state_from_env}
use san_layerzero_bridge.Checker.Normalized.{observation_json}
use san_layerzero_bridge.Checker.Text.{json_text}
use san_layerzero_bridge.ConfigCheck.Answers.{SolanaAccounts}
use san_layerzero_bridge.External.{External}
use san_layerzero_bridge.Mainnet.Activation.{pre_activation_inert, canary_active}
use san_layerzero_bridge.Mainnet.Data.{Observation}
use san_layerzero_bridge.Mainnet.Validate.{validate_production_mainnet_observation}

-- `stable`
unfoldable pub stable : Observation → String
stable value = json_text (observation_json value)

unfoldable pub validate_repeated_production_observations : Observation → Observation → Check
validate_repeated_production_observations first second =
    throw_if (stable first != stable second)
      "Two consecutive production observations differ; refusing a composite or changing RPC snapshot"

-- The collector is called twice, and the chains may answer differently each time.
unfoldable pub collect_repeated_production_observations :
    (collector_first collector_second : Result Observation) → Result (Observation × Observation)
collect_repeated_production_observations collector_first collector_second = do
  first ← collector_first
  second ← collector_second
  ok (first, second)

module _ (x : External) (decoders : Decoders) (accounts : SolanaAccounts) where
  -- `checkProductionMainnet`, up to its report. The services are those of the two collections, in
  -- the same environment.
  unfoldable pub check_production_mainnet : (first second : Services) → Check
  check_production_mainnet first second = do
    expected_state ← required_env first.env "SAN_EXPECTED_ACTIVATION_STATE"
    throw_if (not (includes (pre_activation_inert ∷ canary_active ∷ []) expected_state))
        "SAN_EXPECTED_ACTIVATION_STATE must be PRE_ACTIVATION_INERT or CANARY_ACTIVE"
    approved ← approved_state_from_env first.env x
    (observation, confirmation) ←
        collect_repeated_production_observations
          (collect_production_mainnet_observation x decoders accounts first approved)
          (collect_production_mainnet_observation x decoders accounts second approved)
    validate_production_mainnet_observation x observation approved expected_state
    validate_production_mainnet_observation x confirmation approved expected_state
    validate_repeated_production_observations observation confirmation
