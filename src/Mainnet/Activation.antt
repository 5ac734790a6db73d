-- ===== src/Mainnet/Activation.antt =====
-- The last part of `validateProductionMainnetObservation`: the wiring, the limiters and the
-- activation state.
use san_layerzero_bridge.Base.{
  String, Bool, not, ◌||◌, Option, none, some, [], ◌∷◌, ◌==◌, ◌!=◌, int_Eq, string_Eq, pos, ltb_ℤ,
  is_int, err, Check, throw_if, for_each, ◌>>=◌, ◌>>◌, if◌then◌else◌,
}
use san_layerzero_bridge.Base.Text.{concat}
use san_layerzero_bridge.External.{External}
use san_layerzero_bridge.RateLimit.{Plan, Limit, outbound_of, inbound_of}
use san_layerzero_bridge.LayerZero.{
  BridgePolicy, san_layerzero_policy, validate_layer_zero_observation,
}
use san_layerzero_bridge.Mainnet.Data.{Observation, ApprovedState}
use san_layerzero_bridge.Mainnet.Checks.{bytes32_from_evm, bytes32_from_solana}

abbrev pub approved_policy : ApprovedState → BridgePolicy
approved_policy approved = record san_layerzero_policy {
  robinhood_source_confirmations = approved.robinhood_source_confirmations;
}

unfoldable pub validate_wiring : External → Observation → ApprovedState → Check
validate_wiring x o approved = do
  solana ← bytes32_from_evm x approved.robinhood_oft
  robinhood ← bytes32_from_solana x approved.solana_oft_store
  validate_layer_zero_observation x o.layer_zero (record { solana = solana; robinhood = robinhood })
      (approved_policy approved)

-- `limit?.available == null || limit.available < 0n || limit.available > limit.capacity`
unfoldable pub lacks_capacity : Option Limit → Bool
lacks_capacity none = Bool.true
lacks_capacity (some limit) = elim limit.available [
  | none ↦ Bool.true
  | some available ↦ ltb_ℤ available (pos 0) || ltb_ℤ limit.capacity available
]

unfoldable pub validate_available : Plan → Check
validate_available plan =
    for_each
      (λ (item : String × Option Limit).
        throw_if (lacks_capacity item.1)
          (concat item.0 " available capacity is missing or outside its configured bucket"))
      (("Solana outbound", outbound_of plan.solana)
        ∷ ("Solana inbound", inbound_of plan.solana)
        ∷ ("Robinhood outbound", outbound_of plan.robinhood)
        ∷ ("Robinhood inbound", inbound_of plan.robinhood)
        ∷ [])

-- `ProductionExpectedState`
abbrev pub pre_activation_inert : String
pre_activation_inert = "PRE_ACTIVATION_INERT"

abbrev pub canary_active : String
canary_active = "CANARY_ACTIVE"

unfoldable pub validate_inert : Observation → Check
validate_inert o =
    throw_if (not o.solana.paused || not o.robinhood.paused)
      "PRE_ACTIVATION_INERT requires both bridge applications paused"

unfoldable pub validate_canary : Observation → Check
validate_canary o = do
  throw_if (o.solana.paused || o.robinhood.paused)
      "CANARY_ACTIVE requires both bridge applications unpaused"
  throw_if
      (o.solana.tvl_raw != pos 0
        || o.solana.escrow_balance_raw != pos 0
        || o.robinhood.total_supply_raw != pos 0
        || o.in_flight.solana_to_robinhood_raw != pos 0
        || o.in_flight.robinhood_to_solana_raw != pos 0
        || not (is_int o.in_flight.message_count (pos 0)))
      "CANARY_ACTIVE is only valid for the initial zero-state public activation boundary"

unfoldable pub validate_activation : Observation → String → Check
validate_activation o expected_state =
    if expected_state == pre_activation_inert
    then validate_inert o
    else if expected_state == canary_active
    then validate_canary o
    else err "An explicit supported production activation state is required"
