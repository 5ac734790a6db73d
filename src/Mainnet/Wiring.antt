-- ===== src/Mainnet/Wiring.antt =====
-- The wiring and the limiters of an accepted snapshot.
use san_layerzero_bridge.Base.{
  int_Eq, ◌≡◌, sym, ◌∙◌, String, false, Option, some, none, ok, ℤ, pos, >>-eq-ok, >>=-eq-ok,
  option_Eq, Option-cases, inl, inr,
}
use san_layerzero_bridge.Base.Accepts.{
  Accepts, throw_if-accepts, throw_if-eq, or-eq-IsFalse, not_ltb_iff, for_each_iff, self_iff,
}
use san_layerzero_bridge.External.{External}
use san_layerzero_bridge.RateLimit.{Limit}
use san_layerzero_bridge.RateLimit.Spec.{Has, Conforms}
use san_layerzero_bridge.RateLimit.Matrix.{validate_production_rate_limit_plan_iff}
use san_layerzero_bridge.LayerZero.{
  Chain, solana, robinhood, Peers, intended_on, san_layerzero_policy,
}
use san_layerzero_bridge.LayerZero.Spec.{IsConfigured}
use san_layerzero_bridge.LayerZero.Uln.{IsDistinct}
use san_layerzero_bridge.LayerZero.Accepted.{validate_layer_zero_observation-IsConfigured}
use san_layerzero_bridge.Mainnet.Data.{Observation, ApprovedState}
use san_layerzero_bridge.Mainnet.Approved.{validate_approved_state, require_confirmations}
use san_layerzero_bridge.Mainnet.Activation.{
  validate_wiring, validate_available, lacks_capacity, approved_policy,
}
use san_layerzero_bridge.Mainnet.Checks.{bytes32_from_evm, bytes32_from_solana}
use san_layerzero_bridge.Mainnet.Spec.{IsAvailable, IsFilled}
use san_layerzero_bridge.Mainnet.Validate.{validate_production_mainnet_observation}
use san_layerzero_bridge.Mainnet.Parts.{validate_production_mainnet_observation-Passed}

require_confirmations-frozen :
    (n : Option ℤ) → Accepts (require_confirmations n) → n ≡ some (pos 30)
unfolding require_confirmations
require_confirmations-frozen none h = cc
require_confirmations-frozen (some n) h =
    let (_, frozen) = >>-eq-ok _ _ h in throw_if-eq (some n) (some (pos 30)) _ frozen

lacks_capacity-Has : (limit : Option Limit) → lacks_capacity limit ≡ false → Has limit IsAvailable
unfolding lacks_capacity
lacks_capacity-Has none h = cc
lacks_capacity-Has (some limit) h = elim (Option-cases limit.available) [
  | inl missing ↦ absurd (cc (rw missing at h))
  | inr present ↦
      let (n, is_n) = present in
      let (low, high) = or-eq-IsFalse _ _ (rw is_n at h) in
      (n, is_n, (not_ltb_iff n (pos 0)).0 low, (not_ltb_iff limit.capacity n).0 high)
]

module _ (x : External) (o : Observation) (approved : ApprovedState) (expected_state : String)
    (accepted : Accepts (validate_production_mainnet_observation x o approved expected_state)) where
  confirmations : approved.robinhood_source_confirmations ≡ some (pos 30)
  unfolding validate_approved_state
  confirmations =
      let (first, _) =
        >>-eq-ok _ _
          (validate_production_mainnet_observation-Passed x o approved expected_state
            accepted).approved_state in
      require_confirmations-frozen _ first

  -- An accepted snapshot waits for 30 confirmations of Robinhood, and has both chains configured as
  -- the pinned policy says, explicitly, with the peers that the approved addresses give, where the
  -- pinned verifier lists have no repetition.
  pub validate_production_mainnet_observation-IsConfigured :
      ((chain : Chain) → IsDistinct x chain (intended_on chain san_layerzero_policy).optional_dvns)
      → (peers : Peers) × (bytes32_from_evm x approved.robinhood_oft ≡ ok peers.solana)
        × (bytes32_from_solana x approved.solana_oft_store ≡ ok peers.robinhood)
        × ((chain : Chain)
            → IsConfigured x chain o.layer_zero peers (approved_policy approved) (pos 30))
  unfolding validate_wiring
  validate_production_mainnet_observation-IsConfigured distinct =
      let wiring =
        (validate_production_mainnet_observation-Passed x o approved expected_state
          accepted).wiring in
      let (a, reads_a, h₁) = >>=-eq-ok (bytes32_from_evm x approved.robinhood_oft) _ wiring in
      let (b, reads_b, h₂) = >>=-eq-ok (bytes32_from_solana x approved.solana_oft_store) _ h₁ in
      let (n, resolved, configured) =
        validate_layer_zero_observation-IsConfigured x o.layer_zero _ (approved_policy approved)
          (elim [ solana ↦ distinct solana | robinhood ↦ distinct robinhood ]) h₂ in
      let same : n ≡ pos 30 = cc (sym resolved ∙ confirmations) in
      (record { solana = a; robinhood = b }, reads_a, reads_b, rw same at configured)

  -- In an accepted snapshot all four limiters are there, configured as the approved profile says, and
  -- each records an available amount between zero and its capacity.
  pub validate_production_mainnet_observation-Conforms :
      Conforms o.rate_limits approved.rate_limit_profile × IsFilled o.rate_limits
  unfolding validate_available
  validate_production_mainnet_observation-Conforms =
      let p = validate_production_mainnet_observation-Passed x o approved expected_state accepted in
      let (a, bcd) = (for_each_iff _ (λ item. self_iff)).0 p.available in
      let (b, cd) = bcd in
      let (c, ds) = cd in
      let (d, _) = ds in
      (
        (validate_production_rate_limit_plan_iff o.rate_limits approved.rate_limit_profile).0
            p.rate_limits,
        record {
          solana_outbound = lacks_capacity-Has _ (throw_if-accepts _ _ a);
          solana_inbound = lacks_capacity-Has _ (throw_if-accepts _ _ b);
          robinhood_outbound = lacks_capacity-Has _ (throw_if-accepts _ _ c);
          robinhood_inbound = lacks_capacity-Has _ (throw_if-accepts _ _ d);
        },
      )
