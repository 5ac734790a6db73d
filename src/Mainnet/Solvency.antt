-- ===== src/Mainnet/Solvency.antt =====
-- The amounts of an accepted snapshot.
use san_layerzero_bridge.Base.{◌≡◌, ◌∙◌, ap, String, ok, ℤ, pos, ◌+ℤ◌, ◌≤ℤ◌, >>-eq-ok, int_Eq, ℕ}
use san_layerzero_bridge.Base.Accepts.{
  Accepts, throw_if-accepts, throw_if-eq, or-eq-IsFalse, ne_iff, check_iff, not_ltb_iff,
}
use san_layerzero_bridge.External.{External}
use san_layerzero_bridge.InFlight.Data.{Manifest, Inventory}
use san_layerzero_bridge.InFlight.Spec.{total}
use san_layerzero_bridge.InFlight.Message.{solana_to_robinhood, robinhood_to_solana}
use san_layerzero_bridge.InFlight.Parse.{parse_in_flight_inventory}
use san_layerzero_bridge.InFlight.Totals.{parse_in_flight_inventory-IsReconciled}
use san_layerzero_bridge.Mainnet.Collect.{in_flight_observation}
use san_layerzero_bridge.Mainnet.Data.{InFlightObservation, Observation, ApprovedState}
use san_layerzero_bridge.Mainnet.Accounting.{
  validate_amounts, validate_tvl, validate_inventory, accounted_raw,
}
use san_layerzero_bridge.Mainnet.Validate.{validate_production_mainnet_observation}
use san_layerzero_bridge.Mainnet.Parts.{validate_production_mainnet_observation-Passed}

module _ (x : External) (o : Observation) (approved : ApprovedState) (expected_state : String)
    (accepted : Accepts (validate_production_mainnet_observation x o approved expected_state)) where
  passed-amounts :
      (o.solana.tvl_raw ≤ℤ o.solana.escrow_balance_raw)
      × (o.robinhood.total_supply_raw ≡ approved.expected_robinhood_supply_raw)
  unfolding validate_amounts
  passed-amounts =
      let (escrow, h₁) =
        >>-eq-ok _ _
          (validate_production_mainnet_observation-Passed x o approved expected_state
            accepted).amounts in
      let (supply, _) = >>-eq-ok _ _ h₁ in
      ((check_iff _ (not_ltb_iff _ _)).0 escrow, throw_if-eq _ _ _ supply)

  passed-inventory :
      (o.in_flight.solana_to_robinhood_raw ≡ approved.expected_in_flight.solana_to_robinhood_raw)
      × (o.in_flight.robinhood_to_solana_raw ≡ approved.expected_in_flight.robinhood_to_solana_raw)
  unfolding validate_inventory
  passed-inventory =
      let (amounts, _) =
        >>-eq-ok _ _
          (validate_production_mainnet_observation-Passed x o approved expected_state
            accepted).inventory in
      let (abc, d) = or-eq-IsFalse _ _ (throw_if-accepts _ _ amounts) in
      let (_, c) = or-eq-IsFalse _ _ abc in (ne_iff.0 c, ne_iff.0 d)

  passed-tvl : o.solana.tvl_raw ≡ accounted_raw o
  unfolding validate_tvl
  passed-tvl =
      throw_if-eq _ _ _
        (validate_production_mainnet_observation-Passed x o approved expected_state accepted).tvl

  -- In an accepted snapshot the escrow covers the approved supply of Robinhood together with the
  -- approved amounts in flight in both directions, and the Store's TVL is exactly that sum.
  pub validate_production_mainnet_observation-solvent :
      (o.solana.tvl_raw
        ≡ approved.expected_robinhood_supply_raw
          +ℤ approved.expected_in_flight.solana_to_robinhood_raw
          +ℤ approved.expected_in_flight.robinhood_to_solana_raw)
      × (approved.expected_robinhood_supply_raw
            +ℤ approved.expected_in_flight.solana_to_robinhood_raw
            +ℤ approved.expected_in_flight.robinhood_to_solana_raw
          ≤ℤ o.solana.escrow_balance_raw)
  validate_production_mainnet_observation-solvent =
      let (covers, supply) = passed-amounts in
      let (forwards, backwards) = passed-inventory in
      let tvl = rw (supply, forwards, backwards) at passed-tvl in (tvl, rw tvl at covers)

-- Where the snapshot's amounts in flight are those of a manifest that was parsed, an accepted snapshot
-- has a TVL that is the supply of Robinhood with the amounts of the manifest's undelivered messages in
-- both directions, to the unit, and an escrow that covers it.
pub validate_production_mainnet_observation-backed :
    (x : External) (o : Observation) (approved : ApprovedState) (expected_state : String)
    (value : Manifest) (inv : Inventory) (solana_slot : ℤ) (robinhood_block : ℕ)
    → parse_in_flight_inventory x value ≡ ok inv
    → o.in_flight ≡ in_flight_observation inv solana_slot robinhood_block
    → Accepts (validate_production_mainnet_observation x o approved expected_state)
    → (o.solana.tvl_raw
        ≡ o.robinhood.total_supply_raw
          +ℤ pos (total solana_to_robinhood value.messages)
          +ℤ pos (total robinhood_to_solana value.messages))
      × (o.solana.tvl_raw ≤ℤ o.solana.escrow_balance_raw)
unfolding in_flight_observation
validate_production_mainnet_observation-backed x o approved expected_state value inv solana_slot
      robinhood_block parsed observed accepted =
    let r = parse_in_flight_inventory-IsReconciled x value parsed in
    let forwards : o.in_flight.solana_to_robinhood_raw
        ≡ pos (total solana_to_robinhood value.messages) =
      ap (λ (f : InFlightObservation). f.solana_to_robinhood_raw) observed ∙ ap pos r.forwards in
    let backwards : o.in_flight.robinhood_to_solana_raw
        ≡ pos (total robinhood_to_solana value.messages) =
      ap (λ (f : InFlightObservation). f.robinhood_to_solana_raw) observed ∙ ap pos r.backwards in
    (
      rw (forwards, backwards) at (passed-tvl x o approved expected_state accepted),
      (passed-amounts x o approved expected_state accepted).0,
    )
