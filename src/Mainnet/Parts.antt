-- ===== src/Mainnet/Parts.antt =====
-- The checks that an accepted snapshot has passed, each on its own.
use san_layerzero_bridge.Base.{String, >>-eq-ok}
use san_layerzero_bridge.External.{External}
use san_layerzero_bridge.RateLimit.{validate_production_rate_limit_plan}
use san_layerzero_bridge.Mainnet.Data.{Observation, ApprovedState}
use san_layerzero_bridge.Mainnet.Approved.{validate_approved_state}
use san_layerzero_bridge.Mainnet.Context.{validate_solana_context_evidence}
use san_layerzero_bridge.Mainnet.Accounting.{
  validate_amounts, validate_identities, validate_anchors, validate_inventory, validate_tvl,
}
use san_layerzero_bridge.Mainnet.Roles.{validate_roles, validate_enforced_options}
use san_layerzero_bridge.Mainnet.Activation.{
  validate_wiring, validate_available, validate_activation,
}
use san_layerzero_bridge.Base.Accepts.{Accepts}
use san_layerzero_bridge.Mainnet.Validate.{
  validate_programs, validate_accounting, validate_production_mainnet_observation,
}

pub record Passed (x : External) (o : Observation) (approved : ApprovedState)
    (expected_state : String) : Type 0 where
  pub approved_state : Accepts (validate_approved_state x approved)
  pub context : Accepts (validate_solana_context_evidence o.solana_context)
  pub programs : Accepts (validate_programs x o approved)
  pub amounts : Accepts (validate_amounts o approved)
  pub identities : Accepts (validate_identities x o.in_flight.manifest approved)
  pub anchors : Accepts (validate_anchors o approved.expected_in_flight)
  pub inventory : Accepts (validate_inventory o approved.expected_in_flight)
  pub tvl : Accepts (validate_tvl o)
  pub roles : Accepts (validate_roles x approved o)
  pub options : Accepts (validate_enforced_options o.enforced_options)
  pub wiring : Accepts (validate_wiring x o approved)
  pub rate_limits :
      Accepts (validate_production_rate_limit_plan o.rate_limits approved.rate_limit_profile)
  pub available : Accepts (validate_available o.rate_limits)
  pub activation : Accepts (validate_activation o expected_state)

pub validate_production_mainnet_observation-Passed :
    (x : External) (o : Observation) (approved : ApprovedState) (expected_state : String)
    → Accepts (validate_production_mainnet_observation x o approved expected_state)
    → Passed x o approved expected_state
unfolding validate_production_mainnet_observation validate_accounting
validate_production_mainnet_observation-Passed x o approved expected_state h =
    let (a, h₁) = >>-eq-ok _ _ h in
    let (b, h₂) = >>-eq-ok _ _ h₁ in
    let (c, h₃) = >>-eq-ok _ _ h₂ in
    let (accounting, h₄) = >>-eq-ok _ _ h₃ in
    let (e, h₅) = >>-eq-ok _ _ h₄ in
    let (f, h₆) = >>-eq-ok _ _ h₅ in
    let (g, h₇) = >>-eq-ok _ _ h₆ in
    let (i, h₈) = >>-eq-ok _ _ h₇ in
    let (j, k) = >>-eq-ok _ _ h₈ in
    let (l, m₁) = >>-eq-ok _ _ accounting in
    let (m, m₂) = >>-eq-ok _ _ m₁ in
    let (n, m₃) = >>-eq-ok _ _ m₂ in
    let (p, q) = >>-eq-ok _ _ m₃ in
    record {
      approved_state = a;
      context = b;
      programs = c;
      amounts = l;
      identities = m;
      anchors = n;
      inventory = p;
      tvl = q;
      roles = e;
      options = f;
      wiring = g;
      rate_limits = i;
      available = j;
      activation = k;
    }
