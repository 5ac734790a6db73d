-- ===== src/Tooling/Laws.antt =====
-- What an accepted plan, preview and read-back establish.
use san_layerzero_bridge.Base.{
  ◌≡◌, sym, ◌∙◌, ap, false, Option, none, some, ok, ℤ, pos, int, is_int_iff, >>-eq-ok, >>=-eq-ok,
  ok_inj, or_throw, or_throw-eq-ok, string_Eq, int_Eq,
}
use san_layerzero_bridge.Base.Text.{to_lower}
use san_layerzero_bridge.Base.Accepts.{
  Accepts, throw_if-accepts, throw_if-eq, not-eq-false, or-eq-IsFalse, ne_iff,
}
use san_layerzero_bridge.Config.{production_robinhood_endpoint, robinhood_chain_id, robinhood_eid}
use san_layerzero_bridge.External.{External}
use san_layerzero_bridge.RateLimit.Spec.{Conforms}
use san_layerzero_bridge.RateLimit.Matrix.{validate_production_rate_limit_plan_iff}
use san_layerzero_bridge.Tooling.{
  PreviewInput, Preview, DeploymentPlan, require_preview_confirmations,
  build_production_wiring_preview, validate_san_oft_deployment_plan,
}

pub record IsSafePlan (plan : DeploymentPlan) : Type 0 where
  pub chain : plan.chain_id ≡ int robinhood_chain_id
  pub eid : plan.eid ≡ int robinhood_eid
  pub endpoint : to_lower plan.endpoint ≡ production_robinhood_endpoint
  pub one_safe : to_lower plan.owner ≡ to_lower plan.delegate
  pub name : plan.name ≡ "San Chan"
  pub symbol : plan.symbol ≡ "SAN"
  pub decimals : plan.decimals ≡ int (pos 6)
  pub no_supply : plan.initial_supply_raw ≡ pos 0
  pub fixed : plan.upgradeable ≡ false

module _ (x : External) where
  -- An accepted deployment plan is for Robinhood and its production Endpoint, has one account as owner
  -- and delegate up to letter case, the token's name, symbol and decimals, no initial supply, and is
  -- not upgradeable.
  pub validate_san_oft_deployment_plan-IsSafePlan :
      (plan : DeploymentPlan) → Accepts (validate_san_oft_deployment_plan x plan) → IsSafePlan plan
  unfolding validate_san_oft_deployment_plan
  validate_san_oft_deployment_plan-IsSafePlan plan h =
      let (a, h₁) = >>-eq-ok _ _ h in
      let (b, h₂) = >>-eq-ok _ _ h₁ in
      let (_, h₃) = >>-eq-ok _ _ h₂ in
      let (_, h₄) = >>-eq-ok _ _ h₃ in
      let (c, h₅) = >>-eq-ok _ _ h₄ in
      let (d, h₆) = >>-eq-ok _ _ h₅ in
      let (e, f) = >>-eq-ok _ _ h₆ in
      let (chain, eid) = or-eq-IsFalse _ _ (throw_if-accepts _ _ a) in
      let (names, decimals) = or-eq-IsFalse _ _ (throw_if-accepts _ _ d) in
      let (name, symbol) = or-eq-IsFalse _ _ names in
      record {
        chain = (is_int_iff _ _).0 (not-eq-false _ chain);
        eid = (is_int_iff _ _).0 (not-eq-false _ eid);
        endpoint = throw_if-eq _ _ _ b;
        one_safe = throw_if-eq _ _ _ c;
        name = ne_iff.0 name;
        symbol = ne_iff.0 symbol;
        decimals = (is_int_iff _ _).0 (not-eq-false _ decimals);
        no_supply = throw_if-eq _ _ _ e;
        fixed = throw_if-accepts _ _ f;
      }

  require_preview_confirmations-frozen :
      (o : Option ℤ) {n : ℤ}
      → require_preview_confirmations x o ≡ ok n
      → (o ≡ some (pos 30)) × (n ≡ pos 30)
  unfolding require_preview_confirmations
  require_preview_confirmations-frozen none h = cc
  require_preview_confirmations-frozen (some m) h =
      let (_, h₁) = >>-eq-ok _ _ h in
      let (frozen, same) = >>-eq-ok _ _ h₁ in
      let m_eq : m ≡ pos 30 = throw_if-eq m (pos 30) _ frozen in
      (ap some m_eq, sym (ok_inj same) ∙ m_eq)

  -- A preview is only built from 30 approved confirmations and a complete plan of rate limits, and it
  -- holds no transaction.
  pub build_production_wiring_preview-safe :
      (input : PreviewInput) {p : Preview}
      → build_production_wiring_preview x input ≡ ok p
      → (p.transactions ≡ 0)
        × (p.robinhood_source_confirmations ≡ pos 30)
        × (input.robinhood_source_confirmations ≡ some (pos 30))
        × (p.solana_oft_store ≡ input.solana_oft_store)
        × (x.get_address input.robinhood_oft ≡ some p.robinhood_oft)
        × Conforms input.rate_limits input.rate_limit_profile
  unfolding build_production_wiring_preview
  build_production_wiring_preview-safe input {p} h =
      let (_, h₁) = >>-eq-ok _ _ h in
      let (_, h₂) = >>-eq-ok _ _ h₁ in
      let (n, read, h₃) =
        >>=-eq-ok (require_preview_confirmations x input.robinhood_source_confirmations) _ h₂ in
      let (limits, h₄) = >>-eq-ok _ _ h₃ in
      let (oft, reads, same) = >>=-eq-ok (or_throw (x.get_address input.robinhood_oft) _) _ h₄ in
      let (given, frozen) =
        require_preview_confirmations-frozen input.robinhood_source_confirmations read in
      let p_eq = sym (ok_inj same) in
      (
        ap (λ (q : Preview). q.transactions) p_eq,
        ap (λ (q : Preview). q.robinhood_source_confirmations) p_eq ∙ frozen,
        given,
        ap (λ (q : Preview). q.solana_oft_store) p_eq,
        or_throw-eq-ok _ _ reads ∙ ap (λ (q : Preview). some q.robinhood_oft) (sym p_eq),
        (validate_production_rate_limit_plan_iff input.rate_limits input.rate_limit_profile).0
            limits,
      )
