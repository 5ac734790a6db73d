-- ===== src/Mainnet/Authority.antt =====
-- The roles of an accepted snapshot.
use san_layerzero_bridge.Base.{
  ◌≡◌, String, Bool, false, ok, List, [], ◌∷◌, All, Result, >>-eq-ok, >>=-eq-ok, or_throw-eq-ok,
  or_throw, ok_inj, for_each, Bool-cases, ◌∙◌, sym, string_Eq, nat_Eq, inl, ap, inr,
}
use san_layerzero_bridge.Base.Accepts.{
  Accepts, beq-ne, throw_if-accepts, throw_if-eq, for_each_iff, self_iff,
}
use san_layerzero_bridge.Base.Members.{All-map}
use san_layerzero_bridge.External.{External}
use san_layerzero_bridge.Mainnet.Data.{Observation, ApprovedState}
use san_layerzero_bridge.Mainnet.Checks.{
  equal_solana_address, equal_evm_address, is_same_solana_address, is_same_evm_address, some_of,
}
use san_layerzero_bridge.Mainnet.Roles.{
  validate_roles, validate_solana_roles, validate_robinhood_roles, reject_bootstrap,
  solana_privileged,
}
use san_layerzero_bridge.Mainnet.Spec.{
  IsSameKey, AreOtherKeys, IsSameAccount, AreOtherAccounts, HasApprovedRoles,
}
use san_layerzero_bridge.Mainnet.Validate.{validate_production_mainnet_observation}
use san_layerzero_bridge.Mainnet.Parts.{validate_production_mainnet_observation-Passed}

module _ (x : External) where
  pub equal_solana_address-IsSameKey :
      (a b label : String) → Accepts (equal_solana_address x a b label) → IsSameKey x a b
  unfolding equal_solana_address
  equal_solana_address-IsSameKey a b label h =
      let (k, reads_a, h₁) = >>=-eq-ok (or_throw (x.public_key a) _) _ h in
      let (l, reads_b, h₂) = >>=-eq-ok (or_throw (x.public_key b) _) _ h₁ in
      let same : k ≡ l = throw_if-eq k l _ h₂ in
      (k, or_throw-eq-ok _ _ reads_a, rw same (or_throw-eq-ok _ _ reads_b))

  pub equal_evm_address-IsSameAccount :
      (a b label : String) → Accepts (equal_evm_address x a b label) → IsSameAccount x a b
  unfolding equal_evm_address
  equal_evm_address-IsSameAccount a b label h =
      let (_, h₀) = >>-eq-ok _ _ h in
      let (k, reads_a, h₁) = >>=-eq-ok (or_throw (x.get_address a) _) _ h₀ in
      let (l, reads_b, h₂) = >>=-eq-ok (or_throw (x.get_address b) _) _ h₁ in
      let same : k ≡ l = throw_if-eq k l _ h₂ in
      (k, or_throw-eq-ok _ _ reads_a, rw same (or_throw-eq-ok _ _ reads_b))

  is_same_solana_address-AreOtherKeys :
      (a b : String) → is_same_solana_address x a b ≡ ok false → AreOtherKeys x a b
  unfolding is_same_solana_address
  is_same_solana_address-AreOtherKeys a b h =
      let (k, reads_a, h₁) = >>=-eq-ok (or_throw (x.public_key a) _) _ h in
      let (l, reads_b, h₂) = >>=-eq-ok (or_throw (x.public_key b) _) _ h₁ in
      (k, l, or_throw-eq-ok _ _ reads_a, or_throw-eq-ok _ _ reads_b, beq-ne k l (ok_inj h₂))

  is_same_evm_address-AreOtherAccounts :
      (a b : String) → is_same_evm_address x a b ≡ ok false → AreOtherAccounts x a b
  unfolding is_same_evm_address
  is_same_evm_address-AreOtherAccounts a b h =
      let (k, reads_a, h₁) = >>=-eq-ok (or_throw (x.get_address a) _) _ h in
      let (l, reads_b, h₂) = >>=-eq-ok (or_throw (x.get_address b) _) _ h₁ in
      (k, l, or_throw-eq-ok _ _ reads_a, or_throw-eq-ok _ _ reads_b, beq-ne k l (ok_inj h₂))

some_of-none :
    (test : String → Result Bool) (ss : List String)
    → some_of test ss ≡ ok false
    → All (λ s. test s ≡ ok false) ss
unfolding some_of
some_of-none test [] h = tt
some_of-none test (s ∷ ss) h =
    let (found, first, rest) = >>=-eq-ok (test s) _ h in
    elim (Bool-cases found) [
      | inl yes' ↦ absurd (cc (rw yes' at rest))
      | inr no' ↦ (first ∙ ap ok no', some_of-none test ss (rw no' at rest))
    ]

module _ (x : External) (approved : ApprovedState) where
  reject_bootstrap-none :
      (is_same : String → String → Result Bool) (privileged : List String) (message : String)
      (all : List String)
      → Accepts (for_each (reject_bootstrap x approved is_same privileged message) all)
      → All (λ bootstrap. All (λ authority. is_same authority bootstrap ≡ ok false) privileged) all
  unfolding reject_bootstrap
  reject_bootstrap-none is_same privileged message all h =
      All-map all
        (λ bootstrap e.
          let (held, found, e₁) =
            >>=-eq-ok (some_of (λ authority. is_same authority bootstrap) privileged) _ e in
          some_of-none _ privileged (found ∙ ap ok (throw_if-accepts _ _ e₁)))
        ((for_each_iff all (λ a. self_iff)).0 h)

  validate_roles-HasApprovedRoles :
      (o : Observation) → Accepts (validate_roles x approved o) → HasApprovedRoles x o approved
  unfolding validate_roles validate_solana_roles validate_robinhood_roles
  validate_roles-HasApprovedRoles o h =
      let (pausers, on_solana, h₁) = >>=-eq-ok (validate_solana_roles x approved o.solana) _ h in
      let (on_robinhood, h₂) = >>-eq-ok _ _ h₁ in
      let (solana_none, robinhood_none) = >>-eq-ok _ _ h₂ in
      let (owner, delegate) = >>-eq-ok _ _ on_robinhood in
      let (a, s₁) = >>-eq-ok _ _ on_solana in
      let (b, s₂) = >>-eq-ok _ _ s₁ in
      let (c, s₃) = >>-eq-ok _ _ s₂ in
      let (pauser, has_pauser, s₄) = >>=-eq-ok (or_throw o.solana.pauser _) _ s₃ in
      let (unpauser, has_unpauser, s₅) = >>=-eq-ok (or_throw o.solana.unpauser _) _ s₄ in
      let (d, s₆) = >>-eq-ok _ _ s₅ in
      let (e, same) = >>-eq-ok _ _ s₆ in
      let pausers_eq : pausers ≡ (pauser, unpauser) = sym (ok_inj same) in
      record {
        pauser = pauser;
        unpauser = unpauser;
        observed_pauser = or_throw-eq-ok _ _ has_pauser;
        observed_unpauser = or_throw-eq-ok _ _ has_unpauser;
        upgrade_authority = equal_solana_address-IsSameKey x _ _ _ a;
        store_admin = equal_solana_address-IsSameKey x _ _ _ b;
        delegate = equal_solana_address-IsSameKey x _ _ _ c;
        pauser_approved = equal_solana_address-IsSameKey x _ _ _ d;
        unpauser_approved = equal_solana_address-IsSameKey x _ _ _ e;
        owner = equal_evm_address-IsSameAccount x _ _ _ owner;
        robinhood_delegate = equal_evm_address-IsSameAccount x _ _ _ delegate;
        solana_bootstrap =
            All-map _
              (λ bootstrap all.
                All-map (solana_privileged x approved o.solana (pauser, unpauser))
                  (λ a. is_same_solana_address-AreOtherKeys x a bootstrap) all)
              (reject_bootstrap-none _ _ _ _ (rw pausers_eq at solana_none));
        robinhood_bootstrap =
            All-map _
              (λ bootstrap all.
                All-map (o.robinhood.owner ∷ o.robinhood.delegate ∷ [])
                  (λ a. is_same_evm_address-AreOtherAccounts x a bootstrap) all)
              (reject_bootstrap-none _ _ _ _ robinhood_none);
      }

-- In an accepted snapshot a pauser and an unpauser are configured, every privileged role of both
-- chains is held by its approved holder, and no holder is one of the forbidden bootstrap authorities.
pub validate_production_mainnet_observation-HasApprovedRoles :
    (x : External) (o : Observation) (approved : ApprovedState) (expected_state : String)
    → Accepts (validate_production_mainnet_observation x o approved expected_state)
    → HasApprovedRoles x o approved
validate_production_mainnet_observation-HasApprovedRoles x o approved expected_state h =
    validate_roles-HasApprovedRoles x approved o
      (validate_production_mainnet_observation-Passed x o approved expected_state h).roles
