-- ===== src/Tooling/Handoff.antt =====
-- The authorities that are read back after the handoff.
use san_layerzero_bridge.Base.{
  ◌≡◌, ◌≢◌, ◌∙◌, String, List, [], ◌∷◌, All, >>-eq-ok, >>=-eq-ok, ok_inj, or_throw, or_throw-eq-ok,
  for_each, string_Eq, nat_Eq,
}
use san_layerzero_bridge.Base.Text.{to_lower}
use san_layerzero_bridge.Base.Accepts.{Accepts, eq_iff, throw_if-accepts, not-eq-false, beq-ne}
use san_layerzero_bridge.External.{External}
use san_layerzero_bridge.Mainnet.Checks.{is_same_solana_address, is_same_evm_address}
use san_layerzero_bridge.Mainnet.Spec.{IsSameKey, IsSameAccount}
use san_layerzero_bridge.Tooling.{
  Roles, HandoffTargets, solana_roles, robinhood_roles, rejects_role, same_role,
  verify_authority_handoff_readback,
}

pub record IsHandedOver (x : External) (actual : Roles) (expected : HandoffTargets) : Type 0 where
  pub upgrade : IsSameKey x actual.solana_upgrade_authority expected.roles.solana_upgrade_authority
  pub admin : IsSameKey x actual.solana_store_admin expected.roles.solana_store_admin
  pub delegate : IsSameKey x actual.solana_delegate expected.roles.solana_delegate
  pub owner : IsSameAccount x actual.robinhood_owner expected.roles.robinhood_owner
  pub robinhood_delegate :
      IsSameAccount x actual.robinhood_delegate expected.roles.robinhood_delegate
  pub solana_moved :
      All (λ (r : String × String). r.1 ≢ expected.bootstrap_solana_authority) (solana_roles actual)
  pub robinhood_moved :
      All
        (λ (r : String × String). to_lower r.1 ≢ to_lower expected.bootstrap_robinhood_authority)
        (robinhood_roles actual)

rejects_role-moved :
    (form : String → String) (bootstrap : String) (roles : List (String × String))
    → Accepts (for_each (rejects_role form bootstrap) roles)
    → All (λ (r : String × String). form r.1 ≢ form bootstrap) roles
unfolding for_each rejects_role
rejects_role-moved form bootstrap [] h = tt
rejects_role-moved form bootstrap ((role, actual) ∷ rest) h =
    let (first, others) = >>-eq-ok _ _ h in
    (
      beq-ne {A = String} (form actual) (form bootstrap) (throw_if-accepts _ _ first),
      rejects_role-moved form bootstrap rest others,
    )

module _ (x : External) where
  same_role-IsSameKey :
      (role a b : String)
      → Accepts (same_role x (is_same_solana_address x) role a b)
      → IsSameKey x a b
  unfolding same_role is_same_solana_address
  same_role-IsSameKey role a b h =
      let (held, found, accepted) = >>=-eq-ok (is_same_solana_address x a b) _ h in
      let (k, reads_a, h₁) = >>=-eq-ok (or_throw (x.public_key a) _) _ found in
      let (l, reads_b, same) = >>=-eq-ok (or_throw (x.public_key b) _) _ h₁ in
      let k_eq : k ≡ l =
        eq_iff.0 (ok_inj same ∙ not-eq-false held (throw_if-accepts _ _ accepted)) in
      (k, or_throw-eq-ok _ _ reads_a, rw k_eq (or_throw-eq-ok _ _ reads_b))

  same_role-IsSameAccount :
      (role a b : String)
      → Accepts (same_role x (is_same_evm_address x) role a b)
      → IsSameAccount x a b
  unfolding same_role is_same_evm_address
  same_role-IsSameAccount role a b h =
      let (held, found, accepted) = >>=-eq-ok (is_same_evm_address x a b) _ h in
      let (k, reads_a, h₁) = >>=-eq-ok (or_throw (x.get_address a) _) _ found in
      let (l, reads_b, same) = >>=-eq-ok (or_throw (x.get_address b) _) _ h₁ in
      let k_eq : k ≡ l =
        eq_iff.0 (ok_inj same ∙ not-eq-false held (throw_if-accepts _ _ accepted)) in
      (k, or_throw-eq-ok _ _ reads_a, rw k_eq (or_throw-eq-ok _ _ reads_b))

  -- A read-back that is accepted has every role at the account expected for it, no Solana role at the
  -- text of the bootstrap authority, and no Robinhood role at that of its bootstrap authority up to
  -- letter case.
  pub verify_authority_handoff_readback-IsHandedOver :
      (actual : Roles) (expected : HandoffTargets)
      → Accepts (verify_authority_handoff_readback x actual expected)
      → IsHandedOver x actual expected
  unfolding verify_authority_handoff_readback
  verify_authority_handoff_readback-IsHandedOver actual expected h =
      let (a, h₁) = >>-eq-ok _ _ h in
      let (b, h₂) = >>-eq-ok _ _ h₁ in
      let (c, h₃) = >>-eq-ok _ _ h₂ in
      let (d, h₄) = >>-eq-ok _ _ h₃ in
      let (e, h₅) = >>-eq-ok _ _ h₄ in
      let (solana, robinhood) = >>-eq-ok _ _ h₅ in
      record {
        upgrade = same_role-IsSameKey _ _ _ a;
        admin = same_role-IsSameKey _ _ _ b;
        delegate = same_role-IsSameKey _ _ _ c;
        owner = same_role-IsSameAccount _ _ _ d;
        robinhood_delegate = same_role-IsSameAccount _ _ _ e;
        solana_moved =
            rejects_role-moved (λ s. s) expected.bootstrap_solana_authority (solana_roles actual)
              solana;
        robinhood_moved =
            rejects_role-moved to_lower expected.bootstrap_robinhood_authority
              (robinhood_roles actual) robinhood;
      }
