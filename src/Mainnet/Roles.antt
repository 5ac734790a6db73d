-- ===== src/Mainnet/Roles.antt =====
-- The third part of `validateProductionMainnetObservation`: who holds the roles of both chains.
use san_layerzero_bridge.Base.{
  String, Bool, ◌||◌, List, [], ◌∷◌, ◌!=◌, int_Eq, pos, Result, ok, Check, throw_if, or_throw,
  for_each, ◌>>=◌, ◌>>◌,
}
use san_layerzero_bridge.Base.Text.{concat}
use san_layerzero_bridge.External.{External}
use san_layerzero_bridge.Mainnet.Data.{
  Observation, ApprovedState, SolanaObservation, RobinhoodObservation, EnforcedOption,
  EnforcedOptions,
}
use san_layerzero_bridge.Mainnet.Checks.{
  equal_solana_address, equal_evm_address, is_same_solana_address, is_same_evm_address, some_of,
}

module _ (x : External) (approved : ApprovedState) where
  -- It returns the pauser and the unpauser, which are not null from here on.
  unfoldable pub validate_solana_roles : SolanaObservation → Result (String × String)
  validate_solana_roles s = do
    equal_solana_address x s.upgrade_authority approved.solana_upgrade_authority
        "Solana upgrade authority"
    equal_solana_address x s.store_admin approved.solana_store_admin "Solana Store admin"
    equal_solana_address x s.delegate approved.solana_delegate "Solana delegate"
    pauser ← or_throw s.pauser "Solana pauser is not configured"
    unpauser ← or_throw s.unpauser "Solana unpauser is not configured"
    equal_solana_address x pauser approved.solana_pauser "Solana pauser"
    equal_solana_address x unpauser approved.solana_unpauser "Solana unpauser"
    ok (pauser, unpauser)

  unfoldable pub validate_robinhood_roles : RobinhoodObservation → Check
  validate_robinhood_roles r = do
    equal_evm_address x r.owner approved.robinhood_owner "Robinhood owner"
    equal_evm_address x r.delegate approved.robinhood_delegate "Robinhood delegate"

  -- `if (privileged.some((authority) => isSame(authority, bootstrap))) throw`
  unfoldable pub reject_bootstrap :
      (String → String → Result Bool) → List String → String → String → Check
  reject_bootstrap is_same privileged message bootstrap = do
    held ← some_of (λ authority. is_same authority bootstrap) privileged
    throw_if held message

  abbrev pub solana_privileged : SolanaObservation → String × String → List String
  solana_privileged s (pauser, unpauser) =
      s.upgrade_authority ∷ s.store_admin ∷ s.delegate ∷ pauser ∷ unpauser ∷ []

  unfoldable pub validate_roles : Observation → Check
  validate_roles o = do
    pausers ← validate_solana_roles o.solana
    validate_robinhood_roles o.robinhood
    for_each
        (reject_bootstrap (is_same_solana_address x) (solana_privileged o.solana pausers)
          "A Solana privileged role is still controlled by a forbidden bootstrap authority")
        approved.forbidden_solana_bootstrap_authorities
    for_each
        (reject_bootstrap (is_same_evm_address x) (o.robinhood.owner ∷ o.robinhood.delegate ∷ [])
          "A Robinhood privileged role is still controlled by a forbidden bootstrap authority")
        approved.forbidden_robinhood_bootstrap_authorities

unfoldable pub validate_enforced_option : String × EnforcedOption → Check
validate_enforced_option (label, option) =
    throw_if (option.gas_or_compute != pos 200_000 || option.value != pos 0)
      (concat label " enforced option must be 200000 with value 0")

unfoldable pub validate_enforced_options : EnforcedOptions → Check
validate_enforced_options options = for_each validate_enforced_option (
    ("Solana receive", options.solana_receive)
    ∷ ("Robinhood receive", options.robinhood_receive)
    ∷ [])
