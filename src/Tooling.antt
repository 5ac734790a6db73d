-- ===== src/Tooling.antt =====
-- scripts/productionToolingPolicy.ts: the deployment plan, the wiring preview, and the handoff of the
-- authorities.
mod Laws
mod Handoff
mod Tests
use san_layerzero_bridge.Base.{
  ℕ, String, Bool, not, ◌||◌, Option, none, some, List, [], ◌∷◌, ℤ, pos, leb_ℤ, Number, int, is_int,
  ◌==◌, ◌!=◌, int_Eq, string_Eq, Result, ok, err, Check, throw_if, or_throw, for_each, ◌>>=◌, ◌>>◌,
}
use san_layerzero_bridge.Base.Text.{concat, to_lower}
use san_layerzero_bridge.Config.{
  production_robinhood_endpoint, production_solana_oft_program, robinhood_chain_id, robinhood_eid,
  solana_eid,
}
use san_layerzero_bridge.External.{External}
use san_layerzero_bridge.RateLimit.{Plan, Profile, validate_production_rate_limit_plan}
use san_layerzero_bridge.Mainnet.Checks.{
  require_solana_address, require_evm_address, is_same_solana_address, is_same_evm_address,
}

unfoldable pub require_future_mainnet_execution : Option String → Check
require_future_mainnet_execution _ =
    err
      "Mainnet transaction execution is structurally disabled in the Phase 5A revision; a separately reviewed Phase 5B change is required"

-- `SanOftDeploymentPlan`
pub record DeploymentPlan : Type 0 where
  pub chain_id : Number
  pub eid : Number
  pub endpoint : String
  pub owner : String
  pub delegate : String
  pub name : String
  pub symbol : String
  pub decimals : Number
  pub initial_supply_raw : ℤ
  pub upgradeable : Bool

-- `ProductionWiringPreviewInput`
pub record PreviewInput : Type 0 where
  pub solana_oft_store : String
  pub robinhood_oft : String
  pub robinhood_source_confirmations : Option ℤ
  pub rate_limits : Plan
  pub rate_limit_profile : Profile

-- `ProductionWiringPreview`
pub record Preview : Type 0 where
  pub mode : String
  pub transactions : ℕ
  pub solana_local_eid : ℤ
  pub robinhood_local_eid : ℤ
  pub solana_oft_program : String
  pub solana_oft_store : String
  pub robinhood_oft : String
  pub solana_source_confirmations : ℤ
  pub robinhood_source_confirmations : ℤ
  pub standard_receive_gas_or_compute : ℤ
  pub standard_receive_value : ℤ
  pub required_directional_limiters : ℕ

-- `AuthorityHandoffTargets`: the five roles, and the accounts that must hold none of them.
pub record Roles : Type 0 where
  pub solana_upgrade_authority : String
  pub solana_store_admin : String
  pub solana_delegate : String
  pub robinhood_owner : String
  pub robinhood_delegate : String

pub record HandoffTargets : Type 0 where
  pub bootstrap_solana_authority : String
  pub bootstrap_robinhood_authority : String
  pub roles : Roles

-- Each role of a chain with its name.
abbrev pub solana_roles : Roles → List (String × String)
solana_roles r =
    ("solanaUpgradeAuthority", r.solana_upgrade_authority)
    ∷ ("solanaStoreAdmin", r.solana_store_admin)
    ∷ ("solanaDelegate", r.solana_delegate)
    ∷ []

abbrev pub robinhood_roles : Roles → List (String × String)
robinhood_roles r =
    ("robinhoodOwner", r.robinhood_owner) ∷ ("robinhoodDelegate", r.robinhood_delegate) ∷ []

-- One step of the simulation.
pub record HandoffStep : Type 0 where
  pub order : ℕ
  pub action : String
  pub verify : String

abbrev pub handoff_steps : List HandoffStep
handoff_steps =
    record {
      order = 1;
      action = "set Solana Endpoint delegate";
      verify = "read Endpoint OApp delegate";
    }
    ∷ record {
      order = 2;
      action = "set Solana OFT Store admin";
      verify = "read OFTStore.admin and reject bootstrap signer";
    }
    ∷ record {
      order = 3;
      action = "set Solana program upgrade authority";
      verify = "read upgradeable-loader program data";
    }
    ∷ record {
      order = 4;
      action = "set Robinhood Endpoint delegate";
      verify = "read EndpointV2.delegates(SanOFT)";
    }
    ∷ record {
      order = 5;
      action = "transfer Robinhood ownership";
      verify = "read SanOFT.owner and reject bootstrap signer";
    }
    ∷ []

-- `if (actual[role] === bootstrap) throw`
unfoldable pub rejects_role : (String → String) → String → String × String → Check
rejects_role form bootstrap (role, actual) =
    throw_if (form actual == form bootstrap) (concat role " unexpectedly remains deployer")

module _ (x : External) where
  open x use {get_address}

  unfoldable pub validate_san_oft_deployment_plan : DeploymentPlan → Check
  validate_san_oft_deployment_plan plan = do
    throw_if (not (is_int plan.chain_id robinhood_chain_id) || not (is_int plan.eid robinhood_eid))
        "SanOFT deployment requires Robinhood 4663/30416"
    throw_if (to_lower plan.endpoint != production_robinhood_endpoint)
        "SanOFT deployment Endpoint differs from the approved production Endpoint"
    require_evm_address x plan.owner "SanOFT owner"
    require_evm_address x plan.delegate "SanOFT delegate"
    throw_if (to_lower plan.owner != to_lower plan.delegate)
        "SanOFT deployment owner and delegate must be the same approved Safe"
    throw_if (plan.name != "San Chan" || plan.symbol != "SAN" || not (is_int plan.decimals (pos 6)))
        "SanOFT production identity must be San Chan/SAN/6"
    throw_if (plan.initial_supply_raw != pos 0) "SanOFT initial supply must be zero"
    throw_if plan.upgradeable "SanOFT production deployment must be non-upgradeable"

  unfoldable pub require_preview_confirmations : Option ℤ → Result ℤ
  require_preview_confirmations none =
      err "Robinhood-source confirmations must be explicitly approved before a wiring preview"
  require_preview_confirmations (some n) = do
    throw_if (leb_ℤ n (pos 0))
        "Robinhood-source confirmations must be explicitly approved before a wiring preview"
    throw_if (n != pos 30) "Robinhood-source confirmations must equal the frozen 30-block policy"
    ok n

  unfoldable pub build_production_wiring_preview : PreviewInput → Result Preview
  build_production_wiring_preview input = do
    require_solana_address x input.solana_oft_store "Solana OFT Store"
    require_evm_address x input.robinhood_oft "Robinhood OFT"
    confirmations ← require_preview_confirmations input.robinhood_source_confirmations
    validate_production_rate_limit_plan input.rate_limits input.rate_limit_profile
    oft ← or_throw (get_address input.robinhood_oft) "invalid address"
    ok (record {
      mode = "READ_ONLY_PREVIEW";
      transactions = 0;
      solana_local_eid = solana_eid;
      robinhood_local_eid = robinhood_eid;
      solana_oft_program = production_solana_oft_program;
      solana_oft_store = input.solana_oft_store;
      robinhood_oft = oft;
      solana_source_confirmations = pos 32;
      robinhood_source_confirmations = confirmations;
      standard_receive_gas_or_compute = pos 200_000;
      standard_receive_value = pos 0;
      required_directional_limiters = 4;
    })

  -- The roles are checked in the order of the interface's fields.
  unfoldable pub build_authority_handoff_simulation : HandoffTargets → Result (List HandoffStep)
  build_authority_handoff_simulation targets = do
    for_each (λ (item : String × String). require_solana_address x item.1 item.0)
        (solana_roles targets.roles)
    require_solana_address x targets.bootstrap_solana_authority "bootstrapSolanaAuthority"
    for_each (λ (item : String × String). require_evm_address x item.1 item.0)
        (("bootstrapRobinhoodAuthority", targets.bootstrap_robinhood_authority)
          ∷ robinhood_roles targets.roles)
    ok handoff_steps

  -- `if (!isSame(actual[role], expected[role])) throw`
  unfoldable pub same_role : (String → String → Result Bool) → String → String → String → Check
  same_role is_same role actual expected = do
    same ← is_same actual expected
    throw_if (not same) (concat role " read-back differs")

  unfoldable pub verify_authority_handoff_readback : Roles → HandoffTargets → Check
  verify_authority_handoff_readback actual expected = do
    let to = expected.roles
    same_role (is_same_solana_address x) "solanaUpgradeAuthority" actual.solana_upgrade_authority
        to.solana_upgrade_authority
    same_role (is_same_solana_address x) "solanaStoreAdmin" actual.solana_store_admin
        to.solana_store_admin
    same_role (is_same_solana_address x) "solanaDelegate" actual.solana_delegate to.solana_delegate
    same_role (is_same_evm_address x) "robinhoodOwner" actual.robinhood_owner to.robinhood_owner
    same_role (is_same_evm_address x) "robinhoodDelegate" actual.robinhood_delegate
        to.robinhood_delegate
    for_each (rejects_role (λ s. s) expected.bootstrap_solana_authority) (solana_roles actual)
    for_each (rejects_role to_lower expected.bootstrap_robinhood_authority) (robinhood_roles actual)
