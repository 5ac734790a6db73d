-- ===== src/Tooling/Tests.antt =====
-- A plan, a preview and a read-back.
use san_layerzero_bridge.Base.{str_eq}
use san_layerzero_bridge.Base.{◌>>◌, throw_if, for_each}
use san_layerzero_bridge.Base.{◌+ℤ◌, ◌-ℤ◌, ltb_ℤ, leb_ℤ, int_eq}
use san_layerzero_bridge.Base.{any, all, includes, list_eq}
use san_layerzero_bridge.Base.Text.{
  is_hash32, is_git_commit, is_digits, is_base58_text, digits_from, parse_digits, to_lower,
  to_upper, is_blank, leq_text, has_0x, has_shape, is_timestamp, digit, show_from, show_nat,
  pad_start,
}
use san_layerzero_bridge.Base.Sort.{insert, sort}
use san_layerzero_bridge.Base.BigInt.{
  drop_spaces, trim_end, trim, digit_value, in_base, is_octal, is_binary, prefixed, negate, signed,
  literal, big_int, take_text, drop_text,
}
use san_layerzero_bridge.RateLimit.{
  lookup, production_rate_limit_profile, require_direction, capacity_differs, refill_differs,
  validate_production_rate_limit_plan, find_profile, is_solana_public_key, same_public_key,
  validate_solana_production_rate_limit_task,
}
use san_layerzero_bridge.Mainnet.Checks.{
  require_hash, some_of, for_each_index, equal_solana_address, equal_evm_address,
  require_solana_address, require_evm_address, is_same_solana_address, is_same_evm_address,
  bytes32_from_solana, bytes32_from_evm,
}
use san_layerzero_bridge.Tooling.{
  require_future_mainnet_execution, rejects_role, validate_san_oft_deployment_plan,
  require_preview_confirmations, build_production_wiring_preview,
  build_authority_handoff_simulation, same_role, verify_authority_handoff_readback,
}
use san_layerzero_bridge.Base.{◌≡◌, refl, ok, int, pos, some, false}
use san_layerzero_bridge.Base.Accepts.{Accepts}
use san_layerzero_bridge.Config.{
  production_robinhood_endpoint, production_solana_oft_program, robinhood_chain_id, robinhood_eid,
  solana_eid,
}
use san_layerzero_bridge.Example.{packages, plan, profile, oft, store}
use san_layerzero_bridge.RateLimit.Spec.{Conforms}
use san_layerzero_bridge.Tooling.{DeploymentPlan, PreviewInput, Preview, Roles, HandoffTargets}
use san_layerzero_bridge.Tooling.Laws.{
  IsSafePlan, validate_san_oft_deployment_plan-IsSafePlan, build_production_wiring_preview-safe,
}
use san_layerzero_bridge.Tooling.Handoff.{
  IsHandedOver, verify_authority_handoff_readback-IsHandedOver,
}

abbrev deployment : DeploymentPlan
deployment = record {
  chain_id = int robinhood_chain_id;
  eid = int robinhood_eid;
  endpoint = production_robinhood_endpoint;
  owner = "0xAB";
  delegate = "0xab";
  name = "San Chan";
  symbol = "SAN";
  decimals = int (pos 6);
  initial_supply_raw = pos 0;
  upgradeable = false;
}

deployment_accepted : Accepts (validate_san_oft_deployment_plan packages deployment)
unfolding str_eq ◌>>◌ throw_if for_each ◌+ℤ◌ ◌-ℤ◌ ltb_ℤ leb_ℤ int_eq any all includes list_eq
    is_hash32 is_git_commit is_digits is_base58_text digits_from parse_digits to_lower to_upper
    is_blank leq_text has_0x has_shape is_timestamp digit show_from show_nat pad_start insert sort
    drop_spaces trim_end trim digit_value in_base is_octal is_binary prefixed negate signed literal
    big_int take_text drop_text lookup production_rate_limit_profile require_direction
    capacity_differs refill_differs validate_production_rate_limit_plan find_profile
    is_solana_public_key same_public_key validate_solana_production_rate_limit_task require_hash
    some_of for_each_index equal_solana_address equal_evm_address require_solana_address
    require_evm_address is_same_solana_address is_same_evm_address bytes32_from_solana
    bytes32_from_evm require_future_mainnet_execution rejects_role validate_san_oft_deployment_plan
    require_preview_confirmations build_production_wiring_preview build_authority_handoff_simulation
    same_role verify_authority_handoff_readback
deployment_accepted = refl

validate_san_oft_deployment_plan-IsSafePlan_example : IsSafePlan deployment
validate_san_oft_deployment_plan-IsSafePlan_example =
    validate_san_oft_deployment_plan-IsSafePlan packages deployment deployment_accepted

abbrev input : PreviewInput
input = record {
  solana_oft_store = store;
  robinhood_oft = oft;
  robinhood_source_confirmations = some (pos 30);
  rate_limits = plan;
  rate_limit_profile = profile;
}

abbrev preview : Preview
preview = record {
  mode = "READ_ONLY_PREVIEW";
  transactions = 0;
  solana_local_eid = solana_eid;
  robinhood_local_eid = robinhood_eid;
  solana_oft_program = production_solana_oft_program;
  solana_oft_store = store;
  robinhood_oft = oft;
  solana_source_confirmations = pos 32;
  robinhood_source_confirmations = pos 30;
  standard_receive_gas_or_compute = pos 200_000;
  standard_receive_value = pos 0;
  required_directional_limiters = 4;
}

previewed : build_production_wiring_preview packages input ≡ ok preview
unfolding str_eq ◌>>◌ throw_if for_each ◌+ℤ◌ ◌-ℤ◌ ltb_ℤ leb_ℤ int_eq any all includes list_eq
    is_hash32 is_git_commit is_digits is_base58_text digits_from parse_digits to_lower to_upper
    is_blank leq_text has_0x has_shape is_timestamp digit show_from show_nat pad_start insert sort
    drop_spaces trim_end trim digit_value in_base is_octal is_binary prefixed negate signed literal
    big_int take_text drop_text lookup production_rate_limit_profile require_direction
    capacity_differs refill_differs validate_production_rate_limit_plan find_profile
    is_solana_public_key same_public_key validate_solana_production_rate_limit_task require_hash
    some_of for_each_index equal_solana_address equal_evm_address require_solana_address
    require_evm_address is_same_solana_address is_same_evm_address bytes32_from_solana
    bytes32_from_evm require_future_mainnet_execution rejects_role validate_san_oft_deployment_plan
    require_preview_confirmations build_production_wiring_preview build_authority_handoff_simulation
    same_role verify_authority_handoff_readback
previewed = refl

build_production_wiring_preview-safe_example :
    (preview.transactions ≡ 0)
    × (preview.robinhood_source_confirmations ≡ pos 30)
    × (input.robinhood_source_confirmations ≡ some (pos 30))
    × (preview.solana_oft_store ≡ input.solana_oft_store)
    × (packages.get_address input.robinhood_oft ≡ some preview.robinhood_oft)
    × Conforms input.rate_limits input.rate_limit_profile
build_production_wiring_preview-safe_example =
    build_production_wiring_preview-safe packages input previewed

abbrev roles : Roles
roles = record {
  solana_upgrade_authority = "upgrader";
  solana_store_admin = "admin";
  solana_delegate = "delegate";
  robinhood_owner = "0xAB";
  robinhood_delegate = "0xab";
}

abbrev targets : HandoffTargets
targets = record {
  bootstrap_solana_authority = "deployer";
  bootstrap_robinhood_authority = "0xcc";
  roles = roles;
}

handed_over : Accepts (verify_authority_handoff_readback packages roles targets)
unfolding str_eq ◌>>◌ throw_if for_each ◌+ℤ◌ ◌-ℤ◌ ltb_ℤ leb_ℤ int_eq any all includes list_eq
    is_hash32 is_git_commit is_digits is_base58_text digits_from parse_digits to_lower to_upper
    is_blank leq_text has_0x has_shape is_timestamp digit show_from show_nat pad_start insert sort
    drop_spaces trim_end trim digit_value in_base is_octal is_binary prefixed negate signed literal
    big_int take_text drop_text lookup production_rate_limit_profile require_direction
    capacity_differs refill_differs validate_production_rate_limit_plan find_profile
    is_solana_public_key same_public_key validate_solana_production_rate_limit_task require_hash
    some_of for_each_index equal_solana_address equal_evm_address require_solana_address
    require_evm_address is_same_solana_address is_same_evm_address bytes32_from_solana
    bytes32_from_evm require_future_mainnet_execution rejects_role validate_san_oft_deployment_plan
    require_preview_confirmations build_production_wiring_preview build_authority_handoff_simulation
    same_role verify_authority_handoff_readback
handed_over = refl

verify_authority_handoff_readback-IsHandedOver_example : IsHandedOver packages roles targets
verify_authority_handoff_readback-IsHandedOver_example =
    verify_authority_handoff_readback-IsHandedOver packages roles targets handed_over
