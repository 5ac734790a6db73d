-- ===== src/ConfigCheck/Tests.antt =====
-- The configuration check on a bridge that is configured as the policy says.
use san_layerzero_bridge.Base.{
  ◌≡◌, refl, ok, throw_if, for_each, ◌>>◌, any, all, includes, string_Eq,
}
use san_layerzero_bridge.Base.{str_eq, throw_if, for_each}
use san_layerzero_bridge.Base.{◌+ℤ◌, ◌-ℤ◌, ltb_ℤ, leb_ℤ, int_eq}
use san_layerzero_bridge.Base.{any, all, includes, list_eq}
use san_layerzero_bridge.Base.Text.{
  is_hash32, is_git_commit, is_digits, is_base58_text, digits_from, parse_digits, to_lower,
  to_upper, is_blank, leq_text, has_0x, has_shape, is_timestamp, digit, show_from, show_nat,
  pad_start,
}
use san_layerzero_bridge.Base.Sort.{insert, sort}
use san_layerzero_bridge.Base.Members.{is_distinct}
use san_layerzero_bridge.Base.BigInt.{trim, drop_spaces, trim_end}
use san_layerzero_bridge.InFlight.Json.{canonical_json, join, quote, escape_all, escape}
use san_layerzero_bridge.InFlight.Encode.{texts}
use san_layerzero_bridge.ConfigCheck.Collect.{
  required_env, endpoint_of, find_deployment, retired, deprecated_dvns,
  collect_layer_zero_observation, check_layer_zero_config,
}
use san_layerzero_bridge.ConfigCheck.Robinhood.{
  evm_observation, normalize_evm_uln, is_executor_explicit, inspect_robinhood_layer_zero,
}
use san_layerzero_bridge.ConfigCheck.Solana.{
  normalize_solana_uln, inspect_solana_programs, inspect_solana_layer_zero,
}
use san_layerzero_bridge.ConfigCheck.Deployed.{IsDeployed, check_layer_zero_config-IsDeployed}
use san_layerzero_bridge.ConfigCheck.Example.{env, contracts, programs, accounts, metadata}
use san_layerzero_bridge.Example.{packages}
use san_layerzero_bridge.LayerZero.{
  normalize, normalize_or_throw, normalize_all, normalized_set, assert_chain_address_equal,
  dvn_check, validate_uln, assert_bytes32_equal, readable, validate_chain,
  validate_layer_zero_observation,
}
use san_layerzero_bridge.LayerZero.Tests.{pinned-IsDistinct}
use san_layerzero_bridge.Mainnet.Checks.{bytes32_from_evm, bytes32_from_solana}

config_accepted : check_layer_zero_config packages accounts env metadata programs contracts ≡ ok tt
unfolding str_eq ◌>>◌ throw_if for_each ◌+ℤ◌ ◌-ℤ◌ ltb_ℤ leb_ℤ int_eq any all includes list_eq
    is_hash32 is_git_commit is_digits is_base58_text digits_from parse_digits to_lower to_upper
    is_blank leq_text has_0x has_shape is_timestamp digit show_from show_nat pad_start insert sort
    is_distinct normalize normalize_or_throw normalize_all normalized_set assert_chain_address_equal
    dvn_check validate_uln assert_bytes32_equal readable validate_chain
    validate_layer_zero_observation required_env endpoint_of find_deployment retired deprecated_dvns
    collect_layer_zero_observation check_layer_zero_config evm_observation normalize_evm_uln
    is_executor_explicit inspect_robinhood_layer_zero normalize_solana_uln inspect_solana_programs
    inspect_solana_layer_zero bytes32_from_evm bytes32_from_solana trim drop_spaces trim_end
    canonical_json join texts quote escape_all escape
config_accepted = refl

check_layer_zero_config-IsDeployed_example : IsDeployed packages env metadata programs contracts
check_layer_zero_config-IsDeployed_example =
    check_layer_zero_config-IsDeployed packages accounts metadata env programs contracts
      pinned-IsDistinct config_accepted
