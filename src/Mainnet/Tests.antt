-- ===== src/Mainnet/Tests.antt =====
-- The policy on the snapshot of the example.
use san_layerzero_bridge.Base.{str_eq, String, true, string_Eq}
use san_layerzero_bridge.Base.{◌>>◌, throw_if, for_each}
use san_layerzero_bridge.Base.{◌+ℤ◌, ◌-ℤ◌, ltb_ℤ, leb_ℤ, int_eq}
use san_layerzero_bridge.Base.{any, all, includes, list_eq}
use san_layerzero_bridge.Base.Text.{
  is_hash32, is_git_commit, is_digits, is_base58_text, digits_from, parse_digits, to_lower,
  to_upper, is_blank, leq_text, has_0x, has_shape, is_timestamp, digit, show_from, show_nat,
  pad_start,
}
use san_layerzero_bridge.Base.Sort.{insert, sort}
use san_layerzero_bridge.Base.BigInt.{
  drop_spaces, trim_end, trim, digit_value, in_base, is_octal, is_binary, prefixed, negate, signed,
  literal, big_int, take_text, drop_text,
}
use san_layerzero_bridge.RateLimit.{
  lookup, production_rate_limit_profile, require_direction, capacity_differs, refill_differs,
  validate_production_rate_limit_plan, find_profile, is_solana_public_key, same_public_key,
  validate_solana_production_rate_limit_task,
}
use san_layerzero_bridge.LayerZero.{
  normalize, normalize_or_throw, normalize_all, normalized_set, assert_chain_address_equal,
  dvn_check, validate_uln, assert_bytes32_equal, readable, validate_chain,
  validate_layer_zero_observation,
}
use san_layerzero_bridge.InFlight.Message.{
  validate_fields, validate_pathway, validate_delivered, validate_undelivered, add_unresolved,
  tally_message, tally_messages,
}
use san_layerzero_bridge.Mainnet.Checks.{
  require_hash, some_of, for_each_index, equal_solana_address, equal_evm_address,
  require_solana_address, require_evm_address, is_same_solana_address, is_same_evm_address,
  bytes32_from_solana, bytes32_from_evm,
}
use san_layerzero_bridge.Mainnet.Approved.{
  require_confirmations, validate_ranges, validate_hashes, require_optional_address,
  validate_bootstrap, validate_approved_state,
}
use san_layerzero_bridge.Mainnet.Context.{
  remove, check_accounts, validate_solana_context_evidence, required_accounts,
}
use san_layerzero_bridge.Mainnet.Programs.{
  equal_hash, validate_chains, validate_mint, validate_oft_program, validate_endpoint_program,
  validate_uln_program, validate_escrow, validate_san_oft,
}
use san_layerzero_bridge.Mainnet.Accounting.{
  validate_amounts, validate_identities, require_height, validate_anchors, validate_inventory,
  validate_tvl,
}
use san_layerzero_bridge.Mainnet.Roles.{
  validate_solana_roles, validate_robinhood_roles, reject_bootstrap, validate_roles,
  validate_enforced_option, validate_enforced_options,
}
use san_layerzero_bridge.Mainnet.Activation.{
  validate_wiring, lacks_capacity, validate_available, validate_inert, validate_canary,
  validate_activation, approved_policy,
}
use san_layerzero_bridge.Mainnet.Validate.{
  validate_programs, validate_accounting, validate_production_mainnet_observation,
}
use san_layerzero_bridge.Mainnet.Collect.{
  in_flight_observation, address_from_storage, parse_program_data, require_account_owner,
  require_upgradeable_program,
}
use san_layerzero_bridge.Base.Bytes.{read_uint32, byte_at, skip, prefix, key_of_bytes}
use san_layerzero_bridge.Base.{◌≡◌, ◌↔◌, refl, ok, pos, ◌+ℤ◌, ◌≤ℤ◌}
use san_layerzero_bridge.Base.Accepts.{Accepts}
use san_layerzero_bridge.Example.{packages, manifest, inventory, bridge, plan, profile, oft, store}
use san_layerzero_bridge.InFlight.Spec.{total}
use san_layerzero_bridge.InFlight.Message.{solana_to_robinhood, robinhood_to_solana}
use san_layerzero_bridge.InFlight.Tests.{parsed}
use san_layerzero_bridge.LayerZero.{Chain, Peers}
use san_layerzero_bridge.LayerZero.Spec.{IsConfigured}
use san_layerzero_bridge.LayerZero.Tests.{pinned-IsDistinct}
use san_layerzero_bridge.RateLimit.Spec.{Conforms}
use san_layerzero_bridge.Mainnet.Example.{approved, observation, context}
use san_layerzero_bridge.Mainnet.Spec.{
  HasApprovedRoles, IsFilled, IsActivation, AreDistinctAccounts, IsAnchored, labels,
}
use san_layerzero_bridge.Mainnet.Solvency.{
  validate_production_mainnet_observation-backed, validate_production_mainnet_observation-solvent,
}
use san_layerzero_bridge.Mainnet.Authority.{
  validate_production_mainnet_observation-HasApprovedRoles,
}
use san_layerzero_bridge.Mainnet.Wiring.{
  validate_production_mainnet_observation-IsConfigured,
  validate_production_mainnet_observation-Conforms,
}
use san_layerzero_bridge.Mainnet.Launch.{validate_activation_iff}
use san_layerzero_bridge.Mainnet.Evidence.{validate_solana_context_evidence_complete}

accepted :
    Accepts
      (validate_production_mainnet_observation packages observation approved "PRE_ACTIVATION_INERT")
unfolding str_eq ◌>>◌ throw_if for_each ◌+ℤ◌ ◌-ℤ◌ ltb_ℤ leb_ℤ int_eq any all includes list_eq
    is_hash32 is_git_commit is_digits is_base58_text digits_from parse_digits to_lower to_upper
    is_blank leq_text has_0x has_shape is_timestamp digit show_from show_nat pad_start insert sort
    drop_spaces trim_end trim digit_value in_base is_octal is_binary prefixed negate signed literal
    big_int take_text drop_text lookup production_rate_limit_profile require_direction
    capacity_differs refill_differs validate_production_rate_limit_plan find_profile
    is_solana_public_key same_public_key validate_solana_production_rate_limit_task normalize
    normalize_or_throw normalize_all normalized_set assert_chain_address_equal dvn_check
    validate_uln assert_bytes32_equal readable validate_chain validate_layer_zero_observation
    validate_fields validate_pathway validate_delivered validate_undelivered add_unresolved
    tally_message tally_messages require_hash some_of for_each_index equal_solana_address
    equal_evm_address require_solana_address require_evm_address is_same_solana_address
    is_same_evm_address bytes32_from_solana bytes32_from_evm require_confirmations validate_ranges
    validate_hashes require_optional_address validate_bootstrap validate_approved_state remove
    check_accounts validate_solana_context_evidence equal_hash validate_chains validate_mint
    validate_oft_program validate_endpoint_program validate_uln_program validate_escrow
    validate_san_oft validate_amounts validate_identities require_height validate_anchors
    validate_inventory validate_tvl validate_solana_roles validate_robinhood_roles reject_bootstrap
    validate_roles validate_enforced_option validate_enforced_options validate_wiring lacks_capacity
    validate_available validate_inert validate_canary validate_activation validate_programs
    validate_accounting validate_production_mainnet_observation in_flight_observation read_uint32
    byte_at skip prefix key_of_bytes address_from_storage parse_program_data require_account_owner
    require_upgradeable_program
accepted = refl

validate_production_mainnet_observation-backed_example :
    (observation.solana.tvl_raw
      ≡ observation.robinhood.total_supply_raw
        +ℤ pos (total solana_to_robinhood manifest.messages)
        +ℤ pos (total robinhood_to_solana manifest.messages))
    × (observation.solana.tvl_raw ≤ℤ observation.solana.escrow_balance_raw)
validate_production_mainnet_observation-backed_example =
    validate_production_mainnet_observation-backed packages observation approved
      "PRE_ACTIVATION_INERT" manifest inventory (pos 250) 60 parsed refl accepted

validate_production_mainnet_observation-solvent_example :
    (pos 1_000 ≡ pos 900 +ℤ pos 70 +ℤ pos 30) × (pos 900 +ℤ pos 70 +ℤ pos 30 ≤ℤ pos 1_001)
validate_production_mainnet_observation-solvent_example =
    validate_production_mainnet_observation-solvent packages observation approved
      "PRE_ACTIVATION_INERT" accepted

validate_production_mainnet_observation-HasApprovedRoles_example :
    HasApprovedRoles packages observation approved
validate_production_mainnet_observation-HasApprovedRoles_example =
    validate_production_mainnet_observation-HasApprovedRoles packages observation approved
      "PRE_ACTIVATION_INERT" accepted

validate_production_mainnet_observation-IsConfigured_example :
    (peers : Peers) × (bytes32_from_evm packages oft ≡ ok peers.solana)
    × (bytes32_from_solana packages store ≡ ok peers.robinhood)
    × ((chain : Chain)
        → IsConfigured packages chain bridge peers (approved_policy approved) (pos 30))
validate_production_mainnet_observation-IsConfigured_example =
    validate_production_mainnet_observation-IsConfigured packages observation approved
      "PRE_ACTIVATION_INERT" accepted pinned-IsDistinct

validate_production_mainnet_observation-Conforms_example : Conforms plan profile × IsFilled plan
validate_production_mainnet_observation-Conforms_example =
    validate_production_mainnet_observation-Conforms packages observation approved
      "PRE_ACTIVATION_INERT" accepted

validate_activation_iff_example :
    Accepts (validate_activation observation "CANARY_ACTIVE")
    ↔ IsActivation observation "CANARY_ACTIVE"
validate_activation_iff_example = validate_activation_iff observation "CANARY_ACTIVE"

context_accepted : Accepts (validate_solana_context_evidence context)
unfolding str_eq ◌>>◌ throw_if for_each ◌+ℤ◌ ◌-ℤ◌ ltb_ℤ leb_ℤ int_eq any all includes list_eq
    is_hash32 is_git_commit is_digits is_base58_text digits_from parse_digits to_lower to_upper
    is_blank leq_text has_0x has_shape is_timestamp digit show_from show_nat pad_start insert sort
    drop_spaces trim_end trim digit_value in_base is_octal is_binary prefixed negate signed literal
    big_int take_text drop_text lookup production_rate_limit_profile require_direction
    capacity_differs refill_differs validate_production_rate_limit_plan find_profile
    is_solana_public_key same_public_key validate_solana_production_rate_limit_task normalize
    normalize_or_throw normalize_all normalized_set assert_chain_address_equal dvn_check
    validate_uln assert_bytes32_equal readable validate_chain validate_layer_zero_observation
    validate_fields validate_pathway validate_delivered validate_undelivered add_unresolved
    tally_message tally_messages require_hash some_of for_each_index equal_solana_address
    equal_evm_address require_solana_address require_evm_address is_same_solana_address
    is_same_evm_address bytes32_from_solana bytes32_from_evm require_confirmations validate_ranges
    validate_hashes require_optional_address validate_bootstrap validate_approved_state remove
    check_accounts validate_solana_context_evidence equal_hash validate_chains validate_mint
    validate_oft_program validate_endpoint_program validate_uln_program validate_escrow
    validate_san_oft validate_amounts validate_identities require_height validate_anchors
    validate_inventory validate_tvl validate_solana_roles validate_robinhood_roles reject_bootstrap
    validate_roles validate_enforced_option validate_enforced_options validate_wiring lacks_capacity
    validate_available validate_inert validate_canary validate_activation validate_programs
    validate_accounting validate_production_mainnet_observation in_flight_observation read_uint32
    byte_at skip prefix key_of_bytes address_from_storage parse_program_data require_account_owner
    require_upgradeable_program
context_accepted = refl

validate_solana_context_evidence_complete_example :
    ((label : String)
      → includes required_accounts label ≡ true
      → includes (labels context.accounts) label ≡ true)
    × AreDistinctAccounts context.accounts
    × IsAnchored context
validate_solana_context_evidence_complete_example =
    validate_solana_context_evidence_complete context context_accepted
