-- ===== src/Checker/Tests.antt =====
-- A run of the production checker before the activation.
use san_layerzero_bridge.Base.{
  str_eq, ◌>>◌, throw_if, for_each, ◌+ℤ◌, ◌-ℤ◌, ltb_ℤ, leb_ℤ, int_eq, any, all, includes, list_eq,
  ok,
}
use san_layerzero_bridge.Base.Text.{
  is_hash32, is_git_commit, is_digits, is_base58_text, digits_from, parse_digits, to_lower,
  to_upper, is_blank, leq_text, has_0x, has_shape, is_timestamp, digit, show_from, show_nat,
  pad_start,
}
use san_layerzero_bridge.Base.Sort.{insert, sort}
use san_layerzero_bridge.Base.BigInt.{
  drop_spaces, trim_end, trim, digit_value, in_base, is_octal, is_binary, prefixed, negate, signed,
  literal, big_int, take_text, drop_text,
}
use san_layerzero_bridge.RateLimit.{
  lookup, production_rate_limit_profile, require_direction, capacity_differs, refill_differs,
  validate_production_rate_limit_plan, find_profile, is_solana_public_key, same_public_key,
  validate_solana_production_rate_limit_task,
}
use san_layerzero_bridge.LayerZero.{
  normalize, normalize_or_throw, normalize_all, normalized_set, assert_chain_address_equal,
  dvn_check, validate_uln, assert_bytes32_equal, readable, validate_chain,
  validate_layer_zero_observation,
}
use san_layerzero_bridge.InFlight.Message.{
  validate_fields, validate_pathway, validate_delivered, validate_undelivered, add_unresolved,
  tally_message, tally_messages,
}
use san_layerzero_bridge.Mainnet.Checks.{
  require_hash, some_of, for_each_index, equal_solana_address, equal_evm_address,
  require_solana_address, require_evm_address, is_same_solana_address, is_same_evm_address,
  bytes32_from_solana, bytes32_from_evm,
}
use san_layerzero_bridge.Mainnet.Approved.{
  require_confirmations, validate_ranges, validate_hashes, require_optional_address,
  validate_bootstrap, validate_approved_state,
}
use san_layerzero_bridge.Mainnet.Context.{remove, check_accounts, validate_solana_context_evidence}
use san_layerzero_bridge.Mainnet.Programs.{
  equal_hash, validate_chains, validate_mint, validate_oft_program, validate_endpoint_program,
  validate_uln_program, validate_escrow, validate_san_oft,
}
use san_layerzero_bridge.Mainnet.Accounting.{
  validate_amounts, validate_identities, require_height, validate_anchors, validate_inventory,
  validate_tvl,
}
use san_layerzero_bridge.Mainnet.Roles.{
  validate_solana_roles, validate_robinhood_roles, reject_bootstrap, validate_roles,
  validate_enforced_option, validate_enforced_options,
}
use san_layerzero_bridge.Mainnet.Activation.{
  validate_wiring, lacks_capacity, validate_available, validate_inert, validate_canary,
  validate_activation,
}
use san_layerzero_bridge.Mainnet.Validate.{
  validate_programs, validate_accounting, validate_production_mainnet_observation,
}
use san_layerzero_bridge.Mainnet.Collect.{
  in_flight_observation, address_from_storage, parse_program_data, require_account_owner,
  require_upgradeable_program,
}
use san_layerzero_bridge.Base.Bytes.{read_uint32, byte_at, skip, prefix, key_of_bytes}
use san_layerzero_bridge.Base.Members.{is_distinct}
use san_layerzero_bridge.ConfigCheck.Collect.{
  endpoint_of, find_deployment, retired, deprecated_dvns, collect_layer_zero_observation,
}
use san_layerzero_bridge.ConfigCheck.Robinhood.{
  evm_observation, normalize_evm_uln, is_executor_explicit, inspect_robinhood_layer_zero,
}
use san_layerzero_bridge.ConfigCheck.Solana.{
  normalize_solana_uln, inspect_solana_layer_zero, inspect_solana_snapshot,
  solana_layer_zero_context_accounts,
}
use san_layerzero_bridge.InFlight.Json.{
  canonical_json, join, quote, escape_all, escape, hex_digit, show_number, show_bool, member,
  canonical_items, canonical_fields,
}
use san_layerzero_bridge.InFlight.Encode.{
  texts, or_null, evidence_fields, message_json, messages_json, scanner_json, solana_identity_json,
  robinhood_identity_json, identities_json, solana_range_json, robinhood_range_json, ranges_json,
  provenance_json, summary_json, unsigned_json, canonical_messages, order_key, canonical_order,
  checksum,
}
use san_layerzero_bridge.InFlight.Checks.{
  exact_keys, unsigned_integer, hash32, nonempty, equal_identity, done, validate_solana_range,
  validate_robinhood_range, validate_range, distinct_count, validate_header, validate_provenance,
}
use san_layerzero_bridge.InFlight.Parse.{validate_summary, parse_in_flight_inventory}
use san_layerzero_bridge.SolanaContext.{
  check_slot, validate_common_context_envelope, account_header, account_hash, check_requests,
  account_evidence, bind_accounts, collect_solana_common_context, account,
}
use san_layerzero_bridge.StoreBindings.{require_oft_store_asset_bindings}
use san_layerzero_bridge.Checker.Environment.{
  split_commas, trimmed, push, required_env, required_big_int, required_list,
  optional_solana_authority, addresses_from_env, limits_from_env, programs_from_env,
  expected_in_flight_from_env, approved_state_from_env,
}
use san_layerzero_bridge.Checker.Programs.{
  require_linked_program, production_keys, require_owner_of, require_program, require_program_data,
  require_owners,
}
use san_layerzero_bridge.Checker.Snapshot.{
  read_linked_program, decode_receive_option, finalized_head, block_tag, finalized_tag, read_solana,
  solana_observation,
}
use san_layerzero_bridge.Checker.Collect.{
  read_token, load_in_flight_inventory, robinhood_observation, assemble,
  collect_production_mainnet_observation,
}
use san_layerzero_bridge.Checker.Main.{
  stable, validate_repeated_production_observations, collect_repeated_production_observations,
  check_production_mainnet,
}
use san_layerzero_bridge.Base.{◌≡◌, refl, String, ok, [], ◌∷◌, All}
use san_layerzero_bridge.Base.Accepts.{Accepts}
use san_layerzero_bridge.Checker.Backed.{IsBacked, check_production_mainnet-IsBacked}
use san_layerzero_bridge.Checker.Variables.{IsGiven, variables, approved_state_from_env-IsGiven}
use san_layerzero_bridge.Example.{inventory}
use san_layerzero_bridge.Mainnet.Data.{ApprovedState, Observation}
use san_layerzero_bridge.Mainnet.Example.{approved, observation}
use san_layerzero_bridge.Checker.Linked.{
  AreProgramsLinked, collect_production_mainnet_observation-AreProgramsLinked,
}
use san_layerzero_bridge.Base.{Result, err}
use san_layerzero_bridge.Checker.Normalized.{account_json}
use san_layerzero_bridge.Checker.Normalized.{accounts_json}
use san_layerzero_bridge.Checker.Normalized.{bridge_json}
use san_layerzero_bridge.Checker.Normalized.{chain_json}
use san_layerzero_bridge.Checker.Normalized.{context_json}
use san_layerzero_bridge.Checker.Normalized.{directions_json}
use san_layerzero_bridge.Checker.Normalized.{in_flight_json}
use san_layerzero_bridge.Checker.Normalized.{limit_json}
use san_layerzero_bridge.Checker.Normalized.{observation_json}
use san_layerzero_bridge.Checker.Normalized.{option_json}
use san_layerzero_bridge.Checker.Normalized.{options_json}
use san_layerzero_bridge.Checker.Normalized.{plan_json}
use san_layerzero_bridge.Checker.Normalized.{robinhood_json}
use san_layerzero_bridge.Checker.Normalized.{solana_json}
use san_layerzero_bridge.Checker.Normalized.{uln_json}
use san_layerzero_bridge.Checker.Normalized.{with_big}
use san_layerzero_bridge.Checker.Normalized.{with_directions}
use san_layerzero_bridge.Checker.Normalized.{with_limit}
use san_layerzero_bridge.Checker.Text.{find_field}
use san_layerzero_bridge.Checker.Text.{identities_in_order}
use san_layerzero_bridge.Checker.Text.{in_order}
use san_layerzero_bridge.Checker.Text.{json_text}
use san_layerzero_bridge.Checker.Text.{manifest_json}
use san_layerzero_bridge.Checker.Text.{messages_in_order}
use san_layerzero_bridge.Checker.Text.{object_fields}
use san_layerzero_bridge.Checker.Text.{ordered}
use san_layerzero_bridge.Checker.Text.{ranges_in_order}
use san_layerzero_bridge.ConfigCheck.Solana.{inspect_solana_programs}
use san_layerzero_bridge.Checker.Text.{item_texts}
use san_layerzero_bridge.Checker.Text.{field_texts}
use san_layerzero_bridge.Checker.Example.{
  checker_packages, decoders, first_read, second_read, checker_env,
}
use san_layerzero_bridge.ConfigCheck.Example.{accounts}

checked : check_production_mainnet checker_packages decoders accounts first_read second_read ≡ ok tt
unfolding str_eq ◌>>◌ throw_if for_each ◌+ℤ◌ ◌-ℤ◌ ltb_ℤ leb_ℤ int_eq any all includes list_eq
    is_hash32 is_git_commit is_digits is_base58_text digits_from parse_digits to_lower to_upper
    is_blank leq_text has_0x has_shape is_timestamp digit show_from show_nat pad_start insert sort
    drop_spaces trim_end trim digit_value in_base is_octal is_binary prefixed negate signed literal
    big_int take_text drop_text lookup production_rate_limit_profile require_direction
    capacity_differs refill_differs validate_production_rate_limit_plan find_profile
    is_solana_public_key same_public_key validate_solana_production_rate_limit_task normalize
    normalize_or_throw normalize_all normalized_set assert_chain_address_equal dvn_check
    validate_uln assert_bytes32_equal readable validate_chain validate_layer_zero_observation
    validate_fields validate_pathway validate_delivered validate_undelivered add_unresolved
    tally_message tally_messages require_hash some_of for_each_index equal_solana_address
    equal_evm_address require_solana_address require_evm_address is_same_solana_address
    is_same_evm_address bytes32_from_solana bytes32_from_evm require_confirmations validate_ranges
    validate_hashes require_optional_address validate_bootstrap validate_approved_state remove
    check_accounts validate_solana_context_evidence equal_hash validate_chains validate_mint
    validate_oft_program validate_endpoint_program validate_uln_program validate_escrow
    validate_san_oft validate_amounts validate_identities require_height validate_anchors
    validate_inventory validate_tvl validate_solana_roles validate_robinhood_roles reject_bootstrap
    validate_roles validate_enforced_option validate_enforced_options validate_wiring lacks_capacity
    validate_available validate_inert validate_canary validate_activation validate_programs
    validate_accounting validate_production_mainnet_observation in_flight_observation read_uint32
    byte_at skip prefix key_of_bytes address_from_storage parse_program_data require_account_owner
    require_upgradeable_program is_distinct endpoint_of find_deployment retired deprecated_dvns
    collect_layer_zero_observation evm_observation normalize_evm_uln is_executor_explicit
    inspect_robinhood_layer_zero normalize_solana_uln inspect_solana_layer_zero canonical_json join
    texts quote escape_all escape hex_digit show_number show_bool member canonical_items
    canonical_fields or_null evidence_fields message_json messages_json scanner_json
    solana_identity_json robinhood_identity_json identities_json solana_range_json
    robinhood_range_json ranges_json provenance_json summary_json unsigned_json canonical_messages
    order_key canonical_order checksum exact_keys unsigned_integer hash32 nonempty equal_identity
    done validate_solana_range validate_robinhood_range validate_range distinct_count
    validate_header validate_provenance validate_summary parse_in_flight_inventory check_slot
    validate_common_context_envelope account_header account_hash check_requests account_evidence
    bind_accounts collect_solana_common_context account require_oft_store_asset_bindings
    split_commas trimmed push required_env required_big_int required_list optional_solana_authority
    addresses_from_env limits_from_env programs_from_env expected_in_flight_from_env
    approved_state_from_env require_linked_program production_keys require_owner_of require_program
    require_program_data require_owners decode_receive_option finalized_head block_tag finalized_tag
    read_solana solana_observation read_token load_in_flight_inventory robinhood_observation
    assemble collect_production_mainnet_observation stable validate_repeated_production_observations
    collect_repeated_production_observations check_production_mainnet inspect_solana_snapshot
    solana_layer_zero_context_accounts account_json accounts_json bridge_json chain_json
    context_json directions_json in_flight_json limit_json observation_json option_json options_json
    plan_json robinhood_json solana_json uln_json with_big with_directions with_limit find_field
    identities_in_order in_order json_text manifest_json messages_in_order object_fields ordered
    ranges_in_order inspect_solana_programs item_texts field_texts read_linked_program
checked = refl

check_production_mainnet-IsBacked_example :
    (state : String) × (values : ApprovedState) × (o : Observation) × (again : Observation)
    × (approved_state_from_env checker_env checker_packages ≡ ok values)
    × (collect_production_mainnet_observation checker_packages decoders accounts first_read values
        ≡ ok o)
    × (collect_production_mainnet_observation checker_packages decoders accounts second_read values
        ≡ ok again)
    × Accepts (validate_production_mainnet_observation checker_packages o values state)
    × Accepts (validate_production_mainnet_observation checker_packages again values state)
    × IsBacked checker_packages first_read o
    × IsBacked checker_packages second_read again
    × (stable o ≡ stable again)
check_production_mainnet-IsBacked_example =
    check_production_mainnet-IsBacked checker_packages decoders accounts first_read second_read
      checked

abbrev approved_here : ApprovedState
approved_here = record approved {
  authorities = record approved.authorities { solana_upgrade_authority = "77" };
  forbidden_solana_bootstrap_authorities = "deployer" ∷ "helper" ∷ [];
  expected_solana_program_data = "201";
  expected_solana_program_data_sha256 = inventory.inventory_sha256;
  expected_solana_endpoint_program_data = "202";
  expected_solana_endpoint_program_data_sha256 = inventory.inventory_sha256;
  expected_solana_endpoint_upgrade_authority = "78";
  expected_solana_uln_program_data = "203";
  expected_solana_uln_program_data_sha256 = inventory.inventory_sha256;
  expected_solana_uln_upgrade_authority = "79";
}

read_here : approved_state_from_env checker_env checker_packages ≡ ok approved_here
unfolding str_eq ◌>>◌ throw_if trim drop_spaces trim_end is_blank split_commas trimmed push
    required_env required_big_int required_list optional_solana_authority addresses_from_env
    limits_from_env programs_from_env expected_in_flight_from_env approved_state_from_env is_digits
    parse_digits digits_from production_rate_limit_profile lookup
read_here = refl

approved_state_from_env-IsGiven_example : All (IsGiven checker_env) variables
approved_state_from_env-IsGiven_example =
    approved_state_from_env-IsGiven checker_env checker_packages approved_here read_here

abbrev or_else : Observation → Result Observation → Observation
or_else o (ok found) = found
or_else o (err _) = o

abbrev snapshot_here : Observation
snapshot_here = or_else observation (
    collect_production_mainnet_observation checker_packages decoders accounts first_read
      approved_here)

collected :
    collect_production_mainnet_observation checker_packages decoders accounts first_read
      approved_here
    ≡ ok snapshot_here
unfolding str_eq ◌>>◌ throw_if for_each ◌+ℤ◌ ◌-ℤ◌ ltb_ℤ leb_ℤ int_eq any all includes list_eq
    is_hash32 is_git_commit is_digits is_base58_text digits_from parse_digits to_lower to_upper
    is_blank leq_text has_0x has_shape is_timestamp digit show_from show_nat pad_start insert sort
    drop_spaces trim_end trim digit_value in_base is_octal is_binary prefixed negate signed literal
    big_int take_text drop_text lookup production_rate_limit_profile require_direction
    capacity_differs refill_differs validate_production_rate_limit_plan find_profile
    is_solana_public_key same_public_key validate_solana_production_rate_limit_task normalize
    normalize_or_throw normalize_all normalized_set assert_chain_address_equal dvn_check
    validate_uln assert_bytes32_equal readable validate_chain validate_layer_zero_observation
    validate_fields validate_pathway validate_delivered validate_undelivered add_unresolved
    tally_message tally_messages require_hash some_of for_each_index equal_solana_address
    equal_evm_address require_solana_address require_evm_address is_same_solana_address
    is_same_evm_address bytes32_from_solana bytes32_from_evm require_confirmations validate_ranges
    validate_hashes require_optional_address validate_bootstrap validate_approved_state remove
    check_accounts validate_solana_context_evidence equal_hash validate_chains validate_mint
    validate_oft_program validate_endpoint_program validate_uln_program validate_escrow
    validate_san_oft validate_amounts validate_identities require_height validate_anchors
    validate_inventory validate_tvl validate_solana_roles validate_robinhood_roles reject_bootstrap
    validate_roles validate_enforced_option validate_enforced_options validate_wiring lacks_capacity
    validate_available validate_inert validate_canary validate_activation validate_programs
    validate_accounting validate_production_mainnet_observation in_flight_observation read_uint32
    byte_at skip prefix key_of_bytes address_from_storage parse_program_data require_account_owner
    require_upgradeable_program is_distinct endpoint_of find_deployment retired deprecated_dvns
    collect_layer_zero_observation evm_observation normalize_evm_uln is_executor_explicit
    inspect_robinhood_layer_zero normalize_solana_uln inspect_solana_layer_zero canonical_json join
    texts quote escape_all escape hex_digit show_number show_bool member canonical_items
    canonical_fields or_null evidence_fields message_json messages_json scanner_json
    solana_identity_json robinhood_identity_json identities_json solana_range_json
    robinhood_range_json ranges_json provenance_json summary_json unsigned_json canonical_messages
    order_key canonical_order checksum exact_keys unsigned_integer hash32 nonempty equal_identity
    done validate_solana_range validate_robinhood_range validate_range distinct_count
    validate_header validate_provenance validate_summary parse_in_flight_inventory check_slot
    validate_common_context_envelope account_header account_hash check_requests account_evidence
    bind_accounts collect_solana_common_context account require_oft_store_asset_bindings
    split_commas trimmed push required_env required_big_int required_list optional_solana_authority
    addresses_from_env limits_from_env programs_from_env expected_in_flight_from_env
    approved_state_from_env require_linked_program production_keys require_owner_of require_program
    require_program_data require_owners decode_receive_option finalized_head block_tag finalized_tag
    read_solana solana_observation read_token load_in_flight_inventory robinhood_observation
    assemble collect_production_mainnet_observation stable validate_repeated_production_observations
    collect_repeated_production_observations check_production_mainnet inspect_solana_snapshot
    solana_layer_zero_context_accounts account_json accounts_json bridge_json chain_json
    context_json directions_json in_flight_json limit_json observation_json option_json options_json
    plan_json robinhood_json solana_json uln_json with_big with_directions with_limit find_field
    identities_in_order in_order json_text manifest_json messages_in_order object_fields ordered
    ranges_in_order inspect_solana_programs item_texts field_texts read_linked_program
collected = refl

collect_production_mainnet_observation-AreProgramsLinked_example :
    AreProgramsLinked checker_packages decoders accounts first_read approved_here snapshot_here
collect_production_mainnet_observation-AreProgramsLinked_example =
    collect_production_mainnet_observation-AreProgramsLinked checker_packages decoders accounts
      first_read approved_here collected
