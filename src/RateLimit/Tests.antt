-- ===== src/RateLimit/Tests.antt =====
-- The checks of rate limits on the example's plan and on a task.
use san_layerzero_bridge.Base.{str_eq}
use san_layerzero_bridge.Base.{◌>>◌, throw_if, for_each}
use san_layerzero_bridge.Base.{◌+ℤ◌, ◌-ℤ◌, ltb_ℤ, leb_ℤ, int_eq}
use san_layerzero_bridge.Base.{any, all, includes, list_eq}
use san_layerzero_bridge.Base.Text.{
  is_hash32, is_git_commit, is_digits, is_base58_text, digits_from, parse_digits, to_lower,
  to_upper, is_blank, leq_text, has_0x, has_shape, is_timestamp, digit, show_from, show_nat,
  pad_start,
}
use san_layerzero_bridge.Base.Sort.{insert, sort}
use san_layerzero_bridge.Base.BigInt.{
  drop_spaces, trim_end, trim, digit_value, in_base, is_octal, is_binary, prefixed, negate, signed,
  literal, big_int, take_text, drop_text,
}
use san_layerzero_bridge.RateLimit.{
  lookup, production_rate_limit_profile, require_direction, capacity_differs, refill_differs,
  validate_production_rate_limit_plan, find_profile, is_solana_public_key, same_public_key,
  validate_solana_production_rate_limit_task,
}
use san_layerzero_bridge.Base.{◌≡◌, ◌↔◌, ◌+◌, ◌*◌, ◌≤◌, ◌<◌, refl, ok, int, pos}
use san_layerzero_bridge.Config.{
  solana_eid, robinhood_eid, canonical_san_mint, production_solana_oft_program,
}
use san_layerzero_bridge.Example.{packages, plan, profile, store}
use san_layerzero_bridge.RateLimit.{Task}
use san_layerzero_bridge.RateLimit.Spec.{Conforms}
use san_layerzero_bridge.RateLimit.Matrix.{validate_production_rate_limit_plan_iff}
use san_layerzero_bridge.RateLimit.Approval.{
  IsApproved, validate_solana_production_rate_limit_task-IsApproved,
  production_rate_limit_profile_daily,
}

validate_production_rate_limit_plan_iff_example :
    (validate_production_rate_limit_plan plan profile ≡ ok tt) ↔ Conforms plan profile
validate_production_rate_limit_plan_iff_example =
    validate_production_rate_limit_plan_iff plan profile

-- The plan is accepted.
plan_accepted : validate_production_rate_limit_plan plan profile ≡ ok tt
unfolding str_eq ◌>>◌ throw_if for_each ◌+ℤ◌ ◌-ℤ◌ ltb_ℤ leb_ℤ int_eq any all includes list_eq
    is_hash32 is_git_commit is_digits is_base58_text digits_from parse_digits to_lower to_upper
    is_blank leq_text has_0x has_shape is_timestamp digit show_from show_nat pad_start insert sort
    drop_spaces trim_end trim digit_value in_base is_octal is_binary prefixed negate signed literal
    big_int take_text drop_text lookup production_rate_limit_profile require_direction
    capacity_differs refill_differs validate_production_rate_limit_plan find_profile
    is_solana_public_key same_public_key validate_solana_production_rate_limit_task
plan_accepted = refl

abbrev task : Task
task = record {
  local_eid = int solana_eid;
  peer_eid = int robinhood_eid;
  mint = canonical_san_mint;
  program_id = production_solana_oft_program;
  oft_store = store;
  approved_oft_store = store;
  capacity = pos 500_000_000_000;
  refill_per_second = pos 5_787_037;
}

task_accepted : validate_solana_production_rate_limit_task packages task ≡ ok "canary"
unfolding str_eq ◌>>◌ throw_if for_each ◌+ℤ◌ ◌-ℤ◌ ltb_ℤ leb_ℤ int_eq any all includes list_eq
    is_hash32 is_git_commit is_digits is_base58_text digits_from parse_digits to_lower to_upper
    is_blank leq_text has_0x has_shape is_timestamp digit show_from show_nat pad_start insert sort
    drop_spaces trim_end trim digit_value in_base is_octal is_binary prefixed negate signed literal
    big_int take_text drop_text lookup production_rate_limit_profile require_direction
    capacity_differs refill_differs validate_production_rate_limit_plan find_profile
    is_solana_public_key same_public_key validate_solana_production_rate_limit_task
task_accepted = refl

validate_solana_production_rate_limit_task-IsApproved_example : IsApproved packages task "canary"
validate_solana_production_rate_limit_task-IsApproved_example =
    validate_solana_production_rate_limit_task-IsApproved packages task task_accepted

canary_profile : production_rate_limit_profile "canary" ≡ ok profile
unfolding str_eq ◌>>◌ throw_if for_each ◌+ℤ◌ ◌-ℤ◌ ltb_ℤ leb_ℤ int_eq any all includes list_eq
    is_hash32 is_git_commit is_digits is_base58_text digits_from parse_digits to_lower to_upper
    is_blank leq_text has_0x has_shape is_timestamp digit show_from show_nat pad_start insert sort
    drop_spaces trim_end trim digit_value in_base is_octal is_binary prefixed negate signed literal
    big_int take_text drop_text lookup production_rate_limit_profile require_direction
    capacity_differs refill_differs validate_production_rate_limit_plan find_profile
    is_solana_public_key same_public_key validate_solana_production_rate_limit_task
canary_profile = refl

production_rate_limit_profile_daily_example :
    (5_787_037 * 86_400 ≤ 500_000_000_000) × (500_000_000_000 < 5_787_037 * 86_400 + 86_400)
production_rate_limit_profile_daily_example =
    production_rate_limit_profile_daily "canary" canary_profile
