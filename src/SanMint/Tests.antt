-- ===== src/SanMint/Tests.antt =====
-- The adapter's configuration and the mint's account.
use san_layerzero_bridge.Base.{str_eq}
use san_layerzero_bridge.Base.{◌>>◌, throw_if, for_each}
use san_layerzero_bridge.Base.{◌+ℤ◌, ◌-ℤ◌, ltb_ℤ, leb_ℤ, int_eq}
use san_layerzero_bridge.Base.{any, all, includes, list_eq}
use san_layerzero_bridge.Base.Text.{
  is_hash32, is_git_commit, is_digits, is_base58_text, digits_from, parse_digits, to_lower,
  to_upper, is_blank, leq_text, has_0x, has_shape, is_timestamp, digit, show_from, show_nat,
  pad_start,
}
use san_layerzero_bridge.Base.Sort.{insert, sort}
use san_layerzero_bridge.Base.BigInt.{
  drop_spaces, trim_end, trim, digit_value, in_base, is_octal, is_binary, prefixed, negate, signed,
  literal, big_int, take_text, drop_text,
}
use san_layerzero_bridge.InFlight.Json.{
  hex_digit, escape, escape_all, quote, show_number, show_bool, join, member, canonical_json,
  canonical_items, canonical_fields,
}
use san_layerzero_bridge.SanMint.{
  require_supported_token_program, require_solana_mainnet, decodes_to_key,
  require_canonical_san_mint, validate_san_adapter_config, validate_canonical_san_mint_account,
  strip_zeros, with_point, format_raw_token_amount,
}
use san_layerzero_bridge.Base.{◌≡◌, ◌↔◌, refl, ok, int, pos, some, none}
use san_layerzero_bridge.Base.Accepts.{Accepts}
use san_layerzero_bridge.Config.{
  solana_eid, canonical_san_mint, legacy_spl_token_program, production_solana_oft_program,
}
use san_layerzero_bridge.Example.{packages}
use san_layerzero_bridge.SanMint.{AdapterConfig, MintObservation}
use san_layerzero_bridge.SanMint.Laws.{
  IsCanonical, validate_san_adapter_config-IsCanonical, validate_canonical_san_mint_account_iff,
}

abbrev config : AdapterConfig
config = record {
  eid = int solana_eid;
  mint = " GQz5ThKHNcuAvMKA8rCPSdoFUoApk9Fi8qB9m3Gqpump";
  configured_mint = some canonical_san_mint;
  token_program = legacy_spl_token_program;
  program_id = production_solana_oft_program;
}

config_accepted : validate_san_adapter_config packages config ≡ ok "SPL Token"
unfolding str_eq ◌>>◌ throw_if for_each ◌+ℤ◌ ◌-ℤ◌ ltb_ℤ leb_ℤ int_eq any all includes list_eq
    is_hash32 is_git_commit is_digits is_base58_text digits_from parse_digits to_lower to_upper
    is_blank leq_text has_0x has_shape is_timestamp digit show_from show_nat pad_start insert sort
    drop_spaces trim_end trim digit_value in_base is_octal is_binary prefixed negate signed literal
    big_int take_text drop_text hex_digit escape escape_all quote show_number show_bool join member
    canonical_json canonical_items canonical_fields require_supported_token_program
    require_solana_mainnet decodes_to_key require_canonical_san_mint validate_san_adapter_config
    validate_canonical_san_mint_account strip_zeros with_point format_raw_token_amount
config_accepted = refl

validate_san_adapter_config-IsCanonical_example : IsCanonical config "SPL Token"
validate_san_adapter_config-IsCanonical_example =
    validate_san_adapter_config-IsCanonical packages config config_accepted

abbrev mint : MintObservation
mint = record { decimals = int (pos 6); mint_authority = none; freeze_authority = some "frozen" }

validate_canonical_san_mint_account_iff_example :
    Accepts (validate_canonical_san_mint_account mint) ↔ (
      (mint.decimals ≡ int (pos 6)) × (mint.mint_authority ≡ none) × (mint.freeze_authority ≡ none))
validate_canonical_san_mint_account_iff_example = validate_canonical_san_mint_account_iff mint

-- Amounts as they are shown.
formatted : format_raw_token_amount (pos 1_234_500) (int (pos 6)) ≡ ok "1.2345"
unfolding str_eq ◌>>◌ throw_if for_each ◌+ℤ◌ ◌-ℤ◌ ltb_ℤ leb_ℤ int_eq any all includes list_eq
    is_hash32 is_git_commit is_digits is_base58_text digits_from parse_digits to_lower to_upper
    is_blank leq_text has_0x has_shape is_timestamp digit show_from show_nat pad_start insert sort
    drop_spaces trim_end trim digit_value in_base is_octal is_binary prefixed negate signed literal
    big_int take_text drop_text hex_digit escape escape_all quote show_number show_bool join member
    canonical_json canonical_items canonical_fields require_supported_token_program
    require_solana_mainnet decodes_to_key require_canonical_san_mint validate_san_adapter_config
    validate_canonical_san_mint_account strip_zeros with_point format_raw_token_amount
formatted = refl

formatted_small : format_raw_token_amount (pos 5) (int (pos 6)) ≡ ok "0.000005"
unfolding str_eq ◌>>◌ throw_if for_each ◌+ℤ◌ ◌-ℤ◌ ltb_ℤ leb_ℤ int_eq any all includes list_eq
    is_hash32 is_git_commit is_digits is_base58_text digits_from parse_digits to_lower to_upper
    is_blank leq_text has_0x has_shape is_timestamp digit show_from show_nat pad_start insert sort
    drop_spaces trim_end trim digit_value in_base is_octal is_binary prefixed negate signed literal
    big_int take_text drop_text hex_digit escape escape_all quote show_number show_bool join member
    canonical_json canonical_items canonical_fields require_supported_token_program
    require_solana_mainnet decodes_to_key require_canonical_san_mint validate_san_adapter_config
    validate_canonical_san_mint_account strip_zeros with_point format_raw_token_amount
formatted_small = refl
