-- ===== src/StoreBindings/Tests.antt =====
-- The bindings of the example's Store.
use san_layerzero_bridge.Base.{str_eq}
use san_layerzero_bridge.Base.{◌>>◌, throw_if, for_each}
use san_layerzero_bridge.Base.{◌+ℤ◌, ◌-ℤ◌, ltb_ℤ, leb_ℤ, int_eq}
use san_layerzero_bridge.Base.{any, all, includes, list_eq}
use san_layerzero_bridge.Base.Text.{
  is_hash32, is_git_commit, is_digits, is_base58_text, digits_from, parse_digits, to_lower,
  to_upper, is_blank, leq_text, has_0x, has_shape, is_timestamp, digit, show_from, show_nat,
  pad_start,
}
use san_layerzero_bridge.Base.Sort.{insert, sort}
use san_layerzero_bridge.Base.BigInt.{
  drop_spaces, trim_end, trim, digit_value, in_base, is_octal, is_binary, prefixed, negate, signed,
  literal, big_int, take_text, drop_text,
}
use san_layerzero_bridge.StoreBindings.{require_oft_store_asset_bindings}
use san_layerzero_bridge.Base.{refl}
use san_layerzero_bridge.Base.Accepts.{Accepts}
use san_layerzero_bridge.Config.{canonical_san_mint}
use san_layerzero_bridge.Example.{packages, store}
use san_layerzero_bridge.StoreBindings.Laws.{IsBound, require_oft_store_asset_bindings-IsBound}

bound :
    Accepts (require_oft_store_asset_bindings packages store canonical_san_mint "escrow" "escrow")
unfolding str_eq ◌>>◌ throw_if for_each ◌+ℤ◌ ◌-ℤ◌ ltb_ℤ leb_ℤ int_eq any all includes list_eq
    is_hash32 is_git_commit is_digits is_base58_text digits_from parse_digits to_lower to_upper
    is_blank leq_text has_0x has_shape is_timestamp digit show_from show_nat pad_start insert sort
    drop_spaces trim_end trim digit_value in_base is_octal is_binary prefixed negate signed literal
    big_int take_text drop_text require_oft_store_asset_bindings
bound = refl

require_oft_store_asset_bindings-IsBound_example :
    IsBound packages store canonical_san_mint "escrow" "escrow"
require_oft_store_asset_bindings-IsBound_example =
    require_oft_store_asset_bindings-IsBound packages store canonical_san_mint "escrow" "escrow"
      bound
