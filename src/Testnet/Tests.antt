-- ===== src/Testnet/Tests.antt =====
-- A test asset.
use san_layerzero_bridge.Base.{str_eq}
use san_layerzero_bridge.Base.{◌>>◌, throw_if, for_each}
use san_layerzero_bridge.Base.{◌+ℤ◌, ◌-ℤ◌, ltb_ℤ, leb_ℤ, int_eq}
use san_layerzero_bridge.Base.{any, all, includes, list_eq}
use san_layerzero_bridge.Base.Text.{
  is_hash32, is_git_commit, is_digits, is_base58_text, digits_from, parse_digits, to_lower,
  to_upper, is_blank, leq_text, has_0x, has_shape, is_timestamp, digit, show_from, show_nat,
  pad_start,
}
use san_layerzero_bridge.Base.Sort.{insert, sort}
use san_layerzero_bridge.Base.BigInt.{
  drop_spaces, trim_end, trim, digit_value, in_base, is_octal, is_binary, prefixed, negate, signed,
  literal, big_int, take_text, drop_text,
}
use san_layerzero_bridge.Testnet.{require_testnet_mint, validate_testnet_asset}
use san_layerzero_bridge.Base.{◌≡◌, refl, ok, int, some}
use san_layerzero_bridge.Example.{packages}
use san_layerzero_bridge.Testnet.{AssetInput, devnet_eid, testnet_eid, testnet_chain_id}
use san_layerzero_bridge.Testnet.Laws.{IsTestAsset, validate_testnet_asset-IsTestAsset}

abbrev asset : AssetInput
asset = record {
  mint = some "A";
  solana_eid = int devnet_eid;
  robinhood_eid = int testnet_eid;
  robinhood_chain_id = int testnet_chain_id;
}

asset_accepted : validate_testnet_asset packages asset ≡ ok "65"
unfolding str_eq ◌>>◌ throw_if for_each ◌+ℤ◌ ◌-ℤ◌ ltb_ℤ leb_ℤ int_eq any all includes list_eq
    is_hash32 is_git_commit is_digits is_base58_text digits_from parse_digits to_lower to_upper
    is_blank leq_text has_0x has_shape is_timestamp digit show_from show_nat pad_start insert sort
    drop_spaces trim_end trim digit_value in_base is_octal is_binary prefixed negate signed literal
    big_int take_text drop_text require_testnet_mint validate_testnet_asset
asset_accepted = refl

validate_testnet_asset-IsTestAsset_example : IsTestAsset packages asset "65"
validate_testnet_asset-IsTestAsset_example =
    validate_testnet_asset-IsTestAsset packages asset asset_accepted
