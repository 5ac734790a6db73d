-- ===== src/LayerZero/Tests.antt =====
-- The configuration check on the example's bridge.
use san_layerzero_bridge.Base.{str_eq}
use san_layerzero_bridge.Base.{◌>>◌, throw_if, for_each}
use san_layerzero_bridge.Base.{◌+ℤ◌, ◌-ℤ◌, ltb_ℤ, leb_ℤ, int_eq}
use san_layerzero_bridge.Base.{any, all, includes, list_eq}
use san_layerzero_bridge.Base.Text.{
  is_hash32, is_git_commit, is_digits, is_base58_text, digits_from, parse_digits, to_lower,
  to_upper, is_blank, leq_text, has_0x, has_shape, is_timestamp, digit, show_from, show_nat,
  pad_start,
}
use san_layerzero_bridge.Base.Sort.{insert, sort}
use san_layerzero_bridge.Base.Members.{is_distinct}
use san_layerzero_bridge.LayerZero.{
  normalize, normalize_or_throw, normalize_all, normalized_set, assert_chain_address_equal,
  dvn_check, validate_uln, assert_bytes32_equal, readable, validate_chain,
  validate_layer_zero_observation,
}
use san_layerzero_bridge.Base.{◌≡◌, refl, ok, ℤ, pos, some, ok_inj}
use san_layerzero_bridge.Base.Members.{is_distinct-Nodup}
use san_layerzero_bridge.Example.{packages, bridge, oft}
use san_layerzero_bridge.LayerZero.{
  Chain, solana, robinhood, Peers, san_layerzero_policy, intended_on,
}
use san_layerzero_bridge.LayerZero.Spec.{IsConfigured}
use san_layerzero_bridge.LayerZero.Uln.{IsDistinct}
use san_layerzero_bridge.LayerZero.Accepted.{
  validate_layer_zero_observation-IsConfigured, validate_layer_zero_observation-pathways,
}

abbrev peers : Peers
peers = record { solana = oft; robinhood = bridge.robinhood.peer }

bridge_accepted : validate_layer_zero_observation packages bridge peers san_layerzero_policy ≡ ok tt
unfolding str_eq ◌>>◌ throw_if for_each ◌+ℤ◌ ◌-ℤ◌ ltb_ℤ leb_ℤ int_eq any all includes list_eq
    is_hash32 is_git_commit is_digits is_base58_text digits_from parse_digits to_lower to_upper
    is_blank leq_text has_0x has_shape is_timestamp digit show_from show_nat pad_start insert sort
    is_distinct normalize normalize_or_throw normalize_all normalized_set assert_chain_address_equal
    dvn_check validate_uln assert_bytes32_equal readable validate_chain
    validate_layer_zero_observation
bridge_accepted = refl

-- The pinned verifiers are different accounts, as the packages of the example read them.
pub pinned-IsDistinct :
    (chain : Chain)
    → IsDistinct packages chain (intended_on chain san_layerzero_policy).optional_dvns
unfolding str_eq ◌>>◌ throw_if for_each ◌+ℤ◌ ◌-ℤ◌ ltb_ℤ leb_ℤ int_eq any all includes list_eq
    is_hash32 is_git_commit is_digits is_base58_text digits_from parse_digits to_lower to_upper
    is_blank leq_text has_0x has_shape is_timestamp digit show_from show_nat pad_start insert sort
    is_distinct normalize normalize_or_throw normalize_all normalized_set assert_chain_address_equal
    dvn_check validate_uln assert_bytes32_equal readable validate_chain
    validate_layer_zero_observation
pinned-IsDistinct solana ns h = is_distinct-Nodup ns (rw⁻¹ (ok_inj h) refl)
pinned-IsDistinct robinhood ns h = is_distinct-Nodup ns (rw⁻¹ (ok_inj h) refl)

validate_layer_zero_observation-IsConfigured_example :
    (n : ℤ) × (some (pos 30) ≡ some n)
    × ((chain : Chain) → IsConfigured packages chain bridge peers san_layerzero_policy n)
validate_layer_zero_observation-IsConfigured_example =
    validate_layer_zero_observation-IsConfigured packages bridge peers san_layerzero_policy
      pinned-IsDistinct bridge_accepted

validate_layer_zero_observation-pathways_example :
    (bridge.solana.send.confirmations ≡ bridge.robinhood.receive.confirmations)
    × (bridge.robinhood.send.confirmations ≡ bridge.solana.receive.confirmations)
    × (bridge.solana.send.optional_threshold ≡ bridge.robinhood.receive.optional_threshold)
    × (bridge.robinhood.send.optional_threshold ≡ bridge.solana.receive.optional_threshold)
validate_layer_zero_observation-pathways_example =
    validate_layer_zero_observation-pathways packages bridge peers san_layerzero_policy
      bridge_accepted
