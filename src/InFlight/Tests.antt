-- ===== src/InFlight/Tests.antt =====
-- The parser on the manifest of the example.
use san_layerzero_bridge.Base.{str_eq}
use san_layerzero_bridge.Base.{◌>>◌, throw_if, for_each}
use san_layerzero_bridge.Base.{◌+ℤ◌, ◌-ℤ◌, ltb_ℤ, leb_ℤ, int_eq}
use san_layerzero_bridge.Base.{any, all, includes, list_eq}
use san_layerzero_bridge.Base.Text.{
  is_hash32, is_git_commit, is_digits, is_base58_text, digits_from, parse_digits, to_lower,
  to_upper, is_blank, leq_text, has_0x, has_shape, is_timestamp, digit, show_from, show_nat,
  pad_start,
}
use san_layerzero_bridge.Base.Sort.{insert, sort}
use san_layerzero_bridge.InFlight.Json.{
  hex_digit, escape, escape_all, quote, show_number, show_bool, join, member, canonical_json,
  canonical_items, canonical_fields,
}
use san_layerzero_bridge.InFlight.Encode.{
  or_null, texts, evidence_fields, message_json, messages_json, scanner_json, solana_identity_json,
  robinhood_identity_json, identities_json, solana_range_json, robinhood_range_json, ranges_json,
  provenance_json, summary_json, unsigned_json, canonical_messages, order_key, canonical_order,
  checksum,
}
use san_layerzero_bridge.InFlight.Checks.{
  exact_keys, unsigned_integer, hash32, nonempty, equal_identity, done, validate_solana_range,
  validate_robinhood_range, validate_range, distinct_count, validate_header, validate_provenance,
}
use san_layerzero_bridge.InFlight.Message.{
  validate_fields, validate_pathway, validate_delivered, validate_undelivered, add_unresolved,
  tally_message, tally_messages,
}
use san_layerzero_bridge.InFlight.Parse.{validate_summary, parse_in_flight_inventory}
use san_layerzero_bridge.Base.{◌≡◌, refl, ok}
use san_layerzero_bridge.Example.{packages, manifest, inventory}
use san_layerzero_bridge.InFlight.Spec.{IsReconciled}
use san_layerzero_bridge.InFlight.Totals.{parse_in_flight_inventory-IsReconciled}

pub parsed : parse_in_flight_inventory packages manifest ≡ ok inventory
unfolding str_eq ◌>>◌ throw_if for_each ◌+ℤ◌ ◌-ℤ◌ ltb_ℤ leb_ℤ int_eq any all includes list_eq
    is_hash32 is_git_commit is_digits is_base58_text digits_from parse_digits to_lower to_upper
    is_blank leq_text has_0x has_shape is_timestamp digit show_from show_nat pad_start insert sort
    hex_digit escape escape_all quote show_number show_bool join member canonical_json
    canonical_items canonical_fields or_null texts evidence_fields message_json messages_json
    scanner_json solana_identity_json robinhood_identity_json identities_json solana_range_json
    robinhood_range_json ranges_json provenance_json summary_json unsigned_json canonical_messages
    order_key canonical_order checksum exact_keys unsigned_integer hash32 nonempty equal_identity
    done validate_solana_range validate_robinhood_range validate_range distinct_count
    validate_header validate_provenance validate_fields validate_pathway validate_delivered
    validate_undelivered add_unresolved tally_message tally_messages validate_summary
    parse_in_flight_inventory
parsed = refl

parse_in_flight_inventory-IsReconciled_example : IsReconciled packages manifest inventory
parse_in_flight_inventory-IsReconciled_example =
    parse_in_flight_inventory-IsReconciled packages manifest parsed
