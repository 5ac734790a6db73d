-- ===== src/Scan/Tests.antt =====
-- The scanner on what the two providers of the example saw.
use san_layerzero_bridge.Base.{str_eq, All}
use san_layerzero_bridge.Base.{◌>>◌, throw_if, for_each}
use san_layerzero_bridge.Base.{◌+ℤ◌, ◌-ℤ◌, ltb_ℤ, leb_ℤ, int_eq}
use san_layerzero_bridge.Base.{any, all, includes, list_eq}
use san_layerzero_bridge.Base.Text.{
  is_hash32, is_git_commit, is_digits, is_base58_text, digits_from, parse_digits, to_lower,
  to_upper, is_blank, leq_text, has_0x, has_shape, is_timestamp, digit, show_from, show_nat,
  pad_start,
}
use san_layerzero_bridge.Base.Sort.{insert, sort}
use san_layerzero_bridge.Base.BigInt.{
  drop_spaces, trim_end, trim, digit_value, in_base, is_octal, is_binary, prefixed, negate, signed,
  literal, big_int, take_text, drop_text,
}
use san_layerzero_bridge.InFlight.Json.{
  hex_digit, escape, escape_all, quote, show_number, show_bool, join, member, canonical_json,
  canonical_items, canonical_fields,
}
use san_layerzero_bridge.InFlight.Encode.{
  or_null, texts, evidence_fields, message_json, messages_json, scanner_json, solana_identity_json,
  robinhood_identity_json, identities_json, solana_range_json, robinhood_range_json, ranges_json,
  provenance_json, summary_json, unsigned_json, canonical_messages, order_key, canonical_order,
  checksum,
}
use san_layerzero_bridge.Scan.Range.{require_finalized_range_end, unresolved_status}
use san_layerzero_bridge.Scan.Build.{
  get, delete, collect_destinations, api_status_of, deliver, leave, match_message, match_messages,
  add_message, add_messages,
}
use san_layerzero_bridge.Scan.Manifest.{
  unsigned_manifest, provider_comparable, build_in_flight_manifest,
}
use san_layerzero_bridge.Base.Accepts.{Accepts}
use san_layerzero_bridge.Base.{◌↔◌, string_Eq, ◌≡◌, refl, ok, inl, inr, int, pos}
use san_layerzero_bridge.Example.{packages, manifest, build_input}
use san_layerzero_bridge.InFlight.Spec.{total, undelivered}
use san_layerzero_bridge.InFlight.Message.{solana_to_robinhood, robinhood_to_solana}
use san_layerzero_bridge.Scan.Spec.{IsFinalizedEnd}
use san_layerzero_bridge.Scan.Status.{require_finalized_range_end_iff}
use san_layerzero_bridge.Scan.Agreement.{IsMatched, build_in_flight_manifest-IsMatched}
use san_layerzero_bridge.Scan.Told.{IsReported, build_in_flight_manifest-IsReported}
use san_layerzero_bridge.Scan.Sums.{build_in_flight_manifest-sums}

-- The manifest of the example is the one that is built.
built : build_in_flight_manifest packages build_input ≡ ok manifest
unfolding str_eq ◌>>◌ throw_if for_each ◌+ℤ◌ ◌-ℤ◌ ltb_ℤ leb_ℤ int_eq any all includes list_eq
    is_hash32 is_git_commit is_digits is_base58_text digits_from parse_digits to_lower to_upper
    is_blank leq_text has_0x has_shape is_timestamp digit show_from show_nat pad_start insert sort
    drop_spaces trim_end trim digit_value in_base is_octal is_binary prefixed negate signed literal
    big_int take_text drop_text hex_digit escape escape_all quote show_number show_bool join member
    canonical_json canonical_items canonical_fields or_null texts evidence_fields message_json
    messages_json scanner_json solana_identity_json robinhood_identity_json identities_json
    solana_range_json robinhood_range_json ranges_json provenance_json summary_json unsigned_json
    canonical_messages order_key canonical_order checksum require_finalized_range_end
    unresolved_status get delete collect_destinations api_status_of deliver leave match_message
    match_messages add_message add_messages unsigned_manifest provider_comparable
    build_in_flight_manifest
built = refl

build_in_flight_manifest-IsMatched_example : IsMatched build_input manifest
build_in_flight_manifest-IsMatched_example =
    build_in_flight_manifest-IsMatched packages build_input built

build_in_flight_manifest-sums_example :
    (parse_digits manifest.summary.solana_to_robinhood_raw
      ≡ total solana_to_robinhood manifest.messages)
    × (parse_digits manifest.summary.robinhood_to_solana_raw
        ≡ total robinhood_to_solana manifest.messages)
    × (manifest.summary.result_count ≡ int (pos 3))
    × (manifest.summary.unresolved_packet_count ≡ int (pos (undelivered manifest.messages)))
unfolding is_digits str_eq
build_in_flight_manifest-sums_example =
    build_in_flight_manifest-sums packages build_input built
      ((refl, inr refl), ((refl, inl refl), ((refl, inl refl), tt)))

require_finalized_range_end_iff_example :
    Accepts (require_finalized_range_end (int (pos 200)) (int (pos 250)) "Solana")
    ↔ IsFinalizedEnd (int (pos 200)) (int (pos 250))
require_finalized_range_end_iff_example =
    require_finalized_range_end_iff (int (pos 200)) (int (pos 250)) "Solana"

build_in_flight_manifest-IsReported_example : All (IsReported build_input) manifest.messages
build_in_flight_manifest-IsReported_example =
    build_in_flight_manifest-IsReported packages build_input built
