-- ===== src/Scan/Runs.antt =====
-- The scanner on the history of the example.
use san_layerzero_bridge.Scan.Robinhood.Tests.{answers}
use san_layerzero_bridge.Scan.Corroborated.{
  IsCorroborated, fetch_layer_zero_statuses-IsCorroborated,
}
use san_layerzero_bridge.Scan.Build.{Entries}
use san_layerzero_bridge.Base.{String, All}
use san_layerzero_bridge.Base.{All, [], ◌∷◌, refl, some, int, pos, ok, ◌≡◌}
use san_layerzero_bridge.Example.{manifest, ranges, hash}
use san_layerzero_bridge.Scan.Whole.{IsScanned, scan_values-IsScanned}
use san_layerzero_bridge.Scan.Example.{message, guid}
use san_layerzero_bridge.Base.{str_eq}
use san_layerzero_bridge.Base.{◌>>◌, throw_if, for_each}
use san_layerzero_bridge.Base.{◌+ℤ◌, ◌-ℤ◌, ltb_ℤ, leb_ℤ, int_eq}
use san_layerzero_bridge.Base.{any, all, includes, list_eq}
use san_layerzero_bridge.Base.Text.{
  is_hash32, is_git_commit, is_digits, is_base58_text, digits_from, parse_digits, to_lower,
  to_upper, is_blank, leq_text, has_0x, has_shape, is_timestamp, digit, show_from, show_nat,
  pad_start,
}
use san_layerzero_bridge.Base.Sort.{insert, sort}
use san_layerzero_bridge.Base.BigInt.{
  drop_spaces, trim_end, trim, digit_value, in_base, is_octal, is_binary, prefixed, negate, signed,
  literal, big_int, take_text, drop_text,
}
use san_layerzero_bridge.InFlight.Json.{
  hex_digit, escape, escape_all, quote, show_number, show_bool, join, member, canonical_json,
  canonical_items, canonical_fields,
}
use san_layerzero_bridge.InFlight.Encode.{
  or_null, texts, evidence_fields, message_json, messages_json, scanner_json, solana_identity_json,
  robinhood_identity_json, identities_json, solana_range_json, robinhood_range_json, ranges_json,
  provenance_json, summary_json, unsigned_json, canonical_messages, order_key, canonical_order,
  checksum,
}
use san_layerzero_bridge.Scan.Range.{require_finalized_range_end, unresolved_status}
use san_layerzero_bridge.Scan.Build.{
  get, delete, collect_destinations, api_status_of, deliver, leave, match_message, match_messages,
  add_message, add_messages,
}
use san_layerzero_bridge.Scan.Manifest.{
  unsigned_manifest, provider_comparable, build_in_flight_manifest,
}
use san_layerzero_bridge.Base.{string_Eq}
use san_layerzero_bridge.InFlight.Checks.{
  exact_keys, unsigned_integer, hash32, nonempty, equal_identity, done, validate_solana_range,
  validate_robinhood_range, validate_range, distinct_count, validate_header, validate_provenance,
}
use san_layerzero_bridge.InFlight.Message.{
  validate_fields, validate_pathway, validate_delivered, validate_undelivered, add_unresolved,
  tally_message, tally_messages,
}
use san_layerzero_bridge.InFlight.Parse.{validate_summary, parse_in_flight_inventory}
use san_layerzero_bridge.Base.{
  throw_if, for_each, ◌>>◌, any, all, includes, str_eq, ◌+ℤ◌, ◌-ℤ◌, ltb_ℤ, leb_ℤ, int_eq, list_eq,
}
use san_layerzero_bridge.InFlight.Data.{Manifest}
use san_layerzero_bridge.Scan.Manifest.{unsigned_manifest}
use san_layerzero_bridge.Scan.Example.{scanner_packages, fuel, services, values}
use san_layerzero_bridge.Base.Text.{
  is_hash32, is_git_commit, is_digits, is_base58_text, digits_from, parse_digits, to_lower,
  to_upper, is_blank, leq_text, has_0x, has_shape, is_timestamp, digit, show_from, show_nat,
  pad_start,
}
use san_layerzero_bridge.Base.Sort.{insert}
use san_layerzero_bridge.Base.Bytes.{
  read_uint32, byte_at, skip, prefix, key_of_bytes, read_uint64, to_hex, from_hex,
}
use san_layerzero_bridge.Scan.Solana.Events.{
  is_no_event, u64le, event_at, events_of, instruction_bytes, extract_instruction, extract_group,
  extract_groups, groups_events, meta_events, extract_solana_oft_events,
}
use san_layerzero_bridge.Scan.Solana.Pages.{
  visit_page, last_signature, use_page, collect_signatures,
}
use san_layerzero_bridge.Scan.Solana.Messages.{
  strip_0x, read_oft_receiver, find_packet, block_at, require_packet, sent_message,
  received_message, scan_named_event, scan_event, scan_events, sent_packets, scan_signature,
  scan_signatures, solana_range, scan_solana,
}
use san_layerzero_bridge.Scan.Robinhood.Logs.{
  packet_logs, successful, present, require_return_packet, sent_log_message, received_log_message,
  scan_parsed, scan_log, scan_logs, scan_page, scan_pages, finalized_block, robinhood_range,
  scan_robinhood,
}
use san_layerzero_bridge.Scan.Statuses.{
  add_to_group, group_by_transaction, is_entry_of, find_entry, entry_of, status_name_of,
  message_status, set_statuses, fetch_groups, fetch_layer_zero_statuses,
}
use san_layerzero_bridge.Scan.Production.{
  required, safe_provider_id, production_identities, scan_provider_pair, scan_values,
  scan_production_in_flight,
}
use san_layerzero_bridge.Scan.Solana.Layout.{event_bytes}
use san_layerzero_bridge.Base.Bytes.Laws.{le_bytes}
use san_layerzero_bridge.Scan.Robinhood.Coverage.{between}
use san_layerzero_bridge.Scan.Solana.History.{after_signature}
use san_layerzero_bridge.SanMint.{require_solana_mainnet}

abbrev scanned : Manifest
scanned = record manifest {
  unsigned = record manifest.unsigned {
    ranges = record ranges {
      solana = record ranges.solana { start_blockhash = "a"; end_blockhash = "a" };
    };
    provenance = record manifest.provenance {
      solana_providers = "https://s1" ∷ "https://s2" ∷ [];
      robinhood_providers = "https://r1" ∷ "https://r2" ∷ [];
    };
    messages =
        record message {
          status = "delivered";
          destination_transaction = some "tx9";
          destination_height = some "20";
          destination_block_hash = some hash;
          layer_zero_api_status = some "DELIVERED";
        }
        ∷ [];
    summary = record manifest.summary {
      result_count = int (pos 1);
      unresolved_packet_count = int (pos 0);
      solana_to_robinhood_raw = "0";
      robinhood_to_solana_raw = "0";
    };
  };
}

-- Both scans, the statuses, the build and the parse of the manifest.
ran : scan_values scanner_packages fuel services values ("s1", "s2") ("r1", "r2") ≡ ok scanned
unfolding str_eq ◌>>◌ throw_if for_each ◌+ℤ◌ ◌-ℤ◌ ltb_ℤ leb_ℤ int_eq any all includes list_eq
    is_hash32 is_git_commit is_digits is_base58_text digits_from parse_digits to_lower to_upper
    is_blank leq_text has_0x has_shape is_timestamp digit show_from show_nat pad_start insert sort
    drop_spaces trim_end trim digit_value in_base is_octal is_binary prefixed negate signed literal
    big_int take_text drop_text hex_digit escape escape_all quote show_number show_bool join member
    canonical_json canonical_items canonical_fields or_null texts evidence_fields message_json
    messages_json scanner_json solana_identity_json robinhood_identity_json identities_json
    solana_range_json robinhood_range_json ranges_json provenance_json summary_json unsigned_json
    canonical_messages order_key canonical_order checksum require_finalized_range_end
    unresolved_status get delete collect_destinations api_status_of deliver leave match_message
    match_messages add_message add_messages unsigned_manifest provider_comparable
    build_in_flight_manifest exact_keys unsigned_integer hash32 nonempty equal_identity done
    validate_solana_range validate_robinhood_range validate_range distinct_count validate_header
    validate_provenance validate_fields validate_pathway validate_delivered validate_undelivered
    add_unresolved tally_message tally_messages validate_summary parse_in_flight_inventory
    read_uint32 byte_at skip prefix key_of_bytes read_uint64 to_hex from_hex is_no_event u64le
    event_at events_of instruction_bytes extract_instruction extract_group extract_groups
    groups_events meta_events extract_solana_oft_events visit_page last_signature use_page
    collect_signatures strip_0x read_oft_receiver find_packet block_at require_packet sent_message
    received_message scan_named_event scan_event scan_events sent_packets scan_signature
    scan_signatures solana_range scan_solana packet_logs successful present require_return_packet
    sent_log_message received_log_message scan_parsed scan_log scan_logs scan_page scan_pages
    finalized_block robinhood_range scan_robinhood add_to_group group_by_transaction is_entry_of
    find_entry entry_of status_name_of message_status set_statuses fetch_groups
    fetch_layer_zero_statuses required safe_provider_id production_identities scan_provider_pair
    scan_values scan_production_in_flight event_bytes le_bytes between after_signature
    require_solana_mainnet
ran = refl

scan_values-IsScanned_example :
    IsScanned scanner_packages fuel services values ("s1", "s2") ("r1", "r2") scanned
scan_values-IsScanned_example =
    scan_values-IsScanned scanner_packages fuel services values ("s1", "s2") ("r1", "r2") answers
      ran

abbrev statuses : Entries String
statuses = (guid, "DELIVERED") ∷ []

fetched : fetch_layer_zero_statuses services.layer_zero (message ∷ []) ≡ ok statuses
unfolding str_eq to_lower ◌>>◌ throw_if add_to_group group_by_transaction is_entry_of find_entry
    entry_of status_name_of message_status set_statuses fetch_groups fetch_layer_zero_statuses
fetched = refl

fetch_layer_zero_statuses-IsCorroborated_example :
    All (IsCorroborated services.layer_zero (message ∷ []) statuses) (message ∷ [])
fetch_layer_zero_statuses-IsCorroborated_example =
    fetch_layer_zero_statuses-IsCorroborated services.layer_zero (message ∷ []) fetched
