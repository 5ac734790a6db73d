-- ===== src/Scan/Solana/Tests.antt =====
-- The scan of Solana on the history of the example.
use san_layerzero_bridge.Base.Accepts.{str_eq-ne}
use san_layerzero_bridge.Base.{◌≢◌, String, str_eq}
use san_layerzero_bridge.Base.{
  ℕ, String, ◌≡◌, refl, ◌≢◌, none, [], ◌∷◌, ◌++◌, arith, ltb, if◌then◌else◌, ok, err, throw_if,
  ◌>>◌, length, All, any, includes, str_eq, leb_ℤ, ltb_ℤ, int_eq,
}
use san_layerzero_bridge.Config.{solana_mainnet_genesis_hash}
use san_layerzero_bridge.Example.{store, oft, zeros}
use san_layerzero_bridge.Base.Bytes.Laws.{le_bytes}
use san_layerzero_bridge.Base.Text.{
  concat, to_lower, is_digits, has_0x, digit, show_from, show_nat, pad_start,
}
use san_layerzero_bridge.Base.Members.{is_distinct}
use san_layerzero_bridge.Scan.Example.{
  scanner_packages, solana_node, history, message, transaction, sent_fields, ones, instruction,
}
use san_layerzero_bridge.Scan.Solana.Events.{
  oft_sent, extract_instruction, extract_solana_oft_events, is_no_event, u64le, event_at, events_of,
  instruction_bytes, extract_group, extract_groups, groups_events, meta_events,
}
use san_layerzero_bridge.Scan.Solana.Layout.{
  event_of, IsEncodable, extract_instruction-event_bytes, event_bytes,
}
use san_layerzero_bridge.Scan.Solana.Order.{IsIncreasing, extract_solana_oft_events-IsIncreasing}
use san_layerzero_bridge.Scan.Solana.History.{Serves, wanted, after_signature}
use san_layerzero_bridge.Scan.Solana.Complete.{collect_signatures-wanted}
use san_layerzero_bridge.Scan.Solana.Pages.{
  collect_signatures, visit_page, last_signature, use_page,
}
use san_layerzero_bridge.Scan.Solana.Receiver.{read_oft_receiver-to_hex}
use san_layerzero_bridge.Scan.Solana.Messages.{
  SolanaResult, scan_solana, solana_range, read_oft_receiver, strip_0x, find_packet, block_at,
  require_packet, sent_message, received_message, scan_named_event, scan_event, scan_events,
  sent_packets, scan_signature, scan_signatures,
}
use san_layerzero_bridge.Scan.Solana.Evidence.{IsSolanaSent, IsSolanaReceived}
use san_layerzero_bridge.Scan.Solana.Backed.{scan_solana-backed}
use san_layerzero_bridge.Base.Bytes.{
  to_hex, prefix, read_uint32, skip, key_of_bytes, read_uint64, from_hex,
}
use san_layerzero_bridge.Base.Sort.{insert, sort}
use san_layerzero_bridge.Base.BigInt.{drop_text, digit_value}
use san_layerzero_bridge.InFlight.Json.{show_number}
use san_layerzero_bridge.InFlight.Encode.{order_key, canonical_order}
use san_layerzero_bridge.Scan.Range.{require_finalized_range_end}
use san_layerzero_bridge.SanMint.{require_solana_mainnet}

abbrev solana_seen : SolanaResult
solana_seen = record {
  range = solana_range scanner_packages store oft 100 200 solana_mainnet_genesis_hash "a" "a";
  sent = message ∷ [];
  received = [];
}

ran : scan_solana scanner_packages store oft 3 solana_node 100 200 ≡ ok solana_seen
unfolding str_eq to_lower is_digits has_0x digit show_from show_nat pad_start insert sort drop_text
    digit_value show_number order_key canonical_order require_finalized_range_end
    require_solana_mainnet ◌>>◌ throw_if any leb_ℤ ltb_ℤ int_eq read_uint32 skip prefix key_of_bytes
    read_uint64 to_hex from_hex is_no_event u64le event_at events_of instruction_bytes
    extract_instruction extract_group extract_groups groups_events meta_events
    extract_solana_oft_events visit_page last_signature use_page collect_signatures strip_0x
    read_oft_receiver find_packet block_at require_packet sent_message received_message
    scan_named_event scan_event scan_events sent_packets scan_signature scan_signatures solana_range
    scan_solana event_bytes le_bytes after_signature
ran = refl

scan_solana-backed_example :
    All (IsSolanaSent scanner_packages store oft solana_node 100 200) (message ∷ [])
    × All (IsSolanaReceived scanner_packages store oft solana_node 100 200) []
scan_solana-backed_example = scan_solana-backed scanner_packages store oft 3 solana_node 100 200 ran

serves : Serves history solana_node 1_000
serves = record { positive = omega arith; page = λ before. refl }

-- Of the two transactions one is older than the range.
collect_signatures-wanted_example :
    collect_signatures solana_node 100 200 3 none ≡ ok (wanted 100 200 history)
collect_signatures-wanted_example =
    collect_signatures-wanted solana_node history 1_000 100 200 3 serves
      (unfold is_distinct includes str_eq in refl) ((omega arith, tt), (tt, tt)) (omega arith)

encodable : IsEncodable sent_fields
encodable = record { guid = refl; address = refl; eid = omega arith; amount = omega arith }

filled : ◌≢◌ {A = String} "event" ""
filled = str_eq-ne "event" "" (unfold str_eq in refl)

extract_instruction-event_bytes_example :
    extract_instruction scanner_packages instruction 7
    ≡ ok (event_of scanner_packages oft_sent sent_fields 7 ∷ [], 8)
unfolding str_eq
extract_instruction-event_bytes_example =
    extract_instruction-event_bytes scanner_packages oft_sent sent_fields 510 7 [] _ "event"
      encodable refl refl filled

extracted :
    extract_solana_oft_events scanner_packages transaction
    ≡ ok (event_of scanner_packages oft_sent sent_fields 0 ∷ [])
unfolding str_eq to_lower is_digits has_0x digit show_from show_nat pad_start insert sort drop_text
    digit_value show_number order_key canonical_order require_finalized_range_end
    require_solana_mainnet ◌>>◌ throw_if any leb_ℤ ltb_ℤ int_eq read_uint32 skip prefix key_of_bytes
    read_uint64 to_hex from_hex is_no_event u64le event_at events_of instruction_bytes
    extract_instruction extract_group extract_groups groups_events meta_events
    extract_solana_oft_events visit_page last_signature use_page collect_signatures strip_0x
    read_oft_receiver find_packet block_at require_packet sent_message received_message
    scan_named_event scan_event scan_events sent_packets scan_signature scan_signatures solana_range
    scan_solana event_bytes le_bytes after_signature
extracted = refl

extract_solana_oft_events-IsIncreasing_example :
    (last : ℕ) × IsIncreasing 0 last (event_of scanner_packages oft_sent sent_fields 0 ∷ [])
extract_solana_oft_events-IsIncreasing_example =
    extract_solana_oft_events-IsIncreasing scanner_packages transaction extracted

-- The receiver is the first 32 of 64 bytes.
read_oft_receiver-to_hex_example : read_oft_receiver (concat "0x" (to_hex (ones ++ zeros))) ≡ (
    if ltb (length (ones ++ zeros)) 40
    then err "LayerZero OFT packet message is shorter than 40 bytes"
    else ok (concat "0x" (to_hex (prefix 32 (ones ++ zeros)))))
read_oft_receiver-to_hex_example = read_oft_receiver-to_hex (ones ++ zeros) (omega arith)
