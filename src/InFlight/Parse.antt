-- ===== src/InFlight/Parse.antt =====
-- `parseInFlightInventory`, from the value that `JSON.parse` returned.
use san_layerzero_bridge.Base.{
  Bool, not, ◌||◌, some, [], ◌∷◌, pos, ◌!=◌, string_Eq, nat_Eq, length, is_int, Result, ok, Check,
  throw_if, ◌>>=◌, ◌>>◌,
}
use san_layerzero_bridge.External.{External}
use san_layerzero_bridge.InFlight.Data.{Manifest, Inventory}
use san_layerzero_bridge.InFlight.Encode.{canonical_messages, canonical_order, checksum}
use san_layerzero_bridge.InFlight.Checks.{
  exact_keys, unsigned_integer, hash32, validate_header, validate_range, validate_provenance,
}
use san_layerzero_bridge.InFlight.Message.{Tally, tally_messages, no_messages}

-- The summary against the sums of the loop.
unfoldable pub validate_summary : Manifest → Tally → Check
validate_summary value t = do
  solana ←
      unsigned_integer (some value.summary.solana_to_robinhood_raw)
        "summary Solana-to-Robinhood amount" Bool.false
  throw_if (solana != t.solana_to_robinhood_raw)
      "In-flight manifest summary does not reconcile with packet evidence"
  robinhood ←
      unsigned_integer (some value.summary.robinhood_to_solana_raw)
        "summary Robinhood-to-Solana amount" Bool.false
  throw_if (robinhood != t.robinhood_to_solana_raw)
      "In-flight manifest summary does not reconcile with packet evidence"

module _ (x : External) where
  unfoldable pub parse_in_flight_inventory : Manifest → Result Inventory
  parse_in_flight_inventory value = do
    validate_header value
    validate_range value.ranges
    validate_provenance value.provenance
    exact_keys value.summary.keys
        ("resultCount" ∷ "unresolvedPacketCount" ∷ "solanaToRobinhoodRaw" ∷ "robinhoodToSolanaRaw"
          ∷ [])
        "Manifest summary"
    throw_if
        (canonical_messages (canonical_order x value.messages) != canonical_messages value.messages)
        "In-flight manifest messages are not in canonical order"
    t ← tally_messages value value.messages no_messages
    throw_if
        (not (is_int value.summary.result_count (pos (length t.seen)))
          || not (is_int value.summary.unresolved_packet_count (pos t.unresolved)))
        "In-flight manifest summary does not reconcile with packet evidence"
    validate_summary value t
    supplied ← hash32 (some value.manifest_checksum) "Manifest checksum"
    throw_if (supplied != checksum x value.unsigned)
        "In-flight manifest checksum does not match its canonical contents"
    ok (record {
      manifest = value;
      inventory_id = value.inventory_id;
      inventory_sha256 = checksum x value.unsigned;
      message_count = length t.seen;
      unresolved_packet_count = t.unresolved;
      solana_to_robinhood_raw = t.solana_to_robinhood_raw;
      robinhood_to_solana_raw = t.robinhood_to_solana_raw;
    })
