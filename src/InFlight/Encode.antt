-- ===== src/InFlight/Encode.antt =====
-- The manifest as a JSON value, its checksum, and the canonical order of its messages.
use san_layerzero_bridge.Base.{String, Bool, List, [], ◌∷◌, Option, none, some}
use san_layerzero_bridge.Base.Text.{concat, pad_start}
use san_layerzero_bridge.Base.Sort.{sort}
use san_layerzero_bridge.External.{External}
use san_layerzero_bridge.InFlight.Json.{
  Json, null, bool, num, str, arr, obj, Items, nil, cons, Fields, end, field, canonical_json,
  show_number,
}
use san_layerzero_bridge.InFlight.Data.{
  Message, Scanner, Identities, SolanaIdentity, RobinhoodIdentity, Ranges, SolanaRange,
  RobinhoodRange, Provenance, Summary, Unsigned,
}

unfoldable pub or_null : Option String → Json
or_null none = null
or_null (some s) = str s

unfoldable pub texts : List String → Items
texts [] = nil
texts (s ∷ ss) = cons (str s) (texts ss)

unfoldable pub evidence_fields : Message → Fields
evidence_fields m = field "destinationTransaction" (or_null m.destination_transaction) (
    field "destinationHeight" (or_null m.destination_height) (
      field "destinationBlockHash" (or_null m.destination_block_hash)
        (field "layerZeroApiStatus" (or_null m.layer_zero_api_status) end)))

unfoldable pub message_json : Message → Json
message_json m = obj (
    field "guid" (str m.guid) (
      field "direction" (str m.direction) (
        field "sourceNonce" (str m.source_nonce) (
          field "sourceTransaction" (str m.source_transaction) (
            field "sourceHeight" (str m.source_height) (
              field "sourceBlockHash" (str m.source_block_hash) (
                field "sourceEventIndex" (num m.source_event_index) (
                  field "sourceOft" (str m.source_oft) (
                    field "destinationOft" (str m.destination_oft) (
                      field "amountRaw" (str m.amount_raw) (
                        field "receiver" (str m.receiver)
                          (field "status" (str m.status) (evidence_fields m)))))))))))))

unfoldable pub messages_json : List Message → Items
messages_json [] = nil
messages_json (m ∷ ms) = cons (message_json m) (messages_json ms)

unfoldable pub scanner_json : Scanner → Json
scanner_json s = obj (
    field "name" (str s.name) (
      field "version" (str s.version) (
        field "bridgeCodeAuditTarget" (str s.bridge_code_audit_target)
          (field "scannerSourceCommit" (str s.scanner_source_commit) end))))

unfoldable pub solana_identity_json : SolanaIdentity → Json
solana_identity_json i = obj (
    field "chain" (str i.chain) (
      field "eid" (num i.eid) (
        field "endpoint" (str i.endpoint)
          (field "oftProgram" (str i.oft_program) (field "oftStore" (str i.oft_store) end)))))

unfoldable pub robinhood_identity_json : RobinhoodIdentity → Json
robinhood_identity_json i = obj (
    field "chainId" (num i.chain_id)
      (field "eid" (num i.eid) (field "endpoint" (str i.endpoint) (field "oft" (str i.oft) end))))

unfoldable pub identities_json : Identities → Json
identities_json i = obj (
    field "solana" (solana_identity_json i.solana)
      (field "robinhood" (robinhood_identity_json i.robinhood) end))

unfoldable pub solana_range_json : SolanaRange → Json
solana_range_json r = obj (
    field "fromSlot" (str r.from_slot) (
      field "toSlot" (str r.to_slot) (
        field "finalizedSlot" (str r.finalized_slot) (
          field "genesisHash" (str r.genesis_hash) (
            field "startBlockhash" (str r.start_blockhash) (
              field "endBlockhash" (str r.end_blockhash) (
                field "complete" (bool r.complete)
                  (field "paginationComplete" (bool r.pagination_complete) end))))))))

unfoldable pub robinhood_range_json : RobinhoodRange → Json
robinhood_range_json r = obj (
    field "fromBlock" (str r.from_block) (
      field "toBlock" (str r.to_block) (
        field "finalizedBlock" (str r.finalized_block) (
          field "startBlockHash" (str r.start_block_hash) (
            field "endBlockHash" (str r.end_block_hash) (
              field "complete" (bool r.complete)
                (field "paginationComplete" (bool r.pagination_complete) end)))))))

unfoldable pub ranges_json : Ranges → Json
ranges_json r = obj (
    field "solana" (solana_range_json r.solana)
      (field "robinhood" (robinhood_range_json r.robinhood) r.further))

unfoldable pub provenance_json : Provenance → Json
provenance_json p = obj (
    field "model" (str p.model) (
      field "solanaProviders" (arr (texts p.solana_providers)) (
        field "robinhoodProviders" (arr (texts p.robinhood_providers)) (
          field "sourceEvidenceAgreement" (bool p.source_evidence_agreement) (
            field "destinationEvidenceAgreement" (bool p.destination_evidence_agreement) (
              field "layerZeroApiCorroborated" (bool p.layer_zero_api_corroborated) (
                field "layerZeroApiDisagreements" (arr (texts p.layer_zero_api_disagreements))
                  end)))))))

unfoldable pub summary_json : Summary → Json
summary_json s = obj (
    field "resultCount" (num s.result_count) (
      field "unresolvedPacketCount" (num s.unresolved_packet_count) (
        field "solanaToRobinhoodRaw" (str s.solana_to_robinhood_raw)
          (field "robinhoodToSolanaRaw" (str s.robinhood_to_solana_raw) end))))

unfoldable pub unsigned_json : Unsigned → Json
unsigned_json u = obj (
    field "schemaVersion" (num u.schema_version) (
      field "inventoryId" (str u.inventory_id) (
        field "scanner" (scanner_json u.scanner) (
          field "generatedAt" (str u.generated_at) (
            field "identities" (identities_json u.identities) (
              field "ranges" (ranges_json u.ranges) (
                field "provenance" (provenance_json u.provenance) (
                  field "messages" (arr (messages_json u.messages))
                    (field "summary" (summary_json u.summary) end)))))))))

-- `canonicalJson(messages)`
unfoldable pub canonical_messages : List Message → String
canonical_messages ms = canonical_json (arr (messages_json ms))

-- The text by which messages are ordered.
unfoldable pub order_key : Message → String
order_key m = concat m.direction (
    concat ":" (
      concat (pad_start 24 m.source_height) (
        concat ":" (
          concat m.source_transaction
            (concat ":" (concat (show_number m.source_event_index) (concat ":" m.guid)))))))

module _ (x : External) where
  abbrev pub message_le : Message → Message → Bool
  message_le left right = x.locale_le (order_key left) (order_key right)

  unfoldable pub canonical_order : List Message → List Message
  canonical_order ms = sort message_le ms

  -- `manifestChecksum`
  unfoldable pub checksum : Unsigned → String
  checksum u =
      concat "0x"
        (x.sha256 (concat "SAN_IN_FLIGHT_MANIFEST_V2\n" (canonical_json (unsigned_json u))))
