-- ===== src/Scan/Manifest.antt =====
-- `buildInFlightManifest`: the two providers are compared, the messages matched and summed up.
use san_layerzero_bridge.Base.{
  String, Bool, none, some, List, [], ◌∷◌, pos, length, int, ◌!=◌, string_Eq, Result, ok, throw_if,
  ◌>>=◌, ◌>>◌, false, true, nat_Eq,
}
use san_layerzero_bridge.External.{External}
use san_layerzero_bridge.InFlight.Json.{canonical_json, obj, field, end, arr, show_number}
use san_layerzero_bridge.InFlight.Data.{Message, Manifest, Unsigned}
use san_layerzero_bridge.InFlight.Encode.{ranges_json, messages_json, canonical_order, checksum}
use san_layerzero_bridge.InFlight.Checks.{scanner_name, scanner_version, bridge_code_audit_target}
use san_layerzero_bridge.Scan.Build.{
  ProviderResult, BuildInput, Sums, collect_destinations, match_messages, add_messages, no_sums,
}

-- `input.layerZeroStatuses != null`
abbrev pub corroborated : BuildInput → Bool
corroborated input = elim input.layer_zero_statuses [ none ↦ false | some _ ↦ true ]

unfoldable pub unsigned_manifest : BuildInput → List Message → Sums → Unsigned
unsigned_manifest input messages sums = record {
  schema_version = int (pos 2);
  inventory_id = input.inventory_id;
  scanner = record {
    keys = "name" ∷ "version" ∷ "bridgeCodeAuditTarget" ∷ "scannerSourceCommit" ∷ [];
    name = scanner_name;
    version = scanner_version;
    bridge_code_audit_target = bridge_code_audit_target;
    scanner_source_commit = input.scanner_source_commit;
  };
  generated_at = input.generated_at;
  identities = input.identities;
  ranges = input.primary.ranges;
  provenance = record {
    keys =
        "model" ∷ "solanaProviders" ∷ "robinhoodProviders" ∷ "sourceEvidenceAgreement"
        ∷ "destinationEvidenceAgreement" ∷ "layerZeroApiCorroborated" ∷ "layerZeroApiDisagreements"
        ∷ [];
    model = "DUAL_RPC_RECONCILED";
    solana_providers = input.solana_provider_ids;
    robinhood_providers = input.robinhood_provider_ids;
    source_evidence_agreement = true;
    destination_evidence_agreement = true;
    layer_zero_api_corroborated = corroborated input;
    layer_zero_api_disagreements = [];
  };
  messages = messages;
  summary = record {
    keys =
        "resultCount" ∷ "unresolvedPacketCount" ∷ "solanaToRobinhoodRaw" ∷ "robinhoodToSolanaRaw"
        ∷ [];
    result_count = int (pos (length messages));
    unresolved_packet_count = int (pos sums.unresolved_packet_count);
    solana_to_robinhood_raw = show_number (int sums.solana_to_robinhood_raw);
    robinhood_to_solana_raw = show_number (int sums.robinhood_to_solana_raw);
  };
}

-- `{ ...unsigned, manifestChecksum }`
abbrev pub manifest_keys : List String
manifest_keys =
    "schemaVersion" ∷ "inventoryId" ∷ "scanner" ∷ "generatedAt" ∷ "identities" ∷ "ranges"
    ∷ "provenance" ∷ "messages" ∷ "summary" ∷ "manifestChecksum" ∷ []

module _ (x : External) where
  -- `providerComparable`
  unfoldable pub provider_comparable : ProviderResult → String
  provider_comparable value = canonical_json (
      obj (
        field "ranges" (ranges_json value.ranges) (
          field "sourceMessages" (arr (messages_json (canonical_order x value.source_messages))) (
            field "destinationMessages"
              (arr (messages_json (canonical_order x value.destination_messages))) end))))

  unfoldable pub build_in_flight_manifest : BuildInput → Result Manifest
  build_in_flight_manifest input = do
    throw_if (provider_comparable input.primary != provider_comparable input.secondary)
        "Independent RPC source/destination evidence disagrees"
    destinations ← collect_destinations input.primary.destination_messages []
    (matched, unused) ←
        match_messages input.layer_zero_statuses input.primary.source_messages destinations
    let messages = canonical_order x matched
    throw_if (length unused != 0)
        "Destination evidence contains a receive without source-chain evidence"
    sums ← add_messages messages no_sums
    let unsigned = unsigned_manifest input messages sums
    ok (record {
      keys = manifest_keys;
      unsigned = unsigned;
      manifest_checksum = checksum x unsigned;
    })
