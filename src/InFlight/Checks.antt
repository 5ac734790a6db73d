-- ===== src/InFlight/Checks.antt =====
-- The helpers of scripts/inFlightInventory.ts, and the checks of a manifest's header and ranges.
use san_layerzero_bridge.Base.{
  ℕ, suc, String, Bool, true, false, not, ◌&&◌, ◌||◌, Option, none, some, List, [], ◌∷◌, pos, leb,
  ltb, ◌==◌, ◌!=◌, nat_Eq, string_Eq, length, list_eq, includes, is_int, Result, ok, err, Check,
  throw_if, ◌>>=◌, ◌>>◌, if◌then◌else◌,
}
use san_layerzero_bridge.Base.Text.{
  concat, is_digits, parse_digits, is_hash32, is_git_commit, is_timestamp, is_blank, to_lower,
  has_0x, leq_text,
}
use san_layerzero_bridge.Base.Sort.{sort}
use san_layerzero_bridge.Config.{
  solana_mainnet_genesis_hash, solana_eid, robinhood_eid, robinhood_chain_id,
}
use san_layerzero_bridge.InFlight.Data.{Manifest, SolanaRange, RobinhoodRange, Provenance, Ranges}

abbrev pub scanner_name : String
scanner_name = "scanProductionInFlight"

abbrev pub scanner_version : String
scanner_version = "1.0.0"

abbrev pub bridge_code_audit_target : String
bridge_code_audit_target = "d28762288bb5180ff292f57eef7132191f2037ec"

-- The source compares the JSON of the two sorted arrays, which is the same for the same texts only.
unfoldable pub exact_keys : List String → List String → String → Check
exact_keys keys expected label =
    throw_if (not (list_eq (sort leq_text keys) (sort leq_text expected)))
      (concat label " has missing or unknown fields")

-- A value that is no text is `none`.
unfoldable pub unsigned_integer : Option String → String → Bool → Result ℕ
unsigned_integer none label positive = err (concat label " must be an unsigned integer string")
unsigned_integer (some value) label positive = do
  throw_if (not (is_digits value)) (concat label " must be an unsigned integer string")
  throw_if (positive && leb (parse_digits value) 0) (concat label " must be positive")
  ok (parse_digits value)

unfoldable pub hash32 : Option String → String → Result String
hash32 none label = err (concat label " must be a 32-byte hex hash")
hash32 (some value) label = do
  throw_if (not (is_hash32 value)) (concat label " must be a 32-byte hex hash")
  ok (to_lower value)

unfoldable pub nonempty : Option String → String → Result String
nonempty none label = err (concat label " is required")
nonempty (some value) label = do throw_if (is_blank value) (concat label " is required"); ok value

unfoldable pub equal_identity : String → String → Bool
equal_identity actual expected =
    if has_0x actual || has_0x expected
    then to_lower actual == to_lower expected
    else actual == expected

-- A check whose result is not used.
unfoldable pub done {ℓ} : {A : Type ℓ} → Result A → Check
done (ok _) = ok tt
done (err message) = err message

unfoldable pub validate_solana_range : SolanaRange → Check
validate_solana_range solana = do
  from ← unsigned_integer (some solana.from_slot) "Solana fromSlot" false
  to ← unsigned_integer (some solana.to_slot) "Solana toSlot" true
  finalized ← unsigned_integer (some solana.finalized_slot) "Solana finalizedSlot" true
  throw_if (ltb to from || to != finalized)
      "Solana scan range is incomplete or not finalized through its end"

unfoldable pub validate_robinhood_range : RobinhoodRange → Check
validate_robinhood_range robinhood = do
  from ← unsigned_integer (some robinhood.from_block) "Robinhood fromBlock" false
  to ← unsigned_integer (some robinhood.to_block) "Robinhood toBlock" true
  finalized ← unsigned_integer (some robinhood.finalized_block) "Robinhood finalizedBlock" true
  throw_if (ltb to from || to != finalized)
      "Robinhood scan range is incomplete or not finalized through its end"

-- `validateRange`
unfoldable pub validate_range : Ranges → Check
validate_range ranges = do
  let solana = ranges.solana
  let robinhood = ranges.robinhood
  exact_keys solana.keys
      ("fromSlot" ∷ "toSlot" ∷ "finalizedSlot" ∷ "genesisHash" ∷ "startBlockhash" ∷ "endBlockhash"
        ∷ "complete" ∷ "paginationComplete" ∷ [])
      "Solana scan range"
  exact_keys robinhood.keys
      ("fromBlock" ∷ "toBlock" ∷ "finalizedBlock" ∷ "startBlockHash" ∷ "endBlockHash" ∷ "complete"
        ∷ "paginationComplete" ∷ [])
      "Robinhood scan range"
  validate_solana_range solana
  validate_robinhood_range robinhood
  throw_if
      (not solana.complete
        || not solana.pagination_complete
        || not robinhood.complete
        || not robinhood.pagination_complete)
      "In-flight scanner range or pagination is incomplete"
  genesis ← nonempty (some solana.genesis_hash) "Solana genesis hash"
  throw_if (genesis != solana_mainnet_genesis_hash)
      "In-flight manifest is not bound to the Solana mainnet genesis hash"
  done (nonempty (some solana.start_blockhash) "Solana start blockhash")
  done (nonempty (some solana.end_blockhash) "Solana end blockhash")
  done (hash32 (some robinhood.start_block_hash) "Robinhood start block hash")
  done (hash32 (some robinhood.end_block_hash) "Robinhood end block hash")

-- The number of different texts: `new Set(texts).size`.
unfoldable pub distinct_count : List String → ℕ
distinct_count [] = 0
distinct_count (s ∷ ss) = if includes ss s then distinct_count ss else suc (distinct_count ss)

-- The manifest from its keys to its chain identities.
unfoldable pub validate_header : Manifest → Check
validate_header value = do
  exact_keys value.keys
      ("schemaVersion" ∷ "inventoryId" ∷ "scanner" ∷ "generatedAt" ∷ "identities" ∷ "ranges"
        ∷ "provenance" ∷ "messages" ∷ "summary" ∷ "manifestChecksum" ∷ [])
      "In-flight manifest"
  throw_if (not (is_int value.schema_version (pos 2))) "In-flight manifest schema version must be 2"
  done (nonempty (some value.inventory_id) "In-flight inventory ID")
  throw_if (not (is_timestamp value.generated_at))
      "In-flight manifest timestamp must be UTC ISO-8601"
  exact_keys value.scanner.keys
      ("name" ∷ "version" ∷ "bridgeCodeAuditTarget" ∷ "scannerSourceCommit" ∷ []) "Scanner identity"
  throw_if
      (value.scanner.name != scanner_name
        || value.scanner.version != scanner_version
        || value.scanner.bridge_code_audit_target != bridge_code_audit_target
        || not (is_git_commit value.scanner.scanner_source_commit))
      "In-flight scanner identity/version/audit target is not approved"
  exact_keys value.identities.keys ("solana" ∷ "robinhood" ∷ []) "Manifest identities"
  exact_keys value.identities.solana.keys
      ("chain" ∷ "eid" ∷ "endpoint" ∷ "oftProgram" ∷ "oftStore" ∷ []) "Solana manifest identity"
  exact_keys value.identities.robinhood.keys ("chainId" ∷ "eid" ∷ "endpoint" ∷ "oft" ∷ [])
      "Robinhood manifest identity"
  throw_if
      (value.identities.solana.chain != "solana-mainnet"
        || not (is_int value.identities.solana.eid solana_eid)
        || not (is_int value.identities.robinhood.chain_id robinhood_chain_id)
        || not (is_int value.identities.robinhood.eid robinhood_eid))
      "In-flight manifest has the wrong production chain identity"

unfoldable pub validate_provenance : Provenance → Check
validate_provenance p = do
  exact_keys p.keys
      ("model" ∷ "solanaProviders" ∷ "robinhoodProviders" ∷ "sourceEvidenceAgreement"
        ∷ "destinationEvidenceAgreement" ∷ "layerZeroApiCorroborated" ∷ "layerZeroApiDisagreements"
        ∷ [])
      "Manifest provenance"
  throw_if
      (p.model != "DUAL_RPC_RECONCILED"
        || ltb (length p.solana_providers) 2
        || ltb (distinct_count p.solana_providers) 2
        || ltb (length p.robinhood_providers) 2
        || ltb (distinct_count p.robinhood_providers) 2
        || not p.source_evidence_agreement
        || not p.destination_evidence_agreement
        || not p.layer_zero_api_corroborated)
      "In-flight manifest provenance is missing or unreconciled"
  throw_if (length p.layer_zero_api_disagreements != 0)
      "LayerZero API corroboration disagrees with source-chain evidence"
