-- ===== src/Example.antt =====
-- A small bridge for the tests: stand-ins for the packages, and a snapshot with one delivered message
-- and one message in flight in each direction.
use Prim.Native.Char.{code}
use Prim.Native.String as Str
use san_layerzero_bridge.Base.{
  ℕ, ◌+◌, ◌*◌, String, true, Option, none, some, List, [], ◌∷◌, int, pos, ◌==◌, string_Eq,
  if◌then◌else◌, ℤ,
}
use san_layerzero_bridge.Base.Text.{concat, to_lower, show_nat, has_0x, leq_text}
use san_layerzero_bridge.Config.{
  production_solana_oft_program, production_solana_endpoint, production_robinhood_endpoint,
  solana_mainnet_genesis_hash, solana_eid, robinhood_eid, robinhood_chain_id,
}
use san_layerzero_bridge.External.{External}
use san_layerzero_bridge.RateLimit.{Profile, Limit, Plan}
use san_layerzero_bridge.LayerZero.{
  UlnObservation, ChainObservation, BridgeObservation, ChainPolicy, san_layerzero_policy,
}
use san_layerzero_bridge.InFlight.Json.{end}
use san_layerzero_bridge.InFlight.Data.{Message, Identities, Ranges, Manifest, Inventory}
use san_layerzero_bridge.InFlight.Message.{message_keys, solana_to_robinhood, robinhood_to_solana}
use san_layerzero_bridge.InFlight.Checks.{scanner_name, scanner_version, bridge_code_audit_target}
use san_layerzero_bridge.Scan.Build.{ProviderResult, BuildInput}
use san_layerzero_bridge.Scan.Manifest.{manifest_keys}

abbrev pub number_of : ℕ → String → ℕ
number_of acc Str.[] = acc
number_of acc (Str.◌∷◌ c s) = number_of (acc * 256 + code c) s

abbrev pub zeros : List ℕ
zeros =
    0 ∷ 0 ∷ 0 ∷ 0 ∷ 0 ∷ 0 ∷ 0 ∷ 0 ∷ 0 ∷ 0 ∷ 0 ∷ 0 ∷ 0 ∷ 0 ∷ 0 ∷ 0 ∷ 0 ∷ 0 ∷ 0 ∷ 0 ∷ 0 ∷ 0 ∷ 0 ∷ 0
    ∷ 0 ∷ 0 ∷ 0 ∷ 0 ∷ 0 ∷ 0 ∷ 0 ∷ 0 ∷ []

abbrev digest : String
digest = "aaaaaaaaaaaaaaaaaaaaaaaaaaaaaaaaaaaaaaaaaaaaaaaaaaaaaaaaaaaaaaaa"

-- A key is the number that its text spells, an address its text in lower case.
abbrev pub packages : External
packages = record {
  public_key = λ s. if s == "" then none else some (number_of 0 s);
  to_base58 = show_nat;
  bs58_decode = λ s. some zeros;
  is_address = has_0x;
  get_address = λ s. some (to_lower s);
  hex_zero_pad = λ s. some s;
  hexlify = show_nat;
  sha256 = λ s. digest;
  locale_le = leq_text;
  sha256_with = λ s bytes. digest;
  find_program_address = λ seeds program. some (number_of 0 "store");
}

abbrev pub hash : String
hash = "0xbbbbbbbbbbbbbbbbbbbbbbbbbbbbbbbbbbbbbbbbbbbbbbbbbbbbbbbbbbbbbbbb"

abbrev pub oft : String
oft = "0x00000000000000000000000000000000000000aa"

abbrev pub store : String
store = "store"

-- Sent from Solana and received on Robinhood.
abbrev pub arrived : Message
arrived = record {
  keys = message_keys;
  guid = "0x1111111111111111111111111111111111111111111111111111111111111111";
  direction = solana_to_robinhood;
  source_nonce = "1";
  source_transaction = "tx1";
  source_height = "120";
  source_block_hash = "block120";
  source_event_index = int (pos 0);
  source_oft = store;
  destination_oft = oft;
  amount_raw = "500";
  receiver = "r";
  status = "delivered";
  destination_transaction = some "tx9";
  destination_height = some "20";
  destination_block_hash = some hash;
  layer_zero_api_status = some "DELIVERED";
}

abbrev pub leaving : Message
leaving = record arrived {
  guid = "0x2222222222222222222222222222222222222222222222222222222222222222";
  source_nonce = "2";
  source_height = "130";
  source_transaction = "tx2";
  amount_raw = "70";
  status = "in_flight";
  destination_transaction = none;
  destination_height = none;
  destination_block_hash = none;
  layer_zero_api_status = some "INFLIGHT";
}

abbrev pub returning : Message
returning = record leaving {
  guid = "0x3333333333333333333333333333333333333333333333333333333333333333";
  direction = robinhood_to_solana;
  source_nonce = "1";
  source_height = "30";
  source_transaction = "tx3";
  source_block_hash = hash;
  source_oft = oft;
  destination_oft = store;
  amount_raw = "30";
}

abbrev pub identities : Identities
identities = record {
  keys = "solana" ∷ "robinhood" ∷ [];
  solana = record {
    keys = "chain" ∷ "eid" ∷ "endpoint" ∷ "oftProgram" ∷ "oftStore" ∷ [];
    chain = "solana-mainnet";
    eid = int solana_eid;
    endpoint = production_solana_endpoint;
    oft_program = production_solana_oft_program;
    oft_store = store;
  };
  robinhood = record {
    keys = "chainId" ∷ "eid" ∷ "endpoint" ∷ "oft" ∷ [];
    chain_id = int robinhood_chain_id;
    eid = int robinhood_eid;
    endpoint = production_robinhood_endpoint;
    oft = oft;
  };
}

abbrev pub ranges : Ranges
ranges = record {
  solana = record {
    keys =
        "fromSlot" ∷ "toSlot" ∷ "finalizedSlot" ∷ "genesisHash" ∷ "startBlockhash" ∷ "endBlockhash"
        ∷ "complete" ∷ "paginationComplete" ∷ [];
    from_slot = "100";
    to_slot = "200";
    finalized_slot = "200";
    genesis_hash = solana_mainnet_genesis_hash;
    start_blockhash = "a";
    end_blockhash = "b";
    complete = true;
    pagination_complete = true;
  };
  robinhood = record {
    keys =
        "fromBlock" ∷ "toBlock" ∷ "finalizedBlock" ∷ "startBlockHash" ∷ "endBlockHash" ∷ "complete"
        ∷ "paginationComplete" ∷ [];
    from_block = "10";
    to_block = "50";
    finalized_block = "50";
    start_block_hash = hash;
    end_block_hash = hash;
    complete = true;
    pagination_complete = true;
  };
  further = end;
}

abbrev pub manifest : Manifest
manifest = record {
  keys = manifest_keys;
  unsigned = record {
    schema_version = int (pos 2);
    inventory_id = "inventory";
    scanner = record {
      keys = "name" ∷ "version" ∷ "bridgeCodeAuditTarget" ∷ "scannerSourceCommit" ∷ [];
      name = scanner_name;
      version = scanner_version;
      bridge_code_audit_target = bridge_code_audit_target;
      scanner_source_commit = bridge_code_audit_target;
    };
    generated_at = "2026-01-02T03:04:05Z";
    identities = identities;
    ranges = ranges;
    provenance = record {
      keys =
          "model" ∷ "solanaProviders" ∷ "robinhoodProviders" ∷ "sourceEvidenceAgreement"
          ∷ "destinationEvidenceAgreement" ∷ "layerZeroApiCorroborated"
          ∷ "layerZeroApiDisagreements" ∷ [];
      model = "DUAL_RPC_RECONCILED";
      solana_providers = "s1" ∷ "s2" ∷ [];
      robinhood_providers = "r1" ∷ "r2" ∷ [];
      source_evidence_agreement = true;
      destination_evidence_agreement = true;
      layer_zero_api_corroborated = true;
      layer_zero_api_disagreements = [];
    };
    messages = returning ∷ arrived ∷ leaving ∷ [];
    summary = record {
      keys =
          "resultCount" ∷ "unresolvedPacketCount" ∷ "solanaToRobinhoodRaw" ∷ "robinhoodToSolanaRaw"
          ∷ [];
      result_count = int (pos 3);
      unresolved_packet_count = int (pos 2);
      solana_to_robinhood_raw = "70";
      robinhood_to_solana_raw = "30";
    };
  };
  manifest_checksum = concat "0x" digest;
}

abbrev pub inventory : Inventory
inventory = record {
  manifest = manifest;
  inventory_id = "inventory";
  inventory_sha256 = concat "0x" digest;
  message_count = 3;
  unresolved_packet_count = 2;
  solana_to_robinhood_raw = 70;
  robinhood_to_solana_raw = 30;
}

-- What a provider sees of it.
abbrev pub seen : ProviderResult
seen = record {
  ranges = ranges;
  source_messages =
      record leaving { status = "unresolved"; layer_zero_api_status = none }
      ∷ record arrived {
        status = "unresolved";
        destination_transaction = none;
        destination_height = none;
        destination_block_hash = none;
        layer_zero_api_status = none;
      }
      ∷ record returning { status = "unresolved"; layer_zero_api_status = none }
      ∷ [];
  destination_messages =
      record arrived {
        source_transaction = "";
        source_height = "0";
        source_nonce = "0";
        source_block_hash = "";
        layer_zero_api_status = none;
      }
      ∷ [];
}

abbrev pub build_input : BuildInput
build_input = record {
  inventory_id = "inventory";
  scanner_source_commit = bridge_code_audit_target;
  generated_at = "2026-01-02T03:04:05Z";
  solana_provider_ids = "s1" ∷ "s2" ∷ [];
  robinhood_provider_ids = "r1" ∷ "r2" ∷ [];
  primary = seen;
  secondary = seen;
  identities = identities;
  layer_zero_statuses = some (
      ("0x1111111111111111111111111111111111111111111111111111111111111111", "DELIVERED")
      ∷ ("0x2222222222222222222222222222222222222222222222222222222222222222", "INFLIGHT")
      ∷ ("0x3333333333333333333333333333333333333333333333333333333333333333", "INFLIGHT")
      ∷ []);
}

abbrev pub profile : Profile
profile = record { capacity = pos 500_000_000_000; refill_per_second = pos 5_787_037 }

abbrev limit : ℕ → Option ℤ → Option Limit
limit refill duration = some (record {
  capacity = pos 500_000_000_000;
  available = some (pos 7);
  refill = pos refill;
  duration_seconds = duration;
})

abbrev pub plan : Plan
plan = record {
  solana = some (record { outbound = limit 5_787_037 none; inbound = limit 5_787_037 none });
  robinhood = some (record {
    outbound = limit 500_000_000_000 (some (pos 86_400));
    inbound = limit 500_000_000_000 (some (pos 86_400));
  });
}

abbrev uln : ℕ → List String → UlnObservation
uln depth dvns = record {
  confirmations = pos depth;
  required_dvns = [];
  optional_dvns = dvns;
  optional_threshold = pos 2;
  explicit_no_required = true;
  explicit_confirmations = true;
  explicit_optional_dvns = true;
}

abbrev chain : ChainPolicy → ℕ → ℕ → String → ChainObservation
chain p out in_depth peer = record {
  send_library = p.send_library;
  receive_library = p.receive_library;
  executor = p.executor;
  send_library_explicit = true;
  receive_library_explicit = true;
  executor_explicit = true;
  peer = peer;
  send = uln out p.optional_dvns;
  receive = uln in_depth p.optional_dvns;
}

abbrev pub bridge : BridgeObservation
bridge = record {
  solana = chain san_layerzero_policy.solana 32 30 oft;
  robinhood = chain san_layerzero_policy.robinhood 30 32 (show_nat (number_of 0 store));
  deprecated_dvns = [];
}
