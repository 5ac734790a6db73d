-- ===== src/InFlight/Data.antt =====
-- The manifest as it is parsed from its file. An object carries the list of its own keys, which is
-- all that `exactKeys` looks at; its fields have the types that the interface declares.
use san_layerzero_bridge.Base.{ℕ, String, Bool, List, Option, Number}
use san_layerzero_bridge.InFlight.Json.{Fields}

pub record Message : Type 0 where
  pub keys : List String
  pub guid : String
  pub direction : String
  pub source_nonce : String
  pub source_transaction : String
  pub source_height : String
  pub source_block_hash : String
  pub source_event_index : Number
  pub source_oft : String
  pub destination_oft : String
  pub amount_raw : String
  pub receiver : String
  pub status : String
  pub destination_transaction : Option String
  pub destination_height : Option String
  pub destination_block_hash : Option String
  pub layer_zero_api_status : Option String

pub record Scanner : Type 0 where
  pub keys : List String
  pub name : String
  pub version : String
  pub bridge_code_audit_target : String
  pub scanner_source_commit : String

pub record SolanaIdentity : Type 0 where
  pub keys : List String
  pub chain : String
  pub eid : Number
  pub endpoint : String
  pub oft_program : String
  pub oft_store : String

pub record RobinhoodIdentity : Type 0 where
  pub keys : List String
  pub chain_id : Number
  pub eid : Number
  pub endpoint : String
  pub oft : String

pub record Identities : Type 0 where
  pub keys : List String
  pub solana : SolanaIdentity
  pub robinhood : RobinhoodIdentity

pub record SolanaRange : Type 0 where
  pub keys : List String
  pub from_slot : String
  pub to_slot : String
  pub finalized_slot : String
  pub genesis_hash : String
  pub start_blockhash : String
  pub end_blockhash : String
  pub complete : Bool
  pub pagination_complete : Bool

pub record RobinhoodRange : Type 0 where
  pub keys : List String
  pub from_block : String
  pub to_block : String
  pub finalized_block : String
  pub start_block_hash : String
  pub end_block_hash : String
  pub complete : Bool
  pub pagination_complete : Bool

-- The keys of this object are not checked: it may have further fields.
pub record Ranges : Type 0 where
  pub solana : SolanaRange
  pub robinhood : RobinhoodRange
  pub further : Fields

pub record Provenance : Type 0 where
  pub keys : List String
  pub model : String
  pub solana_providers : List String
  pub robinhood_providers : List String
  pub source_evidence_agreement : Bool
  pub destination_evidence_agreement : Bool
  pub layer_zero_api_corroborated : Bool
  pub layer_zero_api_disagreements : List String

pub record Summary : Type 0 where
  pub keys : List String
  pub result_count : Number
  pub unresolved_packet_count : Number
  pub solana_to_robinhood_raw : String
  pub robinhood_to_solana_raw : String

-- The manifest without its checksum, and with it.
pub record Unsigned : Type 0 where
  pub schema_version : Number
  pub inventory_id : String
  pub scanner : Scanner
  pub generated_at : String
  pub identities : Identities
  pub ranges : Ranges
  pub provenance : Provenance
  pub messages : List Message
  pub summary : Summary

pub record Manifest : Type 0 where
  pub keys : List String
  pub unsigned : Unsigned
  pub open unsigned use *
  pub manifest_checksum : String

pub record Inventory : Type 0 where
  pub manifest : Manifest
  pub inventory_id : String
  pub inventory_sha256 : String
  pub message_count : ℕ
  pub unresolved_packet_count : ℕ
  pub solana_to_robinhood_raw : ℕ
  pub robinhood_to_solana_raw : ℕ
