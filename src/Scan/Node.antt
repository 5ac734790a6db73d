-- ===== src/Scan/Node.antt =====
-- What the nodes of both chains, and the LayerZero API, answer to the scanner. A request that throws
-- is `err`. The packets are as the package that decodes them gives them.
use san_layerzero_bridge.Base.{ℕ, String, Bool, Option, List, Result, Number}

-- An inner instruction, which may have been parsed by the node and then has no raw data.
pub record Instruction : Type 0 where
  pub program_id : Option ℕ
  pub data_text : Option String

-- `ParsedTransactionWithMeta`: `err != null`, and the groups of `innerInstructions`
pub record Meta : Type 0 where
  pub failed : Bool
  pub inner_instructions : Option (List (List Instruction))

pub record Transaction : Type 0 where
  pub meta : Option Meta

-- An entry of `getSignaturesForAddress`
pub record Signature : Type 0 where
  pub signature : String
  pub slot : ℕ
  pub failed : Bool

-- `PacketV1Codec`
pub record Packet : Type 0 where
  pub guid : String
  pub nonce : String
  pub src_eid : ℕ
  pub dst_eid : ℕ
  pub sender : String
  pub receiver : String
  pub sender_address : String
  pub receiver_address : String
  pub message : String

-- The calls of `Connection`, in which a block is its hash, and `extractSentPacketEventByTxHash`
pub record SolanaNode : Type 0 where
  pub finalized_slot : Result Number
  pub first_available_block : Result ℕ
  pub block_hash : ℕ → Result (Option String)
  pub genesis_hash : Result String
  pub signatures : Option String → Result (List Signature)
  pub transaction : String → Result (Option Transaction)
  pub packets : Transaction → Result (Option (List Packet))

-- What `parseLog` makes of a log of the OFT; `none` where it throws.
pub data OftEvent : Type 0 where
  sent : (guid : String) (dst_eid : ℕ) (amount_received : ℕ) → OftEvent
  received : (guid : String) (src_eid : ℕ) (to_address : String) (amount_received : ℕ) → OftEvent

pub record Log : Type 0 where
  pub block_number : ℕ
  pub block_hash : String
  pub transaction_hash : String
  pub log_index : ℕ
  pub event : Option OftEvent

-- A log of a receipt: its address, and the packet where it parses as `PacketSent`
pub record ReceiptLog : Type 0 where
  pub address : String
  pub packet : Option Packet

pub record Receipt : Type 0 where
  pub status : Option ℕ
  pub logs : List ReceiptLog

-- `eth_getBlockByNumber` of the finalized block; a field may be missing or empty.
pub record FinalizedBlock : Type 0 where
  pub number : Option String
  pub hash : Option String

-- The calls of `JsonRpcProvider`, in which a block is its hash
pub record RobinhoodNode : Type 0 where
  pub chain_id : Result ℕ
  pub finalized : Result (Option FinalizedBlock)
  pub block_hash : ℕ → Result (Option String)
  pub logs : ℕ → ℕ → Result (List Log)
  pub receipt : String → Result (Option Receipt)

-- An entry of the answer of the LayerZero API
pub record ApiEntry : Type 0 where
  pub guid : Option String
  pub src_eid : Option ℕ
  pub dst_eid : Option ℕ
  pub status_name : Option String

-- `response.ok`, and the entries of its body
pub record ApiResponse : Type 0 where
  pub is_ok : Bool
  pub entries : Option (List ApiEntry)
