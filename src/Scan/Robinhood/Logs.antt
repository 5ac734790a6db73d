-- ===== src/Scan/Robinhood/Logs.antt =====
-- scanRobinhood of scripts/scanProductionInFlight.ts: what a node of Robinhood shows of both
-- directions. The page size is the parameter `pageSize`.
use san_layerzero_bridge.Base.{
  ℕ, zero, suc, ◌+◌, ◌-◌, String, true, ◌&&◌, ◌||◌, Option, none, some, List, [], ◌∷◌, ltb, leb,
  ◌==◌, ◌!=◌, if◌then◌else◌, Result, ok, err, throw_if, or_throw, ◌>>=◌, ◌>>◌, pos, int, string_Eq,
  nat_Eq, option_Eq, int_Eq,
}
use san_layerzero_bridge.Base.Text.{concat, to_lower, show_nat}
use san_layerzero_bridge.Base.BigInt.{big_int}
use san_layerzero_bridge.Config.{production_robinhood_endpoint}
use san_layerzero_bridge.External.{External}
use san_layerzero_bridge.InFlight.Data.{Message, RobinhoodRange}
use san_layerzero_bridge.InFlight.Message.{message_keys, solana_to_robinhood, robinhood_to_solana}
use san_layerzero_bridge.InFlight.Encode.{canonical_order}
use san_layerzero_bridge.Scan.Range.{require_finalized_range_end}
use san_layerzero_bridge.Scan.Node.{
  Packet, RobinhoodNode, Log, ReceiptLog, Receipt, sent, received, OftEvent,
}
use san_layerzero_bridge.Scan.Solana.Messages.{
  solana_number, robinhood_number, find_packet, read_oft_receiver, Seen, nothing, join,
}

-- The heights of one page: `start`, and `Math.min(start + pageSize - 1, toBlock)`.
abbrev pub page_end : ℕ → ℕ → ℕ → ℕ
page_end size to start = let last = start + size - 1 in if ltb last to then last else to

-- The packets of the logs that the endpoint wrote.
unfoldable pub packet_logs : List ReceiptLog → List Packet
packet_logs [] = []
packet_logs (log ∷ logs) =
    let rest = packet_logs logs in
    if to_lower log.address == to_lower production_robinhood_endpoint
    then elim log.packet [ none ↦ rest | some packet ↦ packet ∷ rest ]
    else rest

-- `!receipt || receipt.status !== 1`
unfoldable pub successful : Option Receipt → Option Receipt
successful none = none
successful (some receipt) = if receipt.status == some 1 then some receipt else none

-- A text that is there and not empty
unfoldable pub present : Option String → Option String
present none = none
present (some text) = if text == "" then none else some text

pub record RobinhoodResult : Type 0 where
  pub range : RobinhoodRange
  pub sent : List Message
  pub received : List Message

module _ (x : External) (solana_store robinhood_oft : String) where
  open x use {public_key, get_address, hexlify, hex_zero_pad}

  -- The packet of a sent event, which must be of this pathway.
  unfoldable pub require_return_packet : String → List Packet → Result Packet
  require_return_packet guid packets = do
    packet ←
        or_throw (find_packet guid packets)
          (concat "Robinhood OFTSent lacks matching Endpoint packet evidence: " guid)
    throw_if
        (packet.src_eid != robinhood_number
          || packet.dst_eid != solana_number
          || to_lower packet.sender_address != to_lower robinhood_oft)
        (concat "Robinhood OFTSent lacks matching Endpoint packet evidence: " guid)
    store ← or_throw (public_key solana_store) "Invalid public key input"
    throw_if (to_lower packet.receiver != to_lower (hexlify store))
        (concat "Robinhood OFTSent lacks matching Endpoint packet evidence: " guid)
    ok packet

  unfoldable pub sent_log_message : Log → String → ℕ → Packet → Result Message
  sent_log_message log guid amount packet = do
    source_oft ← or_throw (get_address robinhood_oft) "invalid address"
    receiver ← read_oft_receiver packet.message
    ok (record {
      keys = message_keys;
      guid = to_lower guid;
      direction = robinhood_to_solana;
      source_nonce = packet.nonce;
      source_transaction = to_lower log.transaction_hash;
      source_height = show_nat log.block_number;
      source_block_hash = to_lower log.block_hash;
      source_event_index = int (pos log.log_index);
      source_oft = source_oft;
      destination_oft = solana_store;
      amount_raw = show_nat amount;
      receiver = receiver;
      status = "unresolved";
      destination_transaction = none;
      destination_height = none;
      destination_block_hash = none;
      layer_zero_api_status = none;
    })

  unfoldable pub received_log_message : Log → String → String → ℕ → Result Message
  received_log_message log guid to_address amount = do
    destination_oft ← or_throw (get_address robinhood_oft) "invalid address"
    receiver ← or_throw (hex_zero_pad to_address) "value out of range"
    ok (record {
      keys = message_keys;
      guid = to_lower guid;
      direction = solana_to_robinhood;
      source_nonce = "0";
      source_transaction = "";
      source_height = "0";
      source_block_hash = "";
      source_event_index = int (pos log.log_index);
      source_oft = solana_store;
      destination_oft = destination_oft;
      amount_raw = show_nat amount;
      receiver = to_lower receiver;
      status = "delivered";
      destination_transaction = some (to_lower log.transaction_hash);
      destination_height = some (show_nat log.block_number);
      destination_block_hash = some (to_lower log.block_hash);
      layer_zero_api_status = none;
    })

  -- What a parsed log adds; `none` is a log that does not parse.
  unfoldable pub scan_parsed : RobinhoodNode → Log → Option OftEvent → Result Seen
  scan_parsed node log none = ok nothing
  scan_parsed node log (some (sent guid dst_eid amount)) =
      if dst_eid != solana_number then ok nothing else do
        answer ← node.receipt log.transaction_hash
        receipt ←
            or_throw (successful answer)
              (concat "Robinhood source receipt is unavailable: " log.transaction_hash)
        packet ← require_return_packet guid (packet_logs receipt.logs)
        message ← sent_log_message log guid amount packet
        ok (record { sent = message ∷ []; received = [] })
  scan_parsed node log (some (received guid src_eid to_address amount)) =
      if src_eid != solana_number then ok nothing else do
        message ← received_log_message log guid to_address amount
        ok (record { sent = []; received = message ∷ [] })

  -- One round of the loop over the logs.
  unfoldable pub scan_log : RobinhoodNode → Log → Result Seen
  scan_log node log = scan_parsed node log log.event

  unfoldable pub scan_logs : RobinhoodNode → List Log → Result Seen
  scan_logs node [] = ok nothing
  scan_logs node (log ∷ logs) = do
    seen ← scan_log node log
    later ← scan_logs node logs
    ok (join seen later)

  -- The body of the loop over the pages, before the rounds that follow.
  unfoldable pub scan_page : RobinhoodNode → ℕ → ℕ → ℕ → Result Seen → Result Seen
  scan_page node size to start rest = do
    logs ← node.logs start (page_end size to start)
    seen ← scan_logs node logs
    later ← rest
    ok (join seen later)

  -- The loop, one page to a unit of fuel.
  unfoldable pub scan_pages : RobinhoodNode → ℕ → ℕ → ℕ → ℕ → Result Seen
  scan_pages node size to zero start = err "the scan of Robinhood does not end"
  scan_pages node size to (suc fuel) start =
      let page = scan_page node size to start (scan_pages node size to fuel (start + size)) in
      if leb start to then page else ok nothing

  -- `!finalized?.number || !finalized.hash`
  unfoldable pub finalized_block : RobinhoodNode → Result (String × String)
  finalized_block node = do
    finalized ← node.finalized
    block ← or_throw finalized "Robinhood RPC does not expose a finalized block"
    number ← or_throw (present block.number) "Robinhood RPC does not expose a finalized block"
    hash ← or_throw (present block.hash) "Robinhood RPC does not expose a finalized block"
    ok (number, hash)

  unfoldable pub robinhood_range : ℕ → ℕ → String → String → RobinhoodRange
  robinhood_range from_block to_block start_hash end_hash = record {
    keys =
        "fromBlock" ∷ "toBlock" ∷ "finalizedBlock" ∷ "startBlockHash" ∷ "endBlockHash" ∷ "complete"
        ∷ "paginationComplete" ∷ [];
    from_block = show_nat from_block;
    to_block = show_nat to_block;
    finalized_block = show_nat to_block;
    start_block_hash = to_lower start_hash;
    end_block_hash = to_lower end_hash;
    complete = true;
    pagination_complete = true;
  }

  -- `scanRobinhood`, with fuel for the pages.
  unfoldable pub scan_robinhood : ℕ → RobinhoodNode → ℕ → ℕ → ℕ → Result RobinhoodResult
  scan_robinhood fuel node from_block to_block page_size = do
    chain_id ← node.chain_id
    throw_if (chain_id != 4663) "Robinhood scanner RPC chainId is not 4663"
    (number, hash) ← finalized_block node
    head ← or_throw (big_int number) "Cannot convert to a BigInt"
    require_finalized_range_end (int (pos to_block)) (int head) "Robinhood"
    first ← node.block_hash from_block
    last ← node.block_hash to_block
    start_hash ←
        or_throw (present first)
          "Robinhood finalized range block hashes are unavailable or inconsistent"
    end_hash ←
        or_throw (present last)
          "Robinhood finalized range block hashes are unavailable or inconsistent"
    throw_if (pos to_block == head && to_lower end_hash != to_lower hash)
        "Robinhood finalized range block hashes are unavailable or inconsistent"
    seen ← scan_pages node page_size to_block fuel from_block
    ok (record {
      range = robinhood_range from_block to_block start_hash end_hash;
      sent = canonical_order x seen.sent;
      received = canonical_order x seen.received;
    })
