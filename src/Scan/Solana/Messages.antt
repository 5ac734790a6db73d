-- ===== src/Scan/Solana/Messages.antt =====
-- `scanSolana`: the messages that the transactions of a range sent and received.
use san_layerzero_bridge.Base.{
  ℕ, String, true, ◌||◌, Option, none, some, List, [], ◌∷◌, ◌++◌, ltb, ◌==◌, ◌!=◌, if◌then◌else◌,
  Result, ok, throw_if, or_throw, ◌>>=◌, ◌>>◌, pos, int, length, string_Eq, nat_Eq,
}
use san_layerzero_bridge.Base.Text.{concat, to_lower, show_nat, has_0x}
use san_layerzero_bridge.Base.Bytes.{prefix, to_hex, from_hex}
use san_layerzero_bridge.Base.BigInt.{drop_text}
use san_layerzero_bridge.External.{External}
use san_layerzero_bridge.InFlight.Data.{Message, SolanaRange}
use san_layerzero_bridge.InFlight.Message.{message_keys, solana_to_robinhood, robinhood_to_solana}
use san_layerzero_bridge.InFlight.Encode.{canonical_order}
use san_layerzero_bridge.SanMint.{require_solana_mainnet}
use san_layerzero_bridge.Scan.Range.{require_finalized_range_end}
use san_layerzero_bridge.Scan.Node.{Signature, Packet, SolanaNode, Transaction}
use san_layerzero_bridge.Scan.Solana.Events.{
  Event, oft_sent, oft_received, extract_solana_oft_events, EventName,
}
use san_layerzero_bridge.Scan.Solana.Pages.{collect_signatures}

-- `SOLANA_EID` and `ROBINHOOD_EID`
abbrev pub solana_number : ℕ
solana_number = 30168

abbrev pub robinhood_number : ℕ
robinhood_number = 30416

-- `messageHex.replace(/^0x/, '')`
unfoldable pub strip_0x : String → String
strip_0x text = if has_0x text then drop_text 2 text else text

-- `readOftReceiver`
unfoldable pub read_oft_receiver : String → Result String
read_oft_receiver message_hex = do
  let bytes = from_hex (strip_0x message_hex)
  throw_if (ltb (length bytes) 40) "LayerZero OFT packet message is shorter than 40 bytes"
  ok (concat "0x" (to_hex (prefix 32 bytes)))

-- `packets.find((value) => value.guid().toLowerCase() === guid.toLowerCase())`
unfoldable pub find_packet : String → List Packet → Option Packet
find_packet guid [] = none
find_packet guid (packet ∷ packets) =
    let rest = find_packet guid packets in
    if to_lower packet.guid == to_lower guid then some packet else rest

-- What one transaction, or several, sent and received.
pub record Seen : Type 0 where
  pub sent : List Message
  pub received : List Message

abbrev pub nothing : Seen
nothing = record { sent = []; received = [] }

abbrev pub join : Seen → Seen → Seen
join a b = record { sent = a.sent ++ b.sent; received = a.received ++ b.received }

-- `blockAt`
unfoldable pub block_at : SolanaNode → ℕ → Result String
block_at node slot = do
  block ← node.block_hash slot
  or_throw block (concat "Solana finalized block " (concat (show_nat slot) " is unavailable"))

pub record SolanaResult : Type 0 where
  pub range : SolanaRange
  pub sent : List Message
  pub received : List Message

module _ (x : External) (solana_store robinhood_oft : String) where
  open x use {public_key, get_address, hexlify}

  -- The packet of a sent event, which must be of this pathway.
  unfoldable pub require_packet : String → List Packet → Result Packet
  require_packet guid packets = do
    packet ←
        or_throw (find_packet guid packets)
          (concat "Solana OFTSent lacks matching Endpoint packet evidence: " guid)
    throw_if (packet.src_eid != solana_number || packet.dst_eid != robinhood_number)
        (concat "Solana OFTSent lacks matching Endpoint packet evidence: " guid)
    store ← or_throw (public_key solana_store) "Invalid public key input"
    throw_if
        (to_lower packet.sender != to_lower (hexlify store)
          || to_lower packet.receiver_address != to_lower robinhood_oft)
        (concat "Solana OFTSent lacks matching Endpoint packet evidence: " guid)
    ok packet

  unfoldable pub sent_message : Signature → String → Event → Packet → Result Message
  sent_message item block event packet = do
    destination_oft ← or_throw (get_address robinhood_oft) "invalid address"
    receiver ← read_oft_receiver packet.message
    ok (record {
      keys = message_keys;
      guid = to_lower event.guid;
      direction = solana_to_robinhood;
      source_nonce = packet.nonce;
      source_transaction = item.signature;
      source_height = show_nat item.slot;
      source_block_hash = block;
      source_event_index = int (pos event.index);
      source_oft = solana_store;
      destination_oft = destination_oft;
      amount_raw = event.amount_raw;
      receiver = receiver;
      status = "unresolved";
      destination_transaction = none;
      destination_height = none;
      destination_block_hash = none;
      layer_zero_api_status = none;
    })

  unfoldable pub received_message : Signature → String → Event → Result Message
  received_message item block event = do
    source_oft ← or_throw (get_address robinhood_oft) "invalid address"
    address ← or_throw (public_key event.address) "Invalid public key input"
    ok (record {
      keys = message_keys;
      guid = to_lower event.guid;
      direction = robinhood_to_solana;
      source_nonce = "0";
      source_transaction = "";
      source_height = "0";
      source_block_hash = "";
      source_event_index = int (pos event.index);
      source_oft = source_oft;
      destination_oft = solana_store;
      amount_raw = event.amount_raw;
      receiver = hexlify address;
      status = "delivered";
      destination_transaction = some item.signature;
      destination_height = some (show_nat item.slot);
      destination_block_hash = some block;
      layer_zero_api_status = none;
    })

  -- What an event between the two chains adds.
  unfoldable pub scan_named_event :
      EventName → Signature → String → List Packet → Event → Result Seen
  scan_named_event oft_sent item block packets event = do
    packet ← require_packet event.guid packets
    message ← sent_message item block event packet
    ok (record { sent = message ∷ []; received = [] })
  scan_named_event oft_received item block packets event = do
    message ← received_message item block event
    ok (record { sent = []; received = message ∷ [] })

  -- One round of the loop over the events of a transaction.
  unfoldable pub scan_event : Signature → String → List Packet → Event → Result Seen
  scan_event item block packets event =
      if event.eid != robinhood_number
      then ok nothing
      else scan_named_event event.name item block packets event

  unfoldable pub scan_events : Signature → String → List Packet → List Event → Result Seen
  scan_events item block packets [] = ok nothing
  scan_events item block packets (event ∷ events) = do
    seen ← scan_event item block packets event
    later ← scan_events item block packets events
    ok (join seen later)

  -- `extractSentPacketEventByTxHash(…) ?? []`
  unfoldable pub sent_packets : SolanaNode → Transaction → Result (List Packet)
  sent_packets node tx = node.packets tx >>= λ packets. ok (elim packets [ none ↦ [] | some l ↦ l ])

  unfoldable pub scan_signature : SolanaNode → Signature → Result Seen
  scan_signature node item = do
    answer ← node.transaction item.signature
    tx ← or_throw answer (concat "Solana transaction evidence is unavailable: " item.signature)
    block ← block_at node item.slot
    events ← extract_solana_oft_events x tx
    packets ← sent_packets node tx
    scan_events item block packets events

  unfoldable pub scan_signatures : SolanaNode → List Signature → Result Seen
  scan_signatures node [] = ok nothing
  scan_signatures node (item ∷ items) = do
    seen ← scan_signature node item
    later ← scan_signatures node items
    ok (join seen later)

  unfoldable pub solana_range : ℕ → ℕ → String → String → String → SolanaRange
  solana_range from_slot to_slot genesis start_block end_block = record {
    keys =
        "fromSlot" ∷ "toSlot" ∷ "finalizedSlot" ∷ "genesisHash" ∷ "startBlockhash" ∷ "endBlockhash"
        ∷ "complete" ∷ "paginationComplete" ∷ [];
    from_slot = show_nat from_slot;
    to_slot = show_nat to_slot;
    finalized_slot = show_nat to_slot;
    genesis_hash = genesis;
    start_blockhash = start_block;
    end_blockhash = end_block;
    complete = true;
    pagination_complete = true;
  }

  -- `scanSolana`, with fuel for the pages.
  unfoldable pub scan_solana : ℕ → SolanaNode → ℕ → ℕ → Result SolanaResult
  scan_solana fuel node from_slot to_slot = do
    finalized_slot ← node.finalized_slot
    require_finalized_range_end (int (pos to_slot)) finalized_slot "Solana"
    first ← node.first_available_block
    throw_if (ltb from_slot first) "Solana RPC history is pruned before the approved scan start"
    start_block ← block_at node from_slot
    end_block ← block_at node to_slot
    genesis_hash ← node.genesis_hash
    require_solana_mainnet genesis_hash
    signatures ← collect_signatures node from_slot to_slot fuel none
    seen ← scan_signatures node signatures
    ok (record {
      range = solana_range from_slot to_slot genesis_hash start_block end_block;
      sent = canonical_order x seen.sent;
      received = canonical_order x seen.received;
    })
