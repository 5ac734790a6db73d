-- ===== src/InFlight/Message.antt =====
-- One round of the loop over the messages in `parseInFlightInventory`.
use san_layerzero_bridge.Base.{
  ℕ, ◌+◌, String, Bool, true, false, not, ◌||◌, Option, none, some, List, [], ◌∷◌, pos, ltb_ℤ, ltb,
  ◌==◌, string_Eq, includes, Number, int, other, is_safe_integer, Result, ok, Check, throw_if,
  ◌>>=◌, ◌>>◌, if◌then◌else◌,
}
use san_layerzero_bridge.Base.Text.{concat, to_upper}
use san_layerzero_bridge.InFlight.Data.{Message, Manifest}
use san_layerzero_bridge.InFlight.Checks.{
  exact_keys, unsigned_integer, hash32, nonempty, equal_identity, done,
}

abbrev pub solana_to_robinhood : String
solana_to_robinhood = "solana-to-robinhood"

abbrev pub robinhood_to_solana : String
robinhood_to_solana = "robinhood-to-solana"

abbrev pub message_keys : List String
message_keys =
    "guid" ∷ "direction" ∷ "sourceNonce" ∷ "sourceTransaction" ∷ "sourceHeight" ∷ "sourceBlockHash"
    ∷ "sourceEventIndex" ∷ "sourceOft" ∷ "destinationOft" ∷ "amountRaw" ∷ "receiver" ∷ "status"
    ∷ "destinationTransaction" ∷ "destinationHeight" ∷ "destinationBlockHash" ∷ "layerZeroApiStatus"
    ∷ []

-- The variables of the loop: the GUIDs that were seen, the two sums and the count.
pub record Tally : Type 0 where
  pub seen : List String
  pub solana_to_robinhood_raw : ℕ
  pub robinhood_to_solana_raw : ℕ
  pub unresolved : ℕ

-- `x < 0` of a safe integer
abbrev pub is_negative : Number → Bool
is_negative (int n) = ltb_ℤ n (pos 0)
is_negative (other _) = false

-- `!value` of a text or null
abbrev pub is_missing : Option String → Bool
is_missing none = true
is_missing (some s) = s == ""

abbrev pub is_present : Option String → Bool
is_present none = false
is_present (some _) = true

-- From the message's keys to its status; the GUID, the source height and the amount.
unfoldable pub validate_fields : Message → List String → Result (String × ℕ × ℕ)
validate_fields message seen = do
  exact_keys message.keys message_keys "In-flight message"
  guid ← hash32 (some message.guid) "LayerZero GUID"
  throw_if (includes seen guid) (concat "In-flight manifest contains duplicate GUID " guid)
  done (unsigned_integer (some message.source_nonce) (concat "source nonce for " guid) true)
  height ← unsigned_integer (some message.source_height) (concat "source height for " guid) false
  amount ← unsigned_integer (some message.amount_raw) (concat "raw amount for " guid) true
  done (nonempty (some message.source_transaction) (concat "source transaction for " guid))
  done (nonempty (some message.source_block_hash) (concat "source block hash for " guid))
  done (nonempty (some message.source_oft) (concat "source OFT for " guid))
  done (nonempty (some message.destination_oft) (concat "destination OFT for " guid))
  done (nonempty (some message.receiver) (concat "receiver for " guid))
  throw_if
      (not (is_safe_integer message.source_event_index) || is_negative message.source_event_index)
      (concat "source event index for " (concat guid " is invalid"))
  throw_if (not (includes (solana_to_robinhood ∷ robinhood_to_solana ∷ []) message.direction))
      (concat "direction for " (concat guid " is invalid"))
  throw_if
      (not (
        includes ("in_flight" ∷ "delivered" ∷ "failed" ∷ "blocked" ∷ "unresolved" ∷ [])
          message.status))
      (concat "status for " (concat guid " is invalid"))
  ok (guid, height, amount)

-- The OApps and the source range of the message's pathway.
unfoldable pub validate_pathway : Manifest → Message → String → ℕ → Check
validate_pathway value message guid height = do
  let forwards = message.direction == solana_to_robinhood
  let store = value.identities.solana.oft_store
  let oft = value.identities.robinhood.oft
  throw_if
      (not (equal_identity message.source_oft (if forwards then store else oft))
        || not (equal_identity message.destination_oft (if forwards then oft else store)))
      (concat "source/destination OApp identity for "
        (concat guid " differs from the manifest pathway"))
  from ←
      unsigned_integer
        (some
          (if forwards then value.ranges.solana.from_slot else value.ranges.robinhood.from_block))
        (concat "source range start for " guid) false
  to ←
      unsigned_integer
        (some (if forwards then value.ranges.solana.to_slot else value.ranges.robinhood.to_block))
        (concat "source range end for " guid) false
  throw_if (ltb height from || ltb to height)
      (concat "source height for " (concat guid " is outside the approved scan range"))
  (if forwards
      then done
          (nonempty (some message.source_block_hash) (concat "Solana source blockhash for " guid))
      else done (
          hash32 (some message.source_block_hash) (concat "Robinhood source block hash for " guid)))

unfoldable pub validate_delivered : Manifest → Message → String → String → Check
validate_delivered value message guid api_status = do
  let forwards = message.direction == solana_to_robinhood
  throw_if
      (is_missing message.destination_transaction
        || is_missing message.destination_height
        || is_missing message.destination_block_hash)
      (concat "delivered GUID " (concat guid " lacks destination-chain evidence"))
  height ← unsigned_integer message.destination_height (concat "destination height for " guid) false
  from ←
      unsigned_integer
        (some
          (if forwards then value.ranges.robinhood.from_block else value.ranges.solana.from_slot))
        (concat "destination range start for " guid) false
  to ←
      unsigned_integer
        (some (if forwards then value.ranges.robinhood.to_block else value.ranges.solana.to_slot))
        (concat "destination range end for " guid) false
  throw_if (ltb height from || ltb to height)
      (concat "destination height for " (concat guid " is outside the approved scan range"))
  (if forwards
      then done (
          hash32 message.destination_block_hash
            (concat "Robinhood destination block hash for " guid))
      else done (
          nonempty message.destination_block_hash
            (concat "Solana destination blockhash for " guid)))
  throw_if (not (includes ("DELIVERED" ∷ "CONFIRMING" ∷ []) (to_upper api_status)))
      (concat "LayerZero API status for delivered GUID " (concat guid " is inconsistent"))

unfoldable pub validate_undelivered : Message → String → String → Check
validate_undelivered message guid api_status = do
  throw_if
      (is_present message.destination_transaction
        || is_present message.destination_height
        || is_present message.destination_block_hash)
      (concat "unresolved GUID " (concat guid " must not claim destination-chain evidence"))
  throw_if (to_upper api_status == "DELIVERED")
      (concat "LayerZero API reports delivery without destination-chain evidence for GUID " guid)

-- `unresolvedPacketCount += 1` and the sum of the message's direction
unfoldable pub add_unresolved : Message → ℕ → Tally → Tally
add_unresolved message amount t =
    if message.direction == solana_to_robinhood
    then record t {
      solana_to_robinhood_raw = t.solana_to_robinhood_raw + amount;
      unresolved = t.unresolved + 1;
    }
    else record t {
      robinhood_to_solana_raw = t.robinhood_to_solana_raw + amount;
      unresolved = t.unresolved + 1;
    }

unfoldable pub tally_message : Manifest → Message → Tally → Result Tally
tally_message value message t = do
  (guid, height, amount) ← validate_fields message t.seen
  let t' = record t { seen = guid ∷ t.seen }
  api_status ← nonempty message.layer_zero_api_status (concat "LayerZero API status for " guid)
  validate_pathway value message guid height
  (if message.status == "delivered"
      then (validate_delivered value message guid api_status >> ok t')
      else (validate_undelivered message guid api_status >> ok (add_unresolved message amount t')))

unfoldable pub tally_messages : Manifest → List Message → Tally → Result Tally
tally_messages value [] t = ok t
tally_messages value (message ∷ rest) t =
    tally_message value message t >>= tally_messages value rest

abbrev pub no_messages : Tally
no_messages = record {
  seen = [];
  solana_to_robinhood_raw = 0;
  robinhood_to_solana_raw = 0;
  unresolved = 0;
}
