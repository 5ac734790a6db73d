-- ===== src/InFlight/Spec.antt =====
-- What the messages of a manifest add up to, and what each of them must be.
use san_layerzero_bridge.Base.{
  ℕ, ◌+◌, ◌≤◌, ◌<◌, ◌≡◌, ◌≢◌, ◌⊎◌, String, true, none, some, List, [], ◌∷◌, ◌==◌, string_Eq,
  if◌then◌else◌, All, length,
}
use san_layerzero_bridge.Base.Text.{parse_digits, is_digits, is_hash32, to_lower}
use san_layerzero_bridge.External.{External}
use san_layerzero_bridge.InFlight.Encode.{checksum}
use san_layerzero_bridge.InFlight.Data.{Message, Manifest, Inventory}
use san_layerzero_bridge.InFlight.Message.{solana_to_robinhood, robinhood_to_solana}

-- What a message adds to the amount in flight in a direction: nothing once it is delivered.
unfoldable pub weight : String → Message → ℕ
weight direction m =
    if m.status == "delivered"
    then 0
    else if m.direction == direction
    then parse_digits m.amount_raw
    else 0

unfoldable pub total : String → List Message → ℕ
total direction [] = 0
total direction (m ∷ ms) = weight direction m + total direction ms

unfoldable pub is_undelivered : Message → ℕ
is_undelivered m = if m.status == "delivered" then 0 else 1

unfoldable pub undelivered : List Message → ℕ
undelivered [] = 0
undelivered (m ∷ ms) = is_undelivered m + undelivered ms

abbrev pub guid_of : Message → String
guid_of m = to_lower m.guid

-- The scanned range of the chain that a message leaves, and of the one that it reaches.
abbrev pub source_range : Manifest → Message → String × String
source_range value m =
    let forwards = m.direction == solana_to_robinhood in
    (
      if forwards then value.ranges.solana.from_slot else value.ranges.robinhood.from_block,
      if forwards then value.ranges.solana.to_slot else value.ranges.robinhood.to_block,
    )

abbrev pub destination_range : Manifest → Message → String × String
destination_range value m =
    let forwards = m.direction == solana_to_robinhood in
    (
      if forwards then value.ranges.robinhood.from_block else value.ranges.solana.from_slot,
      if forwards then value.ranges.robinhood.to_block else value.ranges.solana.to_slot,
    )

abbrev pub IsWithin : String → String × String → Type 0
IsWithin height (from, to) =
    (parse_digits from ≤ parse_digits height) × (parse_digits height ≤ parse_digits to)

-- A delivered message has its evidence on the destination chain, inside the scanned range; any other
-- message has none.
abbrev pub HasEvidence : Manifest → Message → Type 0
HasEvidence value m =
    (m.status ≡ "delivered"
      → (height : String) × (m.destination_height ≡ some height)
        × IsWithin height (destination_range value m))
    × (m.status ≢ "delivered"
        → (m.destination_transaction ≡ none)
          × (m.destination_height ≡ none)
          × (m.destination_block_hash ≡ none))

pub record IsSound (value : Manifest) (m : Message) : Type 0 where
  pub guid : is_hash32 m.guid ≡ true
  pub amount_digits : is_digits m.amount_raw ≡ true
  pub amount_positive : 0 < parse_digits m.amount_raw
  pub direction : (m.direction ≡ solana_to_robinhood) ⊎ (m.direction ≡ robinhood_to_solana)
  pub height : IsWithin m.source_height (source_range value m)
  pub evidence : HasEvidence value m

-- No two messages have the same GUID, compared in lower case.
unfoldable pub AreDistinct : List Message → Type 0
AreDistinct [] = Unit
AreDistinct (m ∷ ms) = All (λ n. guid_of m ≢ guid_of n) ms × AreDistinct ms

-- An inventory that says of the manifest what its messages say.
pub record IsReconciled (x : External) (value : Manifest) (inv : Inventory) : Type 0 where
  pub manifest : inv.manifest ≡ value
  pub messages : All (IsSound value) value.messages
  pub distinct : AreDistinct value.messages
  pub message_count : inv.message_count ≡ length value.messages
  pub unresolved : inv.unresolved_packet_count ≡ undelivered value.messages
  pub forwards : inv.solana_to_robinhood_raw ≡ total solana_to_robinhood value.messages
  pub backwards : inv.robinhood_to_solana_raw ≡ total robinhood_to_solana value.messages
  pub summary_forwards :
      parse_digits value.summary.solana_to_robinhood_raw ≡ total solana_to_robinhood value.messages
  pub summary_backwards :
      parse_digits value.summary.robinhood_to_solana_raw ≡ total robinhood_to_solana value.messages
  pub identity : inv.inventory_sha256 ≡ checksum x value.unsigned
  pub checksum_matches : to_lower value.manifest_checksum ≡ inv.inventory_sha256
