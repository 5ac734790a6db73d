-- ===== src/Scan/Build.antt =====
-- `buildInFlightManifest`
use san_layerzero_bridge.Base.{
  ℕ, ◌+◌, String, Bool, not, ◌||◌, ◌&&◌, Option, none, some, List, [], ◌∷◌, pos, ◌==◌, ◌!=◌,
  string_Eq, Result, ok, throw_if, ◌>>=◌, ◌>>◌, if◌then◌else◌, includes, false, ℤ, or_throw, true,
  ◌+ℤ◌,
}
use san_layerzero_bridge.Base.Text.{concat, to_lower, to_upper}
use san_layerzero_bridge.Base.BigInt.{big_int}
use san_layerzero_bridge.InFlight.Data.{Message, Identities, Ranges}
use san_layerzero_bridge.InFlight.Message.{solana_to_robinhood}
use san_layerzero_bridge.Scan.Range.{unresolved_status}

-- `ScannerProviderResult`
pub record ProviderResult : Type 0 where
  pub ranges : Ranges
  pub source_messages : List Message
  pub destination_messages : List Message

-- `BuildManifestInput`
pub record BuildInput : Type 0 where
  pub inventory_id : String
  pub scanner_source_commit : String
  pub generated_at : String
  pub solana_provider_ids : List String
  pub robinhood_provider_ids : List String
  pub primary : ProviderResult
  pub secondary : ProviderResult
  pub identities : Identities
  pub layer_zero_statuses : Option (List (String × String))

-- A `Map` from GUIDs, the latest entry first; no code depends on the order.
abbrev pub Entries : Type 0 → Type 0
Entries A = List (String × A)

module _ {A : Type 0} where
  unfoldable pub get : String → Entries A → Option A
  get key [] = none
  get key ((k, a) ∷ entries) = let rest = get key entries in if k == key then some a else rest

  unfoldable pub delete : String → Entries A → Entries A
  delete key [] = []
  delete key ((k, a) ∷ entries) =
      if k == key then delete key entries else (k, a) ∷ delete key entries

  abbrev pub has : String → Entries A → Bool
  has key entries = elim (get key entries) [ none ↦ false | some _ ↦ true ]

-- The map `destinations` of the messages that were received.
unfoldable pub collect_destinations : List Message → Entries Message → Result (Entries Message)
collect_destinations [] destinations = ok destinations
collect_destinations (destination ∷ rest) destinations = do
  let guid = to_lower destination.guid
  throw_if (has guid destinations) (concat "Duplicate/replay destination evidence for GUID " guid)
  collect_destinations rest ((guid, destination) ∷ destinations)

-- `input.layerZeroStatuses?.get(guid) ?? null`
unfoldable pub api_status_of : Option (List (String × String)) → String → Option String
api_status_of none guid = none
api_status_of (some statuses) guid = get guid statuses

-- `apiStatus && !['DELIVERED', 'CONFIRMING'].includes(apiStatus.toUpperCase())`
abbrev pub denies_delivery : Option String → Bool
denies_delivery none = false
denies_delivery (some status) =
    status != "" && not (includes ("DELIVERED" ∷ "CONFIRMING" ∷ []) (to_upper status))

-- `apiStatus?.toUpperCase() === 'DELIVERED'`
abbrev pub claims_delivery : Option String → Bool
claims_delivery none = false
claims_delivery (some status) = to_upper status == "DELIVERED"

-- A sent message whose receive was seen.
unfoldable pub deliver : Message → Message → Option String → Result Message
deliver source destination api_status = do
  let guid = to_lower source.guid
  throw_if
      (destination.direction != source.direction
        || destination.amount_raw != source.amount_raw
        || to_lower destination.receiver != to_lower source.receiver)
      (concat "Source-chain and destination-chain evidence disagrees for GUID " guid)
  throw_if (denies_delivery api_status)
      (concat "LayerZero API disagrees with delivered chain evidence for GUID " guid)
  ok (record source {
    status = "delivered";
    destination_transaction = destination.destination_transaction;
    destination_height = destination.destination_height;
    destination_block_hash = destination.destination_block_hash;
    layer_zero_api_status = api_status;
  })

-- A sent message whose receive was not seen.
unfoldable pub leave : Message → Option String → Result Message
leave source api_status = do
  throw_if (claims_delivery api_status) (
      concat "LayerZero API reports delivery without destination-chain evidence for GUID "
        (to_lower source.guid))
  ok (record source { status = unresolved_status api_status; layer_zero_api_status = api_status })

-- The function that is mapped over the sent messages; it takes what it uses out of the map.
unfoldable pub match_message :
    Option (List (String × String)) → Message → Entries Message → Result (Message × Entries Message)
match_message statuses source destinations =
    let guid = to_lower source.guid in
    let api_status = api_status_of statuses guid in
    elim (get guid destinations) [
      | none ↦ leave source api_status >>= λ message. ok (message, destinations)
      | some destination ↦ deliver source destination api_status >>= λ message.
          ok (message, delete guid destinations)
    ]

unfoldable pub match_messages :
    Option (List (String × String))
    → List Message
    → Entries Message
    → Result (List Message × Entries Message)
match_messages statuses [] destinations = ok ([], destinations)
match_messages statuses (source ∷ sources) destinations = do
  (message, left) ← match_message statuses source destinations
  (messages, unused) ← match_messages statuses sources left
  ok (message ∷ messages, unused)

-- The variables of the loop over the messages.
pub record Sums : Type 0 where
  pub solana_to_robinhood_raw : ℤ
  pub robinhood_to_solana_raw : ℤ
  pub unresolved_packet_count : ℕ

unfoldable pub add_message : Message → Sums → Result Sums
add_message message sums = if message.status == "delivered" then ok sums else do
  amount ← or_throw (big_int message.amount_raw) "Cannot convert to a BigInt"
  (if message.direction == solana_to_robinhood
      then ok (record sums {
        solana_to_robinhood_raw = sums.solana_to_robinhood_raw +ℤ amount;
        unresolved_packet_count = sums.unresolved_packet_count + 1;
      })
      else ok (record sums {
        robinhood_to_solana_raw = sums.robinhood_to_solana_raw +ℤ amount;
        unresolved_packet_count = sums.unresolved_packet_count + 1;
      }))

unfoldable pub add_messages : List Message → Sums → Result Sums
add_messages [] sums = ok sums
add_messages (message ∷ rest) sums = add_message message sums >>= add_messages rest

abbrev pub no_sums : Sums
no_sums = record {
  solana_to_robinhood_raw = pos 0;
  robinhood_to_solana_raw = pos 0;
  unresolved_packet_count = 0;
}
