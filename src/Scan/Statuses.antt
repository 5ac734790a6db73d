-- ===== src/Scan/Statuses.antt =====
-- `fetchLayerZeroStatuses`: what the LayerZero API says of each message that was sent.
use san_layerzero_bridge.Base.{
  ℕ, String, Bool, false, not, ◌||◌, Option, none, some, List, [], ◌∷◌, ◌++◌, ◌==◌, ◌!=◌,
  if◌then◌else◌, Result, ok, throw_if, or_throw, ◌>>=◌, ◌>>◌, string_Eq, option_Eq, nat_Eq,
}
use san_layerzero_bridge.Base.Text.{concat, to_lower}
use san_layerzero_bridge.InFlight.Data.{Message}
use san_layerzero_bridge.InFlight.Message.{solana_to_robinhood}
use san_layerzero_bridge.Scan.Build.{Entries}
use san_layerzero_bridge.Scan.Node.{ApiEntry, ApiResponse}
use san_layerzero_bridge.Scan.Solana.Messages.{solana_number, robinhood_number}

-- The `Map` `byTransaction`, in the order of insertion
abbrev pub Groups : Type 0
Groups = List (String × List Message)

-- `group.push(message); byTransaction.set(message.sourceTransaction, group)`
unfoldable pub add_to_group : Message → Groups → Groups
add_to_group message [] = (message.source_transaction, message ∷ []) ∷ []
add_to_group message ((transaction, group) ∷ groups) =
    let rest = add_to_group message groups in
    if transaction == message.source_transaction
    then (transaction, group ++ message ∷ []) ∷ groups
    else (transaction, group) ∷ rest

unfoldable pub group_by_transaction : List Message → Groups → Groups
group_by_transaction [] groups = groups
group_by_transaction (message ∷ messages) groups =
    group_by_transaction messages (add_to_group message groups)

-- `candidate.guid?.toLowerCase() === message.guid.toLowerCase()`
unfoldable pub is_entry_of : String → ApiEntry → Bool
is_entry_of guid entry = elim entry.guid [ none ↦ false | some g ↦ to_lower g == to_lower guid ]

unfoldable pub find_entry : String → List ApiEntry → Option ApiEntry
find_entry guid [] = none
find_entry guid (entry ∷ entries) =
    let rest = find_entry guid entries in if is_entry_of guid entry then some entry else rest

-- `body.data?.find(…)`
unfoldable pub entry_of : Message → ApiResponse → Option ApiEntry
entry_of message response = elim response.entries [
  | none ↦ none
  | some entries ↦ find_entry message.guid entries
]

-- `entry?.status?.name`, where it is not empty
unfoldable pub status_name_of : ApiEntry → Option String
status_name_of entry = elim entry.status_name [
  | none ↦ none
  | some name ↦ if name == "" then none else some name
]

-- `expectedEids`
abbrev pub expected_eids : Message → ℕ × ℕ
expected_eids message =
    if message.direction == solana_to_robinhood
    then (solana_number, robinhood_number)
    else (robinhood_number, solana_number)

-- One round of the loop over the messages of a transaction: the status that is set.
unfoldable pub message_status : ApiResponse → Message → Result String
message_status response message = do
  entry ←
      or_throw (entry_of message response)
        (concat "LayerZero Scan omitted source GUID " message.guid)
  name ← or_throw (status_name_of entry) (concat "LayerZero Scan omitted source GUID " message.guid)
  throw_if
      (entry.src_eid != some (expected_eids message).0
        || entry.dst_eid != some (expected_eids message).1)
      (concat "LayerZero Scan pathway disagrees for GUID " message.guid)
  ok name

unfoldable pub set_statuses : ApiResponse → List Message → Entries String → Result (Entries String)
set_statuses response [] statuses = ok statuses
set_statuses response (message ∷ messages) statuses = do
  name ← message_status response message
  set_statuses response messages ((to_lower message.guid, name) ∷ statuses)

module _ (fetch : String → Result ApiResponse) where
  unfoldable pub fetch_groups : Groups → Entries String → Result (Entries String)
  fetch_groups [] statuses = ok statuses
  fetch_groups ((transaction, expected) ∷ groups) statuses = do
    response ← fetch transaction
    throw_if (not response.is_ok) (concat "LayerZero Scan corroboration failed for " transaction)
    updated ← set_statuses response expected statuses
    fetch_groups groups updated

  unfoldable pub fetch_layer_zero_statuses : List Message → Result (Entries String)
  fetch_layer_zero_statuses messages = fetch_groups (group_by_transaction messages []) []
