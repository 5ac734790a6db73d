-- ===== src/Scan/Spec.antt =====
-- What a sent message becomes in the manifest, without reference to the map it is looked up in.
use mathlib.Core.List.{Mem}
use san_layerzero_bridge.Base.{
  ◌≡◌, ◌⊎◌, String, true, false, Option, List, [], ◌∷◌, Number, int, pos, ◌<ℤ◌, ◌≤ℤ◌,
  is_safe_integer,
}
use san_layerzero_bridge.Base.Text.{to_lower}
use san_layerzero_bridge.InFlight.Data.{Message}
use san_layerzero_bridge.Scan.Range.{unresolved_status}
use san_layerzero_bridge.Scan.Build.{denies_delivery, claims_delivery}

-- A range of positive heights that ends at the finalized head or below it.
abbrev pub IsFinalizedEnd : Number → Number → Type 0
IsFinalizedEnd (int end) (int head) =
    (pos 0 <ℤ end)
    × (end ≤ℤ head)
    × (is_safe_integer (int end) ≡ true)
    × (is_safe_integer (int head) ≡ true)
IsFinalizedEnd _ _ = ⊥

-- A receive of the message was seen: it agrees with the sent message, and the message is delivered by
-- the receive's evidence.
pub record IsDelivered (received : List Message) (status : Option String) (source message : Message)
    : Type 0 where
  pub receive : Message
  pub seen : Mem receive received
  pub guid : to_lower receive.guid ≡ to_lower source.guid
  pub direction : receive.direction ≡ source.direction
  pub amount : receive.amount_raw ≡ source.amount_raw
  pub receiver : to_lower receive.receiver ≡ to_lower source.receiver
  pub agreed : denies_delivery status ≡ false
  pub outcome : message ≡ record source {
    status = "delivered";
    destination_transaction = receive.destination_transaction;
    destination_height = receive.destination_height;
    destination_block_hash = receive.destination_block_hash;
    layer_zero_api_status = status;
  }

-- No receive was taken for it, and the API does not claim one.
pub record IsPending (status : Option String) (source message : Message) : Type 0 where
  pub unclaimed : claims_delivery status ≡ false
  pub outcome :
      message ≡ record source { status = unresolved_status status; layer_zero_api_status = status }

-- The statuses of the two lists' messages, one by one.
unfoldable pub AreOutcomes :
    List Message → (Message → Option String) → List Message → List Message → Type 0
AreOutcomes received status_of [] [] = Unit
AreOutcomes received status_of (s ∷ sources) (m ∷ messages) =
    (IsDelivered received (status_of s) s m ⊎ IsPending (status_of s) s m)
    × AreOutcomes received status_of sources messages
AreOutcomes received status_of _ _ = ⊥
