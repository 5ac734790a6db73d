-- ===== src/Scan/Solana/Evidence.antt =====
-- What the messages of `scanSolana` rest on.
use san_layerzero_bridge.Base.{
  Option, false, pos, int, ℕ, ◌≤◌, String, ◌≡◌, inl, inr, none, some, List, [], ◌∷◌, Bool-cases,
  ◌!=◌, ok, or_throw, str_eq, str_eq_iff, nat_Eq, string_Eq,
}
use mathlib.Core.Path.{subst}
use san_layerzero_bridge.Base.Accepts.{ne_iff}
use san_layerzero_bridge.Base.Text.{to_lower, show_nat}
use san_layerzero_bridge.Base.{>>=-eq-ok, >>-eq-ok, or_throw-eq-ok, ok_inj}
use san_layerzero_bridge.Base.Accepts.{or-eq-IsFalse, throw_if-accepts}
use san_layerzero_bridge.External.{External}
use san_layerzero_bridge.InFlight.Data.{Message}
use san_layerzero_bridge.InFlight.Message.{solana_to_robinhood, robinhood_to_solana}
use san_layerzero_bridge.Scan.Node.{Signature, Transaction, Packet, SolanaNode}
use mathlib.Core.List.{Mem, mem-cons_self, mem-cons_of_mem}
use san_layerzero_bridge.Scan.Solana.Events.{
  Event, EventName, oft_sent, oft_received, extract_solana_oft_events,
}
use san_layerzero_bridge.Scan.Solana.Messages.{
  solana_number, robinhood_number, find_packet, read_oft_receiver, require_packet,
}

-- A packet of the pathway from the store to the token.
pub record IsForwards (x : External) (solana_store robinhood_oft : String) (packet : Packet)
    : Type 0 where
  pub source : packet.src_eid ≡ solana_number
  pub destination : packet.dst_eid ≡ robinhood_number
  pub store :
      (key : ℕ) × (x.public_key solana_store ≡ some key)
      × (to_lower packet.sender ≡ to_lower (x.hexlify key))
  pub oft : to_lower packet.receiver_address ≡ to_lower robinhood_oft

-- A height of the range, as a text.
abbrev pub IsInRange : ℕ → ℕ → String → Type 0
IsInRange from to height = (n : ℕ) × (height ≡ show_nat n) × (from ≤ n) × (n ≤ to)

-- The node listed the transaction on a page of the store's history, as one that succeeded, at a slot of
-- the range.
pub record IsListed (node : SolanaNode) (from to : ℕ) (item : Signature) : Type 0 where
  pub inside : (from ≤ item.slot) × (item.slot ≤ to)
  pub succeeded : item.failed ≡ false
  pub before : Option String
  pub page : List Signature
  pub answered : node.signatures before ≡ ok page
  pub member : Mem item page

-- One of the events of a listed transaction, between the two chains, as the node's answer for the
-- transaction gives it. `block` is the hash that the node gives for its slot.
pub record IsEventOf (x : External) (node : SolanaNode) (from to : ℕ) (item : Signature)
    (block : String) (name : EventName) (event : Event) : Type 0 where
  pub listed : IsListed node from to item
  pub transaction : Transaction
  pub answered : node.transaction item.signature ≡ ok (some transaction)
  pub hashed : node.block_hash item.slot ≡ ok (some block)
  pub events : List Event
  pub extracted : extract_solana_oft_events x transaction ≡ ok events
  pub member : Mem event events
  pub pathway : event.eid ≡ robinhood_number
  pub kind : event.name ≡ name

-- A message that was sent on Solana: from a sent event of a transaction of the range, whose identity,
-- index and amount it has, with a packet that the endpoint emitted in that transaction, whose GUID,
-- nonce and receiver it has.
pub record IsSolanaSent (x : External) (solana_store robinhood_oft : String) (node : SolanaNode)
    (from to : ℕ) (m : Message) : Type 0 where
  pub direction : m.direction ≡ solana_to_robinhood
  pub status : m.status ≡ "unresolved"
  pub no_evidence : m.destination_height ≡ none
  pub ends : (m.source_oft ≡ solana_store) × (x.get_address robinhood_oft ≡ some m.destination_oft)
  pub item : Signature
  pub event : Event
  pub origin : IsEventOf x node from to item m.source_block_hash oft_sent event
  pub source_transaction : m.source_transaction ≡ item.signature
  pub height : m.source_height ≡ show_nat item.slot
  pub index : m.source_event_index ≡ int (pos event.index)
  pub amount : m.amount_raw ≡ event.amount_raw
  pub event_guid : m.guid ≡ to_lower event.guid
  pub packets : List Packet
  pub emitted : node.packets origin.transaction ≡ ok (some packets)
  pub packet : Packet
  pub packet_emitted : Mem packet packets
  pub pathway : IsForwards x solana_store robinhood_oft packet
  pub guid : m.guid ≡ to_lower packet.guid
  pub nonce : m.source_nonce ≡ packet.nonce
  pub receiver : read_oft_receiver packet.message ≡ ok m.receiver

-- A message that was received on Solana: from a received event of a transaction of the range, whose
-- identity, amount and receiver it has.
pub record IsSolanaReceived (x : External) (solana_store robinhood_oft : String) (node : SolanaNode)
    (from to : ℕ) (m : Message) : Type 0 where
  pub direction : m.direction ≡ robinhood_to_solana
  pub status : m.status ≡ "delivered"
  pub ends : (x.get_address robinhood_oft ≡ some m.source_oft) × (m.destination_oft ≡ solana_store)
  pub item : Signature
  pub event : Event
  pub block : String
  pub origin : IsEventOf x node from to item block oft_received event
  pub transaction : m.destination_transaction ≡ some item.signature
  pub height : m.destination_height ≡ some (show_nat item.slot)
  pub block_hash : m.destination_block_hash ≡ some block
  pub amount : m.amount_raw ≡ event.amount_raw
  pub guid : m.guid ≡ to_lower event.guid
  pub receiver : (key : ℕ) × (x.public_key event.address ≡ some key) × (m.receiver ≡ x.hexlify key)

pub find_packet-Mem :
    (guid : String) (packets : List Packet) {packet : Packet}
    → find_packet guid packets ≡ some packet
    → Mem packet packets
unfolding find_packet
find_packet-Mem guid [] h = cc
find_packet-Mem guid (first ∷ rest) {packet} h =
    elim (Bool-cases (str_eq (to_lower first.guid) (to_lower guid))) [
      | inl same ↦
          let found : some first ≡ some packet = rw same at h in
          let is : first ≡ packet = cc found in subst (λ p. Mem p (first ∷ rest)) is mem-cons_self
      | inr differ ↦ mem-cons_of_mem first (find_packet-Mem guid rest (rw differ at h))
    ]

module _ (x : External) (store oft : String) (node : SolanaNode) (from to : ℕ) where
  abbrev pub Sent : Message → Type 0
  Sent = IsSolanaSent x store oft node from to

  abbrev pub Received : Message → Type 0
  Received = IsSolanaReceived x store oft node from to

module _ (x : External) (store oft : String) (from to : ℕ) where
  pub find_packet-guid :
      (guid : String) (packets : List Packet) {packet : Packet}
      → find_packet guid packets ≡ some packet
      → to_lower packet.guid ≡ to_lower guid
  unfolding find_packet
  find_packet-guid guid [] h = cc
  find_packet-guid guid (first ∷ rest) h =
      elim (Bool-cases (str_eq (to_lower first.guid) (to_lower guid))) [
        | inl same ↦
            let e = (str_eq_iff (to_lower first.guid) (to_lower guid)).0 same in
            let found : some first ≡ some _ = rw same at h in cc
        | inr differ ↦ find_packet-guid guid rest (rw differ at h)
      ]

  pub require_packet-IsForwards :
      (guid : String) (packets : List Packet) {packet : Packet}
      → require_packet x store oft guid packets ≡ ok packet
      → IsForwards x store oft packet
        × (to_lower packet.guid ≡ to_lower guid)
        × (find_packet guid packets ≡ some packet)
  unfolding require_packet
  require_packet-IsForwards guid packets {packet} h =
      let (found, p, h1) = >>=-eq-ok (or_throw (find_packet guid packets) _) _ h in
      let (eids, h2) = >>-eq-ok _ _ h1 in
      let (key, known, h3) = >>=-eq-ok (or_throw (x.public_key store) _) _ h2 in
      let (ends, h4) = >>-eq-ok _ _ h3 in
      let (src, dst) =
        or-eq-IsFalse (found.src_eid != solana_number) (found.dst_eid != robinhood_number)
          (throw_if-accepts _ _ eids) in
      let (sender, receiver) =
        or-eq-IsFalse (to_lower found.sender != to_lower (x.hexlify key))
          (to_lower found.receiver_address != to_lower oft) (throw_if-accepts _ _ ends) in
      let same : found ≡ packet = ok_inj h4 in
      subst
        (λ k.
          IsForwards x store oft k
          × (to_lower k.guid ≡ to_lower guid)
          × (find_packet guid packets ≡ some k))
        same
        (
          record {
            source = ne_iff.0 src;
            destination = ne_iff.0 dst;
            store = (key, or_throw-eq-ok _ _ known, ne_iff.0 sender);
            oft = ne_iff.0 receiver;
          },
          find_packet-guid guid packets (or_throw-eq-ok _ _ p),
          or_throw-eq-ok _ _ p,
        )
