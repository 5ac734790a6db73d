-- ===== src/Scan/Robinhood/Backed.antt =====
-- What the messages of `scanRobinhood` rest on.
use san_layerzero_bridge.Base.{
  ℕ, ◌≤◌, String, ◌≡◌, refl, sym, ap, ◌∙◌, inl, inr, ◌||◌, Option, none, some, List, [], ◌∷◌,
  Bool-cases, ◌==◌, ◌!=◌, Result, ok, or_throw, All, nat_Eq, option_Eq, string_Eq,
}
use mathlib.Core.Path.{subst}
use mathlib.Core.List.{Mem, mem-cons_self, mem-cons_of_mem}
use san_layerzero_bridge.Base.{Option-cases}
use san_layerzero_bridge.Config.{production_robinhood_endpoint}
use san_layerzero_bridge.Scan.Node.{ReceiptLog}
use san_layerzero_bridge.Base.Accepts.{ne_iff, eq_iff, or-eq-IsFalse, throw_if-accepts}
use san_layerzero_bridge.Base.{>>=-eq-ok, >>-eq-ok, or_throw-eq-ok, ok_inj}
use san_layerzero_bridge.Base.Text.{to_lower}
use san_layerzero_bridge.External.{External}
use san_layerzero_bridge.InFlight.Data.{Message}
use san_layerzero_bridge.InFlight.Message.{solana_to_robinhood, robinhood_to_solana}
use san_layerzero_bridge.Scan.Node.{Packet, RobinhoodNode, Log, Receipt, OftEvent, sent, received}
use san_layerzero_bridge.Scan.Sees.{
  Sees, Sees-nothing, Sees-sent, Sees-received, Sees-bind, Sees-join, Sees-if,
}
use san_layerzero_bridge.Scan.Solana.Messages.{
  solana_number, robinhood_number, find_packet, read_oft_receiver, Seen,
}
use san_layerzero_bridge.Scan.Solana.Evidence.{IsInRange, find_packet-guid}
use san_layerzero_bridge.Scan.Robinhood.Logs.{
  packet_logs, successful, require_return_packet, sent_log_message, received_log_message, scan_log,
  scan_logs, scan_parsed,
}

-- A packet of the pathway from the token to the store.
pub record IsBackwards (x : External) (solana_store robinhood_oft : String) (packet : Packet)
    : Type 0 where
  pub source : packet.src_eid ≡ robinhood_number
  pub destination : packet.dst_eid ≡ solana_number
  pub oft : to_lower packet.sender_address ≡ to_lower robinhood_oft
  pub store :
      (key : ℕ) × (x.public_key solana_store ≡ some key)
      × (to_lower packet.receiver ≡ to_lower (x.hexlify key))

-- A log that the endpoint wrote holds the packet.
abbrev pub IsEndpointPacket : List ReceiptLog → Packet → Type 0
IsEndpointPacket logs packet =
    (log : ReceiptLog) × Mem log logs
    × (log.packet ≡ some packet)
    × (to_lower log.address ≡ to_lower production_robinhood_endpoint)

-- A message that was sent on Robinhood: from a log of the range, in a transaction that succeeded, with
-- a packet that the endpoint emitted in it, whose GUID, nonce and receiver it has.
pub record IsRobinhoodSent (x : External) (solana_store robinhood_oft : String)
    (node : RobinhoodNode) (from to : ℕ) (m : Message) : Type 0 where
  pub direction : m.direction ≡ robinhood_to_solana
  pub status : m.status ≡ "unresolved"
  pub no_evidence : m.destination_height ≡ none
  pub height : IsInRange from to m.source_height
  pub transaction : String
  pub source_transaction : m.source_transaction ≡ to_lower transaction
  pub receipt : Receipt
  pub answered : node.receipt transaction ≡ ok (some receipt)
  pub succeeded : receipt.status ≡ some 1
  pub packet : Packet
  pub emitted : (guid : String) × (find_packet guid (packet_logs receipt.logs) ≡ some packet)
  pub endpoint_log : IsEndpointPacket receipt.logs packet
  pub pathway : IsBackwards x solana_store robinhood_oft packet
  pub guid : m.guid ≡ to_lower packet.guid
  pub nonce : m.source_nonce ≡ packet.nonce
  pub receiver : read_oft_receiver packet.message ≡ ok m.receiver

-- A message that was received on Robinhood, at a height of the range.
pub record IsRobinhoodReceived (from to : ℕ) (m : Message) : Type 0 where
  pub direction : m.direction ≡ solana_to_robinhood
  pub status : m.status ≡ "delivered"
  pub height : (t : String) × (m.destination_height ≡ some t) × IsInRange from to t

-- A log of the range
abbrev pub IsLogged : ℕ → ℕ → Log → Type 0
IsLogged from to log = (from ≤ log.block_number) × (log.block_number ≤ to)

IsEndpointPacket-cons :
    (first : ReceiptLog) (logs : List ReceiptLog) (packet : Packet)
    → IsEndpointPacket logs packet
    → IsEndpointPacket (first ∷ logs) packet
IsEndpointPacket-cons first logs packet (log, member, is, at) =
    (log, mem-cons_of_mem first member, is, at)

-- The packet that is found in a receipt is of a log that the endpoint wrote.
find_packet-endpoint :
    (guid : String) (logs : List ReceiptLog) {packet : Packet}
    → find_packet guid (packet_logs logs) ≡ some packet
    → IsEndpointPacket logs packet
unfolding packet_logs find_packet
find_packet-endpoint guid [] h = absurd (cc h)
find_packet-endpoint guid (log ∷ logs) {packet} h =
    elim (Bool-cases (to_lower log.address == to_lower production_robinhood_endpoint)) [
      | inr other ↦
          IsEndpointPacket-cons log logs packet (find_packet-endpoint guid logs (rw other at h))
      | inl endpoint ↦ elim (Option-cases log.packet) [
        | inl unparsed ↦
            IsEndpointPacket-cons log logs packet
              (find_packet-endpoint guid logs (rw (endpoint, unparsed) at h))
        | inr (first, parsed) ↦ elim (Bool-cases (to_lower first.guid == to_lower guid)) [
          | inr differ ↦
              IsEndpointPacket-cons log logs packet
                (find_packet-endpoint guid logs (rw (endpoint, parsed, differ) at h))
          | inl same ↦
              let is : some first ≡ some packet = rw (endpoint, parsed, same) at h in
              (log, mem-cons_self, parsed ∙ is, eq_iff.0 endpoint)
        ]
      ]
    ]

successful-status :
    (answer : Option Receipt) {receipt : Receipt}
    → successful answer ≡ some receipt
    → (answer ≡ some receipt) × (receipt.status ≡ some 1)
unfolding successful
successful-status none h = cc
successful-status (some given) {receipt} h = elim (Bool-cases (given.status == some 1)) [
  | inl one ↦
      let same : some given ≡ some receipt = rw one at h in
      let status : given.status ≡ some 1 =
        (eq_iff {A = Option ℕ} {a = given.status} {b = some 1}).0 one in
      (same, cc)
  | inr failed ↦ absurd (cc (rw failed at h))
]

module _ (x : External) (store oft : String) (node : RobinhoodNode) (from to : ℕ) where
  abbrev pub Sent : Message → Type 0
  Sent = IsRobinhoodSent x store oft node from to

  abbrev pub Fine : Result Seen → Type 0
  Fine = Sees Sent (IsRobinhoodReceived from to)

  require_return_packet-IsBackwards :
      (guid : String) (packets : List Packet) {packet : Packet}
      → require_return_packet x store oft guid packets ≡ ok packet
      → (find_packet guid packets ≡ some packet) × IsBackwards x store oft packet
  unfolding require_return_packet
  require_return_packet-IsBackwards guid packets {packet} h =
      let (found, p, h1) = >>=-eq-ok (or_throw (find_packet guid packets) _) _ h in
      let (eids, h2) = >>-eq-ok _ _ h1 in
      let (key, known, h3) = >>=-eq-ok (or_throw (x.public_key store) _) _ h2 in
      let (ends, h4) = >>-eq-ok _ _ h3 in
      let (both, sender) =
        or-eq-IsFalse (found.src_eid != robinhood_number || found.dst_eid != solana_number)
          (to_lower found.sender_address != to_lower oft) (throw_if-accepts _ _ eids) in
      let (src, dst) =
        or-eq-IsFalse (found.src_eid != robinhood_number) (found.dst_eid != solana_number) both in
      let receiver = throw_if-accepts _ _ ends in
      let same : found ≡ packet = ok_inj h4 in
      subst (λ k. (find_packet guid packets ≡ some k) × IsBackwards x store oft k) same
        (
          or_throw-eq-ok _ _ p,
          record {
            source = ne_iff.0 src;
            destination = ne_iff.0 dst;
            oft = ne_iff.0 sender;
            store = (key, or_throw-eq-ok _ _ known, ne_iff.0 receiver);
          },
        )

  sent_log_message-IsRobinhoodSent :
      (log : Log) (guid : String) (amount : ℕ) (answer : Option Receipt) (receipt : Receipt)
      (packet : Packet) {m : Message}
      → IsLogged from to log
      → node.receipt log.transaction_hash ≡ ok answer
      → successful answer ≡ some receipt
      → require_return_packet x store oft guid (packet_logs receipt.logs) ≡ ok packet
      → sent_log_message x store oft log guid amount packet ≡ ok m
      → Sent m
  unfolding sent_log_message
  sent_log_message-IsRobinhoodSent log guid amount answer receipt packet inside asked fine found h =
      let (address, _, h1) = >>=-eq-ok (or_throw (x.get_address oft) _) _ h in
      let (receiver, read, h2) = >>=-eq-ok (read_oft_receiver packet.message) _ h1 in
      let (given, status) = successful-status answer fine in
      let (looked, pathway) =
        require_return_packet-IsBackwards guid (packet_logs receipt.logs) found in
      subst Sent (ok_inj h2) (record {
        direction = refl;
        status = refl;
        no_evidence = refl;
        height = (log.block_number, refl, inside.0, inside.1);
        transaction = log.transaction_hash;
        source_transaction = refl;
        receipt = receipt;
        answered = asked ∙ ap ok given;
        succeeded = status;
        packet = packet;
        emitted = (guid, looked);
        endpoint_log = find_packet-endpoint guid receipt.logs looked;
        pathway = pathway;
        guid = sym (find_packet-guid x store oft from to guid (packet_logs receipt.logs) looked);
        nonce = refl;
        receiver = read;
      })

  received_log_message-IsRobinhoodReceived :
      (log : Log) (guid to_address : String) (amount : ℕ) {m : Message}
      → IsLogged from to log
      → received_log_message x store oft log guid to_address amount ≡ ok m
      → IsRobinhoodReceived from to m
  unfolding received_log_message
  received_log_message-IsRobinhoodReceived log guid to_address amount inside h =
      let (address, _, h1) = >>=-eq-ok (or_throw (x.get_address oft) _) _ h in
      let (padded, _, h2) = >>=-eq-ok (or_throw (x.hex_zero_pad to_address) _) _ h1 in
      subst (IsRobinhoodReceived from to) (ok_inj h2) (record {
        direction = refl;
        status = refl;
        height = (_, refl, (log.block_number, refl, inside.0, inside.1));
      })

  scan_parsed-Fine :
      (log : Log) (event : Option OftEvent)
      → IsLogged from to log
      → Fine (scan_parsed x store oft node log event)
  unfolding scan_parsed
  scan_parsed-Fine log none inside = Sees-nothing _ _
  scan_parsed-Fine log (some (sent guid dst_eid amount)) inside =
      Sees-if _ _ (dst_eid != solana_number) _ _ (Sees-nothing _ _) (
        Sees-bind _ _ (node.receipt log.transaction_hash) _ (λ answer asked.
          Sees-bind _ _ (or_throw (successful answer) _) _ (λ receipt fine.
            Sees-bind _ _ (require_return_packet x store oft guid (packet_logs receipt.logs)) _
              (λ packet found.
                Sees-bind _ _ (sent_log_message x store oft log guid amount packet) _ (λ m made.
                  Sees-sent _ _ m (
                    sent_log_message-IsRobinhoodSent log guid amount answer receipt packet inside
                      asked (or_throw-eq-ok _ _ fine) found made))))))
  scan_parsed-Fine log (some (received guid src_eid to_address amount)) inside =
      Sees-if _ _ (src_eid != solana_number) _ _ (Sees-nothing _ _) (
        Sees-bind _ _ (received_log_message x store oft log guid to_address amount) _ (λ m made.
          Sees-received _ _ m
            (received_log_message-IsRobinhoodReceived log guid to_address amount inside made)))

  pub scan_logs-Fine :
      (logs : List Log) → All (IsLogged from to) logs → Fine (scan_logs x store oft node logs)
  unfolding scan_logs scan_log
  scan_logs-Fine [] h = Sees-nothing _ _
  scan_logs-Fine (log ∷ logs) (inside, h) =
      Sees-join _ _ _ _ (scan_parsed-Fine log log.event inside) (scan_logs-Fine logs h)
