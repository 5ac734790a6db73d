-- ===== src/Scan/Solana/Backed.antt =====
-- Each round of `scanSolana` gives messages that rest on its transactions.
use san_layerzero_bridge.Base.{
  ℕ, zero, suc, ◌≤◌, String, ◌≡◌, refl, sym, inl, inr, Option, none, some, List, [], ◌∷◌, ◌++◌,
  arith, ltb, Bool-cases, ◌!=◌, Result, ok, err, or_throw, ◌>>=◌, All, nat_Eq,
}
use mathlib.Core.Path.{subst}
use mathlib.Core.List.{Mem, mem-cons_self, mem-cons_of_mem}
use san_layerzero_bridge.Base.Accepts.{ne_iff, and-eq-IsTrue, not-eq-true}
use san_layerzero_bridge.Base.Members.{All-map, All-self}
use san_layerzero_bridge.Base.{or_throw-eq-ok, ap, ◌∙◌, false, not, leb, Option-cases}
use san_layerzero_bridge.Base.{>>=-eq-ok, >>-eq-ok, ok_inj}
use san_layerzero_bridge.External.{External}
use san_layerzero_bridge.InFlight.Data.{Message}
use san_layerzero_bridge.Scan.Node.{Transaction, Signature, Packet, SolanaNode}
use san_layerzero_bridge.Scan.Solana.Events.{
  Event, EventName, oft_sent, oft_received, extract_solana_oft_events,
}
use san_layerzero_bridge.Scan.Solana.Pages.{
  is_wanted, visit_page, last_signature, use_page, collect_signatures,
}
use san_layerzero_bridge.Scan.Solana.Messages.{
  find_packet, read_oft_receiver, Seen, SolanaResult, require_packet, sent_message,
  robinhood_number, block_at, sent_packets, received_message, scan_event, scan_events,
  scan_signature, scan_signatures, scan_solana, scan_named_event,
}
use san_layerzero_bridge.Scan.Solana.Evidence.{
  IsListed, IsEventOf, IsSolanaSent, IsSolanaReceived, Sent, Received, require_packet-IsForwards,
  find_packet-Mem,
}
use san_layerzero_bridge.Scan.Sees.{
  Sees, Sees-nothing, Sees-sent, Sees-received, Sees-bind, Sees-join, Sees-test,
  All-canonical_order, All-append,
}
use san_layerzero_bridge.InFlight.Encode.{canonical_order}

-- A signature of a page that `is_wanted` takes, at or above the start of the range
record IsTaken (from to : ℕ) (page : List Signature) (item : Signature) : Type 0 where
  inside : (from ≤ item.slot) × (item.slot ≤ to)
  succeeded : item.failed ≡ false
  member : Mem item page

IsTaken-cons :
    (from to : ℕ) (first : Signature) (page : List Signature) (item : Signature)
    → IsTaken from to page item
    → IsTaken from to (first ∷ page) item
IsTaken-cons from to first page item t = record {
  inside = t.inside;
  succeeded = t.succeeded;
  member = mem-cons_of_mem first t.member;
}

visit_page-IsTaken :
    (from to : ℕ) (page : List Signature) → All (IsTaken from to page) (visit_page from to page).0
unfolding visit_page
visit_page-IsTaken from to [] = tt
visit_page-IsTaken from to (item ∷ page) =
    let rest =
      All-map (visit_page from to page).0 (IsTaken-cons from to item page)
        (visit_page-IsTaken from to page) in
    elim (Bool-cases (ltb item.slot from)) [
      | inl old ↦ rw old tt
      | inr recent ↦ elim (Bool-cases (is_wanted to item)) [
        | inl kept ↦
            let (below, fine) = and-eq-IsTrue (leb item.slot to) (not item.failed) kept in
            rw (recent, kept)
              (
                record {
                  inside = (ground arith, ground arith);
                  succeeded = not-eq-true item.failed fine;
                  member = mem-cons_self;
                },
                rest,
              )
        | inr dropped ↦ rw (recent, dropped) rest
      ]
    ]

module _ (node : SolanaNode) (from to : ℕ) where
  Collected : Result (List Signature) → Type 0
  Collected (ok items) = All (IsListed node from to) items
  Collected (err message) = Unit

  later-Collected :
      (items : List Signature) (later : Result (List Signature))
      → All (IsListed node from to) items
      → Collected later
      → Collected (later >>= λ more. ok (items ++ more))
  unfolding Collected
  later-Collected items (ok more) p q = All-append (IsListed node from to) items more p q
  later-Collected items (err message) p q = tt

  visit_page-IsListed :
      (before : Option String) (page : List Signature)
      → node.signatures before ≡ ok page
      → All (IsListed node from to) (visit_page from to page).0
  visit_page-IsListed before page answered =
      All-map (visit_page from to page).0
        (λ item t. record {
          inside = t.inside;
          succeeded = t.succeeded;
          before = before;
          page = page;
          answered = answered;
          member = t.member;
        })
        (visit_page-IsTaken from to page)

  use_page-Collected :
      (before : Option String) (next_page : String → Result (List Signature))
      (page : List Signature)
      → node.signatures before ≡ ok page
      → ((last : String) → Collected (next_page last))
      → Collected (use_page from to next_page page)
  unfolding use_page
  use_page-Collected before next_page [] answered h = unfold Collected in tt
  use_page-Collected before next_page (item ∷ rest) answered h =
      let listed = visit_page-IsListed before (item ∷ rest) answered in
      elim (Bool-cases (visit_page from to (item ∷ rest)).1) [
        | inl complete ↦ rw complete (unfold Collected in listed)
        | inr unfinished ↦
            rw unfinished (later-Collected _ (next_page (last_signature item rest)) listed (h _))
      ]

  bind-Collected :
      (answer : Result (List Signature)) (k : List Signature → Result (List Signature))
      → ((page : List Signature) → answer ≡ ok page → Collected (k page))
      → Collected (answer >>= k)
  bind-Collected (ok page) k h = h page refl
  bind-Collected (err message) k h = unfold Collected in tt

  collect_signatures-Collected :
      (fuel : ℕ) (before : Option String) → Collected (collect_signatures node from to fuel before)
  unfolding collect_signatures
  collect_signatures-Collected zero before = unfold Collected in tt
  collect_signatures-Collected (suc fuel) before =
      bind-Collected (node.signatures before) _ (λ page answered.
        use_page-Collected before _ page answered
          (λ last. collect_signatures-Collected fuel (some last)))

  collect_signatures-IsListed :
      (fuel : ℕ) (before : Option String) {items : List Signature}
      → collect_signatures node from to fuel before ≡ ok items
      → All (IsListed node from to) items
  collect_signatures-IsListed fuel before h =
      unfold Collected in subst Collected h (collect_signatures-Collected fuel before)

block_at-hashed :
    (node : SolanaNode) (slot : ℕ) {block : String}
    → block_at node slot ≡ ok block
    → node.block_hash slot ≡ ok (some block)
unfolding block_at
block_at-hashed node slot h =
    let (answer, asked, h1) = >>=-eq-ok (node.block_hash slot) _ h in
    asked ∙ ap ok (or_throw-eq-ok answer _ h1)

module _ (x : External) (store oft : String) (node : SolanaNode) (from to : ℕ) where
  abbrev Fine : Result Seen → Type 0
  Fine = Sees (Sent x store oft node from to) (Received x store oft node from to)

  abbrev Origin : Signature → String → EventName → Event → Type 0
  Origin = IsEventOf x node from to

  -- The packets of an event's transaction are those that the node answered with, if there is one.
  sent_packets-emitted :
      (tx : Transaction) (guid : String) (packets : List Packet) (packet : Packet)
      → sent_packets x store oft node tx ≡ ok packets
      → find_packet guid packets ≡ some packet
      → node.packets tx ≡ ok (some packets)
  unfolding sent_packets find_packet
  sent_packets-emitted tx guid packets packet h found =
      let (answer, asked, h1) = >>=-eq-ok (node.packets tx) _ h in
      elim (Option-cases answer) [
        | inl missing ↦
            let empty : [] ≡ packets = ok_inj (rw missing at h1) in
            let none_found : find_packet guid [] ≡ some packet =
              subst (λ l. find_packet guid l ≡ some packet) (sym empty) found in
            absurd (cc none_found)
        | inr (given, here) ↦
            let same : given ≡ packets = ok_inj (rw here at h1) in
            asked ∙ ap ok here ∙ ap (λ l. ok (some l)) same
      ]

  sent_message-IsSolanaSent :
      (item : Signature) (block : String) (event : Event) (packets : List Packet) (packet : Packet)
      {m : Message} (origin : Origin item block oft_sent event)
      → sent_packets x store oft node origin.transaction ≡ ok packets
      → require_packet x store oft event.guid packets ≡ ok packet
      → sent_message x store oft item block event packet ≡ ok m
      → IsSolanaSent x store oft node from to m
  unfolding sent_message
  sent_message-IsSolanaSent item block event packets packet origin asked found h =
      let (pathway, guid, looked) =
        require_packet-IsForwards x store oft from to event.guid packets found in
      let (address, known, h1) = >>=-eq-ok (or_throw (x.get_address oft) _) _ h in
      let (receiver, read, h2) = >>=-eq-ok (read_oft_receiver packet.message) _ h1 in
      subst (IsSolanaSent x store oft node from to) (ok_inj h2) (record {
        direction = refl;
        status = refl;
        no_evidence = refl;
        ends = (refl, or_throw-eq-ok _ _ known);
        item = item;
        event = event;
        origin = origin;
        source_transaction = refl;
        height = refl;
        index = refl;
        amount = refl;
        event_guid = refl;
        packets = packets;
        emitted = sent_packets-emitted origin.transaction event.guid packets packet asked looked;
        packet = packet;
        packet_emitted = find_packet-Mem event.guid packets looked;
        pathway = pathway;
        guid = sym guid;
        nonce = refl;
        receiver = read;
      })

  received_message-IsSolanaReceived :
      (item : Signature) (block : String) (event : Event) {m : Message}
      → Origin item block oft_received event
      → received_message x store oft item block event ≡ ok m
      → IsSolanaReceived x store oft node from to m
  unfolding received_message
  received_message-IsSolanaReceived item block event origin h =
      let (address, known, h1) = >>=-eq-ok (or_throw (x.get_address oft) _) _ h in
      let (key, found, h2) = >>=-eq-ok (or_throw (x.public_key event.address) _) _ h1 in
      subst (IsSolanaReceived x store oft node from to) (ok_inj h2) (record {
        direction = refl;
        status = refl;
        ends = (or_throw-eq-ok _ _ known, refl);
        item = item;
        event = event;
        block = block;
        origin = origin;
        transaction = refl;
        height = refl;
        block_hash = refl;
        amount = refl;
        guid = refl;
        receiver = (key, or_throw-eq-ok _ _ found, refl);
      })

  scan_named_event-Fine :
      (name : EventName) (item : Signature) (block : String) (packets : List Packet) (event : Event)
      (origin : Origin item block name event)
      → sent_packets x store oft node origin.transaction ≡ ok packets
      → Fine (scan_named_event x store oft name item block packets event)
  unfolding scan_named_event
  scan_named_event-Fine oft_sent item block packets event origin asked =
      Sees-bind _ _ (require_packet x store oft event.guid packets) _ (λ packet found.
        Sees-bind _ _ (sent_message x store oft item block event packet) _ (λ m made.
          Sees-sent _ _ m
            (sent_message-IsSolanaSent item block event packets packet origin asked found made)))
  scan_named_event-Fine oft_received item block packets event origin asked =
      Sees-bind _ _ (received_message x store oft item block event) _ (λ m made.
        Sees-received _ _ m (received_message-IsSolanaReceived item block event origin made))

  module _ (item : Signature) (listed : IsListed node from to item) (tx : Transaction)
      (answered : node.transaction item.signature ≡ ok (some tx)) (block : String)
      (hashed : node.block_hash item.slot ≡ ok (some block)) (all_events : List Event)
      (extracted : extract_solana_oft_events x tx ≡ ok all_events) (packets : List Packet)
      (asked : sent_packets x store oft node tx ≡ ok packets) where
    scan_event-Fine :
        (event : Event)
        → Mem event all_events
        → Fine (scan_event x store oft item block packets event)
    unfolding scan_event
    scan_event-Fine event member =
        Sees-test _ _ (event.eid != robinhood_number) _ _ (λ other. Sees-nothing _ _)
          (λ here.
            scan_named_event-Fine event.name item block packets event
              (record {
                listed = listed;
                transaction = tx;
                answered = answered;
                hashed = hashed;
                events = all_events;
                extracted = extracted;
                member = member;
                pathway = ne_iff.0 here;
                kind = refl;
              })
              asked)

    scan_events-Fine :
        (events : List Event)
        → All (λ e. Mem e all_events) events
        → Fine (scan_events x store oft item block packets events)
    unfolding scan_events
    scan_events-Fine [] h = Sees-nothing _ _
    scan_events-Fine (event ∷ events) (member, h) =
        Sees-join _ _ _ _ (scan_event-Fine event member) (scan_events-Fine events h)

  scan_signature-Fine :
      (item : Signature) → IsListed node from to item → Fine (scan_signature x store oft node item)
  unfolding scan_signature
  scan_signature-Fine item listed =
      Sees-bind _ _ (node.transaction item.signature) _ (λ answer looked.
        Sees-bind _ _ (or_throw answer _) _ (λ tx given.
          Sees-bind _ _ (block_at node item.slot) _ (λ block hashed.
            Sees-bind _ _ (extract_solana_oft_events x tx) _ (λ events extracted.
              Sees-bind _ _ (sent_packets x store oft node tx) _ (λ packets asked.
                scan_events-Fine item listed tx (looked ∙ ap ok (or_throw-eq-ok answer _ given))
                  block (block_at-hashed node item.slot hashed) events extracted packets asked
                  events (All-self events))))))

  scan_signatures-Fine :
      (items : List Signature)
      → All (IsListed node from to) items
      → Fine (scan_signatures x store oft node items)
  unfolding scan_signatures
  scan_signatures-Fine [] h = Sees-nothing _ _
  scan_signatures-Fine (item ∷ items) (listed, h) =
      Sees-join _ _ _ _ (scan_signature-Fine item listed) (scan_signatures-Fine items h)

  seen-Fine :
      (seen : Seen)
      → Fine (ok seen)
      → All (Sent x store oft node from to) (canonical_order x seen.sent)
        × All (Received x store oft node from to) (canonical_order x seen.received)
  unfolding Sees
  seen-Fine seen (p, q) = (
    All-canonical_order x (Sent x store oft node from to) seen.sent p,
    All-canonical_order x (Received x store oft node from to) seen.received q,
  )

-- In what `scanSolana` returns, every message rests on an event of the pathway, in a transaction that
-- the node listed as successful at a slot of the range: its transaction, height, block hash, GUID and
-- amount are those of the event and its transaction. A sent message is unresolved and has the GUID, the
-- nonce and the receiver of a packet from the store on Solana to the token on Robinhood, which is among
-- the packets that the node gives for that transaction; a received one is delivered, to the event's
-- address.
pub scan_solana-backed :
    (x : External) (store oft : String) (fuel : ℕ) (node : SolanaNode) (from to : ℕ)
    {r : SolanaResult}
    → scan_solana x store oft fuel node from to ≡ ok r
    → All (IsSolanaSent x store oft node from to) r.sent
      × All (IsSolanaReceived x store oft node from to) r.received
unfolding scan_solana
scan_solana-backed x store oft fuel node from to {r} h =
    let (head, _, h1) = >>=-eq-ok node.finalized_slot _ h in
    let (_, h2) = >>-eq-ok _ _ h1 in
    let (first, _, h3) = >>=-eq-ok node.first_available_block _ h2 in
    let (_, h4) = >>-eq-ok _ _ h3 in
    let (start, _, h5) = >>=-eq-ok (block_at node from) _ h4 in
    let (last, _, h6) = >>=-eq-ok (block_at node to) _ h5 in
    let (genesis, _, h7) = >>=-eq-ok node.genesis_hash _ h6 in
    let (_, h8) = >>-eq-ok _ _ h7 in
    let (items, collected, h9) = >>=-eq-ok (collect_signatures node from to fuel none) _ h8 in
    let (seen, scanned, h10) = >>=-eq-ok (scan_signatures x store oft node items) _ h9 in
    let listed = collect_signatures-IsListed node from to fuel none collected in
    let fine =
      subst (Fine x store oft node from to) scanned
        (scan_signatures-Fine x store oft node from to items listed) in
    subst
      (λ (t : SolanaResult).
        All (IsSolanaSent x store oft node from to) t.sent
        × All (IsSolanaReceived x store oft node from to) t.received)
      (ok_inj h10) (seen-Fine x store oft node from to seen fine)
