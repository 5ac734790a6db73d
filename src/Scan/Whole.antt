-- ===== src/Scan/Whole.antt =====
-- The scanner as a whole: what the manifest that it returns rests on.
use san_layerzero_bridge.Base.{String, ◌≡◌, refl, ◌⊎◌, inl, inr, some, ok, All}
use mathlib.Core.Path.{subst}
use san_layerzero_bridge.Base.{>>=-eq-ok, >>-eq-ok, ok_inj}
use san_layerzero_bridge.External.{External}
use san_layerzero_bridge.Base.Members.{All-map}
use san_layerzero_bridge.InFlight.Data.{Message, Manifest, Inventory}
use san_layerzero_bridge.InFlight.Spec.{IsReconciled}
use san_layerzero_bridge.InFlight.Parse.{parse_in_flight_inventory}
use san_layerzero_bridge.InFlight.Totals.{parse_in_flight_inventory-IsReconciled}
use san_layerzero_bridge.Scan.Agreement.{
  IsMatched, build_in_flight_manifest-IsMatched, build_in_flight_manifest-agrees,
}
use san_layerzero_bridge.Scan.Build.{BuildInput, ProviderResult, Entries}
use san_layerzero_bridge.Scan.Corroborated.{
  IsCorroborated, fetch_layer_zero_statuses-IsCorroborated,
}
use san_layerzero_bridge.Scan.Manifest.{build_in_flight_manifest, provider_comparable}
use san_layerzero_bridge.Scan.Node.{SolanaNode, RobinhoodNode}
use san_layerzero_bridge.Scan.Sees.{All-append}
use san_layerzero_bridge.Scan.Statuses.{fetch_layer_zero_statuses}
use san_layerzero_bridge.Scan.Solana.Evidence.{IsSolanaSent, IsSolanaReceived}
use san_layerzero_bridge.Scan.Solana.Backed.{scan_solana-backed}
use san_layerzero_bridge.Scan.Solana.Messages.{scan_solana}
use san_layerzero_bridge.Scan.Robinhood.Backed.{IsRobinhoodSent, IsRobinhoodReceived}
use san_layerzero_bridge.Scan.Robinhood.Range.{AnswersRange, scan_robinhood-backed}
use san_layerzero_bridge.Scan.Robinhood.Logs.{scan_robinhood}
use san_layerzero_bridge.Scan.Production.{
  Values, Services, Fuel, page_size, required, safe_provider_id, scan_provider_pair, scan_values,
}

module _ (x : External) (solana_node : SolanaNode) (node : RobinhoodNode) (v : Values) where
  -- A message that was sent on one of the two chains, and one that was received on one of them.
  abbrev pub IsSent : Message → Type 0
  IsSent m =
      IsSolanaSent x v.store v.oft solana_node v.solana_from v.solana_to m
      ⊎ IsRobinhoodSent x v.store v.oft node v.robinhood_from v.robinhood_to m

  abbrev pub IsReceived : Message → Type 0
  IsReceived m =
      IsSolanaReceived x v.store v.oft solana_node v.solana_from v.solana_to m
      ⊎ IsRobinhoodReceived v.robinhood_from v.robinhood_to m

  scan_provider_pair-backed :
      (fuel : Fuel) {r : ProviderResult}
      → AnswersRange node
      → scan_provider_pair x fuel solana_node node v ≡ ok r
      → All IsSent r.source_messages × All IsReceived r.destination_messages
  unfolding scan_provider_pair
  scan_provider_pair-backed fuel {r} answers h =
      let (s, scanned, h1) =
        >>=-eq-ok (scan_solana x v.store v.oft fuel.solana solana_node v.solana_from v.solana_to) _
          h in
      let (t, looked, h2) =
        >>=-eq-ok
          (scan_robinhood x v.store v.oft fuel.robinhood node v.robinhood_from v.robinhood_to
            page_size)
          _ h1 in
      let (sent, received) =
        scan_solana-backed x v.store v.oft fuel.solana solana_node v.solana_from v.solana_to
          scanned in
      let (sent', received') =
        scan_robinhood-backed x v.store v.oft fuel.robinhood node v.robinhood_from v.robinhood_to
          page_size answers looked in
      subst
        (λ (k : ProviderResult).
          All IsSent k.source_messages × All IsReceived k.destination_messages)
        (ok_inj h2)
        (
          All-append IsSent s.sent t.sent (All-map s.sent (λ m p. inl p) sent)
              (All-map t.sent (λ m p. inr p) sent'),
          All-append IsReceived s.received t.received (All-map s.received (λ m p. inl p) received)
              (All-map t.received (λ m p. inr p) received'),
        )

-- What a scanned manifest is made of, and what it says.
pub record IsScanned (x : External) (fuel : Fuel) (services : Services) (v : Values)
    (solana_urls robinhood_urls : String × String) (manifest : Manifest) : Type 0 where
  pub input : BuildInput
  pub first :
      scan_provider_pair x fuel
        (services.solana solana_urls.0)
        (services.robinhood robinhood_urls.0)
        v
      ≡ ok input.primary
  pub second :
      scan_provider_pair x fuel
        (services.solana solana_urls.1)
        (services.robinhood robinhood_urls.1)
        v
      ≡ ok input.secondary
  pub agreed : provider_comparable x input.primary ≡ provider_comparable x input.secondary
  pub statuses : Entries String
  pub asked : input.layer_zero_statuses ≡ some statuses
  pub sent :
      All
        (IsSent x (services.solana solana_urls.0) (services.robinhood robinhood_urls.0) v)
        input.primary.source_messages
  pub received :
      All
        (IsReceived x (services.solana solana_urls.0) (services.robinhood robinhood_urls.0) v)
        input.primary.destination_messages
  pub corroborated :
      All
        (IsCorroborated services.layer_zero input.primary.source_messages statuses)
        input.primary.source_messages
  pub matched : IsMatched input manifest
  pub inventory : Inventory
  pub reconciled : IsReconciled x manifest inventory

-- A manifest that the scanner returns is one that the parser accepts, so its sums, heights and GUIDs
-- are those of its messages; the two providers of each chain gave the same ranges and messages in
-- canonical text; up to their canonical order its messages are what the primary providers
-- saw sent on either chain, each with a packet that the node gives for its transaction and at a height
-- of its range, matched with what they saw received; and for each of them the LayerZero API named the
-- status that is kept, with its pathway. The node of Robinhood has to answer with logs of the blocks
-- that it was asked for.
pub scan_values-IsScanned :
    (x : External) (fuel : Fuel) (services : Services) (v : Values) (solana_urls : String × String)
    (robinhood_urls : String × String) {manifest : Manifest}
    → AnswersRange (services.robinhood robinhood_urls.0)
    → scan_values x fuel services v solana_urls robinhood_urls ≡ ok manifest
    → IsScanned x fuel services v solana_urls robinhood_urls manifest
unfolding scan_values
scan_values-IsScanned x fuel services v (sp, ss) (rp, rs) {manifest} answers h =
    let (_, h1) = >>-eq-ok _ _ h in
    let (primary, first, h2) =
      >>=-eq-ok (scan_provider_pair x fuel (services.solana sp) (services.robinhood rp) v) _ h1 in
    let (secondary, other, h3) =
      >>=-eq-ok (scan_provider_pair x fuel (services.solana ss) (services.robinhood rs) v) _ h2 in
    let (statuses, fetched, h4) =
      >>=-eq-ok (fetch_layer_zero_statuses services.layer_zero primary.source_messages) _ h3 in
    let (id, _, h5) =
      >>=-eq-ok (required services.env "SAN_APPROVED_IN_FLIGHT_INVENTORY_ID") _ h4 in
    let (commit, _, h6) = >>=-eq-ok (required services.env "SAN_SCANNER_SOURCE_COMMIT") _ h5 in
    let (a, _, h7) = >>=-eq-ok (safe_provider_id services.url sp) _ h6 in
    let (b, _, h8) = >>=-eq-ok (safe_provider_id services.url ss) _ h7 in
    let (c, _, h9) = >>=-eq-ok (safe_provider_id services.url rp) _ h8 in
    let (d, _, h10) = >>=-eq-ok (safe_provider_id services.url rs) _ h9 in
    let (built, made, h11) = >>=-eq-ok (build_in_flight_manifest x _) _ h10 in
    let (inventory, parsed, h12) = >>=-eq-ok (parse_in_flight_inventory x built) _ h11 in
    let (sent, received) =
      scan_provider_pair-backed x (services.solana sp) (services.robinhood rp) v fuel answers
        first in
    subst (IsScanned x fuel services v (sp, ss) (rp, rs)) (ok_inj h12) (record {
      input = _;
      first = first;
      second = other;
      agreed = build_in_flight_manifest-agrees x _ made;
      statuses = statuses;
      asked = refl;
      sent = sent;
      received = received;
      corroborated =
          fetch_layer_zero_statuses-IsCorroborated services.layer_zero primary.source_messages
            fetched;
      matched = build_in_flight_manifest-IsMatched x _ made;
      inventory = inventory;
      reconciled = parse_in_flight_inventory-IsReconciled x _ parsed;
    })
