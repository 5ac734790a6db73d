-- ===== src/InFlight/Totals.antt =====
-- What the loop over the messages has added up, and the result of the parser.
use san_layerzero_bridge.Base.{
  refl, ◌≡◌, false, ok, ◌∷◌, [], List, ◌+◌, includes, length, sym, All, ok_inj, string_Eq, arith,
  >>=-eq-ok, ap, some, >>-eq-ok, ◌∙◌, nat_Eq,
}
use san_layerzero_bridge.Base.Accepts.{throw_if-eq}
use san_layerzero_bridge.Base.Members.{not-included, All-map}
use san_layerzero_bridge.External.{External}
use san_layerzero_bridge.Base.Text.{parse_digits}
use san_layerzero_bridge.InFlight.Inversion.{unsigned_integer-eq-ok, hash32-eq-ok}
use san_layerzero_bridge.InFlight.Checks.{unsigned_integer, hash32}
use san_layerzero_bridge.InFlight.Data.{Message, Manifest, Inventory}
use san_layerzero_bridge.InFlight.Spec.{
  total, guid_of, IsSound, AreDistinct, IsReconciled, undelivered,
}
use san_layerzero_bridge.InFlight.Message.{
  Tally, tally_message, tally_messages, no_messages, solana_to_robinhood, robinhood_to_solana,
}
use san_layerzero_bridge.InFlight.Parse.{parse_in_flight_inventory, validate_summary}
use san_layerzero_bridge.InFlight.RoundSums.{tally_message-Round}

record Loop (value : Manifest) (ms : List Message) (t t' : Tally) : Type 0 where
  forwards : t'.solana_to_robinhood_raw ≡ t.solana_to_robinhood_raw + total solana_to_robinhood ms
  backwards : t'.robinhood_to_solana_raw ≡ t.robinhood_to_solana_raw + total robinhood_to_solana ms
  unresolved : t'.unresolved ≡ t.unresolved + undelivered ms
  seen : length t'.seen ≡ length t.seen + length ms
  fresh : All (λ m. includes t.seen (guid_of m) ≡ false) ms
  distinct : AreDistinct ms
  sound : All (IsSound value) ms

module _ (value : Manifest) where
  tally_messages-Loop :
      (ms : List Message) (t : Tally) {t' : Tally}
      → tally_messages value ms t ≡ ok t'
      → Loop value ms t t'
  unfolding tally_messages total undelivered AreDistinct
  tally_messages-Loop [] t h =
      let same = sym (ok_inj h) in
      record {
        forwards = rw same (omega arith);
        backwards = rw same (omega arith);
        unresolved = rw same (omega arith);
        seen = rw same (omega arith);
        fresh = tt;
        distinct = tt;
        sound = tt;
      }
  tally_messages-Loop (m ∷ ms) t h =
      let (t₁, first, rest) = >>=-eq-ok (tally_message value m t) _ h in
      let r = tally_message-Round value m t first in
      let l = tally_messages-Loop ms t₁ rest in
      let apart : All (λ n. includes (guid_of m ∷ t.seen) (guid_of n) ≡ false) ms =
        rw r.seen at l.fresh in
      record {
        forwards = omega (arith, r.forwards, l.forwards);
        backwards = omega (arith, r.backwards, l.backwards);
        unresolved = omega (arith, r.unresolved, l.unresolved);
        seen = omega (arith, l.seen, ap length r.seen);
        fresh =
            (r.fresh, All-map ms (λ n e. (not-included t.seen (guid_of m) (guid_of n) e).1) apart);
        distinct = (
          All-map ms (λ n e. (not-included t.seen (guid_of m) (guid_of n) e).0) apart,
          l.distinct,
        );
        sound = (r.sound, l.sound);
      }

validate_summary-sums :
    (value : Manifest) (t : Tally)
    → validate_summary value t ≡ ok tt
    → (parse_digits value.summary.solana_to_robinhood_raw ≡ t.solana_to_robinhood_raw)
      × (parse_digits value.summary.robinhood_to_solana_raw ≡ t.robinhood_to_solana_raw)
unfolding validate_summary
validate_summary-sums value t h =
    let (a, reads_a, h₁) =
      >>=-eq-ok (unsigned_integer (some value.summary.solana_to_robinhood_raw) _ false) _ h in
    let (same_a, h₂) = >>-eq-ok _ _ h₁ in
    let (b, reads_b, same_b) =
      >>=-eq-ok (unsigned_integer (some value.summary.robinhood_to_solana_raw) _ false) _ h₂ in
    let (_, a_eq, _) = unsigned_integer-eq-ok _ _ false reads_a in
    let (_, b_eq, _) = unsigned_integer-eq-ok _ _ false reads_b in
    (a_eq ∙ throw_if-eq a _ _ same_a, b_eq ∙ throw_if-eq b _ _ same_b)

module _ (x : External) (value : Manifest) where
  -- An inventory that the parser returns holds the manifest it was given. In it every message names
  -- a 32-byte GUID, a positive amount and one of the two directions, its source height lies in the
  -- scanned range of its source chain, it has destination evidence inside the scanned range exactly
  -- when it is delivered, and no two messages share a GUID; the inventory's counts and amounts, and
  -- the summary's amounts, are the number of messages, the number of undelivered ones and the sums of the undelivered amounts
  -- in each direction; and the manifest's checksum is that of its contents.
  pub parse_in_flight_inventory-IsReconciled :
      {inv : Inventory} → parse_in_flight_inventory x value ≡ ok inv → IsReconciled x value inv
  unfolding parse_in_flight_inventory
  parse_in_flight_inventory-IsReconciled {inv} h =
      let (_, h₁) = >>-eq-ok _ _ h in
      let (_, h₂) = >>-eq-ok _ _ h₁ in
      let (_, h₃) = >>-eq-ok _ _ h₂ in
      let (_, h₄) = >>-eq-ok _ _ h₃ in
      let (_, h₅) = >>-eq-ok _ _ h₄ in
      let (t, loop, h₆) = >>=-eq-ok (tally_messages value value.messages no_messages) _ h₅ in
      let (_, h₇) = >>-eq-ok _ _ h₆ in
      let (summary, h₈) = >>-eq-ok _ _ h₇ in
      let (supplied, hash, h₉) =
        >>=-eq-ok (hash32 (some value.manifest_checksum) "Manifest checksum") _ h₈ in
      let (matches, same) = >>-eq-ok _ _ h₉ in
      let inv_eq = sym (ok_inj same) in
      let l = tally_messages-Loop value value.messages no_messages loop in
      let (sum_a, sum_b) = validate_summary-sums value t summary in
      let (_, hash_eq) = hash32-eq-ok _ _ hash in
      record {
        manifest = rw inv_eq refl;
        messages = l.sound;
        distinct = l.distinct;
        message_count = rw inv_eq (omega (arith, l.seen));
        unresolved = rw inv_eq (omega (arith, l.unresolved));
        forwards = rw inv_eq (omega (arith, l.forwards));
        backwards = rw inv_eq (omega (arith, l.backwards));
        summary_forwards = omega (arith, sum_a, l.forwards);
        summary_backwards = omega (arith, sum_b, l.backwards);
        identity = rw inv_eq refl;
        checksum_matches = rw inv_eq (hash_eq ∙ throw_if-eq supplied _ _ matches);
      }
