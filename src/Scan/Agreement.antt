-- ===== src/Scan/Agreement.antt =====
-- The manifest that is built: each receive is taken by a sent message, and the summary is the sum of
-- what has not arrived.
use mathlib.Core.List.{Mem, Perm}
use san_layerzero_bridge.Base.{
  ap, ◌≡◌, ◌≢◌, inl, inr, refl, sym, ◌∙◌, String, true, false, List, [], ◌∷◌, map, ok, All,
  includes, string_Eq, str_eq, Bool-cases, length, nil_of_length, >>-eq-ok, >>=-eq-ok, ok_inj,
  str_eq_refl, nat_Eq,
}
use san_layerzero_bridge.Base.Text.{to_lower}
use san_layerzero_bridge.Base.Sort.{sort-perm}
use san_layerzero_bridge.Base.Accepts.{throw_if-accepts, throw_if-eq, str_eq-ne, ne_iff}
use san_layerzero_bridge.Base.Members.{All-map, All-self}
use san_layerzero_bridge.External.{External}
use san_layerzero_bridge.InFlight.Data.{Message, Manifest}
use san_layerzero_bridge.InFlight.Encode.{canonical_order}
use san_layerzero_bridge.InFlight.Spec.{AreDistinct, guid_of}
use san_layerzero_bridge.Scan.Build.{
  Entries, BuildInput, get, has, api_status_of, collect_destinations, match_messages, add_messages,
  no_sums,
}
use san_layerzero_bridge.Scan.Manifest.{
  provider_comparable, build_in_flight_manifest, unsigned_manifest,
}
use san_layerzero_bridge.Scan.Spec.{AreOutcomes}
use san_layerzero_bridge.Scan.Matching.{
  AreReceives, has-first, has-rest, match_messages-AreOutcomes, match_messages-has,
}

-- What the map holds once the receives of a list are in it.
record Collected (received ds : List Message) (entries entries' : Entries Message) : Type 0 where
  receives : AreReceives received entries'
  found : All (λ d. has (guid_of d) entries' ≡ true) ds
  kept : (key : String) → has key entries ≡ true → has key entries' ≡ true
  fresh : All (λ d. has (guid_of d) entries ≡ false) ds
  distinct : AreDistinct ds

has-apart :
    (key k : String) (a : Message) (entries : Entries Message)
    → has key ((k, a) ∷ entries) ≡ false
    → (k ≢ key) × (has key entries ≡ false)
has-apart key k a entries h = elim (Bool-cases (str_eq k key)) [
  | inl same ↦ absurd (cc (sym (has-first key k a entries same) ∙ h))
  | inr other ↦ (str_eq-ne _ _ other, sym (has-rest key k a entries other) ∙ h)
]

has-more :
    (key k : String) (a : Message) (entries : Entries Message)
    → has key entries ≡ true
    → has key ((k, a) ∷ entries) ≡ true
has-more key k a entries h = elim (Bool-cases (str_eq k key)) [
  | inl same ↦ has-first key k a entries same
  | inr other ↦ has-rest key k a entries other ∙ h
]

collect_destinations-Collected :
    (received ds : List Message) (entries : Entries Message) {entries' : Entries Message}
    → All (λ d. Mem d received) ds
    → AreReceives received entries
    → collect_destinations ds entries ≡ ok entries'
    → Collected received ds entries entries'
unfolding collect_destinations AreDistinct
collect_destinations-Collected received [] entries members all h =
    let same = ok_inj h in
    record {
      receives = rw⁻¹ same all;
      found = tt;
      kept = λ key k. rw⁻¹ same k;
      fresh = tt;
      distinct = tt;
    }
collect_destinations-Collected received (d ∷ ds) entries (member, members) all h =
    let (new, h₁) = >>-eq-ok _ _ h in
    let c =
      collect_destinations-Collected received ds ((guid_of d, d) ∷ entries) members
        ((refl, member), all) h₁ in
    record {
      receives = c.receives;
      found = (
        c.kept (guid_of d) (has-first _ (guid_of d) d entries (str_eq_refl (guid_of d))),
        c.found,
      );
      kept = λ key k. c.kept key (has-more key (guid_of d) d entries k);
      fresh = (throw_if-accepts _ _ new, All-map ds (λ e f. (has-apart _ _ d entries f).1) c.fresh);
      distinct = (All-map ds (λ e f. (has-apart _ _ d entries f).0) c.fresh, c.distinct);
    }

not-in-nil : (key : String) → has {A = Message} key [] ≡ true → ⊥
unfolding get
not-in-nil key h = cc

-- What a manifest that was built says of the messages seen by the first provider.
pub record IsMatched (input : BuildInput) (m : Manifest) : Type 0 where
  pub matched : List Message
  pub order : Perm m.messages matched
  pub outcomes :
      AreOutcomes input.primary.destination_messages
        (λ source. api_status_of input.layer_zero_statuses (guid_of source))
        input.primary.source_messages
        matched
  pub receives_distinct : AreDistinct input.primary.destination_messages
  pub receives_sent :
      All
        (λ receive.
          includes
            (map (λ (s : Message). to_lower s.guid) input.primary.source_messages)
            (guid_of receive)
          ≡ true)
        input.primary.destination_messages

module _ (x : External) (input : BuildInput) where
  pub build_in_flight_manifest-agrees :
      {m : Manifest}
      → build_in_flight_manifest x input ≡ ok m
      → provider_comparable x input.primary ≡ provider_comparable x input.secondary
  unfolding build_in_flight_manifest
  build_in_flight_manifest-agrees h =
      let (agree, _) = >>-eq-ok _ _ h in ne_iff.0 (throw_if-accepts _ _ agree)

  pub build_in_flight_manifest-outcomes :
      {m : Manifest}
      → build_in_flight_manifest x input ≡ ok m
      → (matched : List Message) × (m.messages ≡ canonical_order x matched)
        × AreOutcomes input.primary.destination_messages
            (λ source. api_status_of input.layer_zero_statuses (guid_of source))
            input.primary.source_messages
            matched
  unfolding build_in_flight_manifest unsigned_manifest
  build_in_flight_manifest-outcomes {m} h =
      let (_, h₁) = >>-eq-ok _ _ h in
      let (entries, collected, h₂) =
        >>=-eq-ok (collect_destinations input.primary.destination_messages []) _ h₁ in
      let (pair, matched, h₃) =
        >>=-eq-ok (match_messages input.layer_zero_statuses input.primary.source_messages entries) _
          h₂ in
      let (_, h₄) = >>-eq-ok _ _ h₃ in
      let (sums, _, same) = >>=-eq-ok (add_messages (canonical_order x pair.0) no_sums) _ h₄ in
      let c =
        collect_destinations-Collected input.primary.destination_messages
          input.primary.destination_messages [] (All-self _) tt collected in
      (
        pair.0,
        sym (ap (λ (k : Manifest). k.messages) (ok_inj same)),
        match_messages-AreOutcomes _ _ _ entries matched c.receives,
      )

  -- In a manifest that is built, up to their canonical order, the messages are the sent ones, each
  -- either delivered by the evidence of a receive that agrees with it in GUID, direction, amount and
  -- receiver, or left with a status of the API that claims no delivery; no two receives share a GUID,
  -- and each receive has a sent message with its GUID.
  pub build_in_flight_manifest-IsMatched :
      {m : Manifest} → build_in_flight_manifest x input ≡ ok m → IsMatched input m
  unfolding build_in_flight_manifest canonical_order unsigned_manifest
  build_in_flight_manifest-IsMatched {m} h =
      let (_, h₁) = >>-eq-ok _ _ h in
      let (entries, collected, h₂) =
        >>=-eq-ok (collect_destinations input.primary.destination_messages []) _ h₁ in
      let (pair, matched, h₃) =
        >>=-eq-ok (match_messages input.layer_zero_statuses input.primary.source_messages entries) _
          h₂ in
      let (none_left, h₄) = >>-eq-ok _ _ h₃ in
      let (sums, _, same) = >>=-eq-ok (add_messages (canonical_order x pair.0) no_sums) _ h₄ in
      let c =
        collect_destinations-Collected input.primary.destination_messages
          input.primary.destination_messages [] (All-self _) tt collected in
      let nothing : pair.1 ≡ [] =
        nil_of_length pair.1 (throw_if-eq (length pair.1) 0 _ none_left) in
      let m_eq : _ ≡ m = ok_inj same in
      record {
        matched = pair.0;
        order = rw⁻¹ m_eq (sort-perm _ pair.0);
        outcomes = match_messages-AreOutcomes _ _ _ entries matched c.receives;
        receives_distinct = c.distinct;
        receives_sent =
            All-map input.primary.destination_messages
              (λ receive found.
                elim (match_messages-has _ _ _ entries (guid_of receive) matched c.receives found) [
                  | inl sent ↦ sent
                  | inr left ↦ absurd (not-in-nil _ (rw nothing at left))
                ])
              c.found;
      }
