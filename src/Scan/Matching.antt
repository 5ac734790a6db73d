-- ===== src/Scan/Matching.antt =====
-- The map of receives, and the matching of the sent messages with it.
use mathlib.Core.List.{Mem}
use san_layerzero_bridge.Base.{
  ◌≡◌, ◌⊎◌, inl, inr, refl, sym, ◌∙◌, ap, String, true, false, Option, some, List, [], ◌∷◌, map, ok,
  All, includes, string_Eq, str_eq, str_eq_iff, Bool-cases, Option-cases, >>-eq-ok, >>=-eq-ok,
  ok_inj,
}
use san_layerzero_bridge.Base.Text.{to_lower}
use san_layerzero_bridge.Base.Accepts.{throw_if-accepts, or-eq-IsFalse, ne_iff}
use san_layerzero_bridge.Base.Members.{includes-here, includes-there}
use san_layerzero_bridge.InFlight.Data.{Message}
use san_layerzero_bridge.Scan.Build.{
  Entries, get, delete, has, api_status_of, deliver, leave, match_message, match_messages,
}
use san_layerzero_bridge.Scan.Spec.{IsDelivered, IsPending, AreOutcomes}

-- Each entry is a receive under its own GUID.
abbrev pub AreReceives : List Message → Entries Message → Type 0
AreReceives received entries =
    All (λ (e : String × Message). (to_lower e.1.guid ≡ e.0) × Mem e.1 received) entries

pub has-first :
    (key k : String) (a : Message) (entries : Entries Message)
    → str_eq k key ≡ true
    → has key ((k, a) ∷ entries) ≡ true
unfolding get
has-first key k a entries same = rw (same, has) refl

pub has-rest :
    (key k : String) (a : Message) (entries : Entries Message)
    → str_eq k key ≡ false
    → has key ((k, a) ∷ entries) ≡ has key entries
unfolding get
has-rest key k a entries other = rw (other, has) refl

delete-rest :
    (guid k : String) (a : Message) (entries : Entries Message)
    → str_eq k guid ≡ false
    → delete guid ((k, a) ∷ entries) ≡ (k, a) ∷ delete guid entries
unfolding delete
delete-rest guid k a entries other = rw other refl

delete-first :
    (guid k : String) (a : Message) (entries : Entries Message)
    → str_eq k guid ≡ true
    → delete guid ((k, a) ∷ entries) ≡ delete guid entries
unfolding delete
delete-first guid k a entries same = rw same refl

has-delete :
    (key guid : String) (entries : Entries Message)
    → has key entries ≡ true
    → (guid ≡ key) ⊎ (has key (delete guid entries) ≡ true)
unfolding get
has-delete key guid [] h = cc
has-delete key guid ((k, a) ∷ entries) h = elim (Bool-cases (str_eq k guid)) [
  | inl gone ↦ elim (Bool-cases (str_eq k key)) [
    | inl here ↦ inl (sym ((str_eq_iff _ _).0 gone) ∙ (str_eq_iff _ _).0 here)
    | inr other ↦
        rw (delete-first guid k a entries gone)
          (has-delete key guid entries (sym (has-rest key k a entries other) ∙ h))
  ]
  | inr kept ↦ elim (Bool-cases (str_eq k key)) [
    | inl here ↦ rw (delete-rest guid k a entries kept) (inr (has-first key k a _ here))
    | inr other ↦ elim (has-delete key guid entries (sym (has-rest key k a entries other) ∙ h)) [
      | inl same ↦ inl same
      | inr later ↦ rw (delete-rest guid k a entries kept) (inr (has-rest key k a _ other ∙ later))
    ]
  ]
]

has-after :
    (key guid : String) (entries left : Entries Message)
    → has key entries ≡ true
    → (left ≡ entries) ⊎ (left ≡ delete guid entries)
    → (guid ≡ key) ⊎ (has key left ≡ true)
has-after key guid entries left h (inl same) = inr (rw same h)
has-after key guid entries left h (inr gone) = rw gone (has-delete key guid entries h)

module _ (received : List Message) where
  get-AreReceives :
      (key : String) (entries : Entries Message) {d : Message}
      → get key entries ≡ some d
      → AreReceives received entries
      → (to_lower d.guid ≡ key) × Mem d received
  unfolding get
  get-AreReceives key [] h all = cc
  get-AreReceives key ((k, a) ∷ entries) {d} h ((guid, seen), rest) =
      elim (Bool-cases (str_eq k key)) [
        | inl same ↦
            let here : a ≡ d = cc (rw same at h) in
            rw⁻¹ here (guid ∙ (str_eq_iff k key).0 same, seen)
        | inr other ↦ get-AreReceives key entries (rw other at h) rest
      ]

  delete-AreReceives :
      (key : String) (entries : Entries Message)
      → AreReceives received entries
      → AreReceives received (delete key entries)
  unfolding delete
  delete-AreReceives key [] all = tt
  delete-AreReceives key ((k, a) ∷ entries) (first, rest) = elim (Bool-cases (str_eq k key)) [
    | inl same ↦ rw same (delete-AreReceives key entries rest)
    | inr other ↦ rw other (first, delete-AreReceives key entries rest)
  ]

  deliver-IsDelivered :
      (source d : Message) (status : Option String) {m : Message}
      → deliver source d status ≡ ok m
      → to_lower d.guid ≡ to_lower source.guid
      → Mem d received
      → IsDelivered received status source m
  unfolding deliver
  deliver-IsDelivered source d status h guid seen =
      let (agree, h₁) = >>-eq-ok _ _ h in
      let (api, same) = >>-eq-ok _ _ h₁ in
      let (ab, c) = or-eq-IsFalse _ _ (throw_if-accepts _ _ agree) in
      let (a, b) = or-eq-IsFalse _ _ ab in
      record {
        receive = d;
        seen = seen;
        guid = guid;
        direction = ne_iff.0 a;
        amount = ne_iff.0 b;
        receiver = ne_iff.0 c;
        agreed = throw_if-accepts _ _ api;
        outcome = sym (ok_inj same);
      }

  leave-IsPending :
      (source : Message) (status : Option String) {m : Message}
      → leave source status ≡ ok m
      → IsPending status source m
  unfolding leave
  leave-IsPending source status h =
      let (api, same) = >>-eq-ok _ _ h in
      record { unclaimed = throw_if-accepts _ _ api; outcome = sym (ok_inj same) }

  module _ (statuses : Option (List (String × String))) where
    abbrev status_of : Message → Option String
    status_of source = api_status_of statuses (to_lower source.guid)

    match_message-outcome :
        (source : Message) (entries : Entries Message) {m : Message} {left : Entries Message}
        → match_message statuses source entries ≡ ok (m, left)
        → AreReceives received entries
        → (IsDelivered received (status_of source) source m ⊎ IsPending (status_of source) source m)
          × AreReceives received left
          × ((left ≡ entries) ⊎ (left ≡ delete (to_lower source.guid) entries))
    unfolding match_message
    match_message-outcome source entries {m} {left} h all =
        elim (Option-cases (get (to_lower source.guid) entries)) [
          | inl missing ↦
              let (m', pending, same) =
                >>=-eq-ok (leave source (status_of source)) _ (rw (missing, match_message) at h) in
              let pair : (m', entries) ≡ (m, left) = ok_inj same in
              let m_eq : m' ≡ m = ap (λ (p : Message × Entries Message). p.0) pair in
              let left_eq : entries ≡ left = ap (λ (p : Message × Entries Message). p.1) pair in
              (
                inr (rw⁻¹ m_eq (leave-IsPending source _ pending)),
                rw⁻¹ left_eq all,
                inl (sym left_eq),
              )
          | inr present ↦
              let (d, found) = present in
              let (m', delivered, same) =
                >>=-eq-ok (deliver source d (status_of source)) _
                  (rw (found, match_message) at h) in
              let pair : (m', delete (to_lower source.guid) entries) ≡ (m, left) = ok_inj same in
              let m_eq : m' ≡ m = ap (λ (p : Message × Entries Message). p.0) pair in
              let left_eq : delete (to_lower source.guid) entries ≡ left =
                ap (λ (p : Message × Entries Message). p.1) pair in
              let (guid, seen) = get-AreReceives (to_lower source.guid) entries found all in
              (
                inl (rw⁻¹ m_eq (deliver-IsDelivered source d _ delivered guid seen)),
                rw⁻¹ left_eq (delete-AreReceives _ entries all),
                inr (sym left_eq),
              )
        ]

    pub match_messages-AreOutcomes :
        (sources : List Message) (entries : Entries Message) {ms : List Message}
        {unused : Entries Message}
        → match_messages statuses sources entries ≡ ok (ms, unused)
        → AreReceives received entries
        → AreOutcomes received status_of sources ms
    unfolding match_messages AreOutcomes
    match_messages-AreOutcomes [] entries {ms} h all =
        let none_left : [] ≡ ms = ap (λ (p : List Message × Entries Message). p.0) (ok_inj h) in
        rw⁻¹ none_left tt
    match_messages-AreOutcomes (source ∷ sources) entries {ms} h all =
        let (first, matched, h₁) = >>=-eq-ok (match_message statuses source entries) _ h in
        let (others, matched_rest, same) =
          >>=-eq-ok (match_messages statuses sources first.1) _ h₁ in
        let (outcome, receives, _) = match_message-outcome source entries matched all in
        let whole : first.0 ∷ others.0 ≡ ms =
          ap (λ (p : List Message × Entries Message). p.0) (ok_inj same) in
        rw⁻¹ whole (outcome, match_messages-AreOutcomes sources first.1 matched_rest receives)

    -- A receive in the map is either taken by a sent message with its GUID or left over.
    pub match_messages-has :
        (sources : List Message) (entries : Entries Message) {ms : List Message}
        {unused : Entries Message} (key : String)
        → match_messages statuses sources entries ≡ ok (ms, unused)
        → AreReceives received entries
        → has key entries ≡ true
        → (includes (map (λ (m : Message). to_lower m.guid) sources) key ≡ true)
          ⊎ (has key unused ≡ true)
    unfolding match_messages
    match_messages-has [] entries {ms} {unused} key h all found =
        let same : entries ≡ unused = ap (λ (p : List Message × Entries Message). p.1) (ok_inj h) in
        inr (rw same at found)
    match_messages-has (source ∷ sources) entries {ms} {unused} key h all found =
        let (first, matched, h₁) = >>=-eq-ok (match_message statuses source entries) _ h in
        let (others, matched_rest, same) =
          >>=-eq-ok (match_messages statuses sources first.1) _ h₁ in
        let (_, receives, taken) = match_message-outcome source entries matched all in
        let left_eq : others.1 ≡ unused =
          ap (λ (p : List Message × Entries Message). p.1) (ok_inj same) in
        elim (has-after key (to_lower source.guid) entries first.1 found taken) [
          | inl here ↦ inl (includes-here _ here)
          | inr later ↦ elim (match_messages-has sources first.1 key matched_rest receives later) [
            | inl there ↦ inl (includes-there _ (to_lower source.guid) key there)
            | inr still ↦ inr (rw left_eq at still)
          ]
        ]
