-- ===== src/Scan/Told.antt =====
-- The status of each message of a manifest, by what the API said of it.
use san_layerzero_bridge.Base.{
  String, ◌≡◌, refl, sym, ◌⊎◌, inl, inr, true, false, Option, none, some, List, [], ◌∷◌, ◌++◌,
  Bool-cases, ◌==◌, ok, All, includes,
}
use san_layerzero_bridge.Base.{string_Eq, str_eq, str_eq_iff, false, inl, inr}
use mathlib.Core.Path.{subst}
use mathlib.Core.List.{Mem}
use san_layerzero_bridge.Base.Accepts.{str_eq-ne, eq_iff}
use san_layerzero_bridge.Base.Members.{includes-here, includes-there}
use san_layerzero_bridge.Base.Text.{to_lower, to_upper}
use san_layerzero_bridge.External.{External}
use san_layerzero_bridge.InFlight.Data.{Message, Manifest}
use san_layerzero_bridge.Scan.Agreement.{build_in_flight_manifest-outcomes}
use san_layerzero_bridge.Scan.Sees.{All-canonical_order}
use san_layerzero_bridge.InFlight.Spec.{guid_of}
use san_layerzero_bridge.Scan.Build.{BuildInput, api_status_of, claims_delivery, denies_delivery}
use san_layerzero_bridge.Scan.Manifest.{build_in_flight_manifest}
use san_layerzero_bridge.Scan.Range.{unresolved_status}
use san_layerzero_bridge.Scan.Spec.{IsDelivered, IsPending, AreOutcomes}

abbrev pub failing : List String
failing = "FAILED" ∷ []

abbrev pub blocking : List String
blocking = "BLOCKED" ∷ "PAYLOAD_STORED" ∷ []

abbrev pub moving : List String
moving = "INFLIGHT" ∷ "CONFIRMING" ∷ []

-- The status that an undelivered message gets for the name that the API gives in upper case: the API
-- does not name it delivered.
abbrev pub IsTold : Option String → String → Type 0
IsTold none status = status ≡ "unresolved"
IsTold (some name) status =
    ((includes failing (to_upper name) ≡ true) × (status ≡ "failed"))
    ⊎ ((includes blocking (to_upper name) ≡ true) × (status ≡ "blocked"))
    ⊎ ((includes moving (to_upper name) ≡ true) × (status ≡ "in_flight"))
    ⊎ ((includes ("DELIVERED" ∷ failing ++ blocking ++ moving) (to_upper name) ≡ false)
        × (status ≡ "unresolved"))

-- What the API may say of a message that was delivered
abbrev pub AgreesDelivered : Option String → Type 0
AgreesDelivered none = Unit
AgreesDelivered (some name) =
    (name ≡ "") ⊎ (includes ("DELIVERED" ∷ "CONFIRMING" ∷ []) (to_upper name) ≡ true)

-- One of the receives has the message's GUID, and the message has its evidence.
pub record HasReceive (received : List Message) (m : Message) : Type 0 where
  pub receive : Message
  pub seen : Mem receive received
  pub guid : to_lower receive.guid ≡ to_lower m.guid
  pub direction : receive.direction ≡ m.direction
  pub transaction : m.destination_transaction ≡ receive.destination_transaction
  pub height : m.destination_height ≡ receive.destination_height
  pub block_hash : m.destination_block_hash ≡ receive.destination_block_hash

-- A message has the status that the API gave for its GUID, and is delivered by a receive with which the
-- API agrees, or has the status that the API tells.
pub record IsReported (input : BuildInput) (m : Message) : Type 0 where
  pub api : m.layer_zero_api_status ≡ api_status_of input.layer_zero_statuses (to_lower m.guid)
  pub outcome :
      ((m.status ≡ "delivered")
        × AgreesDelivered m.layer_zero_api_status
        × HasReceive input.primary.destination_messages m)
      ⊎ IsTold m.layer_zero_api_status m.status

includes-other :
    (ss : List String) (label s : String)
    → str_eq s label ≡ false
    → includes ss s ≡ false
    → includes (label ∷ ss) s ≡ false
unfolding includes
includes-other ss label s differ others = elim (Bool-cases (str_eq label s)) [
  | inl same ↦ absurd (str_eq-ne s label differ (sym ((str_eq_iff label s).0 same)))
  | inr apart ↦ rw (apart, others) refl
]

includes-none :
    (n : String)
    → str_eq n "FAILED" ≡ false
    → str_eq n "BLOCKED" ≡ false
    → str_eq n "PAYLOAD_STORED" ≡ false
    → str_eq n "INFLIGHT" ≡ false
    → str_eq n "CONFIRMING" ≡ false
    → includes (failing ++ blocking ++ moving) n ≡ false
unfolding includes
includes-none n a b c d e =
    let confirming = includes-other [] "CONFIRMING" n e refl in
    let flying = includes-other ("CONFIRMING" ∷ []) "INFLIGHT" n d confirming in
    let stored = includes-other moving "PAYLOAD_STORED" n c flying in
    includes-other (blocking ++ moving) "FAILED" n a
      (includes-other ("PAYLOAD_STORED" ∷ moving) "BLOCKED" n b stored)

unresolved_status-IsTold :
    (api : Option String) → claims_delivery api ≡ false → IsTold api (unresolved_status api)
unfolding unresolved_status
unresolved_status-IsTold none h = refl
unresolved_status-IsTold (some name) h =
    let n = to_upper name in
    elim (Bool-cases (n == "FAILED")) [
      | inl failed ↦ inl (includes-here [] (sym (eq_iff.0 failed)), rw failed refl)
      | inr a ↦ elim (Bool-cases (n == "BLOCKED")) [
        | inl blocked ↦ inr (inl (includes-here _ (sym (eq_iff.0 blocked)), rw (a, blocked) refl))
        | inr b ↦ elim (Bool-cases (n == "PAYLOAD_STORED")) [
          | inl stored ↦ inr (
              inl (
                includes-there _ "BLOCKED" n (includes-here [] (sym (eq_iff.0 stored))),
                rw (a, b, stored) refl,
              ))
          | inr c ↦ elim (Bool-cases (n == "INFLIGHT")) [
            | inl flying ↦
                inr (inr (inl (includes-here _ (sym (eq_iff.0 flying)), rw (a, b, c, flying) refl)))
            | inr d ↦ elim (Bool-cases (n == "CONFIRMING")) [
              | inl confirming ↦ inr (
                  inr (
                    inl (
                      includes-there _ "INFLIGHT" n (includes-here [] (sym (eq_iff.0 confirming))),
                      rw (a, b, c, d, confirming) refl,
                    )))
              | inr e ↦ inr (
                  inr (
                    inr (
                      includes-other _ "DELIVERED" n h (includes-none n a b c d e),
                      rw (a, b, c, d, e) refl,
                    )))
            ]
          ]
        ]
      ]
    ]

denies_delivery-AgreesDelivered :
    (api : Option String) → denies_delivery api ≡ false → AgreesDelivered api
denies_delivery-AgreesDelivered none h = tt
denies_delivery-AgreesDelivered (some name) h = elim (Bool-cases (name == "")) [
  | inl empty ↦ inl (eq_iff.0 empty)
  | inr filled ↦ elim (Bool-cases (includes ("DELIVERED" ∷ "CONFIRMING" ∷ []) (to_upper name))) [
    | inl agrees ↦ inr agrees
    | inr denies ↦ absurd (cc (rw (filled, denies) at h))
  ]
]

module _ (input : BuildInput) where
  abbrev status_of : Message → Option String
  status_of source = api_status_of input.layer_zero_statuses (guid_of source)

  delivered-IsReported :
      (source message : Message)
      → IsDelivered input.primary.destination_messages (status_of source) source message
      → IsReported input message
  delivered-IsReported source message d = subst (IsReported input) (sym d.outcome) (record {
    api = refl;
    outcome = inl (
      refl,
      denies_delivery-AgreesDelivered (status_of source) d.agreed,
      record {
        receive = d.receive;
        seen = d.seen;
        guid = d.guid;
        direction = d.direction;
        transaction = refl;
        height = refl;
        block_hash = refl;
      },
    );
  })

  pending-IsReported :
      (source message : Message)
      → IsPending (status_of source) source message
      → IsReported input message
  pending-IsReported source message p = subst (IsReported input) (sym p.outcome) (record {
    api = refl;
    outcome = inr (unresolved_status-IsTold (status_of source) p.unclaimed);
  })

  outcomes-IsReported :
      (sources messages : List Message)
      → AreOutcomes input.primary.destination_messages status_of sources messages
      → All (IsReported input) messages
  unfolding AreOutcomes
  outcomes-IsReported [] [] h = tt
  outcomes-IsReported (s ∷ sources) [] h = absurd h
  outcomes-IsReported [] (m ∷ messages) h = absurd h
  outcomes-IsReported (s ∷ sources) (m ∷ messages) (first, rest) =
      let later = outcomes-IsReported sources messages rest in
      elim first [
        | inl d ↦ (delivered-IsReported s m d, later)
        | inr p ↦ (pending-IsReported s m p, later)
      ]

-- In a manifest that is built, every message has the status that the API gave for its GUID. Either it is
-- delivered, with the evidence of a receive of its GUID and direction, and the API said nothing, or
-- named it delivered or confirming; or it has the status that goes with the API's name: failed for
-- FAILED, blocked for BLOCKED and PAYLOAD_STORED, in flight for INFLIGHT and CONFIRMING, and unresolved
-- for no name and for any other, which is never DELIVERED. The API's names are read in upper case.
pub build_in_flight_manifest-IsReported :
    (x : External) (input : BuildInput) {m : Manifest}
    → build_in_flight_manifest x input ≡ ok m
    → All (IsReported input) m.messages
build_in_flight_manifest-IsReported x input {m} h =
    let (matched, order, outcomes) = build_in_flight_manifest-outcomes x input h in
    subst (All (IsReported input)) (sym order) (
      All-canonical_order x (IsReported input) matched
        (outcomes-IsReported input _ matched outcomes))
