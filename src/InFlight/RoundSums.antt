-- ===== src/InFlight/RoundSums.antt =====
-- What one round of the loop over the messages adds to its variables.
use san_layerzero_bridge.Base.{
  refl, ℕ, ◌≡◌, String, true, false, ok, ◌⊎◌, inl, inr, ◌∷◌, str_eq, ◌+◌, Bool-cases, str_eq_refl,
  arith, >>=-eq-ok, ap, ◌∙◌, sym, str_eq_iff, >>-eq-ok, ok_inj, if◌then◌else◌, ◌==◌, ◌>>◌,
  string_Eq,
}
use san_layerzero_bridge.Base.Accepts.{str_eq-ne}
use san_layerzero_bridge.InFlight.Checks.{nonempty}
use san_layerzero_bridge.Base.Text.{parse_digits}
use san_layerzero_bridge.InFlight.Data.{Message, Manifest}
use san_layerzero_bridge.InFlight.Spec.{weight, is_undelivered}
use san_layerzero_bridge.InFlight.Message.{
  Tally, tally_message, add_unresolved, solana_to_robinhood, robinhood_to_solana, validate_pathway,
  validate_delivered, validate_undelivered, validate_fields,
}
use san_layerzero_bridge.InFlight.Rounds.{
  Fields, Round, validate_fields-Fields, validate_pathway-IsWithin, validate_delivered-IsWithin,
  validate_undelivered-none, direction-cases,
}

pub forwards-ne : str_eq solana_to_robinhood robinhood_to_solana ≡ false
unfolding str_eq
forwards-ne = refl

pub backwards-ne : str_eq robinhood_to_solana solana_to_robinhood ≡ false
unfolding str_eq
backwards-ne = refl

pub weight-delivered :
    (d : String) (m : Message) → str_eq m.status "delivered" ≡ true → weight d m ≡ 0
unfolding weight
weight-delivered d m h = rw h refl

module _ (m : Message) (t : Tally) (n : ℕ) (undelivered : str_eq m.status "delivered" ≡ false)
    (e : parse_digits m.amount_raw ≡ n)
    (d : (m.direction ≡ solana_to_robinhood) ⊎ (m.direction ≡ robinhood_to_solana)) where
  add_unresolved-forwards :
      (add_unresolved m n t).solana_to_robinhood_raw
      ≡ t.solana_to_robinhood_raw + weight solana_to_robinhood m
  unfolding add_unresolved weight
  add_unresolved-forwards = elim d [
    | inl same ↦ rw (undelivered, same, e, str_eq_refl solana_to_robinhood) refl
    | inr same ↦ rw (undelivered, same, e, backwards-ne) (omega arith)
  ]

  add_unresolved-backwards :
      (add_unresolved m n t).robinhood_to_solana_raw
      ≡ t.robinhood_to_solana_raw + weight robinhood_to_solana m
  unfolding add_unresolved weight
  add_unresolved-backwards = elim d [
    | inl same ↦
        rw (undelivered, same, e, str_eq_refl solana_to_robinhood, forwards-ne) (omega arith)
    | inr same ↦ rw (undelivered, same, e, backwards-ne, str_eq_refl robinhood_to_solana) refl
  ]

  add_unresolved-count : (add_unresolved m n t).unresolved ≡ t.unresolved + is_undelivered m
  unfolding add_unresolved is_undelivered
  add_unresolved-count = elim (Bool-cases (str_eq m.direction solana_to_robinhood)) [
    | inl same ↦ rw (undelivered, same) refl
    | inr differ ↦ rw (undelivered, differ) refl
  ]

  add_unresolved-seen : (add_unresolved m n t).seen ≡ t.seen
  unfolding add_unresolved
  add_unresolved-seen = elim (Bool-cases (str_eq m.direction solana_to_robinhood)) [
    | inl same ↦ rw same refl
    | inr differ ↦ rw differ refl
  ]

module _ (value : Manifest) (m : Message) (t : Tally) where
  delivered-Round :
      (guid api : String) (height n : ℕ)
      → Fields m t.seen guid height n
      → validate_pathway value m guid height ≡ ok tt
      → str_eq m.status "delivered" ≡ true
      → validate_delivered value m guid api ≡ ok tt
      → Round value m t (record t { seen = guid ∷ t.seen })
  unfolding is_undelivered
  delivered-Round guid api height n f path status checked = record {
    seen = ap (λ s. s ∷ t.seen) (sym f.guid_eq);
    fresh = rw f.guid_eq f.fresh;
    forwards = rw (weight-delivered _ m status) (omega arith);
    backwards = rw (weight-delivered _ m status) (omega arith);
    unresolved = rw status (omega arith);
    sound = record {
      guid = f.hash;
      amount_digits = f.amount_digits;
      amount_positive = rw f.amount_eq f.amount_positive;
      direction = direction-cases _ f.direction;
      height = validate_pathway-IsWithin value m guid height f.height_eq path;
      evidence = (
        λ _. validate_delivered-IsWithin value m guid api checked,
        λ ne. absurd (ne ((str_eq_iff _ _).0 status)),
      );
    };
  }

  undelivered-Round :
      (guid api : String) (height n : ℕ)
      → Fields m t.seen guid height n
      → validate_pathway value m guid height ≡ ok tt
      → str_eq m.status "delivered" ≡ false
      → validate_undelivered m guid api ≡ ok tt
      → Round value m t (add_unresolved m n (record t { seen = guid ∷ t.seen }))
  undelivered-Round guid api height n f path status checked =
      let direction = direction-cases _ f.direction in
      let t₁ : Tally = record t { seen = guid ∷ t.seen } in
      record {
        seen =
            add_unresolved-seen m t₁ n status f.amount_eq direction
            ∙ ap (λ s. s ∷ t.seen) (sym f.guid_eq);
        fresh = rw f.guid_eq f.fresh;
        forwards = add_unresolved-forwards m t₁ n status f.amount_eq direction;
        backwards = add_unresolved-backwards m t₁ n status f.amount_eq direction;
        unresolved = add_unresolved-count m t₁ n status f.amount_eq direction;
        sound = record {
          guid = f.hash;
          amount_digits = f.amount_digits;
          amount_positive = rw f.amount_eq f.amount_positive;
          direction = direction;
          height = validate_pathway-IsWithin value m guid height f.height_eq path;
          evidence = (
            λ e. absurd (str_eq-ne _ _ status e),
            λ _. validate_undelivered-none value m guid api checked,
          );
        };
      }

  status-Round :
      (guid api : String) (height n : ℕ) {t' : Tally}
      → Fields m t.seen guid height n
      → validate_pathway value m guid height ≡ ok tt
      → (if m.status == "delivered"
          then (validate_delivered value m guid api >> ok (record t { seen = guid ∷ t.seen }))
          else (validate_undelivered m guid api
              >> ok (add_unresolved m n (record t { seen = guid ∷ t.seen }))))
        ≡ ok t'
      → Round value m t t'
  status-Round guid api height n f path h = elim (Bool-cases (str_eq m.status "delivered")) [
    | inl status ↦
        let (checked, same) = >>-eq-ok _ _ (rw status at h) in
        rw⁻¹ (ok_inj same) (delivered-Round guid api height n f path status checked)
    | inr status ↦
        let (checked, same) = >>-eq-ok _ _ (rw status at h) in
        rw⁻¹ (ok_inj same) (undelivered-Round guid api height n f path status checked)
  ]

  pub tally_message-Round : {t' : Tally} → tally_message value m t ≡ ok t' → Round value m t t'
  unfolding tally_message
  tally_message-Round {t'} h =
      let (fields, reads, h₁) = >>=-eq-ok (validate_fields m t.seen) _ h in
      let (api, _, h₂) = >>=-eq-ok (nonempty m.layer_zero_api_status _) _ h₁ in
      let (path, h₃) = >>-eq-ok _ _ h₂ in
      status-Round fields.0 api fields.1 fields.2 (validate_fields-Fields m t.seen reads) path h₃
