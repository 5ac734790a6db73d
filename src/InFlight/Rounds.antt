-- ===== src/InFlight/Rounds.antt =====
-- What one round of the loop over the messages establishes and adds.
use san_layerzero_bridge.Base.{
  ℕ, ◌≡◌, refl, ap, ◌∙◌, ◌<◌, String, true, false, none, some, List, [], ◌∷◌, ok, string_Eq,
  includes, >>-eq-ok, >>=-eq-ok, ok_inj, ◌⊎◌, Bool-cases, ◌+◌, str_eq, inl, sym, str_eq_iff, inr,
  arith,
}
use san_layerzero_bridge.Base.Accepts.{throw_if-accepts, not-eq-false, or-eq-IsFalse}
use san_layerzero_bridge.Base.Text.{is_digits, parse_digits, is_hash32}
use san_layerzero_bridge.InFlight.Data.{Message, Manifest}
use san_layerzero_bridge.InFlight.Checks.{unsigned_integer, hash32}
use san_layerzero_bridge.InFlight.Message.{
  solana_to_robinhood, robinhood_to_solana, validate_fields, validate_pathway, validate_delivered,
  validate_undelivered, Tally,
}
use san_layerzero_bridge.InFlight.Spec.{
  guid_of, IsWithin, source_range, destination_range, weight, is_undelivered, IsSound,
}
use san_layerzero_bridge.InFlight.Inversion.{
  unsigned_integer-eq-ok, hash32-eq-ok, unsigned_integer-some, is_present-none, ltb-false,
}

pub record Fields (m : Message) (seen : List String) (guid : String) (height amount : ℕ)
    : Type 0 where
  pub hash : is_hash32 m.guid ≡ true
  pub guid_eq : guid_of m ≡ guid
  pub fresh : includes seen guid ≡ false
  pub height_eq : parse_digits m.source_height ≡ height
  pub amount_digits : is_digits m.amount_raw ≡ true
  pub amount_eq : parse_digits m.amount_raw ≡ amount
  pub amount_positive : 0 < amount
  pub direction : includes (solana_to_robinhood ∷ robinhood_to_solana ∷ []) m.direction ≡ true

pub validate_fields-Fields :
    (m : Message) (seen : List String) {guid : String} {height amount : ℕ}
    → validate_fields m seen ≡ ok (guid, height, amount)
    → Fields m seen guid height amount
unfolding validate_fields
validate_fields-Fields m seen {guid} {height} {amount} h =
    let (_, h₁) = >>-eq-ok _ _ h in
    let (g, hash, h₂) = >>=-eq-ok (hash32 (some m.guid) "LayerZero GUID") _ h₁ in
    let (fresh, h₃) = >>-eq-ok _ _ h₂ in
    let (_, h₄) = >>-eq-ok _ _ h₃ in
    let (n, reads_height, h₅) = >>=-eq-ok (unsigned_integer (some m.source_height) _ false) _ h₄ in
    let (a, reads_amount, h₆) = >>=-eq-ok (unsigned_integer (some m.amount_raw) _ true) _ h₅ in
    let (_, h₇) = >>-eq-ok _ _ h₆ in
    let (_, h₈) = >>-eq-ok _ _ h₇ in
    let (_, h₉) = >>-eq-ok _ _ h₈ in
    let (_, h₁₀) = >>-eq-ok _ _ h₉ in
    let (_, h₁₁) = >>-eq-ok _ _ h₁₀ in
    let (_, h₁₂) = >>-eq-ok _ _ h₁₁ in
    let (direction, h₁₃) = >>-eq-ok _ _ h₁₂ in
    let (_, same) = >>-eq-ok _ _ h₁₃ in
    let (hash_ok, guid_same) = hash32-eq-ok m.guid _ hash in
    let (_, height_same, _) = unsigned_integer-eq-ok m.source_height _ false reads_height in
    let (digits, amount_same, positive) = unsigned_integer-eq-ok m.amount_raw _ true reads_amount in
    let all = ok_inj same in
    let guids = ap (λ (t : String × ℕ × ℕ). t.0) all in
    let heights = ap (λ (t : String × ℕ × ℕ). t.1) all in
    let amounts = ap (λ (t : String × ℕ × ℕ). t.2) all in
    record {
      hash = hash_ok;
      guid_eq = guid_same ∙ guids;
      fresh = rw guids at (throw_if-accepts _ _ fresh);
      height_eq = height_same ∙ heights;
      amount_digits = digits;
      amount_eq = amount_same ∙ amounts;
      amount_positive = rw amounts at (positive refl);
      direction = not-eq-false _ (throw_if-accepts _ _ direction);
    }

module _ (value : Manifest) (m : Message) where
  pub validate_pathway-IsWithin :
      (guid : String) (height : ℕ)
      → parse_digits m.source_height ≡ height
      → validate_pathway value m guid height ≡ ok tt
      → IsWithin m.source_height (source_range value m)
  unfolding validate_pathway
  validate_pathway-IsWithin guid height e h =
      let (_, h₁) = >>-eq-ok _ _ h in
      let (from, reads_from, h₂) =
        >>=-eq-ok (unsigned_integer (some (source_range value m).0) _ false) _ h₁ in
      let (to, reads_to, h₃) =
        >>=-eq-ok (unsigned_integer (some (source_range value m).1) _ false) _ h₂ in
      let (inside, _) = >>-eq-ok _ _ h₃ in
      let (above, below) = or-eq-IsFalse _ _ (throw_if-accepts _ _ inside) in
      let (_, from_eq, _) = unsigned_integer-eq-ok _ _ false reads_from in
      let (_, to_eq, _) = unsigned_integer-eq-ok _ _ false reads_to in
      (rw (from_eq, e) (ltb-false _ _ above), rw (to_eq, e) (ltb-false _ _ below))

  pub validate_delivered-IsWithin :
      (guid api_status : String)
      → validate_delivered value m guid api_status ≡ ok tt
      → (height : String) × (m.destination_height ≡ some height)
        × IsWithin height (destination_range value m)
  unfolding validate_delivered
  validate_delivered-IsWithin guid api_status h =
      let (_, h₁) = >>-eq-ok _ _ h in
      let (n, reads_height, h₂) = >>=-eq-ok (unsigned_integer m.destination_height _ false) _ h₁ in
      let (from, reads_from, h₃) =
        >>=-eq-ok (unsigned_integer (some (destination_range value m).0) _ false) _ h₂ in
      let (to, reads_to, h₄) =
        >>=-eq-ok (unsigned_integer (some (destination_range value m).1) _ false) _ h₃ in
      let (inside, _) = >>-eq-ok _ _ h₄ in
      let (above, below) = or-eq-IsFalse _ _ (throw_if-accepts _ _ inside) in
      let (_, from_eq, _) = unsigned_integer-eq-ok _ _ false reads_from in
      let (_, to_eq, _) = unsigned_integer-eq-ok _ _ false reads_to in
      let (height, found, e) = unsigned_integer-some m.destination_height _ false reads_height in
      (height, found, (rw (from_eq, e) (ltb-false _ _ above), rw (to_eq, e) (ltb-false _ _ below)))

  pub validate_undelivered-none :
      (guid api_status : String)
      → validate_undelivered m guid api_status ≡ ok tt
      → (m.destination_transaction ≡ none)
        × (m.destination_height ≡ none)
        × (m.destination_block_hash ≡ none)
  unfolding validate_undelivered
  validate_undelivered-none guid api_status h =
      let (absent, _) = >>-eq-ok _ _ h in
      let (ab, c) = or-eq-IsFalse _ _ (throw_if-accepts _ _ absent) in
      let (a, b) = or-eq-IsFalse _ _ ab in
      (is_present-none _ a, is_present-none _ b, is_present-none _ c)

pub direction-cases :
    (d : String)
    → includes (solana_to_robinhood ∷ robinhood_to_solana ∷ []) d ≡ true
    → (d ≡ solana_to_robinhood) ⊎ (d ≡ robinhood_to_solana)
unfolding includes
direction-cases d h = elim (Bool-cases (str_eq solana_to_robinhood d)) [
  | inl same ↦ inl (sym ((str_eq_iff _ _).0 same))
  | inr differ ↦ elim (Bool-cases (str_eq robinhood_to_solana d)) [
    | inl same ↦ inr (sym ((str_eq_iff _ _).0 same))
    | inr differ' ↦ absurd (ground arith)
  ]
]

pub record Round (value : Manifest) (m : Message) (t t' : Tally) : Type 0 where
  pub seen : t'.seen ≡ guid_of m ∷ t.seen
  pub fresh : includes t.seen (guid_of m) ≡ false
  pub forwards :
      t'.solana_to_robinhood_raw ≡ t.solana_to_robinhood_raw + weight solana_to_robinhood m
  pub backwards :
      t'.robinhood_to_solana_raw ≡ t.robinhood_to_solana_raw + weight robinhood_to_solana m
  pub unresolved : t'.unresolved ≡ t.unresolved + is_undelivered m
  pub sound : IsSound value m
