-- ===== src/Scan/Sums.antt =====
-- The summary of a manifest that is built, against the sums that the parser recomputes.
use mathlib.Core.Path.{subst}
use san_layerzero_bridge.Base.{
  ℕ, ◌+◌, ◌≡◌, ◌⊎◌, inl, inr, refl, sym, ◌∙◌, ap, true, List, [], ◌∷◌, ok, All, pos, ◌+ℤ◌, str_eq,
  str_eq_refl, Bool-cases, >>-eq-ok, >>=-eq-ok, ok_inj, arith, int, length,
}
use san_layerzero_bridge.Base.Text.{parse_digits, is_digits}
use san_layerzero_bridge.Base.BigInt.{big_int-digits}
use san_layerzero_bridge.Base.Decimal.{parse_digits-show_nat}
use san_layerzero_bridge.External.{External}
use san_layerzero_bridge.InFlight.Json.{show_number}
use san_layerzero_bridge.InFlight.Data.{Message, Manifest}
use san_layerzero_bridge.InFlight.Encode.{canonical_order}
use san_layerzero_bridge.InFlight.Message.{solana_to_robinhood, robinhood_to_solana}
use san_layerzero_bridge.InFlight.Spec.{weight, total, is_undelivered, undelivered}
use san_layerzero_bridge.InFlight.RoundSums.{forwards-ne, backwards-ne}
use san_layerzero_bridge.Scan.Build.{
  BuildInput, Sums, add_message, add_messages, no_sums, collect_destinations, match_messages,
}
use san_layerzero_bridge.Scan.Manifest.{build_in_flight_manifest, unsigned_manifest}

+ℤ-pos : (a b : ℕ) → pos a +ℤ pos b ≡ pos (a + b)
unfolding ◌+ℤ◌
+ℤ-pos a b = ground arith

-- The amount is written in digits, and the direction is one of the two.
abbrev pub IsCounted : Message → Type 0
IsCounted m =
    (is_digits m.amount_raw ≡ true)
    × ((m.direction ≡ solana_to_robinhood) ⊎ (m.direction ≡ robinhood_to_solana))

abbrev sums_of : ℕ → ℕ → ℕ → Sums
sums_of a b n = record {
  solana_to_robinhood_raw = pos a;
  robinhood_to_solana_raw = pos b;
  unresolved_packet_count = n;
}

sums-eq :
    {a a' b b' n n' : ℕ} → a ≡ a' → b ≡ b' → n ≡ n' → ok (sums_of a b n) ≡ ok (sums_of a' b' n')
sums-eq e f g = rw (e, f, g) refl

add_message-sums :
    (m : Message) (a b n : ℕ)
    → IsCounted m
    → add_message m (sums_of a b n)
      ≡ ok (
          sums_of
            (a + weight solana_to_robinhood m)
            (b + weight robinhood_to_solana m)
            (n + is_undelivered m))
unfolding add_message weight is_undelivered
add_message-sums m a b n (digits, direction) = elim (Bool-cases (str_eq m.status "delivered")) [
  | inl delivered ↦ rw delivered (sums-eq (omega arith) (omega arith) (omega arith))
  | inr not_delivered ↦ elim direction [
    | inl same ↦
        rw
          (
            not_delivered,
            big_int-digits m.amount_raw digits,
            same,
            str_eq_refl solana_to_robinhood,
            forwards-ne,
            +ℤ-pos,
          )
          (sums-eq refl (omega arith) refl)
    | inr same ↦
        rw
          (
            not_delivered,
            big_int-digits m.amount_raw digits,
            same,
            str_eq_refl robinhood_to_solana,
            backwards-ne,
            +ℤ-pos,
          )
          (sums-eq (omega arith) refl refl)
  ]
]

add_messages-sums :
    (ms : List Message) (a b n : ℕ)
    → All IsCounted ms
    → add_messages ms (sums_of a b n)
      ≡ ok (
          sums_of
            (a + total solana_to_robinhood ms)
            (b + total robinhood_to_solana ms)
            (n + undelivered ms))
unfolding add_messages total undelivered
add_messages-sums [] a b n all = sums-eq (omega arith) (omega arith) (omega arith)
add_messages-sums (m ∷ ms) a b n (counted, all) =
    rw (add_message-sums m a b n counted)
      (add_messages-sums ms _ _ _ all ∙ sums-eq (omega arith) (omega arith) (omega arith))

module _ (x : External) (input : BuildInput) where
  -- Where every message of a manifest that is built has an amount in digits and one of the two
  -- directions, the summary's texts read back as the sums of the undelivered amounts of each direction,
  -- and its counts are those of the messages and of the undelivered ones, which is what the parser
  -- demands.
  pub build_in_flight_manifest-sums :
      {m : Manifest}
      → build_in_flight_manifest x input ≡ ok m
      → All IsCounted m.messages
      → (parse_digits m.summary.solana_to_robinhood_raw ≡ total solana_to_robinhood m.messages)
        × (parse_digits m.summary.robinhood_to_solana_raw ≡ total robinhood_to_solana m.messages)
        × (m.summary.result_count ≡ int (pos (length m.messages)))
        × (m.summary.unresolved_packet_count ≡ int (pos (undelivered m.messages)))
  unfolding build_in_flight_manifest unsigned_manifest show_number
  build_in_flight_manifest-sums {m} h counted =
      let (_, h₁) = >>-eq-ok _ _ h in
      let (entries, _, h₂) =
        >>=-eq-ok (collect_destinations input.primary.destination_messages []) _ h₁ in
      let (pair, _, h₃) =
        >>=-eq-ok (match_messages input.layer_zero_statuses input.primary.source_messages entries) _
          h₂ in
      let (_, h₄) = >>-eq-ok _ _ h₃ in
      let messages = canonical_order x pair.0 in
      let (sums, added, same) = >>=-eq-ok (add_messages messages no_sums) _ h₄ in
      let m_eq : _ ≡ m = ok_inj same in
      let all : All IsCounted messages =
        subst (λ (v : Manifest). All IsCounted v.messages) (sym m_eq) counted in
      let sums_eq = ok_inj (sym added ∙ add_messages-sums messages 0 0 0 all) in
      rw⁻¹ m_eq (
        rw sums_eq (
          parse_digits-show_nat _ ∙ omega arith,
          parse_digits-show_nat _ ∙ omega arith,
          refl,
          ap (λ n. int (pos n)) (omega arith),
        ))
