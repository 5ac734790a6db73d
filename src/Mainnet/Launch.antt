-- ===== src/Mainnet/Launch.antt =====
-- The activation states, the wiring and the limiters of an accepted snapshot.
use san_layerzero_bridge.Base.{
  ◌≡◌, ◌↔◌, inl, inr, refl, String, false, pos, is_int_iff, str_eq, str_eq_iff, Bool-cases, int_Eq,
  str_eq_refl,
}
use san_layerzero_bridge.Base.Accepts.{
  Accepts, iff_trans, then_iff, check_iff, or_iff, not_iff, self_iff, ne_iff,
}
use san_layerzero_bridge.Mainnet.Data.{Observation}
use san_layerzero_bridge.Mainnet.Activation.{
  validate_activation, validate_inert, validate_canary, pre_activation_inert, canary_active,
}
use san_layerzero_bridge.Mainnet.Spec.{IsInert, IsZeroState, IsActivation}

validate_inert_iff : (o : Observation) → Accepts (validate_inert o) ↔ IsInert o
unfolding validate_inert
validate_inert_iff o = check_iff _ (or_iff (not_iff self_iff) (not_iff self_iff))

validate_canary_iff : (o : Observation) → Accepts (validate_canary o) ↔ IsZeroState o
unfolding validate_canary
validate_canary_iff o =
    iff_trans
      (then_iff (check_iff _ (or_iff self_iff self_iff)) (
        check_iff _ (
          or_iff (or_iff (or_iff (or_iff (or_iff ne_iff ne_iff) ne_iff) ne_iff) ne_iff)
            (not_iff (is_int_iff o.in_flight.message_count (pos 0))))))
      (
        (λ ((a, b), (((((c, d), e), f), g), h)). record {
          solana_running = a;
          robinhood_running = b;
          tvl = c;
          escrow = d;
          supply = e;
          forwards = f;
          backwards = g;
          messages = h;
        }),
        (λ z. (
          (z.solana_running, z.robinhood_running),
          (((((z.tvl, z.escrow), z.supply), z.forwards), z.backwards), z.messages),
        )),
      )

inert-ne-canary : str_eq canary_active pre_activation_inert ≡ false
unfolding str_eq
inert-ne-canary = refl

module _ (o : Observation) (expected_state : String) where
  validate_activation-IsActivation :
      Accepts (validate_activation o expected_state) → IsActivation o expected_state
  unfolding validate_activation
  validate_activation-IsActivation h =
      elim (Bool-cases (str_eq expected_state pre_activation_inert)) [
        | inl inert ↦ inl ((str_eq_iff _ _).0 inert, (validate_inert_iff o).0 (rw inert at h))
        | inr other ↦ elim (Bool-cases (str_eq expected_state canary_active)) [
          | inl canary ↦
              inr ((str_eq_iff _ _).0 canary, (validate_canary_iff o).0 (rw (other, canary) at h))
          | inr neither ↦ absurd (cc (rw (other, neither) at h))
        ]
      ]

  validate_activation-accepted :
      IsActivation o expected_state → Accepts (validate_activation o expected_state)
  unfolding validate_activation
  validate_activation-accepted (inl (state, inert)) =
      rw (state, str_eq_refl pre_activation_inert) ((validate_inert_iff o).1 inert)
  validate_activation-accepted (inr (state, zero_state)) =
      rw (state, inert-ne-canary, str_eq_refl canary_active) ((validate_canary_iff o).1 zero_state)

-- The activation check accepts exactly two cases: the inert state with both applications paused, and
-- the canary state with both running and no amount, balance, supply or message recorded anywhere. No
-- other state is accepted.
pub validate_activation_iff :
    (o : Observation) (expected_state : String)
    → Accepts (validate_activation o expected_state) ↔ IsActivation o expected_state
validate_activation_iff o expected_state = (
  validate_activation-IsActivation o expected_state,
  validate_activation-accepted o expected_state,
)
