-- ===== src/RateLimit/Matrix.antt =====
-- The check of the complete plan decides the specification.
use san_layerzero_bridge.Base.{
  ◌≡◌, ◌↔◌, ok, pos, ℤ, ◌<ℤ◌, [], ◌∷◌, All, Option, none, some, true, false, String, int_Eq,
  option_Eq,
}
use san_layerzero_bridge.Base.Accepts.{
  Accepts, IsFalse, iff_trans, then_iff, or_iff, any_iff, check_iff, ne_iff, not_leb_iff, clear_iff,
}
use san_layerzero_bridge.RateLimit.{
  Limit, Plan, Profile, require_direction, capacity_differs, refill_differs, outbound_of,
  inbound_of, validate_production_rate_limit_plan,
}
use san_layerzero_bridge.RateLimit.Spec.{Has, Conforms, IsSolanaLimit, IsRobinhoodLimit}

abbrev IsPositive : Limit → Type 0
IsPositive limit = (pos 0 <ℤ limit.capacity) × (pos 0 <ℤ limit.refill)

abbrev IsDaily : Limit → Type 0
IsDaily limit = IsPositive limit × (limit.duration_seconds ≡ some (pos 86_400))

abbrev HasCapacity : ℤ → Limit → Type 0
HasCapacity n limit = limit.capacity ≡ n

abbrev HasRefill : ℤ → Limit → Type 0
HasRefill n limit = limit.refill ≡ n

require_direction-solana :
    (name : String) (o : Option Limit) → Accepts (require_direction name o false) ↔ Has o IsPositive
unfolding require_direction
require_direction-solana name none = (λ h. cc, λ h. elim h [ ])
require_direction-solana name (some limit) =
    iff_trans
      (then_iff (check_iff _ (or_iff (not_leb_iff _ _) (not_leb_iff _ _))) (check_iff _ clear_iff))
      (λ h. h.0, λ h. (h, tt))

require_direction-robinhood :
    (name : String) (o : Option Limit) → Accepts (require_direction name o true) ↔ Has o IsDaily
unfolding require_direction
require_direction-robinhood name none = (λ h. cc, λ h. elim h [ ])
require_direction-robinhood name (some limit) =
    then_iff (check_iff _ (or_iff (not_leb_iff _ _) (not_leb_iff _ _))) (check_iff _ ne_iff)

capacity_differs_iff :
    (n : ℤ) (o : Option Limit) → IsFalse (capacity_differs n o) ↔ Has o (HasCapacity n)
unfolding capacity_differs
capacity_differs_iff n none = (λ h. cc, λ h. elim h [ ])
capacity_differs_iff n (some limit) = ne_iff

refill_differs_iff : (n : ℤ) (o : Option Limit) → IsFalse (refill_differs n o) ↔ Has o (HasRefill n)
unfolding refill_differs
refill_differs_iff n none = (λ h. cc, λ h. elim h [ ])
refill_differs_iff n (some limit) = ne_iff

module _ (p : Profile) where
  solana_parts :
      (o : Option Limit)
      → Has o IsPositive
      → Has o (HasCapacity p.capacity)
      → Has o (HasRefill p.refill_per_second)
      → Has o (IsSolanaLimit p)
  solana_parts none h _ _ = h
  solana_parts (some limit) h c r = (c, r, h.0, h.1)

  robinhood_parts :
      (o : Option Limit)
      → Has o IsDaily
      → Has o (HasCapacity p.capacity)
      → Has o (HasRefill p.capacity)
      → Has o (IsRobinhoodLimit p)
  robinhood_parts none h _ _ = h
  robinhood_parts (some limit) h c r = (c, r, h.0.0, h.1)

  solana_whole :
      (o : Option Limit)
      → Has o (IsSolanaLimit p)
      → Has o IsPositive × Has o (HasCapacity p.capacity) × Has o (HasRefill p.refill_per_second)
  solana_whole none h = elim h [ ]
  solana_whole (some limit) h = ((h.2, h.3), h.0, h.1)

  robinhood_whole :
      (o : Option Limit)
      → Has o (IsRobinhoodLimit p)
      → Has o IsDaily × Has o (HasCapacity p.capacity) × Has o (HasRefill p.capacity)
  robinhood_whole none h = elim h [ ]
  robinhood_whole (some limit) h =
      let positive : pos 0 <ℤ limit.refill = rw (h.1, ← h.0) h.2 in
      (((h.2, positive), h.3), h.0, h.1)

-- What the checks establish, link by link.
abbrev Links : Plan → Profile → Type 0
Links plan p =
    Has (outbound_of plan.solana) IsPositive
    × (Has (inbound_of plan.solana) IsPositive
        × (Has (outbound_of plan.robinhood) IsDaily
            × (Has (inbound_of plan.robinhood) IsDaily
                × (All (λ o. Has o (HasCapacity p.capacity))
                      (outbound_of plan.solana
                        ∷ inbound_of plan.solana
                        ∷ outbound_of plan.robinhood
                        ∷ inbound_of plan.robinhood
                        ∷ [])
                    × ((Has (outbound_of plan.solana) (HasRefill p.refill_per_second)
                          × Has (inbound_of plan.solana) (HasRefill p.refill_per_second))
                        × (Has (outbound_of plan.robinhood) (HasRefill p.capacity)
                            × Has (inbound_of plan.robinhood) (HasRefill p.capacity)))))))

module _ (plan : Plan) (p : Profile) where
  Conforms-of_Links : Links plan p → Conforms plan p
  Conforms-of_Links (a, (b, (c, (d, ((ca, (cb, (cd, (ce, _)))), ((ra, rb), (rc, rd))))))) = record {
    solana_outbound = solana_parts p _ a ca ra;
    solana_inbound = solana_parts p _ b cb rb;
    robinhood_outbound = robinhood_parts p _ c cd rc;
    robinhood_inbound = robinhood_parts p _ d ce rd;
  }

  Links-of_Conforms : Conforms plan p → Links plan p
  Links-of_Conforms h =
      let (a, ca, ra) = solana_whole p _ h.solana_outbound in
      let (b, cb, rb) = solana_whole p _ h.solana_inbound in
      let (c, cd, rc) = robinhood_whole p _ h.robinhood_outbound in
      let (d, ce, rd) = robinhood_whole p _ h.robinhood_inbound in
      (a, (b, (c, (d, ((ca, (cb, (cd, (ce, tt)))), ((ra, rb), (rc, rd)))))))

-- The plan check accepts exactly the plans that limit all four directions as the profile says.
pub validate_production_rate_limit_plan_iff :
    (plan : Plan) (p : Profile)
    → (validate_production_rate_limit_plan plan p ≡ ok tt) ↔ Conforms plan p
unfolding validate_production_rate_limit_plan
validate_production_rate_limit_plan_iff plan p =
    iff_trans
      (then_iff (require_direction-solana _ _) (
        then_iff (require_direction-solana _ _) (
          then_iff (require_direction-robinhood _ _) (
            then_iff (require_direction-robinhood _ _) (
              then_iff (check_iff _ (any_iff _ (capacity_differs_iff _))) (
                then_iff (check_iff _ (or_iff (refill_differs_iff _ _) (refill_differs_iff _ _)))
                  (check_iff _ (or_iff (refill_differs_iff _ _) (refill_differs_iff _ _)))))))))
      (Conforms-of_Links plan p, Links-of_Conforms plan p)
