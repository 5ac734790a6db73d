-- ===== src/RateLimit/Spec.antt =====
-- What the four-direction matrix has to be, without reference to the checks that establish it.
use san_layerzero_bridge.Base.{◌≡◌, Option, none, some, pos, ◌<ℤ◌}
use san_layerzero_bridge.RateLimit.{Profile, Limit, Plan, outbound_of, inbound_of}

-- The limiter is there, and has the property.
abbrev pub Has : Option Limit → (Limit → Type 0) → Type 0
Has none P = ⊥
Has (some limit) P = P limit

abbrev pub IsSolanaLimit : Profile → Limit → Type 0
IsSolanaLimit p limit =
    (limit.capacity ≡ p.capacity)
    × (limit.refill ≡ p.refill_per_second)
    × (pos 0 <ℤ limit.capacity)
    × (pos 0 <ℤ limit.refill)

abbrev pub IsRobinhoodLimit : Profile → Limit → Type 0
IsRobinhoodLimit p limit =
    (limit.capacity ≡ p.capacity)
    × (limit.refill ≡ p.capacity)
    × (pos 0 <ℤ limit.capacity)
    × (limit.duration_seconds ≡ some (pos 86_400))

-- All four directions are limited as the profile says: none is left out.
pub record Conforms (plan : Plan) (p : Profile) : Type 0 where
  pub solana_outbound : Has (outbound_of plan.solana) (IsSolanaLimit p)
  pub solana_inbound : Has (inbound_of plan.solana) (IsSolanaLimit p)
  pub robinhood_outbound : Has (outbound_of plan.robinhood) (IsRobinhoodLimit p)
  pub robinhood_inbound : Has (inbound_of plan.robinhood) (IsRobinhoodLimit p)
