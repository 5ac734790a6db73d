-- ===== src/RateLimit.antt =====
-- scripts/productionRateLimitPolicy.ts: the approved rate-limit profiles, the check of a Solana
-- rate-limit task, and the check of the complete four-direction plan.
pub mod Spec
pub mod Matrix
pub mod Approval
mod Tests
use san_layerzero_bridge.Base.{
  ℕ, String, Bool, not, ◌&&◌, ◌||◌, Option, none, some, List, [], ◌∷◌, ℤ, pos, leb_ℤ, int_eq, ◌==◌,
  ◌!=◌, int_Eq, option_Eq, nat_Eq, string_Eq, length, any, Number, int, is_int, Result, ok, err,
  Check, ⊤, throw_if, or_throw, ◌>>=◌, ◌>>◌, if◌then◌else◌,
}
use san_layerzero_bridge.Base.Text.{concat}
use san_layerzero_bridge.Config.{
  solana_eid, robinhood_eid, canonical_san_mint, production_solana_oft_program,
  forbidden_test_oft_store,
}
use san_layerzero_bridge.External.{External}

pub record Profile : Type 0 where
  pub capacity : ℤ
  pub refill_per_second : ℤ

pub record Limit : Type 0 where
  pub capacity : ℤ
  pub available : Option ℤ
  pub refill : ℤ
  pub duration_seconds : Option ℤ

-- The limiters of one chain; `none` is a missing field.
pub record Directions : Type 0 where
  pub outbound : Option Limit
  pub inbound : Option Limit

pub record Plan : Type 0 where
  pub solana : Option Directions
  pub robinhood : Option Directions

abbrev pub profiles : List (String × Profile)
profiles =
    ("canary", record { capacity = pos 500_000_000_000; refill_per_second = pos 5_787_037 })
    ∷ (
      "publicLaunch",
      record { capacity = pos 30_000_000_000_000; refill_per_second = pos 347_222_222 },
    )
    ∷ ("normal", record { capacity = pos 50_000_000_000_000; refill_per_second = pos 578_703_703 })
    ∷ (
      "mature",
      record { capacity = pos 100_000_000_000_000; refill_per_second = pos 1_157_407_407 },
    )
    ∷ []

unfoldable pub lookup : String → List (String × Profile) → Option Profile
lookup name [] = none
lookup name ((key, profile) ∷ rest) = if key == name then some profile else lookup name rest

unfoldable pub production_rate_limit_profile : String → Result Profile
unfolding lookup
production_rate_limit_profile name =
    or_throw (lookup name profiles)
      "Production rate-limit profile must be one of: canary, publicLaunch, normal, mature"

-- `plan.solana?.outbound` and the like
abbrev pub outbound_of : Option Directions → Option Limit
outbound_of none = none
outbound_of (some chain) = chain.outbound

abbrev pub inbound_of : Option Directions → Option Limit
inbound_of none = none
inbound_of (some chain) = chain.inbound

unfoldable pub require_direction : String → Option Limit → Bool → Check
require_direction name none evm = err (concat "Missing required production rate limiter: " name)
require_direction name (some value) evm =
    throw_if (leb_ℤ value.capacity (pos 0) || leb_ℤ value.refill (pos 0))
      (concat "Invalid production rate limiter: " name)
    >> throw_if (evm && value.duration_seconds != some (pos 86_400))
        (concat "Robinhood rate limiter must use an explicit 86400-second duration: " name)

-- `limit.capacity !== n` and `limit?.refill !== n`; the limiters are known to be there
unfoldable pub capacity_differs : ℤ → Option Limit → Bool
capacity_differs n none = Bool.true
capacity_differs n (some limit) = limit.capacity != n

unfoldable pub refill_differs : ℤ → Option Limit → Bool
refill_differs n none = Bool.true
refill_differs n (some limit) = limit.refill != n

unfoldable pub validate_production_rate_limit_plan : Plan → Profile → Check
validate_production_rate_limit_plan plan expected = do
  require_direction "Solana outbound" (outbound_of plan.solana) Bool.false
  require_direction "Solana inbound" (inbound_of plan.solana) Bool.false
  require_direction "Robinhood outbound" (outbound_of plan.robinhood) Bool.true
  require_direction "Robinhood inbound" (inbound_of plan.robinhood) Bool.true
  let directions =
      outbound_of plan.solana
      ∷ inbound_of plan.solana
      ∷ outbound_of plan.robinhood
      ∷ inbound_of plan.robinhood
      ∷ []
  throw_if (any (capacity_differs expected.capacity) directions)
      "Production rate-limit capacity differs from the explicitly selected profile"
  throw_if
      (refill_differs expected.refill_per_second (outbound_of plan.solana)
        || refill_differs expected.refill_per_second (inbound_of plan.solana))
      "Solana refill differs from the explicitly selected profile"
  throw_if
      (refill_differs expected.capacity (outbound_of plan.robinhood)
        || refill_differs expected.capacity (inbound_of plan.robinhood))
      "Robinhood refill amount must equal the explicitly selected capacity"

pub record Task : Type 0 where
  pub local_eid : Number
  pub peer_eid : Number
  pub mint : String
  pub program_id : String
  pub oft_store : String
  pub approved_oft_store : String
  pub capacity : ℤ
  pub refill_per_second : ℤ

-- `Object.entries(PRODUCTION_RATE_LIMIT_PROFILES).find(…)`, then `match[0]`
unfoldable pub find_profile : ℤ → ℤ → List (String × Profile) → Option String
find_profile capacity refill [] = none
find_profile capacity refill ((name, profile) ∷ rest) =
    if profile.capacity == capacity && profile.refill_per_second == refill
    then some name
    else find_profile capacity refill rest

module _ (x : External) where
  open x use {bs58_decode, public_key}

  unfoldable pub is_solana_public_key : String → Bool
  is_solana_public_key value = elim (bs58_decode value) [
    | none ↦ Bool.false
    | some bytes ↦ length bytes == 32
  ]

  -- `new PublicKey(left).equals(new PublicKey(right))`
  unfoldable pub same_public_key : String → String → Result Bool
  same_public_key left right = do
    a ← or_throw (public_key left) "Invalid public key input"
    b ← or_throw (public_key right) "Invalid public key input"
    ok (a == b)

  unfoldable pub validate_solana_production_rate_limit_task : Task → Result String
  validate_solana_production_rate_limit_task task = do
    throw_if (not (is_int task.local_eid solana_eid))
        "Production Solana rate limit requires local EID 30168"
    throw_if (not (is_int task.peer_eid robinhood_eid))
        "Production Solana rate limit requires Robinhood peer EID 30416"
    throw_if (task.mint != canonical_san_mint)
        "Production Solana rate limit requires canonical SAN mint"
    throw_if (task.program_id != production_solana_oft_program)
        "Production Solana rate limit requires the approved production OFT program"
    throw_if
        (not (is_solana_public_key task.oft_store) || task.oft_store == forbidden_test_oft_store)
        "Production Solana rate limit requires a non-testnet OFT Store public key"
    throw_if (not (is_solana_public_key task.approved_oft_store))
        "Production Solana rate limit requires the exact explicitly approved OFT Store"
    same ← same_public_key task.oft_store task.approved_oft_store
    throw_if (not same)
        "Production Solana rate limit requires the exact explicitly approved OFT Store"
    or_throw (find_profile task.capacity task.refill_per_second profiles)
        "Production Solana rate limit does not match an approved profile"
