-- ===== src/Mainnet/Spec.antt =====
-- What the policy demands of addresses and roles, without reference to the checks.
use san_layerzero_bridge.Base.{
  ℕ, ◌<ℤ◌, true, false, ◌⊎◌, int, ◌≡◌, ◌≢◌, String, some, [], ◌∷◌, All, pos, ℤ, ◌≤ℤ◌, List,
}
use san_layerzero_bridge.External.{External}
use san_layerzero_bridge.RateLimit.{Plan, Limit, outbound_of, inbound_of}
use san_layerzero_bridge.RateLimit.Spec.{Has}
use san_layerzero_bridge.Mainnet.Activation.{pre_activation_inert, canary_active}
use san_layerzero_bridge.Mainnet.Data.{Observation, ContextEvidence, AccountEvidence, ApprovedState}

module _ (x : External) where
  open x use {public_key, get_address}

  -- The two texts name one Solana key; two different ones.
  abbrev pub IsSameKey : String → String → Type 0
  IsSameKey a b = (k : ℕ) × (public_key a ≡ some k) × (public_key b ≡ some k)

  abbrev pub AreOtherKeys : String → String → Type 0
  AreOtherKeys a b = (k : ℕ) × (l : ℕ) × (public_key a ≡ some k) × (public_key b ≡ some l) × (k ≢ l)

  -- The two texts name one EVM account; two different ones.
  abbrev pub IsSameAccount : String → String → Type 0
  IsSameAccount a b = (t : String) × (get_address a ≡ some t) × (get_address b ≡ some t)

  abbrev pub AreOtherAccounts : String → String → Type 0
  AreOtherAccounts a b =
      (s : String) × (t : String) × (get_address a ≡ some s) × (get_address b ≡ some t) × (s ≢ t)

  -- Every role is held by its approved holder, and none by a bootstrap authority.
  pub record HasApprovedRoles (o : Observation) (approved : ApprovedState) : Type 0 where
    pub pauser : String
    pub unpauser : String
    pub observed_pauser : o.solana.pauser ≡ some pauser
    pub observed_unpauser : o.solana.unpauser ≡ some unpauser
    pub upgrade_authority : IsSameKey o.solana.upgrade_authority approved.solana_upgrade_authority
    pub store_admin : IsSameKey o.solana.store_admin approved.solana_store_admin
    pub delegate : IsSameKey o.solana.delegate approved.solana_delegate
    pub pauser_approved : IsSameKey pauser approved.solana_pauser
    pub unpauser_approved : IsSameKey unpauser approved.solana_unpauser
    pub owner : IsSameAccount o.robinhood.owner approved.robinhood_owner
    pub robinhood_delegate : IsSameAccount o.robinhood.delegate approved.robinhood_delegate
    pub solana_bootstrap :
        All
          (λ bootstrap.
            All
              (λ authority. AreOtherKeys authority bootstrap)
              (o.solana.upgrade_authority ∷ o.solana.store_admin ∷ o.solana.delegate ∷ pauser
                ∷ unpauser ∷ []))
          approved.forbidden_solana_bootstrap_authorities
    pub robinhood_bootstrap :
        All
          (λ bootstrap.
            All
              (λ authority. AreOtherAccounts authority bootstrap)
              (o.robinhood.owner ∷ o.robinhood.delegate ∷ []))
          approved.forbidden_robinhood_bootstrap_authorities

-- Both applications are paused and nothing more is asked, or both run and no token has moved yet.
abbrev pub IsInert : Observation → Type 0
IsInert o = (o.solana.paused ≡ true) × (o.robinhood.paused ≡ true)

pub record IsZeroState (o : Observation) : Type 0 where
  pub solana_running : o.solana.paused ≡ false
  pub robinhood_running : o.robinhood.paused ≡ false
  pub tvl : o.solana.tvl_raw ≡ pos 0
  pub escrow : o.solana.escrow_balance_raw ≡ pos 0
  pub supply : o.robinhood.total_supply_raw ≡ pos 0
  pub forwards : o.in_flight.solana_to_robinhood_raw ≡ pos 0
  pub backwards : o.in_flight.robinhood_to_solana_raw ≡ pos 0
  pub messages : o.in_flight.message_count ≡ int (pos 0)

abbrev pub IsActivation : Observation → String → Type 0
IsActivation o expected_state =
    ((expected_state ≡ pre_activation_inert) × IsInert o)
    ⊎ ((expected_state ≡ canary_active) × IsZeroState o)

-- The limiter records how much is left of it, and that lies within its capacity.
abbrev pub IsAvailable : Limit → Type 0
IsAvailable limit = (n : ℤ) × (limit.available ≡ some n) × (pos 0 ≤ℤ n) × (n ≤ℤ limit.capacity)

pub record IsFilled (plan : Plan) : Type 0 where
  pub solana_outbound : Has (outbound_of plan.solana) IsAvailable
  pub solana_inbound : Has (inbound_of plan.solana) IsAvailable
  pub robinhood_outbound : Has (outbound_of plan.robinhood) IsAvailable
  pub robinhood_inbound : Has (inbound_of plan.robinhood) IsAvailable

-- The slot of the accounts lies between the finalized slots read before and after.
abbrev pub IsAnchored : ContextEvidence → Type 0
IsAnchored e =
    (pos 0 <ℤ e.context_slot)
    × (e.finalized_slot_before ≤ℤ e.context_slot)
    × (e.context_slot ≤ℤ e.finalized_slot_after)

-- No two accounts have one address.
unfoldable pub AreDistinctAccounts : List AccountEvidence → Type 0
AreDistinctAccounts [] = Unit
AreDistinctAccounts (a ∷ rest) = All (λ b. a.address ≢ b.address) rest × AreDistinctAccounts rest

unfoldable pub labels : List AccountEvidence → List String
labels [] = []
labels (a ∷ rest) = a.label ∷ labels rest
