-- ===== src/Checker/Variables.antt =====
-- The variables that the approved state is read from.
use san_layerzero_bridge.Base.{
  String, ◌≡◌, inl, inr, false, Option, some, List, [], ◌∷◌, ◌++◌, Bool-cases, ◌==◌, Result, ok,
  ◌>>=◌, ℤ, All,
}
use san_layerzero_bridge.Base.{>>=-eq-ok, Option-cases, string_Eq}
use san_layerzero_bridge.Base.BigInt.{trim}
use san_layerzero_bridge.Checker.Environment.{
  Environment, Addresses, Limits, Programs, required_env, required_big_int, required_list,
  optional_solana_authority, addresses_from_env, limits_from_env, programs_from_env,
  expected_in_flight_from_env, approved_state_from_env,
}
use san_layerzero_bridge.External.{External}
use san_layerzero_bridge.Mainnet.Data.{ExpectedInFlight, ApprovedState}
use san_layerzero_bridge.RateLimit.{production_rate_limit_profile}
use san_layerzero_bridge.Scan.Sees.{All-append}

abbrev pub address_variables : List String
address_variables =
    "SAN_SOLANA_OFT_STORE" ∷ "SAN_SOLANA_ESCROW" ∷ "SAN_SOLANA_UPGRADE_AUTHORITY"
    ∷ "SAN_SOLANA_STORE_ADMIN" ∷ "SAN_SOLANA_DELEGATE" ∷ "SAN_SOLANA_PAUSER" ∷ "SAN_SOLANA_UNPAUSER"
    ∷ "SAN_ROBINHOOD_OFT_ADDRESS" ∷ "SAN_ROBINHOOD_OWNER" ∷ "SAN_ROBINHOOD_DELEGATE" ∷ []

abbrev pub limit_variables : List String
limit_variables =
    "SAN_ROBINHOOD_SOURCE_CONFIRMATIONS" ∷ "SAN_RATE_LIMIT_PROFILE"
    ∷ "SAN_EXPECTED_ROBINHOOD_SUPPLY_RAW" ∷ "SAN_EXPECTED_SOLANA_MINT_SUPPLY_RAW"
    ∷ "SAN_EXPECTED_SOLANA_MINT_AUTHORITY" ∷ "SAN_EXPECTED_SOLANA_FREEZE_AUTHORITY"
    ∷ "SAN_FORBIDDEN_SOLANA_BOOTSTRAP_AUTHORITIES" ∷ "SAN_FORBIDDEN_ROBINHOOD_BOOTSTRAP_AUTHORITIES"
    ∷ []

abbrev pub program_variables : List String
program_variables =
    "SAN_SOLANA_PROGRAM_DATA" ∷ "SAN_SOLANA_PROGRAM_DATA_SHA256"
    ∷ "SAN_SOLANA_ENDPOINT_PROGRAM_DATA" ∷ "SAN_SOLANA_ENDPOINT_PROGRAM_DATA_SHA256"
    ∷ "SAN_SOLANA_ENDPOINT_UPGRADE_AUTHORITY" ∷ "SAN_SOLANA_ULN_PROGRAM_DATA"
    ∷ "SAN_SOLANA_ULN_PROGRAM_DATA_SHA256" ∷ "SAN_SOLANA_ULN_UPGRADE_AUTHORITY"
    ∷ "SAN_ROBINHOOD_RUNTIME_CODE_HASH" ∷ []

abbrev pub in_flight_variables : List String
in_flight_variables =
    "SAN_APPROVED_IN_FLIGHT_INVENTORY_ID" ∷ "SAN_APPROVED_IN_FLIGHT_INVENTORY_SHA256"
    ∷ "SAN_APPROVED_IN_FLIGHT_SCANNER_COMMIT" ∷ "SAN_APPROVED_IN_FLIGHT_SOLANA_FROM_SLOT"
    ∷ "SAN_APPROVED_IN_FLIGHT_SOLANA_TO_SLOT" ∷ "SAN_APPROVED_IN_FLIGHT_ROBINHOOD_FROM_BLOCK"
    ∷ "SAN_APPROVED_IN_FLIGHT_ROBINHOOD_TO_BLOCK" ∷ "SAN_APPROVED_IN_FLIGHT_SOLANA_TO_ROBINHOOD_RAW"
    ∷ "SAN_APPROVED_IN_FLIGHT_ROBINHOOD_TO_SOLANA_RAW" ∷ []

abbrev pub variables : List String
variables = address_variables ++ limit_variables ++ program_variables ++ in_flight_variables

module _ (env : Environment) where
  -- A variable is set, to a text that is not blank.
  abbrev pub IsGiven : String → Type 0
  IsGiven name = (value : String) × (env name ≡ some value) × ((trim value == "") ≡ false)

  required_env-IsGiven : (name : String) (v : String) → required_env env name ≡ ok v → IsGiven name
  unfolding required_env
  required_env-IsGiven name v h = elim (Option-cases (env name)) [
    | inl missing ↦ absurd (cc (rw (missing, required_env) at h))
    | inr (value, set) ↦ elim (Bool-cases (trim value == "")) [
      | inl blank ↦ absurd (cc (rw (set, required_env, blank) at h))
      | inr filled ↦ (value, set, filled)
    ]
  ]

  required_big_int-IsGiven :
      (name : String) (n : ℤ) → required_big_int env name ≡ ok n → IsGiven name
  unfolding required_big_int
  required_big_int-IsGiven name n h =
      let (v, set, _) = >>=-eq-ok (required_env env name) _ h in required_env-IsGiven name v set

  required_list-IsGiven :
      (name : String) (vs : List String) → required_list env name ≡ ok vs → IsGiven name
  unfolding required_list
  required_list-IsGiven name vs h =
      let (v, set, _) = >>=-eq-ok (required_env env name) _ h in required_env-IsGiven name v set

  optional_solana_authority-IsGiven :
      (x : External) (name : String) (a : Option String)
      → optional_solana_authority env x name ≡ ok a
      → IsGiven name
  unfolding optional_solana_authority
  optional_solana_authority-IsGiven x name a h =
      let (v, set, _) = >>=-eq-ok (required_env env name) _ h in required_env-IsGiven name v set

  -- The first variable of a chain is set, and the rest of the chain succeeds.
  first_IsSet :
      {A B : Type 0} (name : String) {read : Result A} (rest : A → Result B) {b : B}
      → ((a : A) → read ≡ ok a → IsGiven name)
      → (read >>= rest) ≡ ok b
      → (a : A) × IsGiven name × (rest a ≡ ok b)
  first_IsSet name {read} rest sets h =
      let (a, now, later) = >>=-eq-ok read rest h in (a, sets a now, later)

  addresses_from_env-IsGiven :
      {r : Addresses} → addresses_from_env env ≡ ok r → All IsGiven address_variables
  unfolding addresses_from_env
  addresses_from_env-IsGiven h0 =
      let (_, s1, h1) = first_IsSet _ _ (required_env-IsGiven "SAN_SOLANA_OFT_STORE") h0 in
      let (_, s2, h2) = first_IsSet _ _ (required_env-IsGiven "SAN_SOLANA_ESCROW") h1 in
      let (_, s3, h3) = first_IsSet _ _ (required_env-IsGiven "SAN_SOLANA_UPGRADE_AUTHORITY") h2 in
      let (_, s4, h4) = first_IsSet _ _ (required_env-IsGiven "SAN_SOLANA_STORE_ADMIN") h3 in
      let (_, s5, h5) = first_IsSet _ _ (required_env-IsGiven "SAN_SOLANA_DELEGATE") h4 in
      let (_, s6, h6) = first_IsSet _ _ (required_env-IsGiven "SAN_SOLANA_PAUSER") h5 in
      let (_, s7, h7) = first_IsSet _ _ (required_env-IsGiven "SAN_SOLANA_UNPAUSER") h6 in
      let (_, s8, h8) = first_IsSet _ _ (required_env-IsGiven "SAN_ROBINHOOD_OFT_ADDRESS") h7 in
      let (_, s9, h9) = first_IsSet _ _ (required_env-IsGiven "SAN_ROBINHOOD_OWNER") h8 in
      let (_, s10, h10) = first_IsSet _ _ (required_env-IsGiven "SAN_ROBINHOOD_DELEGATE") h9 in
      (s1, (s2, (s3, (s4, (s5, (s6, (s7, (s8, (s9, (s10, tt))))))))))

  limits_from_env-IsGiven :
      (x : External) {r : Limits} → limits_from_env env x ≡ ok r → All IsGiven limit_variables
  unfolding limits_from_env
  limits_from_env-IsGiven x h0 =
      let (_, s1, h1) =
        first_IsSet _ _ (required_big_int-IsGiven "SAN_ROBINHOOD_SOURCE_CONFIRMATIONS") h0 in
      let (name, s2, h2) = first_IsSet _ _ (required_env-IsGiven "SAN_RATE_LIMIT_PROFILE") h1 in
      let (_, _, h3) = >>=-eq-ok (production_rate_limit_profile name) _ h2 in
      let (_, s3, h4) =
        first_IsSet _ _ (required_big_int-IsGiven "SAN_EXPECTED_ROBINHOOD_SUPPLY_RAW") h3 in
      let (_, s4, h5) =
        first_IsSet _ _ (required_big_int-IsGiven "SAN_EXPECTED_SOLANA_MINT_SUPPLY_RAW") h4 in
      let (_, s5, h6) =
        first_IsSet _ _ (optional_solana_authority-IsGiven x "SAN_EXPECTED_SOLANA_MINT_AUTHORITY")
          h5 in
      let (_, s6, h7) =
        first_IsSet _ _ (optional_solana_authority-IsGiven x "SAN_EXPECTED_SOLANA_FREEZE_AUTHORITY")
          h6 in
      let (_, s7, h8) =
        first_IsSet _ _ (required_list-IsGiven "SAN_FORBIDDEN_SOLANA_BOOTSTRAP_AUTHORITIES") h7 in
      let (_, s8, h9) =
        first_IsSet _ _ (required_list-IsGiven "SAN_FORBIDDEN_ROBINHOOD_BOOTSTRAP_AUTHORITIES")
          h8 in
      (s1, (s2, (s3, (s4, (s5, (s6, (s7, (s8, tt))))))))

  programs_from_env-IsGiven :
      {r : Programs} → programs_from_env env ≡ ok r → All IsGiven program_variables
  unfolding programs_from_env
  programs_from_env-IsGiven h0 =
      let (_, s1, h1) = first_IsSet _ _ (required_env-IsGiven "SAN_SOLANA_PROGRAM_DATA") h0 in
      let (_, s2, h2) =
        first_IsSet _ _ (required_env-IsGiven "SAN_SOLANA_PROGRAM_DATA_SHA256") h1 in
      let (_, s3, h3) =
        first_IsSet _ _ (required_env-IsGiven "SAN_SOLANA_ENDPOINT_PROGRAM_DATA") h2 in
      let (_, s4, h4) =
        first_IsSet _ _ (required_env-IsGiven "SAN_SOLANA_ENDPOINT_PROGRAM_DATA_SHA256") h3 in
      let (_, s5, h5) =
        first_IsSet _ _ (required_env-IsGiven "SAN_SOLANA_ENDPOINT_UPGRADE_AUTHORITY") h4 in
      let (_, s6, h6) = first_IsSet _ _ (required_env-IsGiven "SAN_SOLANA_ULN_PROGRAM_DATA") h5 in
      let (_, s7, h7) =
        first_IsSet _ _ (required_env-IsGiven "SAN_SOLANA_ULN_PROGRAM_DATA_SHA256") h6 in
      let (_, s8, h8) =
        first_IsSet _ _ (required_env-IsGiven "SAN_SOLANA_ULN_UPGRADE_AUTHORITY") h7 in
      let (_, s9, h9) =
        first_IsSet _ _ (required_env-IsGiven "SAN_ROBINHOOD_RUNTIME_CODE_HASH") h8 in
      (s1, (s2, (s3, (s4, (s5, (s6, (s7, (s8, (s9, tt)))))))))

  expected_in_flight_from_env-IsGiven :
      {r : ExpectedInFlight}
      → expected_in_flight_from_env env ≡ ok r
      → All IsGiven in_flight_variables
  unfolding expected_in_flight_from_env
  expected_in_flight_from_env-IsGiven h0 =
      let (_, s1, h1) =
        first_IsSet _ _ (required_env-IsGiven "SAN_APPROVED_IN_FLIGHT_INVENTORY_ID") h0 in
      let (_, s2, h2) =
        first_IsSet _ _ (required_env-IsGiven "SAN_APPROVED_IN_FLIGHT_INVENTORY_SHA256") h1 in
      let (_, s3, h3) =
        first_IsSet _ _ (required_env-IsGiven "SAN_APPROVED_IN_FLIGHT_SCANNER_COMMIT") h2 in
      let (_, s4, h4) =
        first_IsSet _ _ (required_big_int-IsGiven "SAN_APPROVED_IN_FLIGHT_SOLANA_FROM_SLOT") h3 in
      let (_, s5, h5) =
        first_IsSet _ _ (required_big_int-IsGiven "SAN_APPROVED_IN_FLIGHT_SOLANA_TO_SLOT") h4 in
      let (_, s6, h6) =
        first_IsSet _ _ (required_big_int-IsGiven "SAN_APPROVED_IN_FLIGHT_ROBINHOOD_FROM_BLOCK")
          h5 in
      let (_, s7, h7) =
        first_IsSet _ _ (required_big_int-IsGiven "SAN_APPROVED_IN_FLIGHT_ROBINHOOD_TO_BLOCK") h6 in
      let (_, s8, h8) =
        first_IsSet _ _ (required_big_int-IsGiven "SAN_APPROVED_IN_FLIGHT_SOLANA_TO_ROBINHOOD_RAW")
          h7 in
      let (_, s9, h9) =
        first_IsSet _ _ (required_big_int-IsGiven "SAN_APPROVED_IN_FLIGHT_ROBINHOOD_TO_SOLANA_RAW")
          h8 in
      (s1, (s2, (s3, (s4, (s5, (s6, (s7, (s8, (s9, tt)))))))))

  -- An approved state is read only from an environment in which every one of its thirty-six variables
  -- is set, to a text that is not blank: none has a default.
  pub approved_state_from_env-IsGiven :
      (x : External) (approved : ApprovedState)
      → approved_state_from_env env x ≡ ok approved
      → All IsGiven variables
  unfolding approved_state_from_env
  approved_state_from_env-IsGiven x approved h =
      let (a, one, h1) = >>=-eq-ok (addresses_from_env env) _ h in
      let (b, two, h2) = >>=-eq-ok (limits_from_env env x) _ h1 in
      let (c, three, h3) = >>=-eq-ok (programs_from_env env) _ h2 in
      let (d, four, h4) = >>=-eq-ok (expected_in_flight_from_env env) _ h3 in
      All-append IsGiven address_variables
        (limit_variables ++ program_variables ++ in_flight_variables)
        (addresses_from_env-IsGiven one)
        (All-append IsGiven limit_variables (program_variables ++ in_flight_variables)
          (limits_from_env-IsGiven x two)
          (All-append IsGiven program_variables in_flight_variables
            (programs_from_env-IsGiven three) (expected_in_flight_from_env-IsGiven four)))
