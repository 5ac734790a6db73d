-- ===== src/Checker/Environment.antt =====
-- The approved state, which `approvedStateFromEnv` reads from the environment.
use san_layerzero_bridge.Base.{
  String, not, Option, none, some, List, [], ◌∷◌, ◌==◌, if◌then◌else◌, Result, ok, err, throw_if,
  or_throw, ◌>>=◌, ◌>>◌, ℤ, pos, length,
}
use san_layerzero_bridge.Base.{nat_Eq}
use Prim.Native.Char.{Char, code}
use Prim.Native.String as Str
use san_layerzero_bridge.Base.{string_Eq}
use san_layerzero_bridge.Base.Text.{concat, is_digits, parse_digits}
use san_layerzero_bridge.Base.BigInt.{trim}
use san_layerzero_bridge.External.{External}
use san_layerzero_bridge.Mainnet.Data.{AuthorityPolicy, ExpectedInFlight, ApprovedState}
use san_layerzero_bridge.RateLimit.{Profile, production_rate_limit_profile}

-- `process.env`
abbrev pub Environment : Type 0
Environment = String → Option String

-- The values of consecutive fields of the approved state
pub record Addresses : Type 0 where
  pub store : String
  pub escrow : String
  pub oft : String
  pub authorities : AuthorityPolicy

pub record Limits : Type 0 where
  pub confirmations : ℤ
  pub profile : Profile
  pub robinhood_supply : ℤ
  pub mint_supply : ℤ
  pub mint_authority : Option String
  pub freeze_authority : Option String
  pub solana_bootstrap : List String
  pub robinhood_bootstrap : List String

pub record Programs : Type 0 where
  pub program_data : String
  pub program_data_sha256 : String
  pub endpoint_data : String
  pub endpoint_sha256 : String
  pub endpoint_authority : String
  pub uln_data : String
  pub uln_sha256 : String
  pub uln_authority : String
  pub code_hash : String

-- A character put before the first of the texts
unfoldable pub push : Char → List String → List String
push c [] = Str.◌∷◌ c "" ∷ []
push c (text ∷ texts) = Str.◌∷◌ c text ∷ texts

-- `text.split(',')`
unfoldable pub split_commas : String → List String
split_commas Str.[] = "" ∷ []
split_commas (Str.◌∷◌ c s) =
    let rest = split_commas s in if code c == 44 then "" ∷ rest else push c rest

-- `values.map((value) => value.trim()).filter(Boolean)`
unfoldable pub trimmed : List String → List String
trimmed [] = []
trimmed (value ∷ values) =
    let rest = trimmed values in if trim value == "" then rest else trim value ∷ rest

module _ (env : Environment) where
  unfoldable pub required_env : String → Result String
  required_env name = elim (env name) [
    | none ↦ err (concat name " is required; the production checker never guesses approved state")
    | some value ↦
        if trim value == ""
        then err (concat name " is required; the production checker never guesses approved state")
        else ok (trim value)
  ]

  unfoldable pub required_big_int : String → Result ℤ
  required_big_int name = do
    value ← required_env name
    throw_if (not (is_digits value)) (concat name " must be an unsigned base-10 integer")
    ok (pos (parse_digits value))

  unfoldable pub required_list : String → Result (List String)
  required_list name = do
    values ← required_env name
    throw_if (length (trimmed (split_commas values)) == 0)
        (concat name " must contain at least one address")
    ok (trimmed (split_commas values))

  module _ (x : External) where
    open x use {public_key, to_base58}

    unfoldable pub optional_solana_authority : String → Result (Option String)
    optional_solana_authority name = do
      value ← required_env name
      (if value == "NONE" then ok none else do
        key ← or_throw (public_key value) "Invalid public key input"
        ok (some (to_base58 key)))

  -- The parts of `approvedStateFromEnv`, in the order of the code
  unfoldable pub addresses_from_env : Result Addresses
  addresses_from_env = do
    store ← required_env "SAN_SOLANA_OFT_STORE"
    escrow ← required_env "SAN_SOLANA_ESCROW"
    upgrade_authority ← required_env "SAN_SOLANA_UPGRADE_AUTHORITY"
    store_admin ← required_env "SAN_SOLANA_STORE_ADMIN"
    delegate ← required_env "SAN_SOLANA_DELEGATE"
    pauser ← required_env "SAN_SOLANA_PAUSER"
    unpauser ← required_env "SAN_SOLANA_UNPAUSER"
    oft ← required_env "SAN_ROBINHOOD_OFT_ADDRESS"
    owner ← required_env "SAN_ROBINHOOD_OWNER"
    robinhood_delegate ← required_env "SAN_ROBINHOOD_DELEGATE"
    ok (record {
      store = store;
      escrow = escrow;
      oft = oft;
      authorities = record {
        solana_upgrade_authority = upgrade_authority;
        solana_store_admin = store_admin;
        solana_delegate = delegate;
        robinhood_owner = owner;
        robinhood_delegate = robinhood_delegate;
        solana_pauser = pauser;
        solana_unpauser = unpauser;
      };
    })

  unfoldable pub limits_from_env : External → Result Limits
  limits_from_env x = do
    confirmations ← required_big_int "SAN_ROBINHOOD_SOURCE_CONFIRMATIONS"
    name ← required_env "SAN_RATE_LIMIT_PROFILE"
    profile ← production_rate_limit_profile name
    robinhood_supply ← required_big_int "SAN_EXPECTED_ROBINHOOD_SUPPLY_RAW"
    mint_supply ← required_big_int "SAN_EXPECTED_SOLANA_MINT_SUPPLY_RAW"
    mint_authority ← optional_solana_authority x "SAN_EXPECTED_SOLANA_MINT_AUTHORITY"
    freeze_authority ← optional_solana_authority x "SAN_EXPECTED_SOLANA_FREEZE_AUTHORITY"
    solana_bootstrap ← required_list "SAN_FORBIDDEN_SOLANA_BOOTSTRAP_AUTHORITIES"
    robinhood_bootstrap ← required_list "SAN_FORBIDDEN_ROBINHOOD_BOOTSTRAP_AUTHORITIES"
    ok (record {
      confirmations = confirmations;
      profile = profile;
      robinhood_supply = robinhood_supply;
      mint_supply = mint_supply;
      mint_authority = mint_authority;
      freeze_authority = freeze_authority;
      solana_bootstrap = solana_bootstrap;
      robinhood_bootstrap = robinhood_bootstrap;
    })

  unfoldable pub programs_from_env : Result Programs
  programs_from_env = do
    program_data ← required_env "SAN_SOLANA_PROGRAM_DATA"
    hash ← required_env "SAN_SOLANA_PROGRAM_DATA_SHA256"
    endpoint_data ← required_env "SAN_SOLANA_ENDPOINT_PROGRAM_DATA"
    endpoint_hash ← required_env "SAN_SOLANA_ENDPOINT_PROGRAM_DATA_SHA256"
    endpoint_authority ← required_env "SAN_SOLANA_ENDPOINT_UPGRADE_AUTHORITY"
    uln_data ← required_env "SAN_SOLANA_ULN_PROGRAM_DATA"
    uln_hash ← required_env "SAN_SOLANA_ULN_PROGRAM_DATA_SHA256"
    uln_authority ← required_env "SAN_SOLANA_ULN_UPGRADE_AUTHORITY"
    code_hash ← required_env "SAN_ROBINHOOD_RUNTIME_CODE_HASH"
    ok (record {
      program_data = program_data;
      program_data_sha256 = hash;
      endpoint_data = endpoint_data;
      endpoint_sha256 = endpoint_hash;
      endpoint_authority = endpoint_authority;
      uln_data = uln_data;
      uln_sha256 = uln_hash;
      uln_authority = uln_authority;
      code_hash = code_hash;
    })

  unfoldable pub expected_in_flight_from_env : Result ExpectedInFlight
  expected_in_flight_from_env = do
    inventory_id ← required_env "SAN_APPROVED_IN_FLIGHT_INVENTORY_ID"
    sha256 ← required_env "SAN_APPROVED_IN_FLIGHT_INVENTORY_SHA256"
    commit ← required_env "SAN_APPROVED_IN_FLIGHT_SCANNER_COMMIT"
    from_slot ← required_big_int "SAN_APPROVED_IN_FLIGHT_SOLANA_FROM_SLOT"
    to_slot ← required_big_int "SAN_APPROVED_IN_FLIGHT_SOLANA_TO_SLOT"
    from_block ← required_big_int "SAN_APPROVED_IN_FLIGHT_ROBINHOOD_FROM_BLOCK"
    to_block ← required_big_int "SAN_APPROVED_IN_FLIGHT_ROBINHOOD_TO_BLOCK"
    to_robinhood ← required_big_int "SAN_APPROVED_IN_FLIGHT_SOLANA_TO_ROBINHOOD_RAW"
    to_solana ← required_big_int "SAN_APPROVED_IN_FLIGHT_ROBINHOOD_TO_SOLANA_RAW"
    ok (record {
      inventory_id = inventory_id;
      inventory_sha256 = sha256;
      scanner_source_commit = commit;
      solana_from_slot = from_slot;
      solana_to_slot = to_slot;
      robinhood_from_block = from_block;
      robinhood_to_block = to_block;
      solana_to_robinhood_raw = to_robinhood;
      robinhood_to_solana_raw = to_solana;
    })

  unfoldable pub approved_state_from_env : External → Result ApprovedState
  approved_state_from_env x = do
    addresses ← addresses_from_env
    limits ← limits_from_env x
    programs ← programs_from_env
    in_flight ← expected_in_flight_from_env
    ok (record {
      authorities = addresses.authorities;
      solana_oft_store = addresses.store;
      solana_escrow = addresses.escrow;
      robinhood_oft = addresses.oft;
      robinhood_source_confirmations = some limits.confirmations;
      rate_limit_profile = limits.profile;
      expected_robinhood_supply_raw = limits.robinhood_supply;
      expected_solana_mint_supply_raw = limits.mint_supply;
      expected_solana_mint_authority = limits.mint_authority;
      expected_solana_freeze_authority = limits.freeze_authority;
      forbidden_solana_bootstrap_authorities = limits.solana_bootstrap;
      forbidden_robinhood_bootstrap_authorities = limits.robinhood_bootstrap;
      expected_solana_program_data = programs.program_data;
      expected_solana_program_data_sha256 = programs.program_data_sha256;
      expected_solana_endpoint_program_data = programs.endpoint_data;
      expected_solana_endpoint_program_data_sha256 = programs.endpoint_sha256;
      expected_solana_endpoint_upgrade_authority = programs.endpoint_authority;
      expected_solana_uln_program_data = programs.uln_data;
      expected_solana_uln_program_data_sha256 = programs.uln_sha256;
      expected_solana_uln_upgrade_authority = programs.uln_authority;
      expected_robinhood_runtime_code_hash = programs.code_hash;
      expected_in_flight = in_flight;
    })
