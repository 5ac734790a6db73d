-- ===== src/Checker/Normalized.antt =====
-- The snapshot as the comparison of two snapshots prints it, without what moves between two reads.
use san_layerzero_bridge.Base.{String, Option, none, some, List, [], ◌∷◌, ℤ, int}
use san_layerzero_bridge.InFlight.Json.{Json, arr, str, num, Items, nil, cons, bool, show_number}
use san_layerzero_bridge.InFlight.Encode.{or_null, texts}
use san_layerzero_bridge.Checker.Text.{object, manifest_json}
use san_layerzero_bridge.LayerZero.{UlnObservation, ChainObservation, BridgeObservation}
use san_layerzero_bridge.Mainnet.Data.{
  AccountEvidence, ContextEvidence, SolanaObservation, RobinhoodObservation, EnforcedOption,
  EnforcedOptions, InFlightObservation, Observation,
}
use san_layerzero_bridge.RateLimit.{Limit, Directions, Plan}

-- `item.toString()` of a bigint
abbrev pub big : ℤ → Json
big n = str (show_number (int n))

unfoldable pub solana_json : SolanaObservation → Json
solana_json o = object (
    ("eid", num o.eid)
    ∷ ("genesisHash", str o.genesis_hash)
    ∷ ("mint", str o.mint)
    ∷ ("tokenProgram", str o.token_program)
    ∷ ("decimals", num o.decimals)
    ∷ ("sharedDecimals", num o.shared_decimals)
    ∷ ("oftType", num o.oft_type)
    ∷ ("mintSupplyRaw", big o.mint_supply_raw)
    ∷ ("mintAuthority", or_null o.mint_authority)
    ∷ ("freezeAuthority", or_null o.freeze_authority)
    ∷ ("programId", str o.program_id)
    ∷ ("endpoint", str o.endpoint)
    ∷ ("oftStore", str o.oft_store)
    ∷ ("escrow", str o.escrow)
    ∷ ("tvlRaw", big o.tvl_raw)
    ∷ ("escrowBalanceRaw", big o.escrow_balance_raw)
    ∷ ("upgradeAuthority", str o.upgrade_authority)
    ∷ ("storeAdmin", str o.store_admin)
    ∷ ("delegate", str o.delegate)
    ∷ ("paused", bool o.paused)
    ∷ ("pauser", or_null o.pauser)
    ∷ ("unpauser", or_null o.unpauser)
    ∷ ("programExecutable", bool o.program_executable)
    ∷ ("programOwner", str o.program_owner)
    ∷ ("programData", str o.program_data)
    ∷ ("programDataSha256", str o.program_data_sha256)
    ∷ ("programDataOwner", str o.program_data_owner)
    ∷ ("programDataExecutable", bool o.program_data_executable)
    ∷ ("endpointProgramData", str o.endpoint_program_data)
    ∷ ("endpointProgramDataSha256", str o.endpoint_program_data_sha256)
    ∷ ("endpointUpgradeAuthority", str o.endpoint_upgrade_authority)
    ∷ ("endpointProgramDataOwner", str o.endpoint_program_data_owner)
    ∷ ("endpointProgramDataExecutable", bool o.endpoint_program_data_executable)
    ∷ ("ulnProgramData", str o.uln_program_data)
    ∷ ("ulnProgramDataSha256", str o.uln_program_data_sha256)
    ∷ ("ulnUpgradeAuthority", str o.uln_upgrade_authority)
    ∷ ("ulnProgramDataOwner", str o.uln_program_data_owner)
    ∷ ("ulnProgramDataExecutable", bool o.uln_program_data_executable)
    ∷ ("escrowProgramOwner", str o.escrow_program_owner)
    ∷ ("escrowMint", str o.escrow_mint)
    ∷ ("escrowAuthority", str o.escrow_authority)
    ∷ [])

unfoldable pub robinhood_json : RobinhoodObservation → Json
robinhood_json o = object (
    ("chainId", num o.chain_id)
    ∷ ("eid", num o.eid)
    ∷ ("endpoint", str o.endpoint)
    ∷ ("oft", str o.oft)
    ∷ ("decimals", num o.decimals)
    ∷ ("sharedDecimals", num o.shared_decimals)
    ∷ ("totalSupplyRaw", big o.total_supply_raw)
    ∷ ("owner", str o.owner)
    ∷ ("delegate", str o.delegate)
    ∷ ("paused", bool o.paused)
    ∷ ("runtimeCodeHash", str o.runtime_code_hash)
    ∷ ("proxyImplementation", or_null o.proxy_implementation)
    ∷ ("proxyAdmin", or_null o.proxy_admin)
    ∷ [])

unfoldable pub uln_json : UlnObservation → Json
uln_json o = object (
    ("confirmations", big o.confirmations)
    ∷ ("requiredDvns", arr (texts o.required_dvns))
    ∷ ("optionalDvns", arr (texts o.optional_dvns))
    ∷ ("optionalThreshold", num (int o.optional_threshold))
    ∷ ("explicitNoRequired", bool o.explicit_no_required)
    ∷ ("explicitConfirmations", bool o.explicit_confirmations)
    ∷ ("explicitOptionalDvns", bool o.explicit_optional_dvns)
    ∷ [])

unfoldable pub chain_json : ChainObservation → Json
chain_json o = object (
    ("sendLibrary", str o.send_library)
    ∷ ("receiveLibrary", str o.receive_library)
    ∷ ("executor", str o.executor)
    ∷ ("sendLibraryExplicit", bool o.send_library_explicit)
    ∷ ("receiveLibraryExplicit", bool o.receive_library_explicit)
    ∷ ("executorExplicit", bool o.executor_explicit)
    ∷ ("peer", str o.peer)
    ∷ ("send", uln_json o.send)
    ∷ ("receive", uln_json o.receive)
    ∷ [])

unfoldable pub bridge_json : BridgeObservation → Json
bridge_json o = object (
    ("solana", chain_json o.solana)
    ∷ ("robinhood", chain_json o.robinhood)
    ∷ ("deprecatedDvns", arr (texts o.deprecated_dvns))
    ∷ [])

unfoldable pub option_json : EnforcedOption → Json
option_json o = object (("gasOrCompute", big o.gas_or_compute) ∷ ("value", big o.value) ∷ [])

unfoldable pub options_json : EnforcedOptions → Json
options_json o = object (
    ("solanaReceive", option_json o.solana_receive)
    ∷ ("robinhoodReceive", option_json o.robinhood_receive)
    ∷ [])

-- A field that is missing is left out.
unfoldable pub with_big : String → Option ℤ → List (String × Json) → List (String × Json)
with_big key none rest = rest
with_big key (some n) rest = (key, big n) ∷ rest

unfoldable pub limit_json : Limit → Json
limit_json l = object (
    ("capacity", big l.capacity)
    ∷ with_big "available" l.available
        (("refill", big l.refill) ∷ with_big "durationSeconds" l.duration_seconds []))

unfoldable pub with_limit : String → Option Limit → List (String × Json) → List (String × Json)
with_limit key none rest = rest
with_limit key (some l) rest = (key, limit_json l) ∷ rest

unfoldable pub directions_json : Directions → Json
directions_json d = object (with_limit "outbound" d.outbound (with_limit "inbound" d.inbound []))

unfoldable pub with_directions :
    String → Option Directions → List (String × Json) → List (String × Json)
with_directions key none rest = rest
with_directions key (some d) rest = (key, directions_json d) ∷ rest

unfoldable pub plan_json : Plan → Json
plan_json p =
    object (with_directions "solana" p.solana (with_directions "robinhood" p.robinhood []))

unfoldable pub account_json : AccountEvidence → Json
account_json o = object (
    ("label", str o.label)
    ∷ ("address", str o.address)
    ∷ ("owner", str o.owner)
    ∷ ("executable", bool o.executable)
    ∷ ("lamports", str o.lamports)
    ∷ ("dataLength", num o.data_length)
    ∷ ("accountSha256", str o.account_sha256)
    ∷ [])

unfoldable pub accounts_json : List AccountEvidence → Items
accounts_json [] = nil
accounts_json (a ∷ rest) = cons (account_json a) (accounts_json rest)

unfoldable pub context_json : ContextEvidence → Json
context_json o = object (
    ("model", str o.model)
    ∷ ("commitment", str o.commitment)
    ∷ ("accounts", arr (accounts_json o.accounts))
    ∷ ("remainingCrossCallGaps", arr (texts o.remaining_cross_call_gaps))
    ∷ [])

unfoldable pub in_flight_json : InFlightObservation → Json
in_flight_json o = object (
    ("manifest", manifest_json o.manifest)
    ∷ ("inventoryId", str o.inventory_id)
    ∷ ("inventorySha256", str o.inventory_sha256)
    ∷ ("messageCount", num o.message_count)
    ∷ ("solanaToRobinhoodRaw", big o.solana_to_robinhood_raw)
    ∷ ("robinhoodToSolanaRaw", big o.robinhood_to_solana_raw)
    ∷ [])

-- `normalized`, where what is undefined is left out of the text
unfoldable pub observation_json : Observation → Json
observation_json o = object (
    ("solana", solana_json o.solana)
    ∷ ("robinhood", robinhood_json o.robinhood)
    ∷ ("layerZero", bridge_json o.layer_zero)
    ∷ ("enforcedOptions", options_json o.enforced_options)
    ∷ ("rateLimits", plan_json o.rate_limits)
    ∷ ("solanaContext", context_json o.solana_context)
    ∷ ("inFlight", in_flight_json o.in_flight)
    ∷ [])
