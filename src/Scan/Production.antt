-- ===== src/Scan/Production.antt =====
-- `scanProductionInFlight`: both chains are scanned through two providers each, the LayerZero API is
-- asked, and the manifest is built and parsed. The four heights, `Number(required(…))`, are natural
-- numbers; a negative start of a range is left out.
use san_layerzero_bridge.Base.{
  ℕ, String, Bool, not, Option, none, some, [], ◌∷◌, ◌++◌, Result, ok, throw_if, or_throw, ◌>>=◌,
  ◌>>◌, pos, int, is_safe_integer, all, option_Eq,
}
use san_layerzero_bridge.Base.Text.{concat}
use san_layerzero_bridge.Base.BigInt.{trim}
use san_layerzero_bridge.Config.{
  production_robinhood_endpoint, production_solana_endpoint, production_solana_oft_program,
  solana_eid, robinhood_eid, robinhood_chain_id,
}
use san_layerzero_bridge.External.{External}
use san_layerzero_bridge.InFlight.Json.{end}
use san_layerzero_bridge.InFlight.Data.{Identities, Manifest}
use san_layerzero_bridge.InFlight.Parse.{parse_in_flight_inventory}
use san_layerzero_bridge.Scan.Build.{ProviderResult}
use san_layerzero_bridge.Scan.Manifest.{build_in_flight_manifest}
use san_layerzero_bridge.Scan.Node.{SolanaNode, RobinhoodNode, ApiResponse}
use san_layerzero_bridge.Scan.Solana.Messages.{scan_solana}
use san_layerzero_bridge.Scan.Robinhood.Logs.{scan_robinhood, present}
use san_layerzero_bridge.Scan.Statuses.{fetch_layer_zero_statuses}

-- `values`
pub record Values : Type 0 where
  pub solana_from : ℕ
  pub solana_to : ℕ
  pub robinhood_from : ℕ
  pub robinhood_to : ℕ
  pub store : String
  pub oft : String

-- What the scanner calls: the environment, the nodes at their URLs, the LayerZero API, the clock, and
-- `new URL(url)` with its protocol and its host.
pub record Services : Type 0 where
  pub env : String → Option String
  pub solana : String → SolanaNode
  pub robinhood : String → RobinhoodNode
  pub layer_zero : String → Result ApiResponse
  pub now : String
  pub url : String → Option (String × String)

-- How many pages of each chain the model reads.
pub record Fuel : Type 0 where
  pub solana : ℕ
  pub robinhood : ℕ

-- The default of `pageSize`
abbrev pub page_size : ℕ
page_size = 2_000

-- `required`
unfoldable pub required : (String → Option String) → String → Result String
required env name =
    or_throw (elim (env name) [ none ↦ none | some value ↦ present (some (trim value)) ])
      (concat name " is required; the scanner never infers production identities or ranges")

unfoldable pub safe_provider_id : (String → Option (String × String)) → String → Result String
safe_provider_id url text = do
  (protocol, host) ← or_throw (url text) "Invalid URL"
  ok (concat protocol (concat "//" host))

-- `![…].every(Number.isSafeInteger)`
abbrev pub has_unsafe_height : Values → Bool
has_unsafe_height values = not (
    all (λ n. is_safe_integer (int (pos n)))
      (values.solana_from ∷ values.solana_to ∷ values.robinhood_from ∷ values.robinhood_to ∷ []))

unfoldable pub production_identities : Values → Identities
production_identities values = record {
  keys = "solana" ∷ "robinhood" ∷ [];
  solana = record {
    keys = "chain" ∷ "eid" ∷ "endpoint" ∷ "oftProgram" ∷ "oftStore" ∷ [];
    chain = "solana-mainnet";
    eid = int solana_eid;
    endpoint = production_solana_endpoint;
    oft_program = production_solana_oft_program;
    oft_store = values.store;
  };
  robinhood = record {
    keys = "chainId" ∷ "eid" ∷ "endpoint" ∷ "oft" ∷ [];
    chain_id = int robinhood_chain_id;
    eid = int robinhood_eid;
    endpoint = production_robinhood_endpoint;
    oft = values.oft;
  };
}

module _ (x : External) (fuel : Fuel) where
  unfoldable pub scan_provider_pair : SolanaNode → RobinhoodNode → Values → Result ProviderResult
  scan_provider_pair solana_node robinhood_node values = do
    solana ←
        scan_solana x values.store values.oft fuel.solana solana_node values.solana_from
          values.solana_to
    robinhood ←
        scan_robinhood x values.store values.oft fuel.robinhood robinhood_node values.robinhood_from
          values.robinhood_to page_size
    ok (record {
      ranges = record { solana = solana.range; robinhood = robinhood.range; further = end };
      source_messages = solana.sent ++ robinhood.sent;
      destination_messages = solana.received ++ robinhood.received;
    })

  -- From `values` on; the URLs have been read.
  unfoldable pub scan_values :
      Services → Values → (solana_urls robinhood_urls : String × String) → Result Manifest
  scan_values services values (solana_primary, solana_secondary)
        (robinhood_primary, robinhood_secondary) =
      do
        throw_if (has_unsafe_height values) "Scanner ranges must be safe integers"
        primary ←
            scan_provider_pair (services.solana solana_primary)
              (services.robinhood robinhood_primary) values
        secondary ←
            scan_provider_pair (services.solana solana_secondary)
              (services.robinhood robinhood_secondary) values
        statuses ← fetch_layer_zero_statuses services.layer_zero primary.source_messages
        inventory_id ← required services.env "SAN_APPROVED_IN_FLIGHT_INVENTORY_ID"
        commit ← required services.env "SAN_SCANNER_SOURCE_COMMIT"
        solana_id ← safe_provider_id services.url solana_primary
        solana_other ← safe_provider_id services.url solana_secondary
        robinhood_id ← safe_provider_id services.url robinhood_primary
        robinhood_other ← safe_provider_id services.url robinhood_secondary
        manifest ← build_in_flight_manifest x (record {
          inventory_id = inventory_id;
          scanner_source_commit = commit;
          generated_at = services.now;
          solana_provider_ids = solana_id ∷ solana_other ∷ [];
          robinhood_provider_ids = robinhood_id ∷ robinhood_other ∷ [];
          primary = primary;
          secondary = secondary;
          identities = production_identities values;
          layer_zero_statuses = some statuses;
        })
        inventory ← parse_in_flight_inventory x manifest
        ok manifest

  -- `scanProductionInFlight`, given the four heights as numbers.
  unfoldable pub scan_production_in_flight : Services → (solana robinhood : ℕ × ℕ) → Result Manifest
  scan_production_in_flight services (solana_from, solana_to) (robinhood_from, robinhood_to) = do
    solana_primary ← required services.env "SOLANA_MAINNET_RPC_URL"
    solana_secondary ← required services.env "SOLANA_MAINNET_SECONDARY_RPC_URL"
    robinhood_primary ← required services.env "ROBINHOOD_RPC_URL"
    robinhood_secondary ← required services.env "ROBINHOOD_SECONDARY_RPC_URL"
    store_text ← required services.env "SAN_SOLANA_OFT_STORE"
    store ← or_throw (x.public_key store_text) "Invalid public key input"
    oft_text ← required services.env "SAN_ROBINHOOD_OFT_ADDRESS"
    oft ← or_throw (x.get_address oft_text) "invalid address"
    scan_values services
        (record {
          solana_from = solana_from;
          solana_to = solana_to;
          robinhood_from = robinhood_from;
          robinhood_to = robinhood_to;
          store = x.to_base58 store;
          oft = oft;
        })
        (solana_primary, solana_secondary) (robinhood_primary, robinhood_secondary)
