-- ===== src/Testnet.antt =====
-- scripts/testnetPolicy.ts, with the constants of config/testnet.ts: no mainnet asset or chain in the
-- testnet tooling.
mod Laws
mod Tests
use san_layerzero_bridge.Base.{
  String, Bool, not, ◌||◌, Option, none, some, ℤ, pos, Number, int, is_int, ◌==◌, string_Eq, Result,
  ok, err, throw_if, or_throw, ◌>>=◌, ◌>>◌,
}
use san_layerzero_bridge.Config.{canonical_san_mint, solana_eid, robinhood_eid, robinhood_chain_id}
use san_layerzero_bridge.External.{External}

-- `TESTNET_CONFIG`
abbrev pub devnet_eid : ℤ
devnet_eid = pos 40168

abbrev pub testnet_eid : ℤ
testnet_eid = pos 40451

abbrev pub testnet_chain_id : ℤ
testnet_chain_id = pos 46630

-- `TestnetAssetInput`
pub record AssetInput : Type 0 where
  pub mint : Option String
  pub solana_eid : Number
  pub robinhood_eid : Number
  pub robinhood_chain_id : Number

module _ (x : External) where
  unfoldable pub require_testnet_mint : Option String → Result String
  require_testnet_mint none = err "TESTNET_SOLANA_MINT is required; no mint is defaulted"
  require_testnet_mint (some value) = do
    throw_if (value == "") "TESTNET_SOLANA_MINT is required; no mint is defaulted"
    key ← or_throw (x.public_key value) "TESTNET_SOLANA_MINT is not a valid Solana public key"
    let mint = x.to_base58 key
    throw_if (mint == canonical_san_mint)
        "Canonical SAN mainnet mint is forbidden in testnet tooling"
    ok mint

  unfoldable pub validate_testnet_asset : AssetInput → Result String
  validate_testnet_asset input = do
    mint ← require_testnet_mint input.mint
    throw_if (not (is_int input.solana_eid devnet_eid) || is_int input.solana_eid solana_eid)
        "Testnet tooling requires Solana Devnet EID 40168"
    throw_if
        (not (is_int input.robinhood_eid testnet_eid) || is_int input.robinhood_eid robinhood_eid)
        "Testnet tooling requires Robinhood Testnet EID 40451"
    throw_if
        (not (is_int input.robinhood_chain_id testnet_chain_id)
          || is_int input.robinhood_chain_id robinhood_chain_id)
        "Testnet tooling requires Robinhood Testnet chain ID 46630"
    ok mint
