-- ===== src/StoreBindings.antt =====
-- scripts/productionStoreBindings.ts: the OFT Store's mint, escrow and derived address.
mod Laws
mod Tests
use san_layerzero_bridge.Base.{
  String, Bool, not, Option, none, some, List, [], ◌∷◌, ◌==◌, ◌!=◌, nat_Eq, Check, throw_if,
  or_throw, ◌>>=◌, ◌>>◌, Result, ℕ,
}
use san_layerzero_bridge.Config.{canonical_san_mint, production_solana_oft_program}
use san_layerzero_bridge.External.{External, Seed, text, key}

module _ (x : External) where
  open x use {public_key, find_program_address}

  -- `new PublicKey(value)`
  abbrev pub new_public_key : String → Result ℕ
  new_public_key value = or_throw (public_key value) "Invalid public key input"

  unfoldable pub require_oft_store_asset_bindings : String → String → String → String → Check
  require_oft_store_asset_bindings oft_store_address store_token_mint store_token_escrow
        approved_escrow =
      do
        store_address ← new_public_key oft_store_address
        token_mint ← new_public_key store_token_mint
        token_escrow ← new_public_key store_token_escrow
        approved_escrow_address ← new_public_key approved_escrow
        canonical ← new_public_key canonical_san_mint
        throw_if (token_mint != canonical) "Solana OFT Store token mint is not canonical SAN"
        throw_if (token_escrow != approved_escrow_address)
            "Solana OFT Store token escrow differs from the approved escrow"
        program ← new_public_key production_solana_oft_program
        derived_store ←
            or_throw (find_program_address (text "OFT" ∷ key approved_escrow_address ∷ []) program)
              "Unable to find a viable program address nonce"
        throw_if (store_address != derived_store)
            "Solana OFT Store is not the production PDA derived from the approved escrow"
