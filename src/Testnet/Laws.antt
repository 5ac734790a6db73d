-- ===== src/Testnet/Laws.antt =====
-- No asset of the testnet tooling is one of mainnet.
use san_layerzero_bridge.Base.{
  ◌≡◌, ◌≢◌, refl, sym, ◌∙◌, String, Option, none, some, ok, int, is_int_iff, >>-eq-ok, >>=-eq-ok,
  ok_inj, or_throw, or_throw-eq-ok, string_Eq, ℕ,
}
use san_layerzero_bridge.Base.Accepts.{throw_if-accepts, not-eq-false, or-eq-IsFalse, beq-ne}
use san_layerzero_bridge.Config.{canonical_san_mint}
use san_layerzero_bridge.External.{External}
use san_layerzero_bridge.Testnet.{
  AssetInput, devnet_eid, testnet_eid, testnet_chain_id, require_testnet_mint,
  validate_testnet_asset,
}

pub record IsTestAsset (x : External) (input : AssetInput) (mint : String) : Type 0 where
  pub key : ℕ
  pub value : String
  pub given : input.mint ≡ some value
  pub reads : x.public_key value ≡ some key
  pub canonical_text : mint ≡ x.to_base58 key
  pub not_mainnet : mint ≢ canonical_san_mint
  pub solana : input.solana_eid ≡ int devnet_eid
  pub robinhood : input.robinhood_eid ≡ int testnet_eid
  pub chain : input.robinhood_chain_id ≡ int testnet_chain_id

require_testnet_mint-eq :
    (x : External) (o : Option String) {mint : String}
    → require_testnet_mint x o ≡ ok mint
    → (value : String) × (o ≡ some value)
      × (key : ℕ) × (x.public_key value ≡ some key)
      × (mint ≡ x.to_base58 key)
      × (mint ≢ canonical_san_mint)
unfolding require_testnet_mint
require_testnet_mint-eq x none h = cc
require_testnet_mint-eq x (some value) h =
    let (_, h₁) = >>-eq-ok _ _ h in
    let (key, read, h₂) = >>=-eq-ok (or_throw (x.public_key value) _) _ h₁ in
    let (other, same) = >>-eq-ok _ _ h₂ in
    let ne : x.to_base58 key ≢ canonical_san_mint = beq-ne _ _ (throw_if-accepts _ _ other) in
    let mint_eq = ok_inj same in
    (value, refl, key, or_throw-eq-ok _ _ read, sym mint_eq, λ e. ne (mint_eq ∙ e))

-- An asset is accepted for testnet only if its mint was given, is the canonical text of a public key
-- and is not the mainnet mint, and its three chain numbers are those of the test networks.
pub validate_testnet_asset-IsTestAsset :
    (x : External) (input : AssetInput) {mint : String}
    → validate_testnet_asset x input ≡ ok mint
    → IsTestAsset x input mint
unfolding validate_testnet_asset
validate_testnet_asset-IsTestAsset x input {mint} h =
    let (m, read, h₁) = >>=-eq-ok (require_testnet_mint x input.mint) _ h in
    let (a, h₂) = >>-eq-ok _ _ h₁ in
    let (b, h₃) = >>-eq-ok _ _ h₂ in
    let (c, same) = >>-eq-ok _ _ h₃ in
    let (a₁, _) = or-eq-IsFalse _ _ (throw_if-accepts _ _ a) in
    let (b₁, _) = or-eq-IsFalse _ _ (throw_if-accepts _ _ b) in
    let (c₁, _) = or-eq-IsFalse _ _ (throw_if-accepts _ _ c) in
    let mint_eq = ok_inj same in
    let (value, given, key, reads, canonical, other) =
      require_testnet_mint-eq x input.mint (read ∙ same) in
    record {
      key = key;
      value = value;
      given = given;
      reads = reads;
      canonical_text = canonical;
      not_mainnet = other;
      solana = (is_int_iff _ _).0 (not-eq-false _ a₁);
      robinhood = (is_int_iff _ _).0 (not-eq-false _ b₁);
      chain = (is_int_iff _ _).0 (not-eq-false _ c₁);
    }
