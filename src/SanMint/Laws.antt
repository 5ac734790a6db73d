-- ===== src/SanMint/Laws.antt =====
-- What the adapter's configuration and the mint's account must be.
use san_layerzero_bridge.Base.{
  ◌≡◌, ◌↔◌, refl, sym, ◌∙◌, String, Option, none, some, ok, int, pos, is_int_iff, >>-eq-ok,
  >>=-eq-ok, ok_inj, true, str_eq, string_Eq,
}
use san_layerzero_bridge.Base.Accepts.{
  Accepts, iff_trans, then_iff, check_iff, not_iff, throw_if-accepts, throw_if-eq, not-eq-false,
}
use san_layerzero_bridge.Base.BigInt.{trim}
use san_layerzero_bridge.Config.{
  solana_eid, canonical_san_mint, legacy_spl_token_program, production_solana_oft_program,
}
use san_layerzero_bridge.External.{External}
use san_layerzero_bridge.SanMint.{
  AdapterConfig, MintObservation, is_null, require_canonical_san_mint,
  require_supported_token_program, validate_san_adapter_config, validate_canonical_san_mint_account,
}

pub record IsCanonical (config : AdapterConfig) (kind : String) : Type 0 where
  pub eid : config.eid ≡ int solana_eid
  pub configured :
      (value : String) × (config.configured_mint ≡ some value) × (trim value ≡ canonical_san_mint)
  pub mint : trim config.mint ≡ canonical_san_mint
  pub program : config.program_id ≡ production_solana_oft_program
  pub token_program : config.token_program ≡ legacy_spl_token_program
  pub kind_eq : kind ≡ "SPL Token"

legacy-kind : require_supported_token_program legacy_spl_token_program ≡ ok "SPL Token"
unfolding require_supported_token_program str_eq
legacy-kind = refl

require_canonical_san_mint-eq :
    (x : External) (value : Option String) {mint : String}
    → require_canonical_san_mint x value ≡ ok mint
    → (text : String) × (value ≡ some text) × (trim text ≡ canonical_san_mint)
unfolding require_canonical_san_mint
require_canonical_san_mint-eq x none h = cc
require_canonical_san_mint-eq x (some value) h =
    let (_, h₁) = >>-eq-ok _ _ h in
    let (_, h₂) = >>-eq-ok _ _ h₁ in
    let (canonical, _) = >>-eq-ok _ _ h₂ in
    (value, refl, throw_if-eq (trim value) canonical_san_mint _ canonical)

-- An adapter configuration is accepted for Solana mainnet, the canonical mint (given twice, up to
-- surrounding white space), the production program and the legacy token program alone, and the kind
-- that is returned is the legacy one.
pub validate_san_adapter_config-IsCanonical :
    (x : External) (config : AdapterConfig) {kind : String}
    → validate_san_adapter_config x config ≡ ok kind
    → IsCanonical config kind
unfolding validate_san_adapter_config
validate_san_adapter_config-IsCanonical x config h =
    let (eid, h₁) = >>-eq-ok _ _ h in
    let (a, configured, h₂) =
      >>=-eq-ok (require_canonical_san_mint x config.configured_mint) _ h₁ in
    let (b, given, h₃) = >>=-eq-ok (require_canonical_san_mint x (some config.mint)) _ h₂ in
    let (_, h₄) = >>-eq-ok _ _ h₃ in
    let (program, h₅) = >>-eq-ok _ _ h₄ in
    let (token, supported) = >>-eq-ok _ _ h₅ in
    let token_eq : config.token_program ≡ legacy_spl_token_program = throw_if-eq _ _ _ token in
    let (text, is_text, canonical) = require_canonical_san_mint-eq x (some config.mint) given in
    let text_eq : config.mint ≡ text = cc is_text in
    record {
      eid = (is_int_iff _ _).0 (not-eq-false _ (throw_if-accepts _ _ eid));
      configured = require_canonical_san_mint-eq x config.configured_mint configured;
      mint = rw text_eq canonical;
      program = throw_if-eq _ _ _ program;
      token_program = token_eq;
      kind_eq = ok_inj (sym (rw token_eq at supported) ∙ legacy-kind);
    }

is_null_iff : {o : Option String} → (is_null o ≡ true) ↔ (o ≡ none)
is_null_iff {o = none} = (λ h. refl, λ h. refl)
is_null_iff {o = some s} = (λ h. cc, λ h. cc)

-- The mint's account is accepted exactly when it has six decimals and both of its authorities are
-- revoked.
pub validate_canonical_san_mint_account_iff :
    (o : MintObservation)
    → Accepts (validate_canonical_san_mint_account o)
      ↔ ((o.decimals ≡ int (pos 6)) × (o.mint_authority ≡ none) × (o.freeze_authority ≡ none))
unfolding validate_canonical_san_mint_account
validate_canonical_san_mint_account_iff o =
    iff_trans
      (then_iff (check_iff _ (not_iff (is_int_iff o.decimals (pos 6))))
        (then_iff (check_iff _ (not_iff is_null_iff)) (check_iff _ (not_iff is_null_iff))))
      (λ h. (h.0, h.1.0, h.1.1), λ h. (h.0, (h.1, h.2)))
