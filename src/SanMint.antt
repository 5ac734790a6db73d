-- ===== src/SanMint.antt =====
-- scripts/sanMintConfig.ts: the canonical mint, its program, and the amounts shown to a reader.
mod Tests
mod Laws
use san_layerzero_bridge.Base.{
  ℕ, ◌+◌, ◌-◌, String, Bool, not, ◌||◌, Option, none, some, ℤ, pos, negsuc, Number, int, other,
  is_int, length, ◌==◌, ◌!=◌, string_Eq, nat_Eq, Result, ok, err, Check, throw_if, ◌>>=◌, ◌>>◌,
  if◌then◌else◌, zero, suc, nat_eq,
}
use Prim.Native.String as Str
use Prim.Native.Char.{code}
use san_layerzero_bridge.Base.Text.{concat, is_blank, size, every, pad_start, show_nat}
use san_layerzero_bridge.Base.BigInt.{trim, take_text, drop_text}
use san_layerzero_bridge.Config.{
  solana_eid, canonical_san_mint, legacy_spl_token_program, token_2022_program,
  production_solana_oft_program, solana_mainnet_genesis_hash,
}
use san_layerzero_bridge.External.{External}
use san_layerzero_bridge.InFlight.Json.{show_number}

-- `SanAdapterConfig`
pub record AdapterConfig : Type 0 where
  pub eid : Number
  pub mint : String
  pub configured_mint : Option String
  pub token_program : String
  pub program_id : String

-- `SanMintAccountObservation`
pub record MintObservation : Type 0 where
  pub decimals : Number
  pub mint_authority : Option String
  pub freeze_authority : Option String

unfoldable pub require_supported_token_program : String → Result String
require_supported_token_program owner =
    if owner == legacy_spl_token_program
    then ok "SPL Token"
    else if owner == token_2022_program
    then ok "Token-2022"
    else err "Unsupported SAN mint owner"

unfoldable pub require_solana_mainnet : String → Check
require_solana_mainnet genesis_hash =
    throw_if (genesis_hash != solana_mainnet_genesis_hash)
      "RPC is not Solana mainnet: unexpected genesis hash"

module _ (x : External) where
  -- `isSolanaPublicKey`
  unfoldable pub decodes_to_key : String → Bool
  decodes_to_key value = elim (x.bs58_decode value) [
    | none ↦ Bool.false
    | some bytes ↦ length bytes == 32
  ]

  unfoldable pub require_canonical_san_mint : Option String → Result String
  require_canonical_san_mint none = err "SAN_SOLANA_MINT is required"
  require_canonical_san_mint (some value) = do
    throw_if (is_blank value) "SAN_SOLANA_MINT is required"
    let mint = trim value
    throw_if (not (decodes_to_key mint)) "SAN_SOLANA_MINT is not a valid Solana public key"
    throw_if (mint != canonical_san_mint) "Refusing non-canonical SAN mint"
    ok mint

  unfoldable pub validate_san_adapter_config : AdapterConfig → Result String
  validate_san_adapter_config config = do
    throw_if (not (is_int config.eid solana_eid))
        "SAN adapter creation is restricted to Solana mainnet EID 30168"
    configured_mint ← require_canonical_san_mint config.configured_mint
    command_mint ← require_canonical_san_mint (some config.mint)
    throw_if (configured_mint != command_mint) "Adapter mint does not match SAN_SOLANA_MINT"
    throw_if (config.program_id != production_solana_oft_program)
        "SAN adapter creation requires production OFT program"
    throw_if (config.token_program != legacy_spl_token_program)
        "Canonical SAN must use the legacy SPL Token program"
    require_supported_token_program config.token_program

abbrev pub is_null : Option String → Bool
is_null none = Bool.true
is_null (some _) = Bool.false

unfoldable pub validate_canonical_san_mint_account : MintObservation → Check
validate_canonical_san_mint_account observation = do
  throw_if (not (is_int observation.decimals (pos 6))) "Canonical SAN mint decimals are not 6"
  throw_if (not (is_null observation.mint_authority)) "Canonical SAN mint authority is not revoked"
  throw_if (not (is_null observation.freeze_authority))
      "Canonical SAN freeze authority is not revoked"

-- `s.replace(/0+$/, '')`
unfoldable pub strip_zeros : String → String
strip_zeros Str.[] = ""
strip_zeros (Str.◌∷◌ c s) =
    let rest = strip_zeros s in
    if every (λ d. nat_eq d b'0') (Str.◌∷◌ c s) then "" else Str.◌∷◌ c rest

unfoldable pub with_point : String → String → String
with_point whole fraction = if fraction == "" then whole else concat whole (concat "." fraction)

unfoldable pub format_raw_token_amount : ℤ → Number → Result String
format_raw_token_amount raw_amount (other _) = err "Invalid mint decimals"
format_raw_token_amount raw_amount (int (negsuc _)) = err "Invalid mint decimals"
format_raw_token_amount raw_amount (int (pos decimals)) =
    let text = show_number (int raw_amount) in
    let digits = pad_start (decimals + 1) text in
    let whole = size digits - decimals in
    if decimals == 0
    then ok text
    else ok (with_point (take_text whole digits) (strip_zeros (drop_text whole digits)))
