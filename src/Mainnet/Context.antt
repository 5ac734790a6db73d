-- ===== src/Mainnet/Context.antt =====
-- `validateSolanaContextEvidence`
use san_layerzero_bridge.Base.{
  String, not, ◌||◌, List, [], ◌∷◌, pos, leb_ℤ, ltb_ℤ, ◌==◌, ◌!=◌, string_Eq, nat_Eq, length,
  includes, Result, ok, Check, throw_if, ◌>>=◌, ◌>>◌, if◌then◌else◌,
}
use san_layerzero_bridge.Base.Text.{concat, is_base58_text}
use san_layerzero_bridge.Mainnet.Data.{ContextEvidence, AccountEvidence}
use san_layerzero_bridge.Mainnet.Checks.{require_hash}

-- `SOLANA_OBSERVATION_MODEL`
abbrev pub solana_observation_model : String
solana_observation_model = "COMMON_CONTEXT_STRONG"

abbrev pub required_accounts : List String
required_accounts =
    "OFT Store" ∷ "OFT peer config" ∷ "canonical SAN mint" ∷ "SAN escrow token account"
    ∷ "production OFT program" ∷ "production OFT ProgramData" ∷ "LayerZero Endpoint program"
    ∷ "LayerZero Endpoint ProgramData" ∷ "LayerZero ULN302 program" ∷ "LayerZero ULN302 ProgramData"
    ∷ "Endpoint OApp registry" ∷ "Endpoint default send-library config"
    ∷ "Endpoint app send-library config" ∷ "Endpoint default receive-library config"
    ∷ "Endpoint app receive-library config" ∷ "ULN message-library PDA" ∷ "ULN custom send config"
    ∷ "ULN custom receive config" ∷ []

-- `required.delete(label)`
unfoldable pub remove : String → List String → List String
remove label [] = []
remove label (s ∷ ss) = let rest = remove label ss in if s == label then rest else s ∷ rest

-- The loop over the accounts, with the addresses that were seen and the labels still required; it
-- returns the labels that are left.
unfoldable pub check_accounts :
    List AccountEvidence → List String → List String → Result (List String)
check_accounts [] addresses required = ok required
check_accounts (account ∷ rest) addresses required = do
  throw_if (includes addresses account.address)
      "Solana common-context evidence contains a duplicate account"
  require_hash account.account_sha256
      (concat "Solana common-context " (concat account.label " account hash"))
  check_accounts rest (account.address ∷ addresses) (remove account.label required)

unfoldable pub validate_solana_context_evidence : ContextEvidence → Check
validate_solana_context_evidence evidence = do
  throw_if (evidence.model != solana_observation_model || evidence.commitment != "finalized")
      "Production Solana state is not backed by COMMON_CONTEXT_STRONG finalized evidence"
  throw_if
      (leb_ℤ evidence.context_slot (pos 0)
        || leb_ℤ evidence.finalized_slot_before (pos 0)
        || leb_ℤ evidence.finalized_slot_after (pos 0)
        || ltb_ℤ evidence.context_slot evidence.finalized_slot_before
        || ltb_ℤ evidence.finalized_slot_after evidence.context_slot)
      "Solana common-context slot is stale or outside the finalized observation window"
  throw_if (not (is_base58_text evidence.blockhash))
      "Solana common-context block evidence is missing or malformed"
  left ← check_accounts evidence.accounts [] required_accounts
  throw_if (length left != 0) "Solana common-context evidence is missing required accounts"
