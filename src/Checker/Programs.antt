-- ===== src/Checker/Programs.antt =====
-- The accounts that `collectProductionMainnetObservation` binds to the common context, and the checks
-- of their owners and of the links from programs to their data.
use san_layerzero_bridge.Base.{
  ℕ, String, Bool, ◌||◌, List, [], ◌∷◌, ltb, ◌==◌, ◌!=◌, if◌then◌else◌, Result, ok, Check, throw_if,
  for_each, ◌>>=◌, ◌>>◌, length,
}
use san_layerzero_bridge.Base.{string_Eq, nat_Eq}
use san_layerzero_bridge.Base.Text.{concat}
use san_layerzero_bridge.Base.Bytes.{read_uint32, key_of_bytes, prefix, skip}
use san_layerzero_bridge.Base.BigInt.{take_text}
use san_layerzero_bridge.Config.{
  canonical_san_mint, production_solana_oft_program, solana_upgradeable_loader,
}
use san_layerzero_bridge.ConfigCheck.Answers.{SolanaAccounts}
use san_layerzero_bridge.ConfigCheck.Solana.{solana_layer_zero_context_accounts}
use san_layerzero_bridge.External.{External}
use san_layerzero_bridge.Mainnet.Collect.{
  ProgramInfo, require_account_owner, require_upgradeable_program,
}
use san_layerzero_bridge.Mainnet.Data.{ApprovedState}
use san_layerzero_bridge.SolanaContext.{AccountRequest, AccountInfo, account}
use san_layerzero_bridge.StoreBindings.{new_public_key}

-- `SOLANA_ULN_PROGRAM`
abbrev pub solana_uln_program : String
solana_uln_program = "7a4WjyR8VZ7yZz5XJAKm39BUGn5iT9CKcv2pmG9tdXVH"

-- The addresses of the accounts
pub record Keys : Type 0 where
  pub store : ℕ
  pub program : ℕ
  pub program_data : ℕ
  pub endpoint : ℕ
  pub endpoint_data : ℕ
  pub uln : ℕ
  pub uln_data : ℕ
  pub escrow : ℕ
  pub mint : ℕ
  pub peer : ℕ
  pub layer_zero : List AccountRequest

abbrev pub program_info : AccountInfo → ProgramInfo
program_info info = record { owner = info.owner; executable = info.executable }

-- `item.label.startsWith('ULN ')`
abbrev pub is_uln_label : String → Bool
is_uln_label label = take_text 4 label == "ULN "

abbrev pub expected_owner : Keys → String → ℕ
expected_owner keys label =
    if label == "OFT peer config"
    then keys.program
    else if is_uln_label label
    then keys.uln
    else keys.endpoint

abbrev pub context_requests : Keys → List AccountRequest
context_requests keys =
    record { label = "OFT Store"; address = keys.store }
    ∷ record { label = "canonical SAN mint"; address = keys.mint }
    ∷ record { label = "SAN escrow token account"; address = keys.escrow }
    ∷ record { label = "production OFT program"; address = keys.program }
    ∷ record { label = "production OFT ProgramData"; address = keys.program_data }
    ∷ record { label = "LayerZero Endpoint program"; address = keys.endpoint }
    ∷ record { label = "LayerZero Endpoint ProgramData"; address = keys.endpoint_data }
    ∷ record { label = "LayerZero ULN302 program"; address = keys.uln }
    ∷ record { label = "LayerZero ULN302 ProgramData"; address = keys.uln_data }
    ∷ keys.layer_zero

-- The account of a program: its state is 2, and the 32 bytes from the fifth on are the address of its
-- program data.
unfoldable pub require_linked_program : List ℕ → ℕ → (state link : String) → Check
require_linked_program bytes program_data state link = do
  throw_if (ltb (length bytes) 36 || read_uint32 bytes != 2) state
  throw_if (key_of_bytes 0 (prefix 32 (skip 4 bytes)) != program_data) link

module _ (x : External) where
  unfoldable pub production_keys :
      SolanaAccounts → (endpoint : ℕ) → ApprovedState → (store : ℕ) → Result Keys
  production_keys accounts endpoint approved store = do
    program ← new_public_key x production_solana_oft_program
    peer ← accounts.peer_address store
    program_data ← new_public_key x approved.expected_solana_program_data
    endpoint_data ← new_public_key x approved.expected_solana_endpoint_program_data
    uln_data ← new_public_key x approved.expected_solana_uln_program_data
    escrow ← new_public_key x approved.solana_escrow
    mint ← new_public_key x canonical_san_mint
    uln ← new_public_key x solana_uln_program
    layer_zero ← solana_layer_zero_context_accounts x accounts approved.solana_oft_store
    ok (record {
      store = store;
      program = program;
      program_data = program_data;
      endpoint = endpoint;
      endpoint_data = endpoint_data;
      uln = uln;
      uln_data = uln_data;
      escrow = escrow;
      mint = mint;
      peer = peer;
      layer_zero = layer_zero;
    })

  module _ (values : List (String × AccountInfo)) where
    unfoldable pub require_owner_of : ℕ → ℕ → String → Check
    require_owner_of address owner label = do
      info ← account x values address
      require_account_owner x (program_info info) owner label

    unfoldable pub require_program : ℕ → String → Check
    require_program address label = do
      info ← account x values address
      require_upgradeable_program x (program_info info) label

    -- The body of the loop over the two ProgramData accounts
    unfoldable pub require_program_data : String × ℕ → Check
    require_program_data (label, address) = do
      info ← account x values address
      loader ← new_public_key x solana_upgradeable_loader
      require_account_owner x (program_info info) loader label
      throw_if info.executable (concat label " must not itself be executable")

    unfoldable pub require_owners : Keys → Check
    require_owners keys = do
      require_owner_of keys.store keys.program "OFT Store"
      for_each
          (λ (item : AccountRequest).
            require_owner_of item.address (expected_owner keys item.label) item.label)
          keys.layer_zero
      require_program keys.endpoint "LayerZero Endpoint program"
      require_program keys.uln "LayerZero ULN302 program"
      for_each require_program_data (
          ("LayerZero Endpoint ProgramData", keys.endpoint_data)
          ∷ ("LayerZero ULN302 ProgramData", keys.uln_data)
          ∷ [])
