-- ===== src/Mainnet/Checks.antt =====
-- The checks on single addresses and hashes.
use san_layerzero_bridge.Base.{
  ℕ, ◌+◌, String, Bool, not, ◌||◌, List, [], ◌∷◌, ◌==◌, ◌!=◌, string_Eq, nat_Eq, Result, ok, Check,
  throw_if, or_throw, ◌>>=◌, ◌>>◌, if◌then◌else◌, true, false,
}
use san_layerzero_bridge.Base.Text.{concat, is_hash32, to_lower}
use san_layerzero_bridge.Config.{address_zero}
use san_layerzero_bridge.External.{External}

-- `requireHash`
unfoldable pub require_hash : String → String → Check
require_hash value label =
    throw_if (not (is_hash32 value)) (concat label " must be an explicit 32-byte hash")

-- `values.some(test)`, where the test may throw
unfoldable pub some_of : (String → Result Bool) → List String → Result Bool
some_of test [] = ok false
some_of test (s ∷ ss) =
    let rest = some_of test ss in test s >>= λ found. if found then ok true else rest

-- `values.forEach((value, index) => check(value, index))`
unfoldable pub for_each_index : (String → ℕ → Check) → ℕ → List String → Check
for_each_index check index [] = ok tt
for_each_index check index (s ∷ ss) = check s index >> for_each_index check (index + 1) ss

module _ (x : External) where
  open x use {public_key, is_address, get_address, hex_zero_pad, hexlify}

  -- `equalSolanaAddress`
  unfoldable pub equal_solana_address : String → String → String → Check
  equal_solana_address actual expected label = do
    a ← or_throw (public_key actual) (concat label " is not a valid Solana public key")
    b ← or_throw (public_key expected) (concat label " is not a valid Solana public key")
    throw_if (a != b) (concat label " differs")

  -- `equalEvmAddress`
  unfoldable pub equal_evm_address : String → String → String → Check
  equal_evm_address actual expected label = do
    throw_if (not (is_address actual)) (concat label " differs")
    a ← or_throw (get_address actual) "invalid address"
    b ← or_throw (get_address expected) "invalid address"
    throw_if (a != b) (concat label " differs")

  -- `requireSolanaAddress`
  unfoldable pub require_solana_address : String → String → Check
  require_solana_address value label =
      or_throw (public_key value) (concat label " is not a valid Solana public key") >>= λ _. ok tt

  -- `requireEvmAddress`
  unfoldable pub require_evm_address : String → String → Check
  require_evm_address value label =
      throw_if (not (is_address value) || value == address_zero)
        (concat label " is not a nonzero EVM address")

  -- `isSameSolanaAddress`
  unfoldable pub is_same_solana_address : String → String → Result Bool
  is_same_solana_address left right = do
    a ← or_throw (public_key left) "Invalid public key input"
    b ← or_throw (public_key right) "Invalid public key input"
    ok (a == b)

  -- `isSameEvmAddress`
  unfoldable pub is_same_evm_address : String → String → Result Bool
  is_same_evm_address left right = do
    a ← or_throw (get_address left) "invalid address"
    b ← or_throw (get_address right) "invalid address"
    ok (a == b)

  -- `bytes32FromSolana`
  unfoldable pub bytes32_from_solana : String → Result String
  bytes32_from_solana address = or_throw (public_key address) "Invalid public key input" >>= λ key.
      ok (to_lower (hexlify key))

  -- `bytes32FromEvm`
  unfoldable pub bytes32_from_evm : String → Result String
  bytes32_from_evm address =
      or_throw (hex_zero_pad address) "invalid hex string" >>= λ padded. ok (to_lower padded)
