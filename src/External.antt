-- ===== src/External.antt =====
-- The packages that the tooling calls: @solana/web3.js, bs58, ethers, node's crypto, and the
-- collation of `localeCompare`. A call that throws answers `none`.
use san_layerzero_bridge.Base.{ℕ, String, Bool, Option, List}

-- A seed of a derived address: the bytes of a text, or those of a key.
pub data Seed : Type 0 where
  text : String → Seed
  key : ℕ → Seed

pub record External : Type 0 where
  -- `new PublicKey(text)`, which holds its 32 bytes as one number
  pub public_key : String → Option ℕ
  pub to_base58 : ℕ → String
  -- `bs58.decode(text)`
  pub bs58_decode : String → Option (List ℕ)
  -- `ethers.utils.isAddress`, `getAddress`, and `hexZeroPad(text, 32)`
  pub is_address : String → Bool
  pub get_address : String → Option String
  pub hex_zero_pad : String → Option String
  -- `ethers.utils.hexlify(key.toBytes())`
  pub hexlify : ℕ → String
  -- `createHash('sha256').update(text, 'utf8').digest('hex')`
  pub sha256 : String → String
  -- `left.localeCompare(right) <= 0`
  pub locale_le : String → String → Bool
  -- The digest of a text followed by bytes
  pub sha256_with : String → List ℕ → String
  -- `PublicKey.findProgramAddressSync(seeds, program)[0]`
  pub find_program_address : List Seed → ℕ → Option ℕ
