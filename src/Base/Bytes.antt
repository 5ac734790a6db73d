-- ===== src/Base/Bytes.antt =====
-- `Buffer`: bytes as numbers below 256, read as little-endian numbers, as keys and as hexadecimal
-- text.
pub mod Laws
use san_layerzero_bridge.Base.{
  ℕ, zero, suc, ◌+◌, ◌*◌, ◌/◌, ◌%◌, String, ◌&&◌, Option, none, some, List, [], ◌∷◌, if◌then◌else◌,
}
use Prim.Native.Char.{Char, code}
use Prim.Native.String.{char_at}
use Prim.Native.String as Str
use san_layerzero_bridge.Base.BigInt.{digit_value}
use san_layerzero_bridge.Base.Text.{is_hex}

-- `buffer.readUInt32LE(0)`, of a buffer that is long enough
unfoldable pub read_uint32 : List ℕ → ℕ
read_uint32 (a ∷ b ∷ c ∷ d ∷ rest) = a + 256 * b + 65_536 * c + 16_777_216 * d
read_uint32 _ = 0

-- `buffer[index]`
unfoldable pub byte_at : ℕ → List ℕ → Option ℕ
byte_at n [] = none
byte_at zero (b ∷ rest) = some b
byte_at (suc n) (b ∷ rest) = byte_at n rest

module _ {ℓ} {A : Type ℓ} where
  -- `items.subarray(n)` and `items.subarray(0, n)`
  unfoldable pub skip : ℕ → List A → List A
  skip zero items = items
  skip (suc n) [] = []
  skip (suc n) (b ∷ rest) = skip n rest

  unfoldable pub prefix : ℕ → List A → List A
  prefix zero items = []
  prefix (suc n) [] = []
  prefix (suc n) (b ∷ rest) = b ∷ prefix n rest

-- A key as one number, its first byte the highest.
unfoldable pub key_of_bytes : ℕ → List ℕ → ℕ
key_of_bytes acc [] = acc
key_of_bytes acc (b ∷ rest) = key_of_bytes (acc * 256 + b) rest

-- `buffer.readBigUInt64LE(0)`, of a buffer that is long enough
unfoldable pub read_uint64 : List ℕ → ℕ
unfolding read_uint32 skip
read_uint64 bytes = read_uint32 bytes + 4_294_967_296 * read_uint32 (skip 4 bytes)

abbrev pub hex_char : ℕ → Char
hex_char n = char_at "0123456789abcdef" n

-- `buffer.toString('hex')`
unfoldable pub to_hex : List ℕ → String
to_hex [] = ""
to_hex (b ∷ bytes) = Str.◌∷◌ (hex_char (b / 16)) (Str.◌∷◌ (hex_char (b % 16)) (to_hex bytes))

-- `Buffer.from(text, 'hex')`, which ends at the first pair that is not of hexadecimal digits
unfoldable pub from_hex : String → List ℕ
unfolding digit_value
from_hex (Str.◌∷◌ a (Str.◌∷◌ b s)) =
    let rest = from_hex s in
    if is_hex (code a) && is_hex (code b)
    then (digit_value (code a) * 16 + digit_value (code b)) ∷ rest
    else []
from_hex _ = []
