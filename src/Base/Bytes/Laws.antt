-- ===== src/Base/Bytes/Laws.antt =====
-- What the pieces of a buffer are, and that numbers and texts are read back from their bytes.
use san_layerzero_bridge.Base.{
  ℕ, zero, suc, ◌+◌, ◌-◌, ◌*◌, ◌/◌, ◌%◌, ◌≤◌, ◌<◌, ◌≡◌, refl, ap, Bool, true, ◌&&◌, List, [], ◌∷◌,
  ◌++◌, arith, ◌==◌, length, All, nat_Eq,
}
use Prim.Native.Char.{code}
use san_layerzero_bridge.Base.BigInt.{digit_value}
use san_layerzero_bridge.Base.Accepts.{and-eq-IsTrue}
use san_layerzero_bridge.Base.Text.{every, is_hex, size}
use san_layerzero_bridge.Base.Bytes.{
  skip, prefix, read_uint32, read_uint64, to_hex, from_hex, hex_char,
}

module _ {ℓ} {A : Type ℓ} where
  pub prefix-append : (n : ℕ) (xs ys : List A) → length xs ≡ n → prefix n (xs ++ ys) ≡ xs
  unfolding prefix
  prefix-append zero [] ys h = refl
  prefix-append zero (x ∷ xs) ys h = absurd (omega arith)
  prefix-append (suc n) [] ys h = absurd (omega arith)
  prefix-append (suc n) (x ∷ xs) ys h = ap (λ t. x ∷ t) (prefix-append n xs ys (omega arith))

  pub skip-append : (n : ℕ) (xs ys : List A) → length xs ≡ n → skip n (xs ++ ys) ≡ ys
  unfolding skip
  skip-append zero [] ys h = refl
  skip-append zero (x ∷ xs) ys h = absurd (omega arith)
  skip-append (suc n) [] ys h = absurd (omega arith)
  skip-append (suc n) (x ∷ xs) ys h = skip-append n xs ys (omega arith)

  pub prefix-skip : (n : ℕ) (xs : List A) → prefix n xs ++ skip n xs ≡ xs
  unfolding prefix skip
  prefix-skip zero xs = refl
  prefix-skip (suc n) [] = refl
  prefix-skip (suc n) (x ∷ xs) = ap (λ t. x ∷ t) (prefix-skip n xs)

  pub length-skip : (n : ℕ) (xs : List A) → length (skip n xs) ≡ length xs - n
  unfolding skip
  length-skip zero xs = omega arith
  length-skip (suc n) [] = omega arith
  length-skip (suc n) (x ∷ xs) = omega (arith, length-skip n xs)

  pub length-prefix : (n : ℕ) (xs : List A) → n ≤ length xs → length (prefix n xs) ≡ n
  unfolding prefix
  length-prefix zero xs h = refl
  length-prefix (suc n) [] h = absurd (omega arith)
  length-prefix (suc n) (x ∷ xs) h = omega (arith, length-prefix n xs (omega arith))

-- The bytes of a number, the lowest first.
unfoldable pub le_bytes : ℕ → ℕ → List ℕ
le_bytes zero n = []
le_bytes (suc width) n = (n % 256) ∷ le_bytes width (n / 256)

pub length-le_bytes : (width n : ℕ) → length (le_bytes width n) ≡ width
unfolding le_bytes
length-le_bytes zero n = refl
length-le_bytes (suc width) n = omega (arith, length-le_bytes width (n / 256))

pub read_uint32-le_bytes :
    (n : ℕ) (rest : List ℕ) → n < 4_294_967_296 → read_uint32 (le_bytes 4 n ++ rest) ≡ n
unfolding read_uint32 le_bytes
read_uint32-le_bytes n rest h = omega arith

pub read_uint64-le_bytes :
    (n : ℕ) (rest : List ℕ)
    → n < 18_446_744_073_709_551_616
    → read_uint64 (le_bytes 8 n ++ rest) ≡ n
unfolding read_uint64 read_uint32 skip le_bytes
read_uint64-le_bytes n rest h = omega arith

abbrev pub IsByte : ℕ → Type 0
IsByte b = b < 256

all_below : ℕ → (ℕ → Bool) → Bool
all_below zero p = true
all_below (suc n) p = p n && all_below n p

all_below_sound : (n : ℕ) (p : ℕ → Bool) (d : ℕ) → all_below n p ≡ true → d < n → p d ≡ true
unfolding all_below
all_below_sound zero p d h lt = absurd (omega arith)
all_below_sound (suc n) p d h lt = ground (arith, all_below_sound n p d)

abbrev reads_back : ℕ → Bool
reads_back d = digit_value (code (hex_char d)) == d && is_hex (code (hex_char d))

digits_read_back : all_below 16 reads_back ≡ true
unfolding all_below digit_value
digits_read_back = refl

hex_digit_lem :
    (d : ℕ) → d < 16 → (digit_value (code (hex_char d)) ≡ d) × (is_hex (code (hex_char d)) ≡ true)
hex_digit_lem d h =
    let (value, hex) =
      and-eq-IsTrue (digit_value (code (hex_char d)) == d) (is_hex (code (hex_char d)))
        (all_below_sound 16 reads_back d digits_read_back h) in
    (ground (arith, value), hex)

pub from-to_hex : (bytes : List ℕ) → All IsByte bytes → from_hex (to_hex bytes) ≡ bytes
unfolding from_hex to_hex
from-to_hex [] h = refl
from-to_hex (b ∷ bytes) (small, rest) =
    let (v, p) = hex_digit_lem (b / 16) (omega arith) in
    let (w, q) = hex_digit_lem (b % 16) (omega arith) in
    let value : digit_value (code (hex_char (b / 16))) * 16 + digit_value (code (hex_char (b % 16)))
        ≡ b =
      omega (arith, v, w) in
    rw (p, q, value, from-to_hex bytes rest) refl

pub to_hex-hex :
    (bytes : List ℕ)
    → All IsByte bytes
    → (every is_hex (to_hex bytes) ≡ true) × (size (to_hex bytes) ≡ 2 * length bytes)
unfolding to_hex
to_hex-hex [] h = (refl, refl)
to_hex-hex (b ∷ bytes) (small, rest) =
    let (w, q) = hex_digit_lem (b / 16) (omega arith) in
    let (v, p) = hex_digit_lem (b % 16) (omega arith) in
    let (e, n) = to_hex-hex bytes rest in (rw (q, p, e) refl, omega (arith, n))
