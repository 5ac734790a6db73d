-- ===== src/Base/Text.antt =====
-- Texts of the source and the operations on them. Letter case is that of ASCII, in which every
-- hash, address and status name of the program is written.
use Prim.Native.Nat.{ℕ, zero, suc, ◌+◌, ◌-◌, ◌*◌, ◌/◌, ◌%◌, Ordering}
use Prim.Native.Nat as Nat
use Prim.Native.Char.{Char, code}
use Prim.Native.String.{String, [], ◌∷◌, ◌++◌, char_at, compare}
use mathlib.Core.Bool.{Bool, true, false, not, ◌&&◌, ◌||◌}
use san_layerzero_bridge.Base.Tests.{leb, nat_eq, str_eq, if◌then◌else◌}

-- A template literal, `${s}${t}`
abbrev pub concat : String → String → String
concat s t = s ++ t

-- Each character passes the test: the body of a regular expression `^[…]*$`.
abbrev pub every : (ℕ → Bool) → String → Bool
every test [] = true
every test (c ∷ s) = test (code c) && every test s

-- The number of characters.
abbrev pub size : String → ℕ
size [] = 0
size (c ∷ s) = suc (size s)

abbrev pub is_digit : ℕ → Bool
is_digit c = leb b'0' c && leb c b'9'

-- `[0-9a-f]`
abbrev pub is_lower_hex : ℕ → Bool
is_lower_hex c = is_digit c || leb b'a' c && leb c b'f'

-- `[0-9a-fA-F]`
abbrev pub is_hex : ℕ → Bool
is_hex c = is_lower_hex c || leb b'A' c && leb c b'F'

-- `[1-9A-HJ-NP-Za-km-z]`
abbrev pub is_base58 : ℕ → Bool
is_base58 c =
    leb b'1' c && leb c b'9'
    || leb b'A' c && leb c b'H'
    || leb b'J' c && leb c b'N'
    || leb b'P' c && leb c b'Z'
    || leb b'a' c && leb c b'k'
    || leb b'm' c && leb c b'z'

-- `/^0x[0-9a-fA-F]{64}$/`
unfoldable pub is_hash32 : String → Bool
is_hash32 (a ∷ b ∷ s) =
    nat_eq (code a) b'0' && nat_eq (code b) b'x' && nat_eq (size s) 64 && every is_hex s
is_hash32 _ = false

-- `/^[0-9a-f]{40}$/`
unfoldable pub is_git_commit : String → Bool
is_git_commit s = nat_eq (size s) 40 && every is_lower_hex s

-- `/^\d+$/`
unfoldable pub is_digits : String → Bool
is_digits s = not (str_eq s "") && every is_digit s

-- `/^[1-9A-HJ-NP-Za-km-z]+$/`
unfoldable pub is_base58_text : String → Bool
is_base58_text s = not (str_eq s "") && every is_base58 s

unfoldable pub digits_from : ℕ → String → ℕ
digits_from acc [] = acc
digits_from acc (c ∷ s) = digits_from (acc * 10 + (code c - b'0')) s

-- `BigInt(s)` of a text of digits
unfoldable pub parse_digits : String → ℕ
unfolding digits_from
parse_digits s = digits_from 0 s

lower_char : Char → Char
lower_char c =
    if leb b'A' (code c) && leb (code c) b'Z'
    then char_at "abcdefghijklmnopqrstuvwxyz" (code c - b'A')
    else c

upper_char : Char → Char
upper_char c =
    if leb b'a' (code c) && leb (code c) b'z'
    then char_at "ABCDEFGHIJKLMNOPQRSTUVWXYZ" (code c - b'a')
    else c

-- `s.toLowerCase()`
unfoldable pub to_lower : String → String
unfolding lower_char
to_lower [] = []
to_lower (c ∷ s) = lower_char c ∷ to_lower s

-- `s.toUpperCase()`
unfoldable pub to_upper : String → String
unfolding upper_char
to_upper [] = []
to_upper (c ∷ s) = upper_char c ∷ to_upper s

-- White space, as `trim` removes it; of the characters above U+007F only the no-break space.
abbrev pub is_space : ℕ → Bool
is_space c = leb 9 c && leb c 13 || nat_eq c 32 || nat_eq c 160

-- `!s.trim()`
unfoldable pub is_blank : String → Bool
is_blank s = every is_space s

-- The order of `sort` without a comparison function. On texts of code points up to U+FFFF it is that
-- of the code points.
unfoldable pub leq_text : String → String → Bool
leq_text s t = elim (compare s t) [ Ordering.gt ↦ false | _ ↦ true ]

-- `s.startsWith('0x')`
unfoldable pub has_0x : String → Bool
has_0x (a ∷ b ∷ s) = nat_eq (code a) b'0' && nat_eq (code b) b'x'
has_0x _ = false

-- The text has the shape of the pattern, in which `d` stands for a digit.
unfoldable pub has_shape : String → String → Bool
has_shape [] [] = true
has_shape (p ∷ ps) (c ∷ s) =
    (if nat_eq (code p) b'd' then is_digit (code c) else nat_eq (code p) (code c)) && has_shape ps s
has_shape _ _ = false

-- `/^\d{4}-\d{2}-\d{2}T\d{2}:\d{2}:\d{2}(?:\.\d{3})?Z$/`
unfoldable pub is_timestamp : String → Bool
is_timestamp s = has_shape "dddd-dd-ddTdd:dd:ddZ" s || has_shape "dddd-dd-ddTdd:dd:dd.dddZ" s

unfoldable pub digit : ℕ → String
digit n = char_at "0123456789" n ∷ []

-- The decimal digits of `n`, at most as many as the fuel.
unfoldable pub show_from : ℕ → ℕ → String
unfolding digit
show_from zero n = ""
show_from (suc fuel) n = elim (Nat.compare n 10) [
  | Ordering.lt ↦ digit n
  | _ ↦ concat (show_from fuel (n / 10)) (digit (n % 10))
]

-- `n.toString()`
unfoldable pub show_nat : ℕ → String
unfolding show_from
show_nat n = show_from (suc n) n

zeros : ℕ → String → String
zeros zero s = s
zeros (suc n) s = concat "0" (zeros n s)

-- `s.padStart(width, '0')`
unfoldable pub pad_start : ℕ → String → String
unfolding zeros
pad_start width s = zeros (width - size s) s
