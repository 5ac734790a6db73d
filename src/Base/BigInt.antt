-- ===== src/Base/BigInt.antt =====
-- `BigInt(text)`, and the texts that numbers are written as.
use Prim.Native.Char.{code}
use Prim.Native.String as Str
use mathlib.Core.Path.{◌≡◌, refl}
use Prim.Native.Nat.{ℕ, zero, suc, ◌-◌, ◌*◌, ◌+◌}
use Prim.Native.String.{String}
use mathlib.Core.Bool.{Bool, true, ◌&&◌, ◌||◌, not}
use mathlib.Core.Option.{Option, none, some}
use san_layerzero_bridge.Base.Numeric.{ℤ, pos, sub_ℕ}
use san_layerzero_bridge.Base.Tests.{leb, nat_eq, str_eq, if◌then◌else◌}
use san_layerzero_bridge.Base.Text.{
  every, is_digit, is_hex, is_space, is_blank, is_digits, parse_digits,
}

unfoldable pub drop_spaces : String → String
drop_spaces Str.[] = ""
drop_spaces (Str.◌∷◌ c s) =
    let rest = drop_spaces s in if is_space (code c) then rest else Str.◌∷◌ c s

unfoldable pub trim_end : String → String
trim_end Str.[] = ""
trim_end (Str.◌∷◌ c s) =
    let rest = trim_end s in if is_blank (Str.◌∷◌ c s) then "" else Str.◌∷◌ c rest

-- `s.trim()`
unfoldable pub trim : String → String
trim s = drop_spaces (trim_end s)

unfoldable pub digit_value : ℕ → ℕ
digit_value c = if is_digit c then c - b'0' else if leb b'a' c then c - b'a' + 10 else c - b'A' + 10

unfoldable pub in_base : ℕ → ℕ → String → ℕ
in_base base acc Str.[] = acc
in_base base acc (Str.◌∷◌ c s) = in_base base (acc * base + digit_value (code c)) s

unfoldable pub is_octal : ℕ → Bool
is_octal c = leb b'0' c && leb c b'7'

unfoldable pub is_binary : ℕ → Bool
is_binary c = leb b'0' c && leb c b'1'

-- The digits after a prefix `0x`, `0o` or `0b`.
unfoldable pub prefixed : ℕ → String → Option ℤ
prefixed letter s =
    if str_eq s ""
    then none
    else if (nat_eq letter b'x' || nat_eq letter b'X') && every is_hex s
    then some (pos (in_base 16 0 s))
    else if (nat_eq letter b'o' || nat_eq letter b'O') && every is_octal s
    then some (pos (in_base 8 0 s))
    else if (nat_eq letter b'b' || nat_eq letter b'B') && every is_binary s
    then some (pos (in_base 2 0 s))
    else none

unfoldable pub negate : ℕ → ℤ
negate n = sub_ℕ 0 n

unfoldable pub signed : ℕ → String → Option ℤ
signed sign s =
    if not (is_digits s)
    then none
    else if nat_eq sign b'-'
    then some (negate (parse_digits s))
    else if nat_eq sign b'+'
    then some (pos (parse_digits s))
    else none

-- A text that is no run of digits: empty, signed or with a prefix, or no integer.
unfoldable pub literal : String → Option ℤ
literal Str.[] = some (pos 0)
literal (Str.◌∷◌ a Str.[]) = none
literal (Str.◌∷◌ a (Str.◌∷◌ b s)) =
    if nat_eq (code a) b'0' then prefixed (code b) s else signed (code a) (Str.◌∷◌ b s)

-- `BigInt(s)`, which throws on what is no integer.
unfoldable pub big_int : String → Option ℤ
big_int s =
    if is_digits s
    then some (pos (parse_digits s))
    else if is_digits (trim s)
    then some (pos (parse_digits (trim s)))
    else literal (trim s)

pub big_int-digits : (s : String) → is_digits s ≡ true → big_int s ≡ some (pos (parse_digits s))
unfolding big_int
big_int-digits s h = rw h refl

-- `s.slice(0, n)` and `s.slice(n)`, for `n` up to the length
unfoldable pub take_text : ℕ → String → String
take_text zero s = ""
take_text (suc n) Str.[] = ""
take_text (suc n) (Str.◌∷◌ c s) = Str.◌∷◌ c (take_text n s)

unfoldable pub drop_text : ℕ → String → String
drop_text zero s = s
drop_text (suc n) Str.[] = ""
drop_text (suc n) (Str.◌∷◌ c s) = drop_text n s
