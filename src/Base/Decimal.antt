-- ===== src/Base/Decimal.antt =====
-- A number is read back from the digits that `toString` writes.
use Prim.Native.Nat.{ℕ, zero, suc, ◌+◌, ◌*◌, ◌/◌, ◌%◌, ◌<◌, ◌≤◌}
use Prim.Native.Char.{code}
use Prim.Native.String.{String, ◌++◌}
use Prim.Native.String as Str
use Prim.Native.String.append
use mathlib.Core.Path.{◌≡◌, refl, ◌∙◌}
use mathlib.Core.Logic.{◌⊎◌, inl, inr}
use mathlib.Core.Bool.{true}
use native.Mathlib.Omega.{arith}
use san_layerzero_bridge.Base.Accepts.{and-eq-IsTrue}
use san_layerzero_bridge.Base.Text.{
  concat, every, is_digit, digits_from, digit, parse_digits, show_from, show_nat,
}

lt-or-ge : (a b : ℕ) → (a < b) ⊎ (b ≤ a)
lt-or-ge a b = ground arith

digit-code :
    (d : ℕ)
    → d < 10
    → (code (Str.char_at "0123456789" d) ≡ b'0' + d) × (every is_digit (digit d) ≡ true)
unfolding digit
digit-code zero h = (refl, refl)
digit-code (suc zero) h = (refl, refl)
digit-code (suc (suc zero)) h = (refl, refl)
digit-code (suc (suc (suc zero))) h = (refl, refl)
digit-code (suc (suc (suc (suc zero)))) h = (refl, refl)
digit-code (suc (suc (suc (suc (suc zero))))) h = (refl, refl)
digit-code (suc (suc (suc (suc (suc (suc zero)))))) h = (refl, refl)
digit-code (suc (suc (suc (suc (suc (suc (suc zero))))))) h = (refl, refl)
digit-code (suc (suc (suc (suc (suc (suc (suc (suc zero)))))))) h = (refl, refl)
digit-code (suc (suc (suc (suc (suc (suc (suc (suc (suc zero))))))))) h = (refl, refl)
digit-code (suc (suc (suc (suc (suc (suc (suc (suc (suc (suc n)))))))))) h = absurd (omega arith)

module _ (d : ℕ) (small : d < 10) where
  digits_from-digit : (acc : ℕ) → digits_from acc (digit d) ≡ acc * 10 + d
  unfolding digits_from digit
  digits_from-digit acc = rw (digit-code d small).0 (omega arith)

  digits_from-append :
      (s : String) (acc : ℕ) → digits_from acc (concat s (digit d)) ≡ digits_from acc s * 10 + d
  unfolding digits_from
  digits_from-append Str.[] acc = rw (append.nil (digit d)) (digits_from-digit acc)
  digits_from-append (Str.◌∷◌ c s) acc = rw (append.cons c s (digit d)) (digits_from-append s _)

  every-append : (s : String) → every is_digit s ≡ true → every is_digit (concat s (digit d)) ≡ true
  every-append Str.[] h = rw (append.nil (digit d)) (digit-code d small).1
  every-append (Str.◌∷◌ c s) h =
      let (first, rest) = and-eq-IsTrue (is_digit (code c)) (every is_digit s) h in
      rw (append.cons c s (digit d), first, every-append s rest) refl

show_from-short : (fuel n : ℕ) → n < 10 → show_from (suc fuel) n ≡ digit n
unfolding show_from
show_from-short fuel n h = ground arith

show_from-long :
    (fuel n : ℕ)
    → 10 ≤ n
    → show_from (suc fuel) n ≡ concat (show_from fuel (n / 10)) (digit (n % 10))
unfolding show_from
show_from-long fuel n h = ground arith

parse-show_from :
    (fuel n : ℕ)
    → n < fuel
    → (digits_from 0 (show_from fuel n) ≡ n) × (every is_digit (show_from fuel n) ≡ true)
parse-show_from zero n h = absurd (omega arith)
parse-show_from (suc fuel) n h = elim (lt-or-ge n 10) [
  | inl short ↦
      rw (show_from-short fuel n short)
        (digits_from-digit n short 0 ∙ omega arith, (digit-code n short).1)
  | inr long ↦
      let (value, digits) = parse-show_from fuel (n / 10) (omega arith) in
      let last : n % 10 < 10 = omega arith in
      rw (show_from-long fuel n long) (
        (
          digits_from-append (n % 10) last (show_from fuel (n / 10)) 0 ∙ omega (arith, value),
          every-append (n % 10) last _ digits,
        ))
]

-- `BigInt(n.toString())` is `n`.
pub parse_digits-show_nat : (n : ℕ) → parse_digits (show_nat n) ≡ n
unfolding parse_digits show_nat
parse_digits-show_nat n = (parse-show_from (suc n) n (omega arith)).0
