-- ===== src/InFlight/Inversion.antt =====
-- What the helpers of the parser have found when they return.
use san_layerzero_bridge.Base.{
  refl, ℕ, ◌≡◌, ◌<◌, ◌≤◌, String, Bool, true, false, some, ok, arith, leb, ltb, ◌&&◌, >>-eq-ok,
  ok_inj, Option, none,
}
use san_layerzero_bridge.Base.Accepts.{throw_if-accepts, not-eq-false}
use san_layerzero_bridge.Base.Text.{is_digits, parse_digits, is_hash32, to_lower}
use san_layerzero_bridge.InFlight.Checks.{unsigned_integer, hash32}
use san_layerzero_bridge.InFlight.Message.{is_present}

pub unsigned_integer-eq-ok :
    (value label : String) (positive : Bool) {n : ℕ}
    → unsigned_integer (some value) label positive ≡ ok n
    → (is_digits value ≡ true) × (parse_digits value ≡ n) × (positive ≡ true → 0 < n)
unfolding unsigned_integer
unsigned_integer-eq-ok value label positive {n} h =
    let (digits, h₁) = >>-eq-ok _ _ h in
    let (sign, same) = >>-eq-ok _ _ h₁ in
    let value_eq = ok_inj same in
    let tested : (positive && leb (parse_digits value) 0) ≡ false = throw_if-accepts _ _ sign in
    (not-eq-false _ (throw_if-accepts _ _ digits), value_eq, λ p. ground arith)

pub hash32-eq-ok :
    (value label : String) {hash : String}
    → hash32 (some value) label ≡ ok hash
    → (is_hash32 value ≡ true) × (to_lower value ≡ hash)
unfolding hash32
hash32-eq-ok value label h =
    let (shape, same) = >>-eq-ok _ _ h in (not-eq-false _ (throw_if-accepts _ _ shape), ok_inj same)

pub ltb-false : (a b : ℕ) → ltb a b ≡ false → b ≤ a
ltb-false a b h = ground arith

pub unsigned_integer-some :
    (value : Option String) (label : String) (positive : Bool) {n : ℕ}
    → unsigned_integer value label positive ≡ ok n
    → (text : String) × (value ≡ some text) × (parse_digits text ≡ n)
unfolding unsigned_integer
unsigned_integer-some none label positive h = cc
unsigned_integer-some (some text) label positive h =
    (text, refl, (unsigned_integer-eq-ok text label positive h).1)

pub is_present-none : (o : Option String) → is_present o ≡ false → o ≡ none
is_present-none none h = refl
is_present-none (some s) h = cc
