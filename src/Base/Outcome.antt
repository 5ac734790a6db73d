-- ===== src/Base/Outcome.antt =====
-- A check either returns or throws: `throw new Error(message)` is `err message`. An address or a
-- hash that the source puts into a message is left out of it, a label is kept.
use mathlib.Core.Path.{◌≡◌, refl}
use mathlib.Core.Bool.{Bool, true, false}
use mathlib.Core.Option.{Option, none, some}
use mathlib.Core.List.{List, [], ◌∷◌}
use Prim.Native.String.{String}

pub data Result {ℓ} (A : Type ℓ) : Type ℓ where
  ok : A → Result A
  err : String → Result A

abbrev pub ⊤ : Type 0
⊤ = Unit

-- A function of the source that returns `void`.
abbrev pub Check : Type 0
Check = Result ⊤

infixl 5 ◌>>◌
infixl 5 ◌>>=◌
abbrev pub ◌>>=◌ {ℓ κ} :
    {A : Type ℓ} {B : Type κ} (first : Result A) (next : A → Result B) → Result B
err message >>= next = err message
ok value >>= next = next value

-- It stays shut, as `throw_if` does, so that a chain of checks is read link by link.
unfoldable pub ◌>>◌ {ℓ} : {B : Type ℓ} → Check → Result B → Result B
first >> second = first >>= λ _. second

-- `if (test) throw new Error(message)`
unfoldable pub throw_if : Bool → String → Check
throw_if true message = err message
throw_if false message = ok tt

-- `value ?? throw`, and a `try` whose `catch` throws
abbrev pub or_throw {ℓ} : {A : Type ℓ} → Option A → String → Result A
or_throw none message = err message
or_throw (some a) message = ok a

module _ {ℓ} {A : Type ℓ} where
  -- `for (const item of items) check(item)`
  unfoldable pub for_each : (A → Check) → List A → Check
  for_each check [] = ok tt
  for_each check (x ∷ xs) = check x >> for_each check xs

module _ {ℓ κ} {A : Type ℓ} {B : Type κ} where
  -- What a chain that returned has returned at each link.
  pub >>=-eq-ok :
      (first : Result A) (next : A → Result B) {b : B}
      → (first >>= next) ≡ ok b
      → (value : A) × (first ≡ ok value) × (next value ≡ ok b)
  >>=-eq-ok (err message) next h = cc
  >>=-eq-ok (ok value) next h = (value, refl, h)

module _ {ℓ} {A : Type ℓ} where
  pub >>-eq-ok : (m : Check) (k : Result A) {b : A} → (m >> k) ≡ ok b → (m ≡ ok tt) × (k ≡ ok b)
  unfolding ◌>>◌
  >>-eq-ok (ok tt) k h = (refl, h)
  >>-eq-ok (err e) k h = cc

module _ {ℓ} {A : Type ℓ} where
  pub or_throw-eq-ok :
      (o : Option A) (message : String) {a : A} → or_throw o message ≡ ok a → o ≡ some a
  or_throw-eq-ok none message h = cc
  or_throw-eq-ok (some b) message h = cc

  pub ok_inj : {a b : A} → ok a ≡ ok b → a ≡ b
  ok_inj h = cc
