-- ===== src/Base/Accepts.antt =====
-- When a chain of checks returns: each link says what it requires, and the links are joined in the
-- order of the code.
use mathlib.Core.Path.{◌≡◌, refl}
use mathlib.Core.Logic.{◌↔◌, ◌≢◌}
use mathlib.Core.Bool.{Bool, true, false, not, ◌&&◌, ◌||◌}
use mathlib.Core.List.{List, [], ◌∷◌}
use Prim.Native.String.{String}
use san_layerzero_bridge.Base.Tests.{Eq, ◌!=◌, ◌==◌, str_eq, str_eq_iff}
use san_layerzero_bridge.Base.Outcome.{ok, err, Check, ◌>>◌, throw_if, for_each}
use san_layerzero_bridge.Base.Numeric.{ℤ, leb_ℤ, ltb_ℤ, ◌<ℤ◌, ◌≤ℤ◌}
use native.Mathlib.Omega.{arith}
use san_layerzero_bridge.Base.Lists.{All, any}

abbrev pub Accepts : Check → Type 0
Accepts m = m ≡ ok tt

abbrev pub IsFalse : Bool → Type 0
IsFalse b = b ≡ false

abbrev pub IsTrue : Bool → Type 0
IsTrue b = b ≡ true

module _ {P Q R : Type 0} where
  pub iff_trans : P ↔ Q → Q ↔ R → P ↔ R
  iff_trans f g = (λ p. g.0 (f.0 p), λ r. f.1 (g.1 r))

module _ {P Q : Type 0} where
  pub then_iff : {m k : Check} → Accepts m ↔ P → Accepts k ↔ Q → Accepts (m >> k) ↔ (P × Q)
  unfolding ◌>>◌
  then_iff {m = ok tt} f g = (λ h. (f.0 refl, g.0 h), λ h. g.1 h.1)
  then_iff {m = err e} f g = (λ h. cc, λ h. f.1 h.0)

  pub or_iff : {b c : Bool} → IsFalse b ↔ P → IsFalse c ↔ Q → IsFalse (b || c) ↔ (P × Q)
  or_iff {b = false} f g = (λ h. (f.0 refl, g.0 h), λ h. g.1 h.1)
  or_iff {b = true} f g = (λ h. cc, λ h. f.1 h.0)

  pub and_iff : {b c : Bool} → IsTrue b ↔ P → IsTrue c ↔ Q → IsTrue (b && c) ↔ (P × Q)
  and_iff {b = true} f g = (λ h. (f.0 refl, g.0 h), λ h. g.1 h.1)
  and_iff {b = false} f g = (λ h. cc, λ h. f.1 h.0)

  -- `b && c` is refused: where `b` holds, `c` must not.
  pub implies_iff : {b c : Bool} → IsTrue b ↔ P → IsFalse c ↔ Q → IsFalse (b && c) ↔ (P → Q)
  implies_iff {b = true} f g = (λ h _. g.0 h, λ h. g.1 (h (f.0 refl)))
  implies_iff {b = false} f g = (λ h p. absurd (cc (f.1 p)), λ h. refl)

module _ {P : Type 0} where
  pub check_iff : {b : Bool} (s : String) → IsFalse b ↔ P → Accepts (throw_if b s) ↔ P
  unfolding throw_if
  check_iff {b = false} s f = (λ h. f.0 refl, λ h. refl)
  check_iff {b = true} s f = (λ h. cc, λ h. absurd (cc (f.1 h)))

  pub not_iff : {b : Bool} → IsTrue b ↔ P → IsFalse (not b) ↔ P
  not_iff {b = true} f = (λ h. f.0 refl, λ h. refl)
  not_iff {b = false} f = (λ h. cc, λ h. absurd (cc (f.1 h)))

pub self_iff : {P : Type 0} → P ↔ P
self_iff = (λ h. h, λ h. h)

-- The same read forwards, where what is left is a plain test.
pub throw_if-accepts : (b : Bool) (s : String) → Accepts (throw_if b s) → IsFalse b
unfolding throw_if
throw_if-accepts false s h = refl
throw_if-accepts true s h = cc

pub or-eq-IsFalse : (b c : Bool) → IsFalse (b || c) → IsFalse b × IsFalse c
or-eq-IsFalse b c h = ground arith

pub and-eq-IsTrue : (b c : Bool) → IsTrue (b && c) → IsTrue b × IsTrue c
and-eq-IsTrue b c h = ground arith

pub not-eq-true : (b : Bool) → not b ≡ true → b ≡ false
not-eq-true true h = absurd (cc h)
not-eq-true false h = refl

pub not-eq-false : (b : Bool) → IsFalse (not b) → IsTrue b
not-eq-false b h = ground arith

pub str_eq-ne : (s t : String) → IsFalse (str_eq s t) → s ≢ t
str_eq-ne s t h e = cc ((str_eq_iff s t).1 e)

pub clear_iff : IsFalse false ↔ Unit {0}
clear_iff = (λ h. tt, λ h. refl)

module _ {A : Type 0} ⦃e : Eq A⦄ where
  pub eq_iff : {a b : A} → IsTrue (a == b) ↔ (a ≡ b)
  eq_iff {a} {b} = e.beq_iff a b

  -- `if (a !== b) throw`
  pub ne_iff : {a b : A} → IsFalse (a != b) ↔ (a ≡ b)
  ne_iff {a} {b} = not_iff (e.beq_iff a b)

module _ {A : Type 0} {P : A → Type 0} where
  pub for_each_iff :
      {check : A → Check} (xs : List A)
      → ((a : A) → Accepts (check a) ↔ P a)
      → Accepts (for_each check xs) ↔ All P xs
  unfolding for_each
  for_each_iff [] f = (λ h. tt, λ h. refl)
  for_each_iff (x ∷ xs) f = then_iff (f x) (for_each_iff xs f)

  -- `if (xs.some(test)) throw`
  pub any_iff :
      {test : A → Bool} (xs : List A)
      → ((a : A) → IsFalse (test a) ↔ P a)
      → IsFalse (any test xs) ↔ All P xs
  unfolding any
  any_iff [] f = (λ h. tt, λ h. refl)
  any_iff (x ∷ xs) f = or_iff (f x) (any_iff xs f)

-- `if (a <= 0n)`, `if (a < b)` and `if (a > b)`
pub not_leb_iff : (a b : ℤ) → IsFalse (leb_ℤ a b) ↔ (b <ℤ a)
unfolding leb_ℤ
not_leb_iff a b = (λ h. ground arith, λ h. ground arith)

pub not_ltb_iff : (a b : ℤ) → IsFalse (ltb_ℤ a b) ↔ (b ≤ℤ a)
unfolding ltb_ℤ
not_ltb_iff a b = (λ h. ground arith, λ h. ground arith)

-- `if (a !== b) throw`, read forwards
pub throw_if-eq :
    {A : Type 0} ⦃e : Eq A⦄ (a b : A) (s : String) → Accepts (throw_if (a != b) s) → a ≡ b
throw_if-eq ⦃e⦄ a b s h = (e.beq_iff a b).0 (not-eq-false _ (throw_if-accepts _ s h))

pub beq-ne : {A : Type 0} ⦃e : Eq A⦄ (a b : A) → IsFalse (a == b) → a ≢ b
beq-ne ⦃e⦄ a b h same = absurd (cc ((e.beq_iff a b).1 same))
