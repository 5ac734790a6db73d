-- ===== src/Base/Members.antt =====
-- Tests over lists read as membership, and the pigeonhole argument on lists without repetition.
use Prim.Native.String.{String}
use mathlib.Core.Path.{◌≡◌, refl, sym, ap, subst}
use mathlib.Core.Bool.{Bool, true, Bool-set, not, ◌&&◌}
use mathlib.Core.List.{
  List, [], ◌∷◌, Mem, Memᴰ, Mem-prop, Nodup, Perm, Permᴰ, Sublist, mem-cons, mem-cons_self,
  mem-cons_of_mem,
}
use mathlib.Core.List as L
use mathlib.Core.List.Nodup as Nodups
use mathlib.Core.List.Subperm
use mathlib.Core.List.{Pairwise}
use mathlib.Core.Nat as Unary
use mathlib.Core.HLevel.{×_prop, Unit-prop}
use native.Mathlib.Omega.{arith}
use mathlib.Core.Logic.{◌≢◌, inl, inr, ∥∥₁_elim, ◌⊎◌}
use san_layerzero_bridge.Base.Tests.{Eq, ◌==◌, Bool-cases, str_eq_iff, str_eq}
use mathlib.Core.Bool.{false}
use san_layerzero_bridge.Base.Accepts.{or-eq-IsFalse, and-eq-IsTrue, str_eq-ne}
use san_layerzero_bridge.Base.Lists.{includes, length, All}
use san_layerzero_bridge.Base.{string_Eq}

module _ {A : Type 0} ⦃e : Eq A⦄ where
  pub includes-Mem : (xs : List A) (a : A) → includes xs a ≡ true → Mem a xs
  unfolding includes
  includes-Mem [] a h = cc
  includes-Mem (x ∷ xs) a h = elim (Bool-cases (x == a)) [
    | inl same ↦ rw ((e.beq_iff x a).0 same) mem-cons_self
    | inr differ ↦ mem-cons_of_mem x (includes-Mem xs a (rw differ at h))
  ]

module _ {A : Type 0} where
  unary_length : (xs ys : List A) → length xs ≡ length ys → L.length xs ≡ L.length ys
  unary_length [] [] h = refl
  unary_length [] (y ∷ ys) h = absurd (omega arith)
  unary_length (x ∷ xs) [] h = absurd (omega arith)
  unary_length (x ∷ xs) (y ∷ ys) h = ap Unary.suc (unary_length xs ys (omega arith))

  mem-All : (P : A → Type 0) {a : A} {xs : List A} → Memᴰ a xs → All P xs → P a
  mem-All P (Memᴰ.head e) (p, ps) = subst P (sym e) p
  mem-All P (Memᴰ.tail m) (p, ps) = mem-All P m ps

  -- As many items, none twice, each of them among the others: the same items.
  pub perm_of_All-mem :
      {xs ys : List A} → Nodup xs → All (λ a. Mem a ys) xs → length ys ≡ length xs → Perm xs ys
  perm_of_All-mem {xs} {ys} distinct found same =
      Subperm.perm_of_length_le
        (Nodups.subperm distinct
          (λ a m. ∥∥₁_elim m Mem-prop (λ d. mem-All (λ b. Mem b ys) d found)))
        (Unary.le_of_eq (unary_length ys xs same))

  pub All-map : {P Q : A → Type 0} (xs : List A) → ((a : A) → P a → Q a) → All P xs → All Q xs
  All-map [] f h = tt
  All-map (x ∷ xs) f (h, hs) = (f x h, All-map xs f hs)

  pub All-self : (xs : List A) → All (λ a. Mem a xs) xs
  All-self [] = tt
  All-self (x ∷ xs) = (mem-cons_self, All-map xs (λ a m. mem-cons_of_mem x m) (All-self xs))

  All-permᴰ : (P : A → Type 0) {xs ys : List A} → Permᴰ xs ys → All P xs → All P ys
  All-permᴰ P Permᴰ.nil h = h
  All-permᴰ P (Permᴰ.cons e d) (p, ps) = (subst P e p, All-permᴰ P d ps)
  All-permᴰ P (Permᴰ.swap e f) (p, (q, ps)) = (subst P f q, (subst P e p, ps))
  All-permᴰ P (Permᴰ.trans d e) h = All-permᴰ P e (All-permᴰ P d h)

  module _ (test : A → Bool) (b : Bool) where
    All-prop : (xs : List A) → IsProp (All (λ a. test a ≡ b) xs)
    All-prop [] = Unit-prop
    All-prop (x ∷ xs) = ×_prop (Bool-set (test x) b) (All-prop xs)

    -- A test that holds of each item holds of each in another order.
    pub All-perm :
        {xs ys : List A} → Perm xs ys → All (λ a. test a ≡ b) xs → All (λ a. test a ≡ b) ys
    All-perm {ys} p h = ∥∥₁_elim p (All-prop ys) (λ d. All-permᴰ (λ a. test a ≡ b) d h)

pub includes-here :
    (ss : List String) {label s : String} → label ≡ s → includes (label ∷ ss) s ≡ true
unfolding includes
includes-here ss {label} {s} e = rw ((str_eq_iff label s).1 e) refl

pub includes-there :
    (ss : List String) (label s : String) → includes ss s ≡ true → includes (label ∷ ss) s ≡ true
unfolding includes
includes-there ss label s h = elim (Bool-cases (str_eq label s)) [
  | inl same ↦ rw same refl
  | inr other ↦ rw (other, h) refl
]

pub includes-split :
    (ss : List String) (label s : String)
    → includes (label ∷ ss) s ≡ true
    → (label ≡ s) ⊎ (includes ss s ≡ true)
unfolding includes
includes-split ss label s h = elim (Bool-cases (str_eq label s)) [
  | inl same ↦ inl ((str_eq_iff _ _).0 same)
  | inr other ↦ inr (rw other at h)
]

pub not-included :
    (seen : List String) (first other : String)
    → includes (first ∷ seen) other ≡ false
    → (first ≢ other) × (includes seen other ≡ false)
unfolding includes
not-included seen first other h = let (a, b) = or-eq-IsFalse _ _ h in (str_eq-ne _ _ a, b)

-- No text of the list occurs again after it.
unfoldable pub is_distinct : List String → Bool
is_distinct [] = true
is_distinct (s ∷ ss) = not (includes ss s) && is_distinct ss

others : (ss : List String) (s : String) → includes ss s ≡ false → All (λ t. str_eq t s ≡ false) ss
unfolding includes
others [] s h = tt
others (t ∷ ss) s h =
    let (a, b) = or-eq-IsFalse (str_eq t s) (includes ss s) h in (a, others ss s b)

pub not-eq-true : (b : Bool) → not b ≡ true → b ≡ false
not-eq-true b h = ground arith

pub is_distinct-Nodup : (ss : List String) → is_distinct ss ≡ true → Nodup ss
unfolding is_distinct
is_distinct-Nodup [] h = Pairwise.nil
is_distinct-Nodup (s ∷ ss) h =
    let (fresh, rest) = and-eq-IsTrue (not (includes ss s)) (is_distinct ss) h in
    let later = others ss s (not-eq-true (includes ss s) fresh) in
    Pairwise.cons
      (λ t m e.
        ∥∥₁_elim m (λ a b. absurd a)
          (λ d. str_eq-ne _ _ (mem-All (λ u. str_eq u s ≡ false) d later) (sym e)))
      (is_distinct-Nodup ss rest)
