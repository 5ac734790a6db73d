-- ===== src/Mainnet/Evidence.antt =====
-- The evidence that an accepted snapshot of Solana rests on.
use san_layerzero_bridge.Base.{
  ◌≡◌, ◌⊎◌, inl, inr, sym, ◌∙◌, String, true, false, ok, List, [], ◌∷◌, All, includes, string_Eq,
  pos, length, nil_of_length, >>-eq-ok, >>=-eq-ok, str_eq, str_eq_iff, Bool-cases, ok_inj, nat_Eq,
}
use san_layerzero_bridge.Base.Accepts.{
  Accepts, throw_if-accepts, throw_if-eq, or-eq-IsFalse, not_ltb_iff, not_leb_iff,
}
use san_layerzero_bridge.Base.Members.{
  not-included, All-map, includes-here, includes-there, includes-split,
}
use san_layerzero_bridge.Mainnet.Data.{ContextEvidence, AccountEvidence}
use san_layerzero_bridge.Mainnet.Context.{
  validate_solana_context_evidence, check_accounts, remove, required_accounts,
}
use san_layerzero_bridge.Mainnet.Spec.{IsAnchored, AreDistinctAccounts, labels}

-- What is removed from a list is the given text alone.
remove-includes :
    (label : String) (ss : List String) (s : String)
    → includes ss s ≡ true
    → (label ≡ s) ⊎ (includes (remove label ss) s ≡ true)
unfolding remove
remove-includes label [] s h = inr h
remove-includes label (t ∷ ss) s h = elim (Bool-cases (str_eq t label)) [
  | inl gone ↦ elim (includes-split ss t s h) [
    | inl here ↦ inl (sym ((str_eq_iff _ _).0 gone) ∙ here)
    | inr there ↦ rw gone (remove-includes label ss s there)
  ]
  | inr kept ↦ elim (includes-split ss t s h) [
    | inl here ↦ rw kept (inr (includes-here _ here))
    | inr there ↦ elim (remove-includes label ss s there) [
      | inl same ↦ inl same
      | inr later ↦ rw kept (inr (includes-there _ t s later))
    ]
  ]
]

not-in-nil : (s : String) → includes [] s ≡ true → ⊥
unfolding includes
not-in-nil s h = cc

check_accounts-distinct :
    (accounts : List AccountEvidence) (addresses required : List String) {left : List String}
    → check_accounts accounts addresses required ≡ ok left
    → All (λ a. includes addresses a.address ≡ false) accounts × AreDistinctAccounts accounts
unfolding check_accounts AreDistinctAccounts
check_accounts-distinct [] addresses required h = (tt, tt)
check_accounts-distinct (a ∷ rest) addresses required h =
    let (fresh, h₁) = >>-eq-ok _ _ h in
    let (_, h₂) = >>-eq-ok _ _ h₁ in
    let (later, distinct) =
      check_accounts-distinct rest (a.address ∷ addresses) (remove a.label required) h₂ in
    (
      (
        throw_if-accepts _ _ fresh,
        All-map rest (λ b e. (not-included addresses a.address b.address e).1) later,
      ),
      (All-map rest (λ b e. (not-included addresses a.address b.address e).0) later, distinct),
    )

check_accounts-labels :
    (accounts : List AccountEvidence) (addresses required : List String) {left : List String}
    (s : String)
    → check_accounts accounts addresses required ≡ ok left
    → includes required s ≡ true
    → (includes (labels accounts) s ≡ true) ⊎ (includes left s ≡ true)
unfolding check_accounts labels
check_accounts-labels [] addresses required s h found = inr (rw (ok_inj h) at found)
check_accounts-labels (a ∷ rest) addresses required s h found =
    let (_, h₁) = >>-eq-ok _ _ h in
    let (_, h₂) = >>-eq-ok _ _ h₁ in
    elim (remove-includes a.label required s found) [
      | inl here ↦ inl (includes-here (labels rest) here)
      | inr later ↦
          elim (check_accounts-labels rest (a.address ∷ addresses) (remove a.label required) s h₂
            later) [
              | inl there ↦ inl (includes-there (labels rest) a.label s there)
              | inr still ↦ inr still
            ]
    ]

-- The evidence accepted for the state of Solana has an account under each of the required labels and
-- no two accounts with one address, and its slot lies between the finalized slots read before and
-- after it.
pub validate_solana_context_evidence_complete :
    (evidence : ContextEvidence)
    → Accepts (validate_solana_context_evidence evidence)
    → ((label : String)
        → includes required_accounts label ≡ true
        → includes (labels evidence.accounts) label ≡ true)
      × AreDistinctAccounts evidence.accounts
      × IsAnchored evidence
unfolding validate_solana_context_evidence
validate_solana_context_evidence_complete evidence h =
    let (_, h₁) = >>-eq-ok _ _ h in
    let (window, h₂) = >>-eq-ok _ _ h₁ in
    let (_, h₃) = >>-eq-ok _ _ h₂ in
    let (left, checked, none_left) =
      >>=-eq-ok (check_accounts evidence.accounts [] required_accounts) _ h₃ in
    let nothing : left ≡ [] = nil_of_length left (throw_if-eq (length left) 0 _ none_left) in
    let (abcd, after) = or-eq-IsFalse _ _ (throw_if-accepts _ _ window) in
    let (abc, before) = or-eq-IsFalse _ _ abcd in
    let (ab, _) = or-eq-IsFalse _ _ abc in
    let (positive, _) = or-eq-IsFalse _ _ ab in
    (
      λ label required.
          elim (check_accounts-labels evidence.accounts [] required_accounts label checked
            required) [
              | inl found ↦ found
              | inr still ↦ absurd (not-in-nil label (rw nothing at still))
            ],
      (check_accounts-distinct evidence.accounts [] required_accounts checked).1,
      (
        (not_leb_iff evidence.context_slot (pos 0)).0 positive,
        (not_ltb_iff evidence.context_slot evidence.finalized_slot_before).0 before,
        (not_ltb_iff evidence.finalized_slot_after evidence.context_slot).0 after,
      ),
    )
