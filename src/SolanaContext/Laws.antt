-- ===== src/SolanaContext/Laws.antt =====
-- The evidence of a batch that was collected.
use san_layerzero_bridge.Base.{
  ◌≡◌, refl, ap, String, true, false, Option, none, some, List, [], ◌∷◌, All, ok, ℤ, pos, int,
  other, Number, is_safe_integer, includes, string_Eq, >>-eq-ok, >>=-eq-ok, ok_inj, or_throw, ◌<ℤ◌,
  ◌≤ℤ◌, not,
}
use san_layerzero_bridge.Base.Accepts.{
  Accepts, throw_if-accepts, or-eq-IsFalse, for_each_iff, self_iff, not_leb_iff, not_ltb_iff,
}
use san_layerzero_bridge.Base.Members.{All-map, not-included}
use san_layerzero_bridge.External.{External}
use san_layerzero_bridge.Mainnet.Data.{AccountEvidence}
use san_layerzero_bridge.Mainnet.Spec.{AreDistinctAccounts, IsAnchored, labels}
use san_layerzero_bridge.SolanaContext.{
  Envelope, AccountRequest, AccountInfo, Responses, Snapshot, check_slot, check_requests,
  bind_accounts, account_evidence, validate_common_context_envelope, collect_solana_common_context,
  integer_of,
}

check_slot-int :
    (label : String) (n : Number)
    → Accepts (check_slot (label, n))
    → (k : ℤ) × (n ≡ int k) × (pos 0 <ℤ k)
unfolding check_slot
check_slot-int label (int k) h =
    let (_, positive) = or-eq-IsFalse _ _ (throw_if-accepts _ _ h) in
    (k, refl, (not_leb_iff k (pos 0)).0 positive)
check_slot-int label (other t) h =
    let (safe, _) = or-eq-IsFalse (not (is_safe_integer (other t))) true (throw_if-accepts _ _ h) in
    absurd (cc safe)

-- The slots of an accepted envelope are integers, and the context's lies between the two others.
validate_common_context_envelope-slots :
    (e : Envelope)
    → Accepts (validate_common_context_envelope e)
    → (before : ℤ) × (slot : ℤ) × (after : ℤ) × (e.finalized_slot_before ≡ int before)
      × (e.context_slot ≡ int slot)
      × (e.finalized_slot_after ≡ int after)
      × (pos 0 <ℤ slot)
      × (before ≤ℤ slot)
      × (slot ≤ℤ after)
unfolding validate_common_context_envelope
validate_common_context_envelope-slots e h =
    let (slots, h₁) = >>-eq-ok _ _ h in
    let (_, h₂) = >>-eq-ok _ _ h₁ in
    let (older, h₃) = >>-eq-ok _ _ h₂ in
    let (newer, _) = >>-eq-ok _ _ h₃ in
    let (a, bcd) = (for_each_iff _ (λ s. self_iff)).0 slots in
    let (b, cd) = bcd in
    let (c, _) = cd in
    let (before, before_eq, _) = check_slot-int _ _ a in
    let (slot, slot_eq, positive) = check_slot-int _ _ b in
    let (after, after_eq, _) = check_slot-int _ _ c in
    (
      before,
      slot,
      after,
      before_eq,
      slot_eq,
      after_eq,
      positive,
      (not_ltb_iff slot before).0 (rw (before_eq, slot_eq) at (throw_if-accepts _ _ older)),
      (not_ltb_iff after slot).0 (rw (slot_eq, after_eq) at (throw_if-accepts _ _ newer)),
    )

window-of :
    (b s a : Number) {before slot after : ℤ}
    → b ≡ int before
    → s ≡ int slot
    → a ≡ int after
    → (pos 0 <ℤ slot) × (before ≤ℤ slot) × (slot ≤ℤ after)
    → (pos 0 <ℤ integer_of s) × (integer_of b ≤ℤ integer_of s) × (integer_of s ≤ℤ integer_of a)
window-of b s a e f g h = rw (e, f, g) h

pub requested_labels : List AccountRequest → List String
requested_labels [] = []
requested_labels (r ∷ rest) = r.label ∷ requested_labels rest

module _ (x : External) where
  bind_accounts-labels :
      (requests : List AccountRequest) (values : List (Option AccountInfo))
      {result : List AccountEvidence × List (String × AccountInfo)}
      → bind_accounts x requests values ≡ ok result
      → labels result.0 ≡ requested_labels requests
  unfolding bind_accounts labels requested_labels account_evidence
  bind_accounts-labels [] values h = rw⁻¹ (ok_inj h) refl
  bind_accounts-labels (r ∷ rest) [] h = cc
  bind_accounts-labels (r ∷ rest) (none ∷ values) h = cc
  bind_accounts-labels (r ∷ rest) (some info ∷ values) h =
      let (tail, bound, same) = >>=-eq-ok (bind_accounts x rest values) _ h in
      rw⁻¹ (ok_inj same) (ap (λ ls. r.label ∷ ls) (bind_accounts-labels rest values bound))

  -- The addresses of the evidence are those of the requests, in whose loop none was seen twice.
  bind_accounts-distinct :
      (requests : List AccountRequest) (values : List (Option AccountInfo)) (seen : List String)
      {result : List AccountEvidence × List (String × AccountInfo)}
      → check_requests x requests seen ≡ ok tt
      → bind_accounts x requests values ≡ ok result
      → All (λ a. includes seen a.address ≡ false) result.0 × AreDistinctAccounts result.0
  unfolding bind_accounts check_requests AreDistinctAccounts account_evidence
  bind_accounts-distinct [] values seen checked h = rw⁻¹ (ok_inj h) (tt, tt)
  bind_accounts-distinct (r ∷ rest) [] seen checked h = cc
  bind_accounts-distinct (r ∷ rest) (none ∷ values) seen checked h = cc
  bind_accounts-distinct (r ∷ rest) (some info ∷ values) seen checked h =
      let (new, checked_rest) = >>-eq-ok _ _ checked in
      let (tail, bound, same) = >>=-eq-ok (bind_accounts x rest values) _ h in
      let (later, distinct) =
        bind_accounts-distinct rest values (x.to_base58 r.address ∷ seen) checked_rest bound in
      rw⁻¹ (ok_inj same) (
        (
          throw_if-accepts _ _ new,
          All-map tail.0 (λ b e. (not-included seen _ b.address e).1) later,
        ),
        (All-map tail.0 (λ b e. (not-included seen _ b.address e).0) later, distinct),
      )

  -- A batch that is collected has one account of evidence for each request, under its label and in its
  -- order, no two at one address, and a slot between the finalized slots read before and after it.
  pub collect_solana_common_context-IsAnchored :
      (requested : List AccountRequest) (responses : Responses) {snapshot : Snapshot}
      → collect_solana_common_context x requested responses ≡ ok snapshot
      → (labels snapshot.evidence.accounts ≡ requested_labels requested)
        × AreDistinctAccounts snapshot.evidence.accounts
        × IsAnchored snapshot.evidence
  unfolding collect_solana_common_context
  collect_solana_common_context-IsAnchored requested responses {snapshot} h =
      let (checked, h₁) = >>-eq-ok _ _ h in
      let (_, h₂) = >>-eq-ok _ _ h₁ in
      let (envelope, h₃) = >>-eq-ok _ _ h₂ in
      let (block, _, h₄) = >>=-eq-ok (or_throw responses.block _) _ h₃ in
      let (pair, bound, same) = >>=-eq-ok (bind_accounts x requested responses.values) _ h₄ in
      let (before, slot, after, before_eq, slot_eq, after_eq, positive, low, high) =
        validate_common_context_envelope-slots _ envelope in
      rw⁻¹ (ok_inj same) (
        bind_accounts-labels requested responses.values bound,
        (bind_accounts-distinct requested responses.values [] checked bound).1,
        window-of _ _ _ before_eq slot_eq after_eq (positive, low, high),
      )
