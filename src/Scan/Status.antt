-- ===== src/Scan/Status.antt =====
-- The end of a range.
use san_layerzero_bridge.Base.{
  ◌≡◌, ◌↔◌, String, true, Number, int, other, pos, string_Eq, is_safe_integer, >>-eq-ok, arith,
}
use san_layerzero_bridge.Base.Accepts.{
  Accepts, iff_trans, then_iff, check_iff, or_iff, not_iff, self_iff, not_leb_iff, not_ltb_iff,
  or-eq-IsFalse, throw_if-accepts, not-eq-false,
}
use san_layerzero_bridge.Scan.Range.{require_finalized_range_end}
use san_layerzero_bridge.Scan.Spec.{IsFinalizedEnd}

safe-ends :
    (range_end head : Number) (label : String)
    → Accepts (require_finalized_range_end range_end head label)
    → (is_safe_integer range_end ≡ true) × (is_safe_integer head ≡ true)
unfolding require_finalized_range_end
safe-ends range_end head label h =
    let (test, _) = >>-eq-ok _ _ h in
    let (abc, _) = or-eq-IsFalse _ _ (throw_if-accepts _ _ test) in
    let (ab, c) = or-eq-IsFalse _ _ abc in
    let (a, _) = or-eq-IsFalse _ _ ab in
    (not-eq-false (is_safe_integer range_end) a, not-eq-false (is_safe_integer head) c)

-- A range end is accepted exactly when it and the finalized head are positive safe integers and it is
-- not above the head.
pub require_finalized_range_end_iff :
    (range_end finalized_head : Number) (label : String)
    → Accepts (require_finalized_range_end range_end finalized_head label)
      ↔ IsFinalizedEnd range_end finalized_head
unfolding require_finalized_range_end
require_finalized_range_end_iff (int e) (int h) label =
    iff_trans
      (then_iff
        (check_iff _ (
          or_iff (or_iff (or_iff (not_iff self_iff) (not_leb_iff e (pos 0))) (not_iff self_iff))
            (not_leb_iff h (pos 0))))
        (check_iff _ (not_ltb_iff h e)))
      (
        (λ ((((a, b), c), d), below). (b, below, a, c)),
        (λ (b, below, a, c). ((((a, b), c), (omega arith)), below)),
      )
require_finalized_range_end_iff (int e) (other t) label =
    (λ h'. let (a, b) = safe-ends (int e) (other t) label h' in absurd (cc b), λ h'. absurd h')
require_finalized_range_end_iff (other s) (int h) label =
    (λ h'. let (a, b) = safe-ends (other s) (int h) label h' in absurd (cc a), λ h'. absurd h')
require_finalized_range_end_iff (other s) (other t) label =
    (λ h'. let (a, b) = safe-ends (other s) (other t) label h' in absurd (cc a), λ h'. absurd h')
