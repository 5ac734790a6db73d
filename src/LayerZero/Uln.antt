-- ===== src/LayerZero/Uln.antt =====
-- An accepted ULN configuration is the intended one.
use mathlib.Core.List.{Nodup, Perm, Mem}
use mathlib.Core.List.Perm
use san_layerzero_bridge.Base.{
  ◌≡◌, String, false, List, ℤ, ok, All, includes, throw_if, for_each, ok_inj, nil_of_length, not,
  >>-eq-ok, >>=-eq-ok, string_Eq, nat_Eq, int_Eq,
}
use san_layerzero_bridge.Base.Accepts.{
  Accepts, throw_if-accepts, throw_if-eq, not-eq-false, for_each_iff, then_iff, check_iff, not_iff,
  self_iff,
}
use san_layerzero_bridge.Base.Members.{includes-Mem, perm_of_All-mem, All-map, All-perm}
use san_layerzero_bridge.Base.Sort.{sort-perm}
use san_layerzero_bridge.Base.Text.{leq_text, concat}
use san_layerzero_bridge.External.{External}
use san_layerzero_bridge.LayerZero.{
  Chain, UlnObservation, ChainPolicy, BridgePolicy, normalize_all, normalized_set, readable,
  dvn_check, validate_uln,
}
use san_layerzero_bridge.LayerZero.Spec.{IsUln}

module _ (x : External) (chain : Chain) where
  -- The addresses, if they can be read, have no repetition.
  abbrev pub IsDistinct : List String → Type 0
  IsDistinct values = (ns : List String) → normalize_all x chain values ≡ ok ns → Nodup ns

  normalized_set-perm :
      (values : List String) {sorted : List String}
      → normalized_set x values chain ≡ ok sorted
      → (ns : List String) × (normalize_all x chain values ≡ ok ns) × Perm sorted ns
  unfolding normalized_set
  normalized_set-perm values h =
      let (ns, read, same) = >>=-eq-ok (normalize_all x chain values) _ h in
      (ns, read, rw (← ok_inj same) (sort-perm leq_text ns))

  module _ (label : String) (deprecated : List String) (actual expected : List String) where
    dvn_checks-live :
        Accepts (for_each (dvn_check x label deprecated expected) actual)
        → All (λ dvn. includes deprecated dvn ≡ false) actual
    unfolding dvn_check
    dvn_checks-live h =
        All-map actual (λ dvn both. both.0)
          ((for_each_iff actual
              (λ dvn. then_iff (check_iff _ self_iff) (check_iff _ (not_iff self_iff)))).0
            h)

    missing_checks-mem :
        Accepts (
          for_each
            (λ dvn. throw_if (not (includes actual dvn)) (concat label " is missing expected DVN"))
            expected)
        → All (λ dvn. Mem dvn actual) expected
    missing_checks-mem h =
        All-map expected (λ dvn. includes-Mem actual dvn)
          ((for_each_iff expected (λ dvn. check_iff _ (not_iff self_iff))).0 h)

  -- An accepted ULN configuration has explicit settings, no required verifiers, the threshold and
  -- the depth that are asked for, and exactly the intended optional verifiers.
  pub validate_uln-IsUln :
      (label : String) (o : UlnObservation) (policy : ChainPolicy) (deprecated : List String)
      (bridge : BridgePolicy) (depth : ℤ)
      → IsDistinct policy.optional_dvns
      → validate_uln x label o policy (readable x chain deprecated) bridge depth chain ≡ ok tt
      → IsUln x chain deprecated policy bridge.optional_threshold depth o
  unfolding validate_uln
  validate_uln-IsUln label o policy deprecated bridge depth distinct h =
      let (a, h₁) = >>-eq-ok _ _ h in
      let (b, h₂) = >>-eq-ok _ _ h₁ in
      let (c, h₃) = >>-eq-ok _ _ h₂ in
      let (d, h₄) = >>-eq-ok _ _ h₃ in
      let (e, h₅) = >>-eq-ok _ _ h₄ in
      let (f, h₆) = >>-eq-ok _ _ h₅ in
      let (actual, read_actual, h₇) = >>=-eq-ok (normalized_set x o.optional_dvns chain) _ h₆ in
      let (expected, read_expected, h₈) =
        >>=-eq-ok (normalized_set x policy.optional_dvns chain) _ h₇ in
      let (g, h₉) = >>-eq-ok _ _ h₈ in
      let (known, present) = >>-eq-ok _ _ h₉ in
      let (ns, reads_observed, perm_observed) = normalized_set-perm o.optional_dvns read_actual in
      let (ms, reads_intended, perm_intended) =
        normalized_set-perm policy.optional_dvns read_expected in
      let same : Perm expected actual =
        perm_of_All-mem (Perm.nodup (Perm.symm perm_intended) (distinct ms reads_intended))
          (missing_checks-mem label deprecated actual expected present) (throw_if-eq _ _ _ g) in
      record {
        explicit_no_required = not-eq-false _ (throw_if-accepts _ _ a);
        explicit_confirmations = not-eq-false _ (throw_if-accepts _ _ b);
        explicit_optional_dvns = not-eq-false _ (throw_if-accepts _ _ c);
        no_required = nil_of_length _ (throw_if-eq _ _ _ d);
        optional_threshold = throw_if-eq _ _ _ e;
        confirmations = throw_if-eq _ _ _ f;
        dvns = record {
          actual = ns;
          expected = ms;
          reads_observed = reads_observed;
          reads_intended = reads_intended;
          same = Perm.trans (Perm.symm perm_intended) (Perm.trans same perm_observed);
          live = All-perm _ false perm_observed (dvn_checks-live label _ actual expected known);
        };
      }
