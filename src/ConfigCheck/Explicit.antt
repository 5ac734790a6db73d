-- ===== src/ConfigCheck/Explicit.antt =====
-- What the check of the deployed configuration says of the contracts of Robinhood themselves.
use san_layerzero_bridge.Base.{
  ◌<◌, String, ◌≡◌, refl, sym, ap, ◌∙◌, ◌≢◌, inl, inr, Bool, true, false, not, some, map, arith,
  ltb, Bool-cases, ◌==◌, ok, or_throw, ℤ, pos, nat_Eq, string_Eq,
}
use mathlib.Core.Path.{subst}
use san_layerzero_bridge.Base.{>>=-eq-ok, >>-eq-ok, or_throw-eq-ok, ok_inj}
use san_layerzero_bridge.Base.Accepts.{and-eq-IsTrue, eq_iff, beq-ne, throw_if-eq}
use san_layerzero_bridge.Base.Text.{to_lower}
use san_layerzero_bridge.Config.{address_zero}
use san_layerzero_bridge.ConfigCheck.Answers.{EvmUln, EvmExecutor, RobinhoodContracts}
use san_layerzero_bridge.ConfigCheck.Robinhood.{
  stringify, evm_observation, normalize_evm_uln, is_executor_explicit, inspect_robinhood_layer_zero,
}
use san_layerzero_bridge.External.{External}
use san_layerzero_bridge.LayerZero.{UlnObservation, ChainObservation}

-- A library has a configuration that the application has set itself, for the depth `confirmations`:
-- nothing in it is resolved from the defaults of the library. The verifiers, the threshold and the depth
-- that are observed are those that the library resolves to.
pub record HasOwnUln (contracts : RobinhoodContracts) (library : String) (o : UlnObservation)
    (confirmations : ℤ) : Type 0 where
  pub final : EvmUln
  pub raw : EvmUln
  pub reads_final : contracts.uln_config library ≡ ok final
  pub reads_raw : contracts.app_uln_config library ≡ ok raw
  pub required_dvns : o.required_dvns ≡ final.required_dvns
  pub optional_dvns : o.optional_dvns ≡ final.optional_dvns
  pub observed_threshold : o.optional_threshold ≡ pos final.optional_dvn_threshold
  pub observed_depth : o.confirmations ≡ pos final.confirmations
  pub no_required : raw.required_dvn_count ≡ 255
  pub positive : 0 < raw.confirmations
  pub depth : pos raw.confirmations ≡ confirmations
  pub optional : 0 < raw.optional_dvn_count
  pub optional_count : raw.optional_dvn_count ≡ final.optional_dvn_count
  pub threshold : raw.optional_dvn_threshold ≡ final.optional_dvn_threshold
  pub dvns :
      stringify (map to_lower raw.optional_dvns) ≡ stringify (map to_lower final.optional_dvns)

-- An executor that the application has set, and that is the one in force
pub record HasOwnExecutor (x : External) (contracts : RobinhoodContracts)
    (library executor : String) : Type 0 where
  pub raw : EvmExecutor
  pub reads_raw : contracts.executor_configs library ≡ ok raw
  pub sized : 0 < raw.max_message_size
  pub address : String
  pub same : (x.get_address raw.executor ≡ some address) × (x.get_address executor ≡ some address)
  pub nonzero : address ≢ address_zero

-- What an observation of Robinhood was read from
pub record IsRead (x : External) (contracts : RobinhoodContracts) (o : ChainObservation)
    : Type 0 where
  pub chain : contracts.chain_id ≡ ok 4663
  pub send_library : contracts.send_library ≡ ok o.send_library
  pub send_default : contracts.is_default_send_library ≡ ok (not o.send_library_explicit)
  pub receive_library :
      contracts.receive_library ≡ ok (o.receive_library, not o.receive_library_explicit)
  pub send : normalize_evm_uln contracts o.send_library ≡ ok o.send
  pub receive : normalize_evm_uln contracts o.receive_library ≡ ok o.receive
  pub final : EvmExecutor
  pub raw : EvmExecutor
  pub reads_raw : contracts.executor_configs o.send_library ≡ ok raw
  pub reads_final : contracts.executor_config o.send_library ≡ ok final
  pub executor : final.executor ≡ o.executor
  pub peer : (p : String) × (contracts.peer ≡ ok p) × (o.peer ≡ to_lower p)
  pub explicit : is_executor_explicit x final raw ≡ ok o.executor_explicit

not-not : (b : Bool) → not (not b) ≡ b
not-not true = refl
not-not false = refl

pair-not : (r : String × Bool) → r ≡ (r.0, not (not r.1))
pair-not (s, true) = refl
pair-not (s, false) = refl

module _ (x : External) (contracts : RobinhoodContracts) where
  pub inspect_robinhood_layer_zero-IsRead :
      {o : ChainObservation}
      → inspect_robinhood_layer_zero x contracts ≡ ok o
      → IsRead x contracts o
  unfolding inspect_robinhood_layer_zero
  inspect_robinhood_layer_zero-IsRead h =
      let (chain, p, h1) = >>=-eq-ok contracts.chain_id _ h in
      let (robinhood, h2) = >>-eq-ok _ _ h1 in
      let (library, q, h3) = >>=-eq-ok contracts.send_library _ h2 in
      let (is_default, r, h4) = >>=-eq-ok contracts.is_default_send_library _ h3 in
      let (receive, s, h5) = >>=-eq-ok contracts.receive_library _ h4 in
      let (final, t, h6) = >>=-eq-ok (contracts.executor_config library) _ h5 in
      let (raw, u, h7) = >>=-eq-ok (contracts.executor_configs library) _ h6 in
      let (explicit, v, h8) = >>=-eq-ok (is_executor_explicit x final raw) _ h7 in
      let (peer, w, h9) = >>=-eq-ok contracts.peer _ h8 in
      let (send, y, h10) = >>=-eq-ok (normalize_evm_uln contracts library) _ h9 in
      let (got, z, h11) = >>=-eq-ok (normalize_evm_uln contracts receive.0) _ h10 in
      subst (IsRead x contracts) (ok_inj h11) (record {
        chain = p ∙ ap ok (throw_if-eq chain 4663 _ robinhood);
        send_library = q;
        send_default = r ∙ ap ok (sym (not-not is_default));
        receive_library = s ∙ ap ok (pair-not receive);
        send = y;
        receive = z;
        final = final;
        raw = raw;
        reads_raw = u;
        reads_final = t;
        executor = refl;
        peer = (peer, w, refl);
        explicit = v;
      })

  evm_observation-HasOwnUln :
      (library : String) (final raw : EvmUln) (confirmations : ℤ)
      → contracts.uln_config library ≡ ok final
      → contracts.app_uln_config library ≡ ok raw
      → (evm_observation final raw).explicit_no_required ≡ true
      → (evm_observation final raw).explicit_confirmations ≡ true
      → (evm_observation final raw).explicit_optional_dvns ≡ true
      → (evm_observation final raw).confirmations ≡ confirmations
      → HasOwnUln contracts library (evm_observation final raw) confirmations
  unfolding evm_observation
  evm_observation-HasOwnUln library final raw confirmations p q a b c d =
      let (positive, depth) = and-eq-IsTrue (ltb 0 raw.confirmations) _ b in
      let (counts, texts) = and-eq-IsTrue _ _ c in
      let (counted, threshold) = and-eq-IsTrue _ _ counts in
      let (optional, count) = and-eq-IsTrue (ltb 0 raw.optional_dvn_count) _ counted in
      record {
        final = final;
        raw = raw;
        reads_final = p;
        reads_raw = q;
        required_dvns = refl;
        optional_dvns = refl;
        observed_threshold = refl;
        observed_depth = refl;
        no_required = eq_iff.0 a;
        positive = ground arith;
        depth = ap pos (eq_iff.0 depth) ∙ d;
        optional = ground arith;
        optional_count = eq_iff.0 count;
        threshold = eq_iff.0 threshold;
        dvns = eq_iff.0 texts;
      }

  pub normalize_evm_uln-HasOwnUln :
      (library : String) (o : UlnObservation) (confirmations : ℤ)
      → normalize_evm_uln contracts library ≡ ok o
      → o.explicit_no_required ≡ true
      → o.explicit_confirmations ≡ true
      → o.explicit_optional_dvns ≡ true
      → o.confirmations ≡ confirmations
      → HasOwnUln contracts library o confirmations
  unfolding normalize_evm_uln
  normalize_evm_uln-HasOwnUln library o confirmations h a b c d =
      let (final, p, h1) = >>=-eq-ok (contracts.uln_config library) _ h in
      let (raw, q, h2) = >>=-eq-ok (contracts.app_uln_config library) _ h1 in
      let same : evm_observation final raw ≡ o = ok_inj h2 in
      subst (λ k. HasOwnUln contracts library k confirmations) same
        (evm_observation-HasOwnUln library final raw confirmations p q
          (ap (λ r. r.explicit_no_required) same ∙ a) (ap (λ r. r.explicit_confirmations) same ∙ b)
          (ap (λ r. r.explicit_optional_dvns) same ∙ c) (ap (λ r. r.confirmations) same ∙ d))

  -- The tests of the addresses, once the configuration is known to have a size
  compares-HasOwnExecutor :
      (library : String) (final raw : EvmExecutor) (set resolved : String)
      → contracts.executor_configs library ≡ ok raw
      → 0 < raw.max_message_size
      → x.get_address raw.executor ≡ some set
      → x.get_address final.executor ≡ some resolved
      → (set == address_zero) ≡ false
      → (set == resolved) ≡ true
      → HasOwnExecutor x contracts library final.executor
  compares-HasOwnExecutor library final raw set resolved p sized q r nonzero same = record {
    raw = raw;
    reads_raw = p;
    sized = sized;
    address = set;
    same = (q, r ∙ ap some (sym (eq_iff.0 same)));
    nonzero = beq-ne set address_zero nonzero;
  }

  pub is_executor_explicit-HasOwnExecutor :
      (library : String) (final raw : EvmExecutor)
      → contracts.executor_configs library ≡ ok raw
      → is_executor_explicit x final raw ≡ ok true
      → HasOwnExecutor x contracts library final.executor
  unfolding is_executor_explicit
  is_executor_explicit-HasOwnExecutor library final raw p h =
      elim (Bool-cases (ltb 0 raw.max_message_size)) [
        | inr e ↦ absurd (cc (rw e at h))
        | inl e ↦
            let (set, q, h1) =
              >>=-eq-ok (or_throw (x.get_address raw.executor) "invalid address") _ (rw e at h) in
            elim (Bool-cases (set == address_zero)) [
              | inl z ↦ absurd (cc (rw z at h1))
              | inr z ↦
                  let (resolved, r, h2) =
                    >>=-eq-ok (or_throw (x.get_address final.executor) "invalid address") _
                      (rw z at h1) in
                  compares-HasOwnExecutor library final raw set resolved p ground arith
                    (or_throw-eq-ok _ _ q) (or_throw-eq-ok _ _ r) z (ok_inj h2)
            ]
      ]
