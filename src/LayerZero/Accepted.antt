-- ===== src/LayerZero/Accepted.antt =====
-- What an accepted observation of the bridge establishes.
use san_layerzero_bridge.Base.{
  ◌≡◌, sym, ◌∙◌, String, some, ℤ, ok, >>-eq-ok, >>=-eq-ok, or_throw-eq-ok, or_throw, string_Eq,
  List, int_Eq,
}
use san_layerzero_bridge.Base.Accepts.{throw_if-accepts, throw_if-eq, not-eq-false}
use san_layerzero_bridge.External.{External}
use san_layerzero_bridge.LayerZero.{
  Chain, solana, robinhood, UlnObservation, ChainPolicy, validate_uln, observed_on,
  send_confirmations, receive_confirmations, BridgeObservation, BridgePolicy, Peers, normalize,
  normalize_or_throw, assert_chain_address_equal, assert_bytes32_equal, validate_chain, intended_on,
  validate_layer_zero_observation,
}
use san_layerzero_bridge.LayerZero.Spec.{SameAddress, IsConfigured}
use san_layerzero_bridge.LayerZero.Uln.{IsDistinct, validate_uln-IsUln}

assert_chain_address_equal-SameAddress :
    (x : External) (a b label : String) (chain : Chain)
    → assert_chain_address_equal x a b label chain ≡ ok tt
    → SameAddress x chain a b
unfolding assert_chain_address_equal normalize_or_throw
assert_chain_address_equal-SameAddress x a b label chain h =
    let (n, read_a, h') =
      >>=-eq-ok (or_throw (normalize x chain a) "Invalid public key input") _ h in
    let (m, read_b, h'') =
      >>=-eq-ok (or_throw (normalize x chain b) "Invalid public key input") _ h' in
    let same : n ≡ m = throw_if-eq _ _ _ h'' in
    (n, or_throw-eq-ok _ _ read_a, rw same (or_throw-eq-ok _ _ read_b))

module _ (x : External) (o : BridgeObservation) (peers : Peers) (policy : BridgePolicy)
    (n : ℤ) where
  validate_chain-IsConfigured :
      (chain : Chain)
      → IsDistinct x chain (intended_on chain policy).optional_dvns
      → validate_chain x o peers policy n chain ≡ ok tt
      → IsConfigured x chain o peers policy n
  unfolding validate_chain assert_bytes32_equal
  validate_chain-IsConfigured chain distinct h =
      let (a, h₁) = >>-eq-ok _ _ h in
      let (b, h₂) = >>-eq-ok _ _ h₁ in
      let (c, h₃) = >>-eq-ok _ _ h₂ in
      let (d, h₄) = >>-eq-ok _ _ h₃ in
      let (e, h₅) = >>-eq-ok _ _ h₄ in
      let (f, h₆) = >>-eq-ok _ _ h₅ in
      let (g, h₇) = >>-eq-ok _ _ h₆ in
      let (send, receive) = >>-eq-ok _ _ h₇ in
      record {
        send_library = assert_chain_address_equal-SameAddress x _ _ _ chain a;
        receive_library = assert_chain_address_equal-SameAddress x _ _ _ chain b;
        executor = assert_chain_address_equal-SameAddress x _ _ _ chain c;
        send_explicit = not-eq-false _ (throw_if-accepts _ _ d);
        receive_explicit = not-eq-false _ (throw_if-accepts _ _ e);
        executor_explicit = not-eq-false _ (throw_if-accepts _ _ f);
        peer = throw_if-eq _ _ _ g;
        send = validate_uln-IsUln x chain _ _ _ _ policy _ distinct send;
        receive = validate_uln-IsUln x chain _ _ _ _ policy _ distinct receive;
      }

-- An accepted observation has both chains configured as the policy says, explicitly and with exactly
-- the intended verifiers, for a policy whose confirmations are resolved and whose verifier lists have
-- no repetition.
pub validate_layer_zero_observation-IsConfigured :
    (x : External) (o : BridgeObservation) (peers : Peers) (policy : BridgePolicy)
    → ((chain : Chain) → IsDistinct x chain (intended_on chain policy).optional_dvns)
    → validate_layer_zero_observation x o peers policy ≡ ok tt
    → (n : ℤ) × (policy.robinhood_source_confirmations ≡ some n)
      × ((chain : Chain) → IsConfigured x chain o peers policy n)
unfolding validate_layer_zero_observation
validate_layer_zero_observation-IsConfigured x o peers policy distinct h =
    let (n, resolved, h₁) = >>=-eq-ok (or_throw policy.robinhood_source_confirmations _) _ h in
    let (on_solana, on_robinhood) = >>-eq-ok _ _ h₁ in
    (
      n,
      or_throw-eq-ok _ _ resolved,
      elim [
        | solana ↦ validate_chain-IsConfigured x o peers policy n solana (distinct solana) on_solana
        | robinhood ↦
            validate_chain-IsConfigured x o peers policy n robinhood (distinct robinhood)
              on_robinhood
      ],
    )

validate_uln-depth :
    (x : External) (label : String) (o : UlnObservation) (intended : ChainPolicy)
    (deprecated : List String) (policy : BridgePolicy) (depth : ℤ) (chain : Chain)
    → validate_uln x label o intended deprecated policy depth chain ≡ ok tt
    → (o.optional_threshold ≡ policy.optional_threshold) × (o.confirmations ≡ depth)
unfolding validate_uln
validate_uln-depth x label o intended deprecated policy depth chain h =
    let (_, h₁) = >>-eq-ok _ _ h in
    let (_, h₂) = >>-eq-ok _ _ h₁ in
    let (_, h₃) = >>-eq-ok _ _ h₂ in
    let (_, h₄) = >>-eq-ok _ _ h₃ in
    let (threshold, h₅) = >>-eq-ok _ _ h₄ in
    let (confirmations, _) = >>-eq-ok _ _ h₅ in
    (throw_if-eq _ _ _ threshold, throw_if-eq _ _ _ confirmations)

-- A library's observation waits for a depth with the policy's threshold.
abbrev HasDepth : UlnObservation → BridgePolicy → ℤ → Type 0
HasDepth o policy depth =
    (o.optional_threshold ≡ policy.optional_threshold) × (o.confirmations ≡ depth)

validate_chain-depths :
    (x : External) (o : BridgeObservation) (peers : Peers) (policy : BridgePolicy) (n : ℤ)
    (chain : Chain)
    → validate_chain x o peers policy n chain ≡ ok tt
    → HasDepth (observed_on chain o).send policy (send_confirmations chain policy n)
      × HasDepth (observed_on chain o).receive policy (receive_confirmations chain policy n)
unfolding validate_chain
validate_chain-depths x o peers policy n chain h =
    let (_, h₁) = >>-eq-ok _ _ h in
    let (_, h₂) = >>-eq-ok _ _ h₁ in
    let (_, h₃) = >>-eq-ok _ _ h₂ in
    let (_, h₄) = >>-eq-ok _ _ h₃ in
    let (_, h₅) = >>-eq-ok _ _ h₄ in
    let (_, h₆) = >>-eq-ok _ _ h₅ in
    let (_, h₇) = >>-eq-ok _ _ h₆ in
    let (send, receive) = >>-eq-ok _ _ h₇ in
    (
      validate_uln-depth x _ _ _ _ policy _ chain send,
      validate_uln-depth x _ _ _ _ policy _ chain receive,
    )

-- In an accepted observation, whatever the policy, a pathway is configured alike at both ends: each
-- chain waits, on receiving, for as many confirmations as the other asks of its own messages, and with
-- the same threshold of verifiers.
pub validate_layer_zero_observation-pathways :
    (x : External) (o : BridgeObservation) (peers : Peers) (policy : BridgePolicy)
    → validate_layer_zero_observation x o peers policy ≡ ok tt
    → (o.solana.send.confirmations ≡ o.robinhood.receive.confirmations)
      × (o.robinhood.send.confirmations ≡ o.solana.receive.confirmations)
      × (o.solana.send.optional_threshold ≡ o.robinhood.receive.optional_threshold)
      × (o.robinhood.send.optional_threshold ≡ o.solana.receive.optional_threshold)
unfolding validate_layer_zero_observation
validate_layer_zero_observation-pathways x o peers policy h =
    let (n, _, h₁) = >>=-eq-ok (or_throw policy.robinhood_source_confirmations _) _ h in
    let (on_solana, on_robinhood) = >>-eq-ok _ _ h₁ in
    let (s, s') = validate_chain-depths x o peers policy n solana on_solana in
    let (r, r') = validate_chain-depths x o peers policy n robinhood on_robinhood in
    (s.1 ∙ sym r'.1, r.1 ∙ sym s'.1, s.0 ∙ sym r'.0, r.0 ∙ sym s'.0)
