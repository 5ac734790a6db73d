-- ===== src/LayerZero/Spec.antt =====
-- What the policy demands of an observed configuration.
use mathlib.Core.List.{Perm}
use san_layerzero_bridge.Base.{
  ◌≡◌, String, true, false, some, List, [], ℤ, ok, All, includes, string_Eq,
}
use san_layerzero_bridge.Base.Text.{to_lower}
use san_layerzero_bridge.External.{External}
use san_layerzero_bridge.LayerZero.{
  Chain, UlnObservation, BridgeObservation, ChainPolicy, BridgePolicy, Peers, normalize,
  normalize_all, readable, send_confirmations, receive_confirmations, observed_on, intended_on,
  peer_on,
}

module _ (x : External) where
  -- Both texts can be read as addresses of the chain, and name the same one.
  abbrev pub SameAddress : Chain → String → String → Type 0
  SameAddress chain a b =
      (n : String) × (normalize x chain a ≡ some n) × (normalize x chain b ≡ some n)

  -- The observed verifiers are the intended ones, whatever the order, and none is deprecated.
  pub record SameDvns (chain : Chain) (deprecated observed intended : List String) : Type 0 where
    pub actual : List String
    pub expected : List String
    pub reads_observed : normalize_all x chain observed ≡ ok actual
    pub reads_intended : normalize_all x chain intended ≡ ok expected
    pub same : Perm expected actual
    pub live : All (λ dvn. includes (readable x chain deprecated) dvn ≡ false) actual

  pub record IsUln (chain : Chain) (deprecated : List String) (policy : ChainPolicy)
      (threshold depth : ℤ) (o : UlnObservation) : Type 0 where
    pub explicit_no_required : o.explicit_no_required ≡ true
    pub explicit_confirmations : o.explicit_confirmations ≡ true
    pub explicit_optional_dvns : o.explicit_optional_dvns ≡ true
    pub no_required : o.required_dvns ≡ []
    pub optional_threshold : o.optional_threshold ≡ threshold
    pub confirmations : o.confirmations ≡ depth
    pub dvns : SameDvns chain deprecated o.optional_dvns policy.optional_dvns

  -- One chain is configured as intended; nothing of it is a default of the Endpoint.
  pub record IsConfigured (chain : Chain) (observation : BridgeObservation) (peers : Peers)
      (policy : BridgePolicy) (n : ℤ) : Type 0 where
    pub send_library :
        SameAddress chain
          (observed_on chain observation).send_library
          (intended_on chain policy).send_library
    pub receive_library :
        SameAddress chain
          (observed_on chain observation).receive_library
          (intended_on chain policy).receive_library
    pub executor :
        SameAddress chain
          (observed_on chain observation).executor
          (intended_on chain policy).executor
    pub send_explicit : (observed_on chain observation).send_library_explicit ≡ true
    pub receive_explicit : (observed_on chain observation).receive_library_explicit ≡ true
    pub executor_explicit : (observed_on chain observation).executor_explicit ≡ true
    pub peer : to_lower (observed_on chain observation).peer ≡ to_lower (peer_on chain peers)
    pub send :
        IsUln chain observation.deprecated_dvns
          (intended_on chain policy)
          policy.optional_threshold
          (send_confirmations chain policy n)
          (observed_on chain observation).send
    pub receive :
        IsUln chain observation.deprecated_dvns
          (intended_on chain policy)
          policy.optional_threshold
          (receive_confirmations chain policy n)
          (observed_on chain observation).receive
