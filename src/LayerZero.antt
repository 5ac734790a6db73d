-- ===== src/LayerZero.antt =====
-- scripts/layerZeroConfigPolicy.ts: the LayerZero configuration that is observed on both chains is
-- held against the pinned policy.
pub mod Spec
pub mod Uln
pub mod Accepted
pub mod Tests
use san_layerzero_bridge.Base.{
  ℕ, String, Bool, not, ◌&&◌, ◌||◌, Option, none, some, List, [], ◌∷◌, ℤ, pos, ◌==◌, ◌!=◌, int_Eq,
  nat_Eq, string_Eq, length, includes, Number, is_int, Result, ok, err, Check, ⊤, throw_if,
  or_throw, for_each, ◌>>=◌, ◌>>◌, if◌then◌else◌,
}
use san_layerzero_bridge.Base.Text.{concat, to_lower, leq_text}
use san_layerzero_bridge.Base.Sort.{sort}
use san_layerzero_bridge.External.{External}

pub data Chain : Type 0 where
  solana robinhood : Chain

pub record UlnObservation : Type 0 where
  pub confirmations : ℤ
  pub required_dvns : List String
  pub optional_dvns : List String
  pub optional_threshold : ℤ
  pub explicit_no_required : Bool
  pub explicit_confirmations : Bool
  pub explicit_optional_dvns : Bool

pub record ChainObservation : Type 0 where
  pub send_library : String
  pub receive_library : String
  pub executor : String
  pub send_library_explicit : Bool
  pub receive_library_explicit : Bool
  pub executor_explicit : Bool
  pub peer : String
  pub send : UlnObservation
  pub receive : UlnObservation

pub record BridgeObservation : Type 0 where
  pub solana : ChainObservation
  pub robinhood : ChainObservation
  pub deprecated_dvns : List String

pub record ChainPolicy : Type 0 where
  pub send_library : String
  pub receive_library : String
  pub executor : String
  pub optional_dvns : List String

pub record BridgePolicy : Type 0 where
  pub solana_source_confirmations : ℤ
  pub robinhood_source_confirmations : Option ℤ
  pub optional_threshold : ℤ
  pub solana : ChainPolicy
  pub robinhood : ChainPolicy

-- The peers that each chain must name.
pub record Peers : Type 0 where
  pub solana : String
  pub robinhood : String

abbrev pub san_layerzero_policy : BridgePolicy
san_layerzero_policy = record {
  solana_source_confirmations = pos 32;
  robinhood_source_confirmations = some (pos 30);
  optional_threshold = pos 2;
  solana = record {
    send_library = "7a4WjyR8VZ7yZz5XJAKm39BUGn5iT9CKcv2pmG9tdXVH";
    receive_library = "7a4WjyR8VZ7yZz5XJAKm39BUGn5iT9CKcv2pmG9tdXVH";
    executor = "AwrbHeCyniXaQhiJZkLhgWdUCteeWSGaSN1sTfLiY7xK";
    optional_dvns =
        "4VDjp6XQaxoZf5RGwiPU9NR1EXSZn2TP4ATMmiSzLfhb"
        ∷ "GPjyWr8vCotGuFubDpTxDxy9Vj1ZeEN4F2dwRmFiaGab"
        ∷ "HR9NQKK1ynW9NzgdM37dU5CBtqRHTukmbMKS7qkwSkHX" ∷ [];
  };
  robinhood = record {
    send_library = "0xc39161c743d0307eb9bcc9fef03eeb9dc4802de7";
    receive_library = "0xe1844c5d63a9543023008d332bd3d2e6f1fe1043";
    executor = "0x4208d6e27538189bb48e603d6123a94b8abe0a0b";
    optional_dvns =
        "0xd01ae6905d48315f7be10c7330aecf8360ef5b12" ∷ "0x0ffe02df012299a370d5dd69298a5826eacafdf8"
        ∷ "0x1258a278519c7f4bd997a9c3bfd4aa802a028d89" ∷ [];
  };
}

abbrev pub observed_on : Chain → BridgeObservation → ChainObservation
observed_on solana o = o.solana
observed_on robinhood o = o.robinhood

abbrev pub intended_on : Chain → BridgePolicy → ChainPolicy
intended_on solana p = p.solana
intended_on robinhood p = p.robinhood

abbrev pub peer_on : Chain → Peers → String
peer_on solana p = p.solana
peer_on robinhood p = p.robinhood

abbrev pub name : Chain → String
name solana = "solana"
name robinhood = "robinhood"

-- How deep a message must be in the chain that it leaves.
abbrev pub send_confirmations : Chain → BridgePolicy → ℤ → ℤ
send_confirmations solana policy robinhood_source = policy.solana_source_confirmations
send_confirmations robinhood policy robinhood_source = robinhood_source

abbrev pub receive_confirmations : Chain → BridgePolicy → ℤ → ℤ
receive_confirmations solana policy robinhood_source = robinhood_source
receive_confirmations robinhood policy robinhood_source = policy.solana_source_confirmations

module _ (x : External) where
  -- `normalizedSolana` throws on what is no public key, `normalizedEvm` never throws.
  unfoldable pub normalize : Chain → String → Option String
  normalize solana value = elim (x.public_key value) [
    | none ↦ none
    | some key ↦ some (x.to_base58 key)
  ]
  normalize robinhood value = some (to_lower value)

  unfoldable pub normalize_or_throw : Chain → String → Result String
  normalize_or_throw chain value = or_throw (normalize chain value) "Invalid public key input"

  unfoldable pub normalize_all : Chain → List String → Result (List String)
  normalize_all chain [] = ok []
  normalize_all chain (v ∷ vs) = do
    n ← normalize_or_throw chain v
    ns ← normalize_all chain vs
    ok (n ∷ ns)

  unfoldable pub normalized_set : List String → Chain → Result (List String)
  normalized_set values chain = do ns ← normalize_all chain values; ok (sort leq_text ns)

  unfoldable pub assert_chain_address_equal : String → String → String → Chain → Check
  assert_chain_address_equal actual expected label chain = do
    a ← normalize_or_throw chain actual
    e ← normalize_or_throw chain expected
    throw_if (a != e) (concat label " differs")

  -- the loop over the observed DVNs
  unfoldable pub dvn_check : String → List String → List String → String → Check
  dvn_check label deprecated expected dvn =
      throw_if (includes deprecated dvn) (concat label " contains deprecated/Dead DVN")
      >> throw_if (not (includes expected dvn)) (concat label " contains unexpected DVN")

  unfoldable pub validate_uln :
      String → UlnObservation → ChainPolicy → List String → BridgePolicy → ℤ → Chain → Check
  validate_uln label observation policy deprecated bridge_policy expected_confirmations chain = do
    throw_if (not observation.explicit_no_required)
        (concat label " does not explicitly override required DVNs to NONE")
    throw_if (not observation.explicit_confirmations)
        (concat label " confirmations are inherited from Endpoint defaults")
    throw_if (not observation.explicit_optional_dvns)
        (concat label " optional DVNs are inherited from Endpoint defaults")
    throw_if (length observation.required_dvns != 0)
        (concat label " required DVN count is not zero")
    throw_if (observation.optional_threshold != bridge_policy.optional_threshold)
        (concat label " optional threshold differs")
    throw_if (observation.confirmations != expected_confirmations)
        (concat label " confirmations differ")
    actual ← normalized_set observation.optional_dvns chain
    expected ← normalized_set policy.optional_dvns chain
    throw_if (length actual != length expected) (concat label " optional DVN count differs")
    for_each (dvn_check label deprecated expected) actual
    for_each (λ dvn. throw_if (not (includes actual dvn)) (concat label " is missing expected DVN"))
        expected

  unfoldable pub assert_bytes32_equal : String → String → String → Check
  assert_bytes32_equal actual expected label =
      throw_if (to_lower actual != to_lower expected) (concat label " differs")

  -- The deprecated DVNs that can be read as addresses of the chain.
  unfoldable pub readable : Chain → List String → List String
  readable chain [] = []
  readable chain (v ∷ vs) = elim (normalize chain v) [
    | none ↦ readable chain vs
    | some n ↦ n ∷ readable chain vs
  ]

  -- the body of the loop over the two chains, for a policy whose confirmations are resolved
  unfoldable pub validate_chain : BridgeObservation → Peers → BridgePolicy → ℤ → Chain → Check
  validate_chain observation expected_peers policy robinhood_source_confirmations chain = do
    let observed = observed_on chain observation
    let intended = intended_on chain policy
    let deprecated = readable chain observation.deprecated_dvns
    assert_chain_address_equal observed.send_library intended.send_library
        (concat (name chain) " send library") chain
    assert_chain_address_equal observed.receive_library intended.receive_library
        (concat (name chain) " receive library") chain
    assert_chain_address_equal observed.executor intended.executor (concat (name chain) " Executor")
        chain
    throw_if (not observed.send_library_explicit)
        (concat (name chain) " send library is inherited from Endpoint defaults")
    throw_if (not observed.receive_library_explicit)
        (concat (name chain) " receive library is inherited from Endpoint defaults")
    throw_if (not observed.executor_explicit)
        (concat (name chain) " Executor is inherited from message-library defaults")
    assert_bytes32_equal observed.peer (peer_on chain expected_peers) (concat (name chain) " peer")
    validate_uln (concat (name chain) " send") observed.send intended deprecated policy
        (send_confirmations chain policy robinhood_source_confirmations) chain
    validate_uln (concat (name chain) " receive") observed.receive intended deprecated policy
        (receive_confirmations chain policy robinhood_source_confirmations) chain

  unfoldable pub validate_layer_zero_observation : BridgeObservation → Peers → BridgePolicy → Check
  validate_layer_zero_observation observation expected_peers policy = do
    confirmations ←
        or_throw policy.robinhood_source_confirmations
          "Robinhood-source confirmations policy is unresolved; configuration validation fails closed"
    validate_chain observation expected_peers policy confirmations solana
    validate_chain observation expected_peers policy confirmations robinhood
