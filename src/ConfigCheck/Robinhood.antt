-- ===== src/ConfigCheck/Robinhood.antt =====
-- `inspectRobinhoodLayerZero`
use san_layerzero_bridge.Base.{
  String, Bool, false, not, ◌&&◌, List, map, ltb, ◌==◌, ◌!=◌, if◌then◌else◌, Result, ok, throw_if,
  or_throw, ◌>>=◌, ◌>>◌, pos, string_Eq, nat_Eq,
}
use san_layerzero_bridge.Base.Text.{to_lower}
use san_layerzero_bridge.Config.{address_zero}
use san_layerzero_bridge.ConfigCheck.Answers.{EvmUln, EvmExecutor, RobinhoodContracts}
use san_layerzero_bridge.External.{External}
use san_layerzero_bridge.InFlight.Encode.{texts}
use san_layerzero_bridge.InFlight.Json.{canonical_json, arr}
use san_layerzero_bridge.LayerZero.{UlnObservation, ChainObservation}

-- `JSON.stringify` of an array of texts
abbrev pub stringify : List String → String
stringify values = canonical_json (arr (texts values))

-- The observation of a library: `final` is what it resolves to, `raw` what the application has set.
unfoldable pub evm_observation : EvmUln → EvmUln → UlnObservation
evm_observation final raw = record {
  confirmations = pos final.confirmations;
  required_dvns = final.required_dvns;
  optional_dvns = final.optional_dvns;
  optional_threshold = pos final.optional_dvn_threshold;
  explicit_no_required = raw.required_dvn_count == 255;
  explicit_confirmations = ltb 0 raw.confirmations && raw.confirmations == final.confirmations;
  explicit_optional_dvns =
      ltb 0 raw.optional_dvn_count
      && raw.optional_dvn_count == final.optional_dvn_count
      && raw.optional_dvn_threshold == final.optional_dvn_threshold
      && stringify (map to_lower raw.optional_dvns) == stringify (map to_lower final.optional_dvns);
}

-- `normalize`
unfoldable pub normalize_evm_uln : RobinhoodContracts → String → Result UlnObservation
normalize_evm_uln contracts library = do
  final ← contracts.uln_config library
  raw ← contracts.app_uln_config library
  ok (evm_observation final raw)

-- `executorExplicit`, whose later tests run only where the earlier ones hold
unfoldable pub is_executor_explicit : External → EvmExecutor → EvmExecutor → Result Bool
is_executor_explicit x final raw = if not (ltb 0 raw.max_message_size) then ok false else do
  set ← or_throw (x.get_address raw.executor) "invalid address"
  (if set == address_zero then ok false else do
    resolved ← or_throw (x.get_address final.executor) "invalid address"
    ok (set == resolved))

unfoldable pub inspect_robinhood_layer_zero :
    External → RobinhoodContracts → Result ChainObservation
inspect_robinhood_layer_zero x contracts = do
  chain_id ← contracts.chain_id
  throw_if (chain_id != 4663) "Robinhood RPC chainId is not 4663"
  send_library ← contracts.send_library
  is_default ← contracts.is_default_send_library
  receive_library ← contracts.receive_library
  final ← contracts.executor_config send_library
  raw ← contracts.executor_configs send_library
  explicit ← is_executor_explicit x final raw
  peer ← contracts.peer
  send ← normalize_evm_uln contracts send_library
  receive ← normalize_evm_uln contracts receive_library.0
  ok (record {
    send_library = send_library;
    receive_library = receive_library.0;
    executor = final.executor;
    send_library_explicit = not is_default;
    receive_library_explicit = not receive_library.1;
    executor_explicit = explicit;
    peer = to_lower peer;
    send = send;
    receive = receive;
  })
