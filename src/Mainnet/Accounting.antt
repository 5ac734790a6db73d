-- ===== src/Mainnet/Accounting.antt =====
-- The second part of `validateProductionMainnetObservation`: the amounts, and the manifest of the
-- messages in flight that they are reconciled with.
use san_layerzero_bridge.Base.{
  String, not, ◌||◌, ◌&&◌, ◌==◌, ◌!=◌, int_Eq, string_Eq, ℤ, pos, leb_ℤ, ltb_ℤ, ◌+ℤ◌,
  is_safe_integer, Check, Result, throw_if, or_throw, ◌>>=◌, ◌>>◌, ok,
}
use san_layerzero_bridge.Base.Text.{to_lower}
use san_layerzero_bridge.Base.BigInt.{big_int}
use san_layerzero_bridge.External.{External}
use san_layerzero_bridge.Config.{
  production_solana_oft_program, production_solana_endpoint, production_robinhood_endpoint,
}
use san_layerzero_bridge.InFlight.Data.{Manifest}
use san_layerzero_bridge.InFlight.Checks.{scanner_version, bridge_code_audit_target}
use san_layerzero_bridge.InFlight.Message.{is_negative}
use san_layerzero_bridge.Mainnet.Data.{Observation, ApprovedState, ExpectedInFlight}
use san_layerzero_bridge.Mainnet.Checks.{require_hash, equal_solana_address, equal_evm_address}

unfoldable pub validate_amounts : Observation → ApprovedState → Check
validate_amounts o approved = do
  throw_if (ltb_ℤ o.solana.escrow_balance_raw o.solana.tvl_raw)
      "Solana escrow balance is below OFT Store TVL"
  throw_if (o.robinhood.total_supply_raw != approved.expected_robinhood_supply_raw)
      "Robinhood supply differs from the explicitly approved expected supply"
  throw_if (leb_ℤ o.in_flight.solana_slot (pos 0) || leb_ℤ o.in_flight.robinhood_block (pos 0))
      "In-flight accounting requires explicit positive RPC snapshot heights"
  throw_if (o.in_flight.solana_slot != o.solana_context.context_slot)
      "In-flight Solana anchor is not bound to the common-context account snapshot"

unfoldable pub validate_identities : External → Manifest → ApprovedState → Check
validate_identities x manifest approved = do
  throw_if
      (manifest.scanner.version != scanner_version
        || manifest.scanner.bridge_code_audit_target != bridge_code_audit_target
        || manifest.scanner.scanner_source_commit
          != approved.expected_in_flight.scanner_source_commit)
      "In-flight manifest scanner/audit identity differs from the approved tooling target"
  equal_solana_address x manifest.identities.solana.oft_store approved.solana_oft_store
      "manifest Solana OFT Store"
  equal_solana_address x manifest.identities.solana.oft_program production_solana_oft_program
      "manifest Solana OFT program"
  equal_solana_address x manifest.identities.solana.endpoint production_solana_endpoint
      "manifest Solana Endpoint"
  equal_evm_address x manifest.identities.robinhood.oft approved.robinhood_oft
      "manifest Robinhood OFT"
  equal_evm_address x manifest.identities.robinhood.endpoint production_robinhood_endpoint
      "manifest Robinhood Endpoint"

-- `BigInt(text) !== expected`
unfoldable pub require_height : String → ℤ → Result ℤ
require_height text expected = do
  n ← or_throw (big_int text) "Cannot convert to a BigInt"
  throw_if (n != expected)
      "In-flight manifest ranges differ from the explicitly approved finalized ranges"
  ok n

-- The approved ranges, and the ends of the manifest's against the snapshot.
unfoldable pub validate_anchors : Observation → ExpectedInFlight → Check
validate_anchors o e = do
  let ranges = o.in_flight.manifest.ranges
  solana_from ← require_height ranges.solana.from_slot e.solana_from_slot
  manifest_solana_end ← require_height ranges.solana.to_slot e.solana_to_slot
  robinhood_from ← require_height ranges.robinhood.from_block e.robinhood_from_block
  manifest_robinhood_end ← require_height ranges.robinhood.to_block e.robinhood_to_block
  throw_if
      (ltb_ℤ o.solana_context.context_slot manifest_solana_end
        || ltb_ℤ o.in_flight.robinhood_block manifest_robinhood_end
        || manifest_solana_end == o.solana_context.context_slot
          && ranges.solana.end_blockhash != o.solana_context.blockhash
        || manifest_robinhood_end == o.in_flight.robinhood_block
          && to_lower ranges.robinhood.end_block_hash != to_lower o.robinhood.block_hash)
      "In-flight manifest end anchors are newer than or conflict with the production state snapshot"

unfoldable pub validate_inventory : Observation → ExpectedInFlight → Check
validate_inventory o e = do
  throw_if
      (o.in_flight.inventory_id != e.inventory_id
        || to_lower o.in_flight.inventory_sha256 != to_lower e.inventory_sha256
        || o.in_flight.solana_to_robinhood_raw != e.solana_to_robinhood_raw
        || o.in_flight.robinhood_to_solana_raw != e.robinhood_to_solana_raw)
      "Observed in-flight amounts differ from the independently approved message inventory"
  require_hash o.in_flight.inventory_sha256 "observed in-flight inventory SHA-256"
  throw_if
      (not (is_safe_integer o.in_flight.message_count) || is_negative o.in_flight.message_count)
      "Observed in-flight message count is invalid"

-- `accountedRaw`
abbrev pub accounted_raw : Observation → ℤ
accounted_raw o =
    o.robinhood.total_supply_raw +ℤ o.in_flight.solana_to_robinhood_raw
    +ℤ o.in_flight.robinhood_to_solana_raw

unfoldable pub validate_tvl : Observation → Check
validate_tvl o =
    throw_if (o.solana.tvl_raw != accounted_raw o)
      "Solana TVL does not exactly equal Robinhood supply plus both in-flight directions"
