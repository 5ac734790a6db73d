-- ===== src/Mainnet/Collect.antt =====
-- scripts/checkProductionMainnet.ts: the pieces of the snapshot that are computed from what the nodes
-- answer. The reading of the accounts themselves, by the packages of both chains, is not modelled.
use san_layerzero_bridge.Base.{
  ℕ, String, Bool, not, ◌||◌, Option, none, some, List, length, ltb, pos, ◌==◌, ◌!=◌, nat_Eq,
  int_Eq, ℤ, int, Result, ok, Check, throw_if, or_throw, ◌>>=◌, ◌>>◌, if◌then◌else◌, ◌-◌, option_Eq,
}
use san_layerzero_bridge.Base.Text.{concat, size}
use san_layerzero_bridge.Base.BigInt.{big_int, drop_text}
use san_layerzero_bridge.Config.{solana_upgradeable_loader}
use san_layerzero_bridge.External.{External}
use san_layerzero_bridge.InFlight.Data.{Inventory}
use san_layerzero_bridge.Mainnet.Data.{InFlightObservation}
use san_layerzero_bridge.Base.Bytes.{read_uint32, byte_at, key_of_bytes, prefix, skip}

-- `inFlight` of the snapshot, from the parsed inventory
unfoldable pub in_flight_observation : Inventory → ℤ → ℕ → InFlightObservation
in_flight_observation inventory solana_slot robinhood_block = record {
  manifest = inventory.manifest;
  inventory_id = inventory.inventory_id;
  inventory_sha256 = inventory.inventory_sha256;
  message_count = int (pos inventory.message_count);
  solana_slot = solana_slot;
  robinhood_block = pos robinhood_block;
  solana_to_robinhood_raw = pos inventory.solana_to_robinhood_raw;
  robinhood_to_solana_raw = pos inventory.robinhood_to_solana_raw;
}

pub record ProgramData : Type 0 where
  pub upgrade_authority : String
  pub executable_sha256 : String

-- `AccountInfo`, as far as the checks of programs look at it
pub record ProgramInfo : Type 0 where
  pub owner : ℕ
  pub executable : Bool

module _ (x : External) where
  open x use {public_key, to_base58, get_address, sha256_with}

  unfoldable pub address_from_storage : String → Result (Option String)
  address_from_storage value = do
    n ← or_throw (big_int value) "Cannot convert to a BigInt"
    (if n == pos 0
        then ok none
        else (or_throw (get_address (concat "0x" (drop_text (size value - 40) value)))
              "invalid address"
            >>= λ address. ok (some address)))

  unfoldable pub parse_program_data : List ℕ → Result ProgramData
  parse_program_data program_data = do
    throw_if (ltb (length program_data) 13 || read_uint32 program_data != 3)
        "Solana ProgramData account has an unexpected loader state"
    throw_if (byte_at 12 program_data != some 1 || ltb (length program_data) 45)
        "Solana ProgramData upgrade authority is absent or malformed"
    ok (record {
      upgrade_authority = to_base58 (key_of_bytes 0 (prefix 32 (skip 13 program_data)));
      executable_sha256 = concat "0x" (sha256_with "" (skip 45 program_data));
    })

  unfoldable pub require_account_owner : ProgramInfo → ℕ → String → Check
  require_account_owner info expected label =
      throw_if (info.owner != expected) (concat label " has an unexpected program owner")

  unfoldable pub require_upgradeable_program : ProgramInfo → String → Check
  require_upgradeable_program info label = do
    loader ← or_throw (public_key solana_upgradeable_loader) "Invalid public key input"
    require_account_owner info loader label
    throw_if (not info.executable) (concat label " is not executable")
