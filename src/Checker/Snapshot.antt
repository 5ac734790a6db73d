-- ===== src/Checker/Snapshot.antt =====
-- `collectProductionMainnetObservation`. Requests that the code starts together are made one after the
-- other, in the order of the code.
use san_layerzero_bridge.Base.{
  ℕ, zero, suc, String, ◌||◌, Option, none, some, List, ◌==◌, if◌then◌else◌, Result, ok, or_throw,
  ◌>>=◌, ◌>>◌, ℤ, pos, negsuc, int, is_safe_integer,
}
use san_layerzero_bridge.Base.{string_Eq, nat_Eq}
use san_layerzero_bridge.Base.BigInt.{big_int}
use san_layerzero_bridge.Checker.Answers.{
  StoreAccount, SolanaLimiter, PeerAccount, TokenAccount, MintAccount, Decoders, EvmLimiter,
  FinalizedBlock, Nodes,
}
use san_layerzero_bridge.Checker.Programs.{Keys, require_linked_program, require_owners}
use san_layerzero_bridge.Config.{solana_eid}
use san_layerzero_bridge.ConfigCheck.Answers.{SolanaAccounts}
use san_layerzero_bridge.External.{External}
use san_layerzero_bridge.Mainnet.Collect.{ProgramData, parse_program_data}
use san_layerzero_bridge.Mainnet.Data.{ApprovedState, SolanaObservation, EnforcedOption}
use san_layerzero_bridge.RateLimit.{Limit}
use san_layerzero_bridge.SolanaContext.{AccountInfo, account}
use san_layerzero_bridge.StoreBindings.{require_oft_store_asset_bindings}

-- `key?.toBase58() ?? null`
abbrev pub optional_key : External → Option ℕ → Option String
optional_key x key = elim key [ none ↦ none | some k ↦ some (x.to_base58 k) ]

unfoldable pub decode_receive_option : Decoders → String → Result EnforcedOption
decode_receive_option decoders hex = do
  answer ← decoders.decode_receive_option hex
  option ← or_throw answer "Required enforced lzReceive option is missing"
  ok (record { gas_or_compute = pos option.0; value = pos option.1 })

abbrev pub solana_limit : SolanaLimiter → Limit
solana_limit limiter = record {
  capacity = pos limiter.capacity;
  available = some (pos limiter.tokens);
  refill = pos limiter.refill_per_second;
  duration_seconds = none;
}

abbrev pub robinhood_limit : EvmLimiter → Limit
robinhood_limit limiter = record {
  capacity = pos limiter.capacity;
  available = some (pos limiter.available);
  refill = pos limiter.refill_amount;
  duration_seconds = some (pos limiter.refill_duration);
}

-- The number and the hash of the finalized block
unfoldable pub finalized_head : Option FinalizedBlock → Option (String × String)
finalized_head none = none
finalized_head (some block) = elim block.number [
  | none ↦ none
  | some number ↦ elim block.hash [
    | none ↦ none
    | some hash ↦ if number == "" || hash == "" then none else some (number, hash)
  ]
]

-- `Number.isSafeInteger(tag)` and `tag > 0`, for `tag = Number(BigInt(number))`
unfoldable pub block_tag : ℤ → Option ℕ
block_tag (pos zero) = none
block_tag (pos (suc n)) = if is_safe_integer (int (pos (suc n))) then some (suc n) else none
block_tag (negsuc n) = none

unfoldable pub finalized_tag : Nodes → Result (ℕ × String)
finalized_tag nodes = do
  answer ← nodes.finalized
  (number, hash) ←
      or_throw (finalized_head answer)
        "Robinhood RPC does not expose an explicit finalized block and hash"
  value ← or_throw (big_int number) "Cannot convert to a BigInt"
  tag ← or_throw (block_tag value) "Robinhood finalized block is not a positive safe integer"
  ok (tag, hash)

-- A program's account, the account of its data, and what the latter holds
pub record LinkedProgram : Type 0 where
  pub info : AccountInfo
  pub data_info : AccountInfo
  pub parsed : ProgramData

module _ (x : External) (values : List (String × AccountInfo)) where
  unfoldable pub read_linked_program :
      (program program_data : ℕ) (state link : String) → Result LinkedProgram
  read_linked_program program program_data state link = do
    info ← account x values program
    require_linked_program info.bytes program_data state link
    data_info ← account x values program_data
    parsed ← parse_program_data x data_info.bytes
    ok (record { info = info; data_info = data_info; parsed = parsed })

-- The accounts of Solana, after their owners have been checked
pub record SolanaAnswers : Type 0 where
  pub store : StoreAccount
  pub peer : PeerAccount
  pub oft : LinkedProgram
  pub endpoint : LinkedProgram
  pub uln : LinkedProgram
  pub escrow_info : AccountInfo
  pub mint_info : AccountInfo
  pub escrow : TokenAccount
  pub mint : MintAccount
  pub delegate : ℕ

module _ (x : External) (decoders : Decoders) (accounts : SolanaAccounts) where
  unfoldable pub read_solana : Keys → List (String × AccountInfo) → Result SolanaAnswers
  read_solana keys values = do
    require_owners x values keys
    store_info ← account x values keys.store
    store ← decoders.store store_info
    require_oft_store_asset_bindings x (x.to_base58 keys.store) store.token_mint store.token_escrow
        (x.to_base58 keys.escrow)
    peer_info ← account x values keys.peer
    peer ← decoders.peer peer_info
    oft ←
        read_linked_program x values keys.program keys.program_data
          "Solana OFT program account has an unexpected loader state"
          "Solana program points to a different ProgramData account than the approved identity"
    endpoint ←
        read_linked_program x values keys.endpoint keys.endpoint_data
          "LayerZero Endpoint program account has an unexpected loader state"
          "LayerZero Endpoint program points to a different ProgramData account"
    uln ←
        read_linked_program x values keys.uln keys.uln_data
          "LayerZero ULN302 program account has an unexpected loader state"
          "LayerZero ULN302 program points to a different ProgramData account"
    escrow_info ← account x values keys.escrow
    mint_info ← account x values keys.mint
    escrow ← decoders.escrow escrow_info
    mint ← decoders.mint mint_info
    registry ← account x values (accounts.oapp_registry keys.store)
    delegate ← decoders.delegate registry
    ok (record {
      store = store;
      peer = peer;
      oft = oft;
      endpoint = endpoint;
      uln = uln;
      escrow_info = escrow_info;
      mint_info = mint_info;
      escrow = escrow;
      mint = mint;
      delegate = delegate;
    })

module _ (x : External) (decoders : Decoders) where
  -- `solana` of the returned object
  unfoldable pub solana_observation :
      ApprovedState → Keys → (genesis_hash : String) → SolanaAnswers → SolanaObservation
  solana_observation approved keys genesis_hash read = record {
    eid = int solana_eid;
    genesis_hash = genesis_hash;
    mint = x.to_base58 keys.mint;
    token_program = x.to_base58 read.mint_info.owner;
    decimals = int (pos read.mint.decimals);
    shared_decimals = decoders.shared_decimals read.mint.decimals read.store.ld2sd_rate;
    oft_type = int (pos read.store.oft_type);
    mint_supply_raw = pos read.mint.supply;
    mint_authority = optional_key x read.mint.mint_authority;
    freeze_authority = optional_key x read.mint.freeze_authority;
    program_id = x.to_base58 keys.program;
    endpoint = read.store.endpoint_program;
    oft_store = approved.solana_oft_store;
    escrow = x.to_base58 keys.escrow;
    tvl_raw = pos read.store.tvl;
    escrow_balance_raw = pos read.escrow.amount;
    upgrade_authority = read.oft.parsed.upgrade_authority;
    store_admin = read.store.admin;
    delegate = x.to_base58 read.delegate;
    paused = read.store.paused;
    pauser = read.store.pauser;
    unpauser = read.store.unpauser;
    program_executable = read.oft.info.executable;
    program_owner = x.to_base58 read.oft.info.owner;
    program_data = x.to_base58 keys.program_data;
    program_data_sha256 = read.oft.parsed.executable_sha256;
    program_data_owner = x.to_base58 read.oft.data_info.owner;
    program_data_executable = read.oft.data_info.executable;
    endpoint_program_data = x.to_base58 keys.endpoint_data;
    endpoint_program_data_sha256 = read.endpoint.parsed.executable_sha256;
    endpoint_upgrade_authority = read.endpoint.parsed.upgrade_authority;
    endpoint_program_data_owner = x.to_base58 read.endpoint.data_info.owner;
    endpoint_program_data_executable = read.endpoint.data_info.executable;
    uln_program_data = x.to_base58 keys.uln_data;
    uln_program_data_sha256 = read.uln.parsed.executable_sha256;
    uln_upgrade_authority = read.uln.parsed.upgrade_authority;
    uln_program_data_owner = x.to_base58 read.uln.data_info.owner;
    uln_program_data_executable = read.uln.data_info.executable;
    escrow_program_owner = x.to_base58 read.escrow_info.owner;
    escrow_mint = x.to_base58 read.escrow.mint;
    escrow_authority = x.to_base58 read.escrow.owner;
  }
