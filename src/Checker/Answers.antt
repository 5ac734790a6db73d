-- ===== src/Checker/Answers.antt =====
-- What the nodes of both chains answer to scripts/checkProductionMainnet.ts, read by the packages. A
-- request or a decoder that throws is `err`.
use san_layerzero_bridge.Base.{ℕ, String, Bool, Option, List, Result, Number}
use san_layerzero_bridge.SolanaContext.{AccountRequest, AccountInfo, Responses}

-- The decoded OFT Store
pub record StoreAccount : Type 0 where
  pub token_mint : String
  pub token_escrow : String
  pub endpoint_program : String
  pub oft_type : ℕ
  pub ld2sd_rate : ℕ
  pub tvl : ℕ
  pub admin : String
  pub paused : Bool
  pub pauser : Option String
  pub unpauser : Option String

pub record SolanaLimiter : Type 0 where
  pub capacity : ℕ
  pub tokens : ℕ
  pub refill_per_second : ℕ

-- The decoded peer configuration
pub record PeerAccount : Type 0 where
  pub outbound : Option SolanaLimiter
  pub inbound : Option SolanaLimiter
  pub send_options : String

pub record TokenAccount : Type 0 where
  pub amount : ℕ
  pub mint : ℕ
  pub owner : ℕ

pub record MintAccount : Type 0 where
  pub decimals : ℕ
  pub supply : ℕ
  pub mint_authority : Option ℕ
  pub freeze_authority : Option ℕ

-- The packages: `EndpointProgram.PROGRAM_ID` and the decoders. `shared_decimals d rate` is `d - Math.log10(Number(rate))`, and
-- `decode_receive_option` answers `none` where there is no such option.
pub record Decoders : Type 0 where
  pub endpoint_program : ℕ
  pub store : AccountInfo → Result StoreAccount
  pub peer : AccountInfo → Result PeerAccount
  pub escrow : AccountInfo → Result TokenAccount
  pub mint : AccountInfo → Result MintAccount
  pub delegate : AccountInfo → Result ℕ
  pub shared_decimals : ℕ → ℕ → Number
  pub decode_receive_option : String → Result (Option (ℕ × ℕ))
  pub keccak256 : String → String

pub record EvmLimiter : Type 0 where
  pub capacity : ℕ
  pub available : ℕ
  pub refill_amount : ℕ
  pub refill_duration : ℕ

-- The contracts of Robinhood at one block
pub record TokenAnswers : Type 0 where
  pub owner : Result String
  pub paused : Result Bool
  pub endpoint : Result String
  pub decimals : Result ℕ
  pub shared_decimals : Result ℕ
  pub total_supply : Result ℕ
  pub outbound : Result EvmLimiter
  pub inbound : Result EvmLimiter
  pub enforced_options : Result String
  pub delegate : Result String
  pub code : Result String
  pub implementation_slot : Result String
  pub admin_slot : Result String

-- `eth_getBlockByNumber` of the finalized block
pub record FinalizedBlock : Type 0 where
  pub number : Option String
  pub hash : Option String

pub record Nodes : Type 0 where
  pub chain_id : Result ℕ
  pub finalized : Result (Option FinalizedBlock)
  pub genesis_hash : Result String
  pub token_at : ℕ → TokenAnswers
  pub common_context : List AccountRequest → Result Responses
