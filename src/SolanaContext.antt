-- ===== src/SolanaContext.antt =====
-- scripts/solanaCommonContext.ts: one finalized batch of accounts, and the evidence made of it. The
-- answers of the node are the input.
mod Laws
mod Tests
use san_layerzero_bridge.Base.{
  ℕ, String, Bool, not, ◌||◌, Option, none, some, List, [], ◌∷◌, map, ℤ, pos, leb, ltb_ℤ, Number,
  int, other, is_safe_integer, length, includes, ◌==◌, ◌!=◌, nat_Eq, string_Eq, Result, ok, err,
  Check, throw_if, or_throw, for_each, ◌>>=◌, ◌>>◌, if◌then◌else◌, int_Eq,
}
use san_layerzero_bridge.Base.Text.{concat, is_base58_text, show_nat}
use san_layerzero_bridge.External.{External}
use san_layerzero_bridge.InFlight.Json.{quote, show_number}
use san_layerzero_bridge.Scan.Range.{is_not_positive, exceeds}
use san_layerzero_bridge.Mainnet.Data.{AccountEvidence, ContextEvidence}
use san_layerzero_bridge.Mainnet.Context.{solana_observation_model}

-- `CommonContextEnvelope`
pub record Envelope : Type 0 where
  pub requested_accounts : ℕ
  pub returned_accounts : ℕ
  pub finalized_slot_before : Number
  pub context_slot : Number
  pub finalized_slot_after : Number
  pub block_slot : Number
  pub blockhash : Option String

-- `a !== b` of numbers
abbrev pub number_differs : Number → Number → Bool
number_differs (int a) (int b) = a != b
number_differs _ _ = Bool.true

unfoldable pub check_slot : String × Number → Check
check_slot (label, slot) =
    throw_if (not (is_safe_integer slot) || is_not_positive slot)
      (concat label " must be a positive safe integer")

-- `!blockhash || !/^[1-9A-HJ-NP-Za-km-z]+$/.test(blockhash)`
abbrev pub is_malformed : Option String → Bool
is_malformed none = Bool.true
is_malformed (some blockhash) = not (is_base58_text blockhash)

unfoldable pub validate_common_context_envelope : Envelope → Check
validate_common_context_envelope value = do
  for_each check_slot (
      ("finalized slot before", value.finalized_slot_before)
      ∷ ("account context slot", value.context_slot)
      ∷ ("finalized slot after", value.finalized_slot_after)
      ∷ ("block slot", value.block_slot)
      ∷ [])
  throw_if (leb value.requested_accounts 0 || value.returned_accounts != value.requested_accounts)
      "Solana common-context batch is truncated"
  throw_if (exceeds value.finalized_slot_before value.context_slot)
      "Solana common-context response is older than the required finalized slot"
  throw_if (exceeds value.context_slot value.finalized_slot_after)
      "Solana common-context response is newer than the observed finalized head"
  throw_if (number_differs value.block_slot value.context_slot || is_malformed value.blockhash)
      "Solana common-context block identifier does not match the account context slot"

-- `SolanaContextAccountRequest`
pub record AccountRequest : Type 0 where
  pub label : String
  pub address : ℕ

-- `AccountInfo<Buffer>`
pub record AccountInfo : Type 0 where
  pub owner : ℕ
  pub executable : Bool
  pub lamports : ℕ
  pub rent_epoch : Option ℕ
  pub bytes : List ℕ

pub record Block : Type 0 where
  pub blockhash : String
  pub parent_slot : ℕ

-- What the node answers to the four calls.
pub record Responses : Type 0 where
  pub finalized_slot_before : Number
  pub context_slot : Number
  pub values : List (Option AccountInfo)
  pub finalized_slot_after : Number
  pub block : Option Block

-- The accounts by address, and the evidence.
pub record Snapshot : Type 0 where
  pub evidence : ContextEvidence
  pub values : List (String × AccountInfo)

-- `BigInt(slot)` of a slot that was found to be an integer
abbrev pub integer_of : Number → ℤ
integer_of (int n) = n
integer_of (other _) = pos 0

abbrev pub remaining_cross_call_gaps : List String
remaining_cross_call_gaps =
    "Robinhood state is pinned independently to one finalized EVM block."
    ∷ "LayerZero metadata is an HTTPS observation outside the Solana bank snapshot."
    ∷ "In-flight evidence spans separately approved finalized chain ranges." ∷ []

abbrev pub epoch_of : Option ℕ → ℕ
epoch_of none = 0
epoch_of (some n) = n

abbrev pub show_flag : Bool → String
show_flag b = elim b [ Bool.true ↦ "true" | Bool.false ↦ "false" ]

module _ (x : External) where
  open x use {to_base58, sha256_with}

  -- The JSON text that starts the hashed bytes of an account.
  unfoldable pub account_header : AccountInfo → String
  account_header info = concat "{\"owner\":" (
      concat (quote (to_base58 info.owner)) (
        concat ",\"executable\":" (
          concat (show_flag info.executable) (
            concat ",\"lamports\":" (
              concat (quote (show_nat info.lamports)) (
                concat ",\"rentEpoch\":" (
                  concat (quote (show_nat (epoch_of info.rent_epoch)))
                    (concat ",\"dataLength\":" (concat (show_nat (length info.bytes)) "}")))))))))

  unfoldable pub account_hash : AccountInfo → String
  account_hash info = concat "0x" (sha256_with (account_header info) info.bytes)

  -- The loop that fills `byAddress`, with the addresses that are in it.
  unfoldable pub check_requests : List AccountRequest → List String → Check
  check_requests [] seen = ok tt
  check_requests (item ∷ rest) seen = do
    throw_if (includes seen (to_base58 item.address))
        (concat "Duplicate Solana common-context account " (to_base58 item.address))
    check_requests rest (to_base58 item.address ∷ seen)

  unfoldable pub account_evidence : AccountRequest → AccountInfo → AccountEvidence
  account_evidence item info = record {
    label = item.label;
    address = to_base58 item.address;
    owner = to_base58 info.owner;
    executable = info.executable;
    lamports = show_nat info.lamports;
    data_length = int (pos (length info.bytes));
    account_sha256 = account_hash info;
  }

  -- `accounts.map((item, index) => …)`, where a value that is missing or null is refused.
  unfoldable pub bind_accounts :
      List AccountRequest
      → List (Option AccountInfo)
      → Result (List AccountEvidence × List (String × AccountInfo))
  bind_accounts [] values = ok ([], [])
  bind_accounts (item ∷ rest) [] =
      err (concat "Solana common-context account is missing: " item.label)
  bind_accounts (item ∷ rest) (none ∷ values) =
      err (concat "Solana common-context account is missing: " item.label)
  bind_accounts (item ∷ rest) (some info ∷ values) = do
    (evidence, bound) ← bind_accounts rest values
    ok (account_evidence item info ∷ evidence, (to_base58 item.address, info) ∷ bound)

  unfoldable pub collect_solana_common_context : List AccountRequest → Responses → Result Snapshot
  collect_solana_common_context requested responses = do
    check_requests requested []
    throw_if (length requested == 0) "Solana common-context account set is empty"
    validate_common_context_envelope (record {
      requested_accounts = length requested;
      returned_accounts = length responses.values;
      finalized_slot_before = responses.finalized_slot_before;
      context_slot = responses.context_slot;
      finalized_slot_after = responses.finalized_slot_after;
      block_slot = responses.context_slot;
      blockhash = elim responses.block [ none ↦ none | some block ↦ some block.blockhash ];
    })
    block ← or_throw responses.block "Solana common-context finalized block is unavailable"
    (evidence, bound) ← bind_accounts requested responses.values
    ok (record {
      evidence = record {
        model = solana_observation_model;
        commitment = "finalized";
        context_slot = integer_of responses.context_slot;
        finalized_slot_before = integer_of responses.finalized_slot_before;
        finalized_slot_after = integer_of responses.finalized_slot_after;
        blockhash = block.blockhash;
        parent_slot = pos block.parent_slot;
        accounts = evidence;
        remaining_cross_call_gaps = remaining_cross_call_gaps;
      };
      values = bound;
    })

  -- `account(address)` of a snapshot
  unfoldable pub account : List (String × AccountInfo) → ℕ → Result AccountInfo
  account [] address = err "Account was not bound to the Solana common context"
  account ((name, info) ∷ rest) address =
      let found = account rest address in if name == to_base58 address then ok info else found
