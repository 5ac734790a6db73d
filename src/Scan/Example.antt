-- ===== src/Scan/Example.antt =====
-- A history of both chains for the tests of the scanner: one message that was sent on Solana in slot
-- 120 and received on Robinhood in block 20.
use san_layerzero_bridge.Base.{
  ℕ, String, true, false, Option, none, some, List, [], ◌∷◌, ◌==◌, if◌then◌else◌, ok, pos, int,
  string_Eq,
}
use san_layerzero_bridge.Base.Bytes.{prefix}
use san_layerzero_bridge.Config.{production_solana_oft_program, solana_mainnet_genesis_hash}
use san_layerzero_bridge.Example.{packages, zeros, number_of, hash, oft, store}
use san_layerzero_bridge.External.{External}
use san_layerzero_bridge.InFlight.Checks.{bridge_code_audit_target}
use san_layerzero_bridge.Scan.Node.{
  Instruction, Transaction, Signature, Packet, SolanaNode, Log, RobinhoodNode, ApiResponse,
  ReceiptLog, Receipt,
}
use san_layerzero_bridge.Scan.Node as Node
use san_layerzero_bridge.Scan.Production.{Values, Services, Fuel}
use san_layerzero_bridge.Scan.Robinhood.Coverage.{between}
use san_layerzero_bridge.Scan.Solana.Events.{oft_sent}
use san_layerzero_bridge.Scan.Solana.History.{after}
use san_layerzero_bridge.Scan.Solana.Layout.{Fields, event_bytes}
use san_layerzero_bridge.InFlight.Data.{Message}
use san_layerzero_bridge.InFlight.Message.{message_keys, solana_to_robinhood}

abbrev pub ones : List ℕ
ones =
    17 ∷ 17 ∷ 17 ∷ 17 ∷ 17 ∷ 17 ∷ 17 ∷ 17 ∷ 17 ∷ 17 ∷ 17 ∷ 17 ∷ 17 ∷ 17 ∷ 17 ∷ 17 ∷ 17 ∷ 17 ∷ 17
    ∷ 17 ∷ 17 ∷ 17 ∷ 17 ∷ 17 ∷ 17 ∷ 17 ∷ 17 ∷ 17 ∷ 17 ∷ 17 ∷ 17 ∷ 17 ∷ []

abbrev pub guid : String
guid = "0x1111111111111111111111111111111111111111111111111111111111111111"

abbrev pub receiver : String
receiver = "0x0000000000000000000000000000000000000000000000000000000000000000"

abbrev pub sent_fields : Fields
sent_fields = record { guid = ones; eid = 30416; address = zeros; amount = 500 }

abbrev pub scanner_packages : External
scanner_packages = record packages {
  bs58_decode = λ s. some (event_bytes oft_sent 510 sent_fields []);
}

abbrev pub instruction : Instruction
instruction = record {
  program_id = some (number_of 0 production_solana_oft_program);
  data_text = some "event";
}

abbrev pub transaction : Transaction
transaction = record {
  meta = some (record { failed = false; inner_instructions = some ((instruction ∷ []) ∷ []) });
}

abbrev pub item : Signature
item = record { signature = "tx1"; slot = 120; failed = false }

abbrev pub older : Signature
older = record { signature = "tx0"; slot = 90; failed = false }

abbrev pub history : List Signature
history = item ∷ older ∷ []

abbrev pub packet : Packet
packet = record {
  guid = guid;
  nonce = "1";
  src_eid = 30168;
  dst_eid = 30416;
  sender = packages.hexlify (number_of 0 store);
  receiver = oft;
  sender_address = "";
  receiver_address = oft;
  message = "0x00000000000000000000000000000000000000000000000000000000000000000000000000000001";
}

abbrev pub solana_node : SolanaNode
solana_node = record {
  finalized_slot = ok (int (pos 250));
  first_available_block = ok 0;
  block_hash = λ slot. ok (some "a");
  genesis_hash = ok solana_mainnet_genesis_hash;
  signatures = λ before. ok (prefix 1_000 (after before history));
  transaction = λ signature. ok (some transaction);
  packets = λ tx. ok (some (packet ∷ []));
}

abbrev pub log : Log
log = record {
  block_number = 20;
  block_hash = hash;
  transaction_hash = "tx9";
  log_index = 3;
  event = some (Node.received guid 30168 receiver 500);
}

abbrev pub robinhood_node : RobinhoodNode
robinhood_node = record {
  chain_id = ok 4663;
  finalized = ok (some (record { number = some "0x32"; hash = some hash }));
  block_hash = λ block. ok (some hash);
  logs = λ first last. ok (between first last (log ∷ []));
  receipt = λ transaction. ok none;
}

abbrev pub answer : ApiResponse
answer = record {
  is_ok = true;
  entries = some (
      record {
        guid = some guid;
        src_eid = some 30168;
        dst_eid = some 30416;
        status_name = some "DELIVERED";
      }
      ∷ []);
}

abbrev pub variable : String → Option String
variable name =
    if name == "SAN_APPROVED_IN_FLIGHT_INVENTORY_ID"
    then some "inventory"
    else some bridge_code_audit_target

abbrev pub services : Services
services = record {
  env = variable;
  solana = λ url. solana_node;
  robinhood = λ url. robinhood_node;
  layer_zero = λ transaction. ok answer;
  now = "2026-01-02T03:04:05Z";
  url = λ url. some ("https:", url);
}

abbrev pub values : Values
values = record {
  solana_from = 100;
  solana_to = 200;
  robinhood_from = 10;
  robinhood_to = 50;
  store = store;
  oft = oft;
}

abbrev pub fuel : Fuel
fuel = record { solana = 3; robinhood = 42 }

abbrev pub message : Message
message = record {
  keys = message_keys;
  guid = guid;
  direction = solana_to_robinhood;
  source_nonce = "1";
  source_transaction = "tx1";
  source_height = "120";
  source_block_hash = "a";
  source_event_index = int (pos 0);
  source_oft = store;
  destination_oft = oft;
  amount_raw = "500";
  receiver = receiver;
  status = "unresolved";
  destination_transaction = none;
  destination_height = none;
  destination_block_hash = none;
  layer_zero_api_status = none;
}

abbrev pub receive : Message
receive = record message {
  source_nonce = "0";
  source_transaction = "";
  source_height = "0";
  source_block_hash = "";
  source_event_index = int (pos 3);
  status = "delivered";
  destination_transaction = some "tx9";
  destination_height = some "20";
  destination_block_hash = some hash;
}
