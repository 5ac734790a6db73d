-- ===== src/Checker/Linked.antt =====
-- Where the programs of a snapshot come from: each program's account links to its data.
use san_layerzero_bridge.Base.{ℕ, String, ◌≡◌, sym, ap, some, List, ok, or_throw, option_Eq}
use mathlib.Core.Path.{subst}
use san_layerzero_bridge.Base.{>>=-eq-ok, >>-eq-ok, or_throw-eq-ok, ok_inj, string_Eq, nat_Eq}
use san_layerzero_bridge.Base.Accepts.{throw_if-accepts, throw_if-eq, ne_iff, or-eq-IsFalse}
use san_layerzero_bridge.Base.Bytes.{read_uint32, byte_at, key_of_bytes, prefix, skip}
use san_layerzero_bridge.Base.Text.{concat}
use san_layerzero_bridge.Checker.Answers.{Decoders}
use san_layerzero_bridge.Checker.Collect.{
  Services, TokenReads, load_in_flight_inventory, assemble, collect_production_mainnet_observation,
  robinhood_observation, read_token,
}
use san_layerzero_bridge.Checker.Programs.{
  Keys, production_keys, context_requests, require_linked_program,
}
use san_layerzero_bridge.Checker.Snapshot.{
  SolanaAnswers, LinkedProgram, read_linked_program, finalized_tag, read_solana, solana_observation,
  decode_receive_option,
}
use san_layerzero_bridge.ConfigCheck.Answers.{SolanaAccounts}
use san_layerzero_bridge.ConfigCheck.Collect.{collect_layer_zero_observation}
use san_layerzero_bridge.External.{External}
use san_layerzero_bridge.InFlight.Data.{Inventory}
use san_layerzero_bridge.Mainnet.Collect.{ProgramData, parse_program_data}
use san_layerzero_bridge.Mainnet.Data.{ApprovedState, SolanaObservation, Observation}
use san_layerzero_bridge.LayerZero.{BridgeObservation}
use san_layerzero_bridge.SolanaContext.{
  AccountInfo, Snapshot, account, collect_solana_common_context, Responses,
}
use san_layerzero_bridge.StoreBindings.{new_public_key}

-- A program's account is in the state of a program and holds the address of its data, and that account
-- is in the state of program data and holds the authority and the code.
pub record IsLinked (x : External) (values : List (String × AccountInfo)) (program program_data : ℕ)
    (authority sha256 : String) : Type 0 where
  pub info : AccountInfo
  pub data_info : AccountInfo
  pub found : account x values program ≡ ok info
  pub found_data : account x values program_data ≡ ok data_info
  pub state : read_uint32 info.bytes ≡ 2
  pub link : key_of_bytes 0 (prefix 32 (skip 4 info.bytes)) ≡ program_data
  pub data_state : read_uint32 data_info.bytes ≡ 3
  pub has_authority : byte_at 12 data_info.bytes ≡ some 1
  pub upgrader : authority ≡ x.to_base58 (key_of_bytes 0 (prefix 32 (skip 13 data_info.bytes)))
  pub code : sha256 ≡ concat "0x" (x.sha256_with "" (skip 45 data_info.bytes))

module _ (x : External) (values : List (String × AccountInfo)) where
  linked_lem :
      (program program_data : ℕ) (info data_info : AccountInfo) (parsed : ProgramData)
      (state link : String)
      → account x values program ≡ ok info
      → require_linked_program info.bytes program_data state link ≡ ok tt
      → account x values program_data ≡ ok data_info
      → parse_program_data x data_info.bytes ≡ ok parsed
      → IsLinked x values program program_data parsed.upgrade_authority parsed.executable_sha256
  unfolding require_linked_program parse_program_data
  linked_lem program program_data info data_info parsed state link found linked found_data read =
      let (loader, links) = >>-eq-ok _ _ linked in
      let (_, loaded) = or-eq-IsFalse _ _ (throw_if-accepts _ _ loader) in
      let (data_loader, h1) = >>-eq-ok _ _ read in
      let (_, data_loaded) = or-eq-IsFalse _ _ (throw_if-accepts _ _ data_loader) in
      let (owned, h2) = >>-eq-ok _ _ h1 in
      let (flag, _) = or-eq-IsFalse _ _ (throw_if-accepts _ _ owned) in
      let same = ok_inj h2 in
      record {
        info = info;
        data_info = data_info;
        found = found;
        found_data = found_data;
        state = ne_iff.0 loaded;
        link = throw_if-eq _ _ _ links;
        data_state = ne_iff.0 data_loaded;
        has_authority = ne_iff.0 flag;
        upgrader = sym (ap (λ (p : ProgramData). p.upgrade_authority) same);
        code = sym (ap (λ (p : ProgramData). p.executable_sha256) same);
      }

  read_linked_program-IsLinked :
      (program program_data : ℕ) (state link : String) {p : LinkedProgram}
      → read_linked_program x values program program_data state link ≡ ok p
      → IsLinked x values program program_data p.parsed.upgrade_authority p.parsed.executable_sha256
  unfolding read_linked_program
  read_linked_program-IsLinked program program_data state link h =
      let (info, found, h1) = >>=-eq-ok (account x values program) _ h in
      let (linked, h2) = >>-eq-ok _ _ h1 in
      let (data_info, found_data, h3) = >>=-eq-ok (account x values program_data) _ h2 in
      let (parsed, reads, h4) = >>=-eq-ok (parse_program_data x data_info.bytes) _ h3 in
      subst
        (λ (p : LinkedProgram).
          IsLinked x values program program_data p.parsed.upgrade_authority
            p.parsed.executable_sha256)
        (ok_inj h4)
        (linked_lem program program_data info data_info parsed state link found linked found_data
          reads)

-- The programs of what was read
pub record AreLinked (x : External) (values : List (String × AccountInfo)) (keys : Keys)
    (read : SolanaAnswers) : Type 0 where
  pub oft :
      IsLinked x values keys.program keys.program_data read.oft.parsed.upgrade_authority
        read.oft.parsed.executable_sha256
  pub endpoint :
      IsLinked x values keys.endpoint keys.endpoint_data read.endpoint.parsed.upgrade_authority
        read.endpoint.parsed.executable_sha256
  pub uln :
      IsLinked x values keys.uln keys.uln_data read.uln.parsed.upgrade_authority
        read.uln.parsed.executable_sha256

-- A snapshot's hashes and upgrade authorities are those of the program data that the programs' accounts
-- link to, in the batch of accounts that the node answered with and whose evidence the snapshot has.
pub record AreProgramsLinked (x : External) (decoders : Decoders) (accounts : SolanaAccounts)
    (services : Services) (approved : ApprovedState) (o : Observation) : Type 0 where
  pub store : ℕ
  pub keys : Keys
  pub responses : Responses
  pub snapshot : Snapshot
  pub store_named : x.public_key approved.solana_oft_store ≡ some store
  pub keys_named : production_keys x accounts decoders.endpoint_program approved store ≡ ok keys
  pub answered : services.nodes.common_context (context_requests keys) ≡ ok responses
  pub bound : collect_solana_common_context x (context_requests keys) responses ≡ ok snapshot
  pub evidence : o.solana_context ≡ snapshot.evidence
  pub oft :
      IsLinked x snapshot.values keys.program keys.program_data o.solana.upgrade_authority
        o.solana.program_data_sha256
  pub endpoint :
      IsLinked x snapshot.values keys.endpoint keys.endpoint_data
        o.solana.endpoint_upgrade_authority o.solana.endpoint_program_data_sha256
  pub uln :
      IsLinked x snapshot.values keys.uln keys.uln_data o.solana.uln_upgrade_authority
        o.solana.uln_program_data_sha256

module _ (x : External) (decoders : Decoders) (accounts : SolanaAccounts) where
  read_solana-AreLinked :
      (keys : Keys) (values : List (String × AccountInfo)) {read : SolanaAnswers}
      → read_solana x decoders accounts keys values ≡ ok read
      → AreLinked x values keys read
  unfolding read_solana
  read_solana-AreLinked keys values h =
      let (_, h1) = >>-eq-ok _ _ h in
      let (store_info, _, h2) = >>=-eq-ok (account x values keys.store) _ h1 in
      let (store, _, h3) = >>=-eq-ok (decoders.store store_info) _ h2 in
      let (_, h4) = >>-eq-ok _ _ h3 in
      let (peer_info, _, h5) = >>=-eq-ok (account x values keys.peer) _ h4 in
      let (peer, _, h6) = >>=-eq-ok (decoders.peer peer_info) _ h5 in
      let (oft, p, h7) =
        >>=-eq-ok (read_linked_program x values keys.program keys.program_data _ _) _ h6 in
      let (endpoint, q, h8) =
        >>=-eq-ok (read_linked_program x values keys.endpoint keys.endpoint_data _ _) _ h7 in
      let (uln, r, h9) = >>=-eq-ok (read_linked_program x values keys.uln keys.uln_data _ _) _ h8 in
      let (escrow_info, _, h10) = >>=-eq-ok (account x values keys.escrow) _ h9 in
      let (mint_info, _, h11) = >>=-eq-ok (account x values keys.mint) _ h10 in
      let (escrow, _, h12) = >>=-eq-ok (decoders.escrow escrow_info) _ h11 in
      let (mint, _, h13) = >>=-eq-ok (decoders.mint mint_info) _ h12 in
      let (registry, _, h14) =
        >>=-eq-ok (account x values (accounts.oapp_registry keys.store)) _ h13 in
      let (delegate, _, h15) = >>=-eq-ok (decoders.delegate registry) _ h14 in
      subst (AreLinked x values keys) (ok_inj h15) (record {
        oft = read_linked_program-IsLinked x values _ _ _ _ p;
        endpoint = read_linked_program-IsLinked x values _ _ _ _ q;
        uln = read_linked_program-IsLinked x values _ _ _ _ r;
      })

  assemble-solana :
      (approved : ApprovedState) (inventory : Inventory) (keys : Keys) (snapshot : Snapshot)
      (read : SolanaAnswers) (chain_id tag : ℕ) (genesis_hash block_hash : String)
      (token : TokenReads) (layer_zero : BridgeObservation) {o : Observation}
      → assemble x decoders approved inventory keys snapshot read chain_id tag genesis_hash
          block_hash token layer_zero
        ≡ ok o
      → (solana_observation x decoders approved keys genesis_hash read ≡ o.solana)
        × (snapshot.evidence ≡ o.solana_context)
  unfolding assemble
  assemble-solana approved inventory keys snapshot read chain_id tag genesis_hash block_hash token
        layer_zero h =
      let (_, h1) = >>-eq-ok _ _ h in
      let (out, _, h2) = >>=-eq-ok (or_throw read.peer.outbound _) _ h1 in
      let (inn, _, h3) = >>=-eq-ok (or_throw read.peer.inbound _) _ h2 in
      let (robinhood, _, h4) =
        >>=-eq-ok (robinhood_observation x decoders approved chain_id block_hash token) _ h3 in
      let (a, _, h5) = >>=-eq-ok (decode_receive_option decoders token.enforced_options) _ h4 in
      let (b, _, h6) = >>=-eq-ok (decode_receive_option decoders read.peer.send_options) _ h5 in
      (
        ap (λ (k : Observation). k.solana) (ok_inj h6),
        ap (λ (k : Observation). k.solana_context) (ok_inj h6),
      )

  -- In a snapshot that is collected, each of the three programs' accounts is in the state of a program
  -- and holds the approved address of its data, and the hash and the upgrade authority in the snapshot
  -- are those of the account at that address, which is in the state of program data with an authority.
  -- The accounts are those of the one batch that the node answered with, bound to the requested
  -- addresses, and the evidence in the snapshot is the evidence of that batch.
  pub collect_production_mainnet_observation-AreProgramsLinked :
      (services : Services) (approved : ApprovedState) {o : Observation}
      → collect_production_mainnet_observation x decoders accounts services approved ≡ ok o
      → AreProgramsLinked x decoders accounts services approved o
  unfolding collect_production_mainnet_observation solana_observation
  collect_production_mainnet_observation-AreProgramsLinked services approved h =
      let (chain, _, h1) = >>=-eq-ok services.nodes.chain_id _ h in
      let (_, h2) = >>-eq-ok _ _ h1 in
      let (store, named, h3) = >>=-eq-ok (new_public_key x approved.solana_oft_store) _ h2 in
      let (head, _, h4) = >>=-eq-ok (finalized_tag services.nodes) _ h3 in
      let (inventory, _, h5) =
        >>=-eq-ok (load_in_flight_inventory x services.env services.inventory_file) _ h4 in
      let (keys, keyed, h6) =
        >>=-eq-ok (production_keys x accounts decoders.endpoint_program approved store) _ h5 in
      let (responses, answered, h7) =
        >>=-eq-ok (services.nodes.common_context (context_requests keys)) _ h6 in
      let (snapshot, bound, h8) =
        >>=-eq-ok (collect_solana_common_context x (context_requests keys) responses) _ h7 in
      let (read, reads, h9) =
        >>=-eq-ok (read_solana x decoders accounts keys snapshot.values) _ h8 in
      let (genesis, _, h10) = >>=-eq-ok services.nodes.genesis_hash _ h9 in
      let (token, _, h11) = >>=-eq-ok (read_token (services.nodes.token_at head.0)) _ h10 in
      let (layer_zero, _, h12) =
        >>=-eq-ok
          (collect_layer_zero_observation x accounts services.metadata services.programs
            (services.contracts head.0 approved.robinhood_oft) approved.solana_oft_store
            (some snapshot.values))
          _ h11 in
      let (same, evidence) =
        assemble-solana approved inventory keys snapshot read chain head.0 genesis head.1 token
          layer_zero h12 in
      let linked = read_solana-AreLinked keys snapshot.values reads in
      record {
        store = store;
        keys = keys;
        responses = responses;
        snapshot = snapshot;
        answered = answered;
        bound = bound;
        evidence = sym evidence;
        store_named = or_throw-eq-ok _ _ named;
        keys_named = keyed;
        oft =
            subst
              (λ (s : SolanaObservation).
                IsLinked x snapshot.values keys.program keys.program_data s.upgrade_authority
                  s.program_data_sha256)
              same linked.oft;
        endpoint =
            subst
              (λ (s : SolanaObservation).
                IsLinked x snapshot.values keys.endpoint keys.endpoint_data
                  s.endpoint_upgrade_authority s.endpoint_program_data_sha256)
              same linked.endpoint;
        uln =
            subst
              (λ (s : SolanaObservation).
                IsLinked x snapshot.values keys.uln keys.uln_data s.uln_upgrade_authority
                  s.uln_program_data_sha256)
              same linked.uln;
      }
