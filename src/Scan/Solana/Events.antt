-- ===== src/Scan/Solana/Events.antt =====
-- `extractSolanaOftEvents`: the events that the OFT program wrote into its inner instructions.
use san_layerzero_bridge.Base.{
  ℕ, ◌+◌, String, Bool, ◌&&◌, ◌||◌, Option, none, some, List, [], ◌∷◌, ◌++◌, ltb, leb, ◌==◌, ◌!=◌,
  if◌then◌else◌, Result, ok, or_throw, ◌>>=◌, length, string_Eq, nat_Eq,
}
use san_layerzero_bridge.Base.Text.{concat, show_nat}
use san_layerzero_bridge.Base.Bytes.{read_uint32, read_uint64, skip, prefix, key_of_bytes, to_hex}
use san_layerzero_bridge.External.{External}
use san_layerzero_bridge.Config.{production_solana_oft_program}
use san_layerzero_bridge.Scan.Node.{Instruction, Transaction, Meta}

pub data EventName : Type 0 where
  oft_sent oft_received : EventName

-- `SolanaOftEvent`
pub record Event : Type 0 where
  pub name : EventName
  pub guid : String
  pub eid : ℕ
  pub address : String
  pub amount_raw : String
  pub index : ℕ

abbrev pub event_cpi_discriminator : String
event_cpi_discriminator = "e445a52e51cb9a1d"

abbrev pub oft_sent_discriminator : String
oft_sent_discriminator = "6cabdb02bd156e6e"

abbrev pub oft_received_discriminator : String
oft_received_discriminator = "908170439098c92a"

-- `data.length < 16 || data.subarray(0, 8) !== EVENT_CPI_DISCRIMINATOR`
unfoldable pub is_no_event : List ℕ → Bool
is_no_event bytes = ltb (length bytes) 16 || to_hex (prefix 8 bytes) != event_cpi_discriminator

-- `u64le`
unfoldable pub u64le : List ℕ → ℕ → String
u64le bytes offset = show_nat (read_uint64 (skip offset bytes))

module _ (x : External) where
  open x use {public_key, to_base58, bs58_decode}

  unfoldable pub event_at : EventName → ℕ → List ℕ → ℕ → Event
  event_at name offset body index = record {
    name = name;
    guid = concat "0x" (to_hex (prefix 32 body));
    eid = read_uint32 (skip 32 body);
    address = to_base58 (key_of_bytes 0 (prefix 32 (skip 36 body)));
    amount_raw = u64le body offset;
    index = index;
  }

  -- The events that one instruction pushes: one, or none.
  unfoldable pub events_of : List ℕ → ℕ → List Event
  events_of bytes index =
      let discriminator = to_hex (prefix 8 (skip 8 bytes)) in
      let body = skip 16 bytes in
      if discriminator == oft_sent_discriminator && leb 84 (length body)
      then event_at oft_sent 76 body index ∷ []
      else if discriminator == oft_received_discriminator && leb 76 (length body)
      then event_at oft_received 68 body index ∷ []
      else []

  -- The bytes of an instruction of the OFT program; `none` where the loop continues without them.
  unfoldable pub instruction_bytes : Instruction → Result (Option (List ℕ))
  instruction_bytes instruction = elim instruction.program_id [
    | none ↦ ok none
    | some program ↦
        or_throw (public_key production_solana_oft_program) "Invalid public key input"
        >>= λ expected. if program != expected then ok none else elim instruction.data_text [
          | none ↦ ok none
          | some text ↦
              if text == ""
              then ok none
              else or_throw (bs58_decode text) "Non-base58 character" >>= λ bytes. ok (some bytes)
        ]
  ]

  -- One round: the events that are pushed, and the next index.
  unfoldable pub extract_instruction : Instruction → ℕ → Result (List Event × ℕ)
  extract_instruction instruction index = do
    read ← instruction_bytes instruction
    elim read [
      | none ↦ ok ([], index)
      | some bytes ↦
          if is_no_event bytes then ok ([], index) else ok (events_of bytes index, index + 1)
    ]

  unfoldable pub extract_group : List Instruction → ℕ → Result (List Event × ℕ)
  extract_group [] index = ok ([], index)
  extract_group (instruction ∷ rest) index = do
    (events, next) ← extract_instruction instruction index
    (later, last) ← extract_group rest next
    ok (events ++ later, last)

  unfoldable pub extract_groups : List (List Instruction) → ℕ → Result (List Event × ℕ)
  extract_groups [] index = ok ([], index)
  extract_groups (group ∷ rest) index = do
    (events, next) ← extract_group group index
    (later, last) ← extract_groups rest next
    ok (events ++ later, last)

  -- `tx.meta?.innerInstructions ?? []`
  unfoldable pub groups_events : Option (List (List Instruction)) → Result (List Event)
  groups_events none = ok []
  groups_events (some groups) = extract_groups groups 0 >>= λ (events, last). ok events

  -- `if (tx.meta?.err != null) return []`
  unfoldable pub meta_events : Option Meta → Result (List Event)
  meta_events none = ok []
  meta_events (some meta) = if meta.failed then ok [] else groups_events meta.inner_instructions

  unfoldable pub extract_solana_oft_events : Transaction → Result (List Event)
  extract_solana_oft_events tx = meta_events tx.meta
