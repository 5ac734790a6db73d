-- ===== src/Scan/Solana/Layout.antt =====
-- The layout of the two events, as the OFT program serialises them behind an event instruction, and
-- that they are read back from their bytes.
use san_layerzero_bridge.Base.{
  str_eq, leb, ltb, false, true, length-append, ℕ, ◌+◌, ◌≤◌, ◌<◌, String, ◌≡◌, refl, sym, ap, ◌∙◌,
  ◌≢◌, inl, inr, true, false, some, List, [], ◌∷◌, ◌++◌, arith, ltb, leb, Bool-cases, ok, length,
  str_eq_iff, nat_eq, nat_eq_iff,
}
use mathlib.Core.List.{append_assoc}
use san_layerzero_bridge.Base.Text.{concat, show_nat}
use san_layerzero_bridge.Base.Bytes.{skip, prefix, read_uint32, read_uint64, to_hex, key_of_bytes}
use san_layerzero_bridge.Base.Bytes.Laws.{
  prefix-append, skip-append, le_bytes, length-le_bytes, read_uint32-le_bytes, read_uint64-le_bytes,
}
use san_layerzero_bridge.Config.{production_solana_oft_program}
use san_layerzero_bridge.External.{External}
use san_layerzero_bridge.Scan.Solana.Events.{
  Event, EventName, oft_sent, oft_received, event_at, events_of, is_no_event, u64le,
  instruction_bytes, extract_instruction,
}

-- The fields of both events that the scanner reads, as bytes and numbers.
pub record Fields : Type 0 where
  pub guid : List ℕ
  pub eid : ℕ
  pub address : List ℕ
  pub amount : ℕ

-- What the widths of the fields hold.
pub record IsEncodable (f : Fields) : Type 0 where
  pub guid : length f.guid ≡ 32
  pub address : length f.address ≡ 32
  pub eid : f.eid < 4_294_967_296
  pub amount : f.amount < 18_446_744_073_709_551_616

-- The anchor discriminators of an event instruction, of `OFTSent` and of `OFTReceived`
abbrev pub discriminator_bytes : EventName → List ℕ
discriminator_bytes oft_sent = 108 ∷ 171 ∷ 219 ∷ 2 ∷ 189 ∷ 21 ∷ 110 ∷ 110 ∷ []
discriminator_bytes oft_received = 144 ∷ 129 ∷ 112 ∷ 67 ∷ 144 ∷ 152 ∷ 201 ∷ 42 ∷ []

-- `OFTSent` carries the amount that was debited before the one that the other chain receives.
abbrev pub amount_bytes : EventName → ℕ → ℕ → List ℕ
amount_bytes oft_sent debited amount = le_bytes 8 debited ++ le_bytes 8 amount
amount_bytes oft_received debited amount = le_bytes 8 amount

abbrev body_of : Fields → List ℕ → List ℕ
body_of f tail = f.guid ++ (le_bytes 4 f.eid ++ (f.address ++ tail))

unfoldable pub event_bytes : EventName → ℕ → Fields → List ℕ → List ℕ
event_bytes name debited f rest =
    (228 ∷ 69 ∷ 165 ∷ 46 ∷ 81 ∷ 203 ∷ 154 ∷ 29 ∷ [])
    ++ (discriminator_bytes name ++ body_of f (amount_bytes name debited f.amount ++ rest))

-- The event as the scanner is to see it.
abbrev pub event_of : External → EventName → Fields → ℕ → Event
event_of x name f index = record {
  name = name;
  guid = concat "0x" (to_hex f.guid);
  eid = f.eid;
  address = x.to_base58 (key_of_bytes 0 f.address);
  amount_raw = show_nat f.amount;
  index = index;
}

module _ {A : Type 0} (n : ℕ) (xs ys zs : List A) where
  skip-append-append : length xs + length ys ≡ n → skip n (xs ++ (ys ++ zs)) ≡ zs
  skip-append-append h =
      ap (skip n) (sym (append_assoc xs ys zs))
      ∙ skip-append n (xs ++ ys) zs (omega (arith, length-append xs ys))

module _ (f : Fields) (fits : IsEncodable f) (tail : List ℕ) where
  after_guid : skip 32 (body_of f tail) ≡ le_bytes 4 f.eid ++ (f.address ++ tail)
  after_guid = skip-append 32 f.guid _ fits.guid

  after_eid : skip 36 (body_of f tail) ≡ f.address ++ tail
  after_eid =
      skip-append-append 36 f.guid (le_bytes 4 f.eid) (f.address ++ tail)
        (omega (arith, length-le_bytes 4 f.eid, fits.guid))

  after_address : skip 68 (body_of f tail) ≡ tail
  after_address =
      ap (λ t. skip 68 (f.guid ++ t)) (sym (append_assoc (le_bytes 4 f.eid) f.address tail))
      ∙ skip-append-append 68 f.guid (le_bytes 4 f.eid ++ f.address) tail (
          omega (
            arith,
            length-append (le_bytes 4 f.eid) f.address,
            length-le_bytes 4 f.eid,
            fits.guid,
            fits.address,
          ))

  eid_lem : read_uint32 (skip 32 (body_of f tail)) ≡ f.eid
  eid_lem = ap read_uint32 after_guid ∙ read_uint32-le_bytes f.eid _ fits.eid

  address_lem : prefix 32 (skip 36 (body_of f tail)) ≡ f.address
  address_lem = ap (prefix 32) after_eid ∙ prefix-append 32 f.address tail fits.address

  guid_lem : prefix 32 (body_of f tail) ≡ f.guid
  guid_lem = prefix-append 32 f.guid _ fits.guid

  length-body : length (body_of f tail) ≡ 68 + length tail
  length-body = omega (
    arith,
    length-append f.guid (le_bytes 4 f.eid ++ (f.address ++ tail)),
    length-append (le_bytes 4 f.eid) (f.address ++ tail),
    length-append f.address tail,
    length-le_bytes 4 f.eid,
    fits.guid,
    fits.address,
  )

abbrev header : EventName → List ℕ → List ℕ
header name body =
    (228 ∷ 69 ∷ 165 ∷ 46 ∷ 81 ∷ 203 ∷ 154 ∷ 29 ∷ []) ++ (discriminator_bytes name ++ body)

module _ (x : External) (body : List ℕ) (index : ℕ) where
  events_of-sent :
      84 ≤ length body
      → events_of x (header oft_sent body) index ≡ event_at x oft_sent 76 body index ∷ []
  unfolding events_of to_hex prefix skip str_eq
  events_of-sent h = let long : leb 84 (length body) ≡ true = ground arith in rw long refl

  events_of-received :
      76 ≤ length body
      → events_of x (header oft_received body) index ≡ event_at x oft_received 68 body index ∷ []
  unfolding events_of to_hex prefix skip str_eq
  events_of-received h = let long : leb 76 (length body) ≡ true = ground arith in rw long refl

  is_no_event-header : (name : EventName) → is_no_event (header name body) ≡ false
  unfolding is_no_event to_hex prefix str_eq
  is_no_event-header oft_sent =
      let long : ltb (length (header oft_sent body)) 16 ≡ false = ground arith in rw long refl
  is_no_event-header oft_received =
      let long : ltb (length (header oft_received body)) 16 ≡ false = ground arith in rw long refl

module _ (x : External) (f : Fields) (fits : IsEncodable f) (index : ℕ) where
  event_at-eq :
      (name : EventName) (offset : ℕ) (tail : List ℕ)
      → read_uint64 (skip offset (body_of f tail)) ≡ f.amount
      → event_at x name offset (body_of f tail) index ≡ event_of x name f index
  unfolding event_at u64le
  event_at-eq name offset tail h =
      rw (guid_lem f fits tail, eid_lem f fits tail, address_lem f fits tail, h) refl

  module _ (debited : ℕ) (rest : List ℕ) where
    after_debited :
        skip 76 (body_of f (amount_bytes oft_sent debited f.amount ++ rest))
        ≡ le_bytes 8 f.amount ++ rest
    after_debited =
        let debit : List ℕ = le_bytes 8 debited in
        let credit : List ℕ = le_bytes 8 f.amount in
        let regrouped : le_bytes 4 f.eid ++ (f.address ++ ((debit ++ credit) ++ rest))
            ≡ (le_bytes 4 f.eid ++ (f.address ++ debit)) ++ (credit ++ rest) =
          simp append_assoc in
        ap (λ t. skip 76 (f.guid ++ t)) regrouped
        ∙ skip-append-append 76 f.guid (le_bytes 4 f.eid ++ (f.address ++ debit)) (credit ++ rest) (
            omega (
              arith,
              length-append (le_bytes 4 f.eid) (f.address ++ debit),
              length-append f.address debit,
              length-le_bytes 4 f.eid,
              length-le_bytes 8 debited,
              fits.guid,
              fits.address,
            ))

    events_of-event_bytes :
        (name : EventName)
        → events_of x (event_bytes name debited f rest) index ≡ event_of x name f index ∷ []
    unfolding event_bytes
    events_of-event_bytes oft_sent =
        let tail : List ℕ = amount_bytes oft_sent debited f.amount ++ rest in
        events_of-sent x (body_of f tail) index (
          omega (
            arith,
            length-body f fits tail,
            length-append (amount_bytes oft_sent debited f.amount) rest,
            length-append (le_bytes 8 debited) (le_bytes 8 f.amount),
            length-le_bytes 8 debited,
            length-le_bytes 8 f.amount,
          ))
        ∙ ap (λ e. e ∷ [])
            (event_at-eq oft_sent 76 tail
              (ap read_uint64 after_debited ∙ read_uint64-le_bytes f.amount rest fits.amount))
    events_of-event_bytes oft_received =
        let tail : List ℕ = le_bytes 8 f.amount ++ rest in
        events_of-received x (body_of f tail) index (
          omega (
            arith,
            length-body f fits tail,
            length-append (le_bytes 8 f.amount) rest,
            length-le_bytes 8 f.amount,
          ))
        ∙ ap (λ e. e ∷ [])
            (event_at-eq oft_received 68 tail (
              ap read_uint64 (after_address f fits tail)
              ∙ read_uint64-le_bytes f.amount rest fits.amount))

ne-str_eq : (s t : String) → s ≢ t → str_eq s t ≡ false
ne-str_eq s t h = elim (Bool-cases (str_eq s t)) [
  | inl same ↦ absurd (h ((str_eq_iff s t).0 same))
  | inr differ ↦ differ
]

is_no_event-event_bytes :
    (x : External) (name : EventName) (debited : ℕ) (f : Fields) (rest : List ℕ)
    → is_no_event (event_bytes name debited f rest) ≡ false
unfolding event_bytes
is_no_event-event_bytes x name debited f rest = is_no_event-header x _ 0 name

-- An instruction of the OFT program whose data is one of the two events, in the layout of the program
-- and with whatever behind it, is read as the event that was written: its GUID, its endpoint, its
-- address and the amount that the other chain receives, under the next index.
pub extract_instruction-event_bytes :
    (x : External) (name : EventName) (f : Fields) (debited index : ℕ) (rest : List ℕ) (program : ℕ)
    (text : String)
    → IsEncodable f
    → x.public_key production_solana_oft_program ≡ some program
    → x.bs58_decode text ≡ some (event_bytes name debited f rest)
    → text ≢ ""
    → extract_instruction x (record { program_id = some program; data_text = some text }) index
      ≡ ok (event_of x name f index ∷ [], index + 1)
unfolding extract_instruction instruction_bytes
extract_instruction-event_bytes x name f debited index rest program text fits known decoded filled =
    let same : nat_eq program program ≡ true = (nat_eq_iff program program).1 refl in
    let full : str_eq text "" ≡ false = ne-str_eq text "" filled in
    rw
      (
        known,
        same,
        full,
        decoded,
        is_no_event-event_bytes x name debited f rest,
        events_of-event_bytes x f fits index debited rest name,
      )
      refl
