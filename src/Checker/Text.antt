-- ===== src/Checker/Text.antt =====
-- The manifest as `JSON.stringify` prints it: an object's fields in the order of its own keys.
use san_layerzero_bridge.Base.{String, Option, none, some, List, [], ◌∷◌, ◌==◌, if◌then◌else◌}
use san_layerzero_bridge.Base.{string_Eq}
use san_layerzero_bridge.InFlight.Json.{
  Json, obj, arr, str, num, Items, nil, cons, Fields, end, field, null, bool, show_number,
  show_bool, quote, join, member,
}
use san_layerzero_bridge.InFlight.Encode.{
  message_json, scanner_json, solana_identity_json, robinhood_identity_json, solana_range_json,
  robinhood_range_json, provenance_json, summary_json,
}
use san_layerzero_bridge.InFlight.Data.{Message, Identities, Ranges, Manifest}
use san_layerzero_bridge.Base.Text.{concat}

unfoldable pub object_fields : List (String × Json) → Fields
object_fields [] = end
object_fields ((key, value) ∷ rest) = field key value (object_fields rest)

-- An object literal
abbrev pub object : List (String × Json) → Json
object fields = obj (object_fields fields)

unfoldable pub find_field : String → Fields → Option Json
find_field key end = none
find_field key (field name value rest) =
    let later = find_field key rest in if name == key then some value else later

unfoldable pub ordered : List String → Fields → Fields
ordered [] fields = end
ordered (key ∷ keys) fields =
    let rest = ordered keys fields in
    elim (find_field key fields) [ none ↦ rest | some value ↦ field key value rest ]

-- An object with its fields in the order of `keys`
unfoldable pub in_order : List String → Json → Json
in_order keys (obj fields) = obj (ordered keys fields)
in_order keys value = value

unfoldable mutual
  -- `JSON.stringify`
  pub json_text : Json → String
  json_text null = "null"
  json_text (bool b) = show_bool b
  json_text (num n) = show_number n
  json_text (str s) = quote s
  json_text (arr items) = concat "[" (concat (join (item_texts items)) "]")
  json_text (obj fields) = concat "{" (concat (join (field_texts fields)) "}")

  pub item_texts : Items → List String
  item_texts nil = []
  item_texts (cons item items) = json_text item ∷ item_texts items

  pub field_texts : Fields → List String
  field_texts end = []
  field_texts (field key value rest) = member (key, json_text value) ∷ field_texts rest

unfoldable pub messages_in_order : List Message → Items
messages_in_order [] = nil
messages_in_order (m ∷ messages) =
    cons (in_order m.keys (message_json m)) (messages_in_order messages)

unfoldable pub identities_in_order : Identities → Json
identities_in_order i = in_order i.keys (
    object (
      ("solana", in_order i.solana.keys (solana_identity_json i.solana))
      ∷ ("robinhood", in_order i.robinhood.keys (robinhood_identity_json i.robinhood))
      ∷ []))

unfoldable pub ranges_in_order : Ranges → Json
ranges_in_order r = obj (
    field "solana" (in_order r.solana.keys (solana_range_json r.solana))
      (field "robinhood" (in_order r.robinhood.keys (robinhood_range_json r.robinhood)) r.further))

unfoldable pub manifest_json : Manifest → Json
manifest_json m = in_order m.keys (
    object (
      ("schemaVersion", num m.schema_version)
      ∷ ("inventoryId", str m.inventory_id)
      ∷ ("scanner", in_order m.scanner.keys (scanner_json m.scanner))
      ∷ ("generatedAt", str m.generated_at)
      ∷ ("identities", identities_in_order m.identities)
      ∷ ("ranges", ranges_in_order m.ranges)
      ∷ ("provenance", in_order m.provenance.keys (provenance_json m.provenance))
      ∷ ("messages", arr (messages_in_order m.messages))
      ∷ ("summary", in_order m.summary.keys (summary_json m.summary))
      ∷ ("manifestChecksum", str m.manifest_checksum)
      ∷ []))
