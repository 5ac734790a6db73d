-- ===== src/InFlight/Json.antt =====
-- `canonicalJson` of scripts/inFlightInventory.ts, on JSON values. Of JSON.stringify on a text the
-- escapes of the quote, the backslash and the control characters are modelled.
use Prim.Native.Char.{Char, code}
use Prim.Native.String.{char_at}
use Prim.Native.String as Str
use san_layerzero_bridge.Base.{
  ℕ, ◌/◌, ◌%◌, ◌+◌, String, Bool, true, false, List, [], ◌∷◌, map, ltb, if◌then◌else◌, nat_eq,
  Number, int, other, pos, negsuc,
}
use san_layerzero_bridge.Base.Text.{concat, show_nat, leq_text}
use san_layerzero_bridge.Base.Sort.{sort}

mutual
  pub data Json : Type 0 where
    null : Json
    bool : Bool → Json
    num : Number → Json
    str : String → Json
    arr : Items → Json
    obj : Fields → Json

  pub data Items : Type 0 where
    nil : Items
    cons : Json → Items → Items

  pub data Fields : Type 0 where
    end : Fields
    field : String → Json → Fields → Fields

unfoldable pub hex_digit : ℕ → String
hex_digit n = Str.◌∷◌ (char_at "0123456789abcdef" n) ""

unfoldable pub escape : Char → String
escape c =
    if nat_eq (code c) 34
    then "\\\""
    else if nat_eq (code c) 92
    then "\\\\"
    else if nat_eq (code c) 8
    then "\\b"
    else if nat_eq (code c) 9
    then "\\t"
    else if nat_eq (code c) 10
    then "\\n"
    else if nat_eq (code c) 12
    then "\\f"
    else if nat_eq (code c) 13
    then "\\r"
    else if ltb (code c) 32
    then concat "\\u00" (concat (hex_digit (code c / 16)) (hex_digit (code c % 16)))
    else Str.◌∷◌ c ""

unfoldable pub escape_all : String → String
escape_all Str.[] = ""
escape_all (Str.◌∷◌ c s) = concat (escape c) (escape_all s)

-- `JSON.stringify` of a text
unfoldable pub quote : String → String
quote s = concat "\"" (concat (escape_all s) "\"")

-- `JSON.stringify` of a number; what is no integer stands in it by its text
unfoldable pub show_number : Number → String
show_number (int (pos n)) = show_nat n
show_number (int (negsuc n)) = concat "-" (show_nat (n + 1))
show_number (other text) = text

unfoldable pub show_bool : Bool → String
show_bool true = "true"
show_bool false = "false"

-- `parts.join(',')`
unfoldable pub join : List String → String
join [] = ""
join (s ∷ []) = s
join (s ∷ t ∷ rest) = concat s (concat "," (join (t ∷ rest)))

abbrev key_le : String × String → String × String → Bool
key_le a b = leq_text a.0 b.0

unfoldable pub member : String × String → String
member (key, text) = concat (quote key) (concat ":" text)

unfoldable mutual
  pub canonical_json : Json → String
  canonical_json null = "null"
  canonical_json (bool b) = show_bool b
  canonical_json (num n) = show_number n
  canonical_json (str s) = quote s
  canonical_json (arr xs) = concat "[" (concat (join (canonical_items xs)) "]")
  canonical_json (obj fs) =
      concat "{" (concat (join (map member (sort key_le (canonical_fields fs)))) "}")

  pub canonical_items : Items → List String
  canonical_items nil = []
  canonical_items (cons x xs) = canonical_json x ∷ canonical_items xs

  -- each key with the text of its value
  pub canonical_fields : Fields → List (String × String)
  canonical_fields end = []
  canonical_fields (field key value fs) = (key, canonical_json value) ∷ canonical_fields fs
