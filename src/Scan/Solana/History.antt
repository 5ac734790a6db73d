-- ===== src/Scan/Solana/History.antt =====
-- The history of a program's transactions, and what one page of it gives.
use san_layerzero_bridge.Base.{
  ℕ, ◌≤◌, ◌<◌, String, ◌≡◌, refl, inl, inr, Bool, true, false, not, ◌&&◌, Option, none, some, List,
  [], ◌∷◌, ◌++◌, arith, ltb, leb, Bool-cases, ◌==◌, if◌then◌else◌, ok, All, includes,
}
use san_layerzero_bridge.Base.Accepts.{and-eq-IsTrue}
use san_layerzero_bridge.Base.{str_eq, str_eq_refl, str_eq_iff, string_Eq}
use san_layerzero_bridge.Base.Members.{is_distinct, not-eq-true, includes-here, includes-there}
use san_layerzero_bridge.Base.Bytes.{prefix}
use san_layerzero_bridge.Scan.Node.{Signature, SolanaNode}
use san_layerzero_bridge.Scan.Solana.Pages.{is_wanted, visit_page, last_signature}

abbrev pub signatures_of : List Signature → List String
signatures_of [] = []
signatures_of (item ∷ items) = item.signature ∷ signatures_of items

-- The history from the newest transaction on: no slot is above one before it.
abbrev pub IsDescending : List Signature → Type 0
IsDescending [] = Unit
IsDescending (item ∷ items) = All (λ later. later.slot ≤ item.slot) items × IsDescending items

-- What comes after the signature `before` in a history, or all of it.
unfoldable pub after_signature : String → List Signature → List Signature
after_signature signature [] = []
after_signature signature (item ∷ items) =
    let rest = after_signature signature items in
    if item.signature == signature then items else rest

abbrev pub after : Option String → List Signature → List Signature
after none history = history
after (some signature) history = after_signature signature history

-- A node that serves a history as `getSignaturesForAddress` is documented: a page holds the next
-- signatures after `before`, at most `limit` of them, which is positive.
pub record Serves (history : List Signature) (node : SolanaNode) (limit : ℕ) : Type 0 where
  pub positive : 0 < limit
  pub page :
      (before : Option String) → node.signatures before ≡ ok (prefix limit (after before history))

-- The successful transactions of the range.
unfoldable pub wanted : ℕ → ℕ → List Signature → List Signature
wanted from to [] = []
wanted from to (item ∷ items) =
    if leb from item.slot && is_wanted to item
    then item ∷ wanted from to items
    else wanted from to items

module _ (from to : ℕ) where
  wanted-nil :
      (slot : ℕ) (items : List Signature)
      → slot < from
      → All (λ later. later.slot ≤ slot) items
      → wanted from to items ≡ []
  unfolding wanted
  wanted-nil slot [] low below = refl
  wanted-nil slot (item ∷ items) low (first, below) =
      let old : leb from item.slot ≡ false = ground arith in
      rw old (wanted-nil slot items low below)

  abbrev pub from_here : List Signature × Bool → List Signature → List Signature
  from_here (items, complete) more = if complete then items else items ++ wanted from to more

  from_here-cons :
      (item : Signature) (items : List Signature) (complete : Bool) (more : List Signature)
      → item ∷ from_here (items, complete) more ≡ from_here (item ∷ items, complete) more
  from_here-cons item items true more = refl
  from_here-cons item items false more = refl

  pub visit_page-wanted :
      (page more : List Signature)
      → IsDescending (page ++ more)
      → wanted from to (page ++ more) ≡ from_here (visit_page from to page) more
  unfolding visit_page wanted
  visit_page-wanted [] more h = refl
  visit_page-wanted (item ∷ page) more (below, h) = elim (Bool-cases (ltb item.slot from)) [
    | inl old ↦
        let test : leb from item.slot ≡ false = ground arith in
        let low : item.slot < from = ground arith in
        rw (old, test) (wanted-nil item.slot (page ++ more) low below)
    | inr recent ↦
        let test : leb from item.slot ≡ true = ground arith in
        let ih = visit_page-wanted page more h in
        rw (recent, test)
          (elim (Bool-cases (is_wanted to item)) [
            | inl kept ↦
                rw (kept, ih)
                  (from_here-cons item (visit_page from to page).0 (visit_page from to page).1 more)
            | inr dropped ↦ rw dropped ih
          ])
  ]

-- A signature is found behind the page that it ends.
last_signature-included :
    (item : Signature) (page more : List Signature)
    → includes (signatures_of (item ∷ (page ++ more))) (last_signature item page) ≡ true
unfolding last_signature
last_signature-included item [] more = includes-here (signatures_of more) refl
last_signature-included item (next ∷ page) more =
    includes-there (signatures_of (next ∷ (page ++ more))) item.signature (last_signature next page)
      (last_signature-included next page more)

included-append :
    (first rest : List Signature) (signature : String)
    → includes (signatures_of rest) signature ≡ true
    → includes (signatures_of (first ++ rest)) signature ≡ true
included-append [] rest signature h = h
included-append (item ∷ first) rest signature h =
    includes-there (signatures_of (first ++ rest)) item.signature signature
      (included-append first rest signature h)

differs :
    (items : List Signature) (item : Signature) (signature : String)
    → is_distinct (signatures_of (item ∷ items)) ≡ true
    → includes (signatures_of items) signature ≡ true
    → str_eq item.signature signature ≡ false
unfolding is_distinct
differs items item signature h found = elim (Bool-cases (str_eq item.signature signature)) [
  | inl same ↦
      let e = (str_eq_iff item.signature signature).0 same in
      let fresh =
        not-eq-true _ (and-eq-IsTrue (not (includes (signatures_of items) item.signature)) _ h).0 in
      cc
  | inr apart ↦ apart
]

rest-is_distinct :
    (items : List Signature) (item : Signature)
    → is_distinct (signatures_of (item ∷ items)) ≡ true
    → is_distinct (signatures_of items) ≡ true
unfolding is_distinct
rest-is_distinct items item h =
    (and-eq-IsTrue (not (includes (signatures_of items) item.signature)) _ h).1

pub after-page :
    (first : List Signature) (item : Signature) (page more : List Signature)
    → is_distinct (signatures_of (first ++ (item ∷ (page ++ more)))) ≡ true
    → after_signature (last_signature item page) (first ++ (item ∷ (page ++ more))) ≡ more
unfolding after_signature last_signature
after-page [] item [] more h = rw (str_eq_refl item.signature) refl
after-page [] item (next ∷ page) more h =
    rw
      (differs (next ∷ (page ++ more)) item (last_signature next page) h
        (last_signature-included next page more))
      (after-page [] next page more (rest-is_distinct (next ∷ (page ++ more)) item h))
after-page (earlier ∷ first) item page more h =
    rw
      (differs (first ++ (item ∷ (page ++ more))) earlier (last_signature item page) h (
        included-append first (item ∷ (page ++ more)) (last_signature item page)
          (last_signature-included item page more)))
      (after-page first item page more
        (rest-is_distinct (first ++ (item ∷ (page ++ more))) earlier h))
