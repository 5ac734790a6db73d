-- ===== src/Scan/Solana/Pages.antt =====
-- The pagination of `scanSolana`: pages of signatures, newest first, until the start of the range.
use san_layerzero_bridge.Base.{
  ℕ, zero, suc, String, Bool, true, false, not, ◌&&◌, Option, some, List, [], ◌∷◌, ◌++◌, ltb, leb,
  if◌then◌else◌, Result, ok, err, ◌>>=◌,
}
use san_layerzero_bridge.Scan.Node.{Signature, SolanaNode}

-- `item.slot <= toSlot && item.err == null`
abbrev pub is_wanted : ℕ → Signature → Bool
is_wanted to item = leb item.slot to && not item.failed

-- The loop over a page: what it pushes, and whether it has met the start of the range.
unfoldable pub visit_page : ℕ → ℕ → List Signature → List Signature × Bool
visit_page from to [] = ([], false)
visit_page from to (item ∷ page) =
    let (items, complete) = visit_page from to page in
    if ltb item.slot from
    then ([], true)
    else if is_wanted to item
    then (item ∷ items, complete)
    else (items, complete)

-- `page[page.length - 1].signature`
unfoldable pub last_signature : Signature → List Signature → String
last_signature item [] = item.signature
last_signature item (next ∷ page) = last_signature next page

-- What a page adds, and the next page where it has not met the start of the range.
unfoldable pub use_page :
    ℕ → ℕ → (String → Result (List Signature)) → List Signature → Result (List Signature)
use_page from to next_page [] = ok []
use_page from to next_page (item ∷ rest) =
    let (items, complete) = visit_page from to (item ∷ rest) in
    if complete
    then ok items
    else (next_page (last_signature item rest) >>= λ later. ok (items ++ later))

-- The loop, one page to a unit of fuel.
unfoldable pub collect_signatures : SolanaNode → ℕ → ℕ → ℕ → Option String → Result (List Signature)
collect_signatures node from to zero before =
    err "Solana signature pagination did not reach the approved range start"
collect_signatures node from to (suc fuel) before =
    node.signatures before
    >>= use_page from to (λ last. collect_signatures node from to fuel (some last))
