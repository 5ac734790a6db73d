-- ===== src/Scan/Solana/Complete.antt =====
-- The pagination of `scanSolana` ends, and meets every transaction of the range.
use san_layerzero_bridge.Base.{
  ℕ, zero, suc, ◌<◌, String, ◌≡◌, refl, sym, ap, ◌∙◌, inl, inr, true, Option, none, some, List, [],
  ◌∷◌, ◌++◌, arith, Bool-cases, Result, ok, ◌>>=◌, length,
}
use mathlib.Core.List.{append_assoc}
use mathlib.Core.Path.{subst}
use san_layerzero_bridge.Base.Members.{is_distinct}
use san_layerzero_bridge.Base.Bytes.{prefix, skip}
use san_layerzero_bridge.Base.Bytes.Laws.{prefix-skip, length-skip}
use san_layerzero_bridge.Scan.Node.{Signature, SolanaNode}
use san_layerzero_bridge.Scan.Solana.Pages.{
  visit_page, last_signature, collect_signatures, use_page,
}
use san_layerzero_bridge.Scan.Solana.History.{
  signatures_of, IsDescending, after, Serves, wanted, from_here, visit_page-wanted, after-page,
}

IsDescending-tail : (first rest : List Signature) → IsDescending (first ++ rest) → IsDescending rest
IsDescending-tail [] rest h = h
IsDescending-tail (item ∷ first) rest (below, h) = IsDescending-tail first rest h

module _ (from to : ℕ) (next_page : String → Result (List Signature)) where
  use_page-eq :
      (item : Signature) (page more rest : List Signature)
      → next_page (last_signature item page) ≡ ok (wanted from to more)
      → wanted from to (item ∷ rest) ≡ from_here from to (visit_page from to (item ∷ page)) more
      → use_page from to next_page (item ∷ page) ≡ ok (wanted from to (item ∷ rest))
  unfolding use_page
  use_page-eq item page more rest later found =
      elim (Bool-cases (visit_page from to (item ∷ page)).1) [
        | inl complete ↦ rw (found, complete) refl
        | inr unfinished ↦ rw (found, unfinished, later) refl
      ]

module _ (node : SolanaNode) (from to : ℕ) (history : List Signature) (limit : ℕ)
    (serves : (before : Option String)
      → node.signatures before ≡ ok (prefix (suc limit) (after before history)))
    (distinct : is_distinct (signatures_of history) ≡ true)
    (descending : IsDescending history) where
  -- With `seen` behind it and `rest` before it, the loop finds what is wanted of the rest.
  loop :
      (fuel : ℕ) (before : Option String) (seen rest : List Signature)
      → length rest < fuel
      → history ≡ seen ++ rest
      → after before history ≡ rest
      → collect_signatures node from to fuel before ≡ ok (wanted from to rest)
  unfolding collect_signatures use_page
  loop zero before seen rest h split here = absurd (omega arith)
  loop (suc fuel) before seen [] h split here =
      rw (serves before, here) (unfold prefix wanted in refl)
  loop (suc fuel) before seen (item ∷ rest) h split here =
      let page : List Signature = prefix limit rest in
      let more : List Signature = skip limit rest in
      let cut : page ++ more ≡ rest = prefix-skip limit rest in
      let last : String = last_signature item page in
      let placed : history ≡ seen ++ (item ∷ (page ++ more)) =
        split ∙ ap (λ t. seen ++ (item ∷ t)) (sym cut) in
      let answer : node.signatures before ≡ ok (item ∷ page) =
        serves before ∙ ap (λ t. ok (prefix (suc limit) t)) here ∙ unfold prefix in refl in
      let ordered : IsDescending (item ∷ (page ++ more)) =
        IsDescending-tail seen _ (subst IsDescending placed descending) in
      let found : wanted from to (item ∷ rest)
          ≡ from_here from to (visit_page from to (item ∷ page)) more =
        subst
          (λ t.
            wanted from to (item ∷ t) ≡ from_here from to (visit_page from to (item ∷ page)) more)
          cut (visit_page-wanted from to (item ∷ page) more ordered) in
      let next : after (some last) history ≡ more =
        subst (λ t. after (some last) t ≡ more) (sym placed)
          (after-page seen item page more
            (subst (λ t. is_distinct (signatures_of t) ≡ true) placed distinct)) in
      let later =
        loop fuel (some last) (seen ++ (item ∷ page)) more (omega (arith, length-skip limit rest))
          (placed ∙ sym (append_assoc seen (item ∷ page) more)) next in
      ap (λ r. r >>= use_page from to (λ t. collect_signatures node from to fuel (some t))) answer
      ∙ use_page-eq from to (λ t. collect_signatures node from to fuel (some t)) item page more rest
          later found

-- Where a node serves a history, newest transaction first, with every signature once, pagination
-- ends: with more fuel than the history has entries it returns, and it returns the successful
-- transactions of the range, all of them in the order of the history, whatever the size of a page.
pub collect_signatures-wanted :
    (node : SolanaNode) (history : List Signature) (limit from to fuel : ℕ)
    → Serves history node limit
    → is_distinct (signatures_of history) ≡ true
    → IsDescending history
    → length history < fuel
    → collect_signatures node from to fuel none ≡ ok (wanted from to history)
collect_signatures-wanted node history zero from to fuel s d o h =
    absurd (omega (arith, s.positive))
collect_signatures-wanted node history (suc limit) from to fuel s d o h =
    loop node from to history limit s.page d o fuel none [] history h refl refl
