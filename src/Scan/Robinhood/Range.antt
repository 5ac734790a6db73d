-- ===== src/Scan/Robinhood/Range.antt =====
-- `scanRobinhood`: what it returns rests on the logs that the node gives.
use san_layerzero_bridge.Base.{
  [], ℕ, zero, suc, ◌+◌, ◌≤◌, String, ◌≡◌, List, arith, leb, Result, ok, or_throw, All, ◌∷◌,
  Bool-cases, ◌&&◌, inl, inr,
}
use mathlib.Core.Path.{subst}
use san_layerzero_bridge.Base.{>>=-eq-ok, >>-eq-ok, ok_inj}
use san_layerzero_bridge.Base.BigInt.{big_int}
use san_layerzero_bridge.External.{External}
use san_layerzero_bridge.Base.Members.{All-map}
use san_layerzero_bridge.Scan.Node.{RobinhoodNode, Log}
use san_layerzero_bridge.Scan.Sees.{
  Sees, Sees-nothing, Sees-bind, Sees-join, Sees-if, All-canonical_order,
}
use san_layerzero_bridge.Scan.Solana.Messages.{Seen}
use san_layerzero_bridge.Scan.Robinhood.Backed.{
  IsRobinhoodSent, IsRobinhoodReceived, IsLogged, Sent, Fine, scan_logs-Fine,
}
use san_layerzero_bridge.Scan.Robinhood.Logs.{
  page_end, present, RobinhoodResult, scan_page, scan_pages, finalized_block, scan_robinhood,
}
use san_layerzero_bridge.InFlight.Encode.{canonical_order}
use san_layerzero_bridge.Scan.Robinhood.Coverage.{between}

-- `getLogs` answers with logs of the blocks that it was asked for.
abbrev pub AnswersRange : RobinhoodNode → Type 0
AnswersRange node =
    (first last : ℕ) (logs : List Log)
    → node.logs first last ≡ ok logs
    → All (IsLogged first last) logs

pub between-IsLogged : (a b : ℕ) (logs : List Log) → All (IsLogged a b) (between a b logs)
unfolding between
between-IsLogged a b [] = tt
between-IsLogged a b (log ∷ logs) =
    elim (Bool-cases (leb a log.block_number && leb log.block_number b)) [
      | inl inside ↦ rw inside ((ground arith, ground arith), between-IsLogged a b logs)
      | inr outside ↦ rw outside (between-IsLogged a b logs)
    ]

page_end-le : (size to start : ℕ) → page_end size to start ≤ to
page_end-le size to start = ground arith

module _ (x : External) (store oft : String) (node : RobinhoodNode) (from to : ℕ)
    (answers : AnswersRange node) where
  scan_page-Fine :
      (size start : ℕ) (rest : Result Seen)
      → from ≤ start
      → Fine x store oft node from to rest
      → Fine x store oft node from to (scan_page x store oft node size to start rest)
  unfolding scan_page
  scan_page-Fine size start rest low fine =
      Sees-bind _ _ (node.logs start (page_end size to start)) _ (λ logs given.
        Sees-join _ _ _ _
          (scan_logs-Fine x store oft node from to logs (
            All-map logs
              (λ log inside.
                (omega (arith, inside.0, low), omega (arith, inside.1, page_end-le size to start)))
              (answers start (page_end size to start) logs given)))
          fine)

  scan_pages-Fine :
      (size fuel start : ℕ)
      → from ≤ start
      → Fine x store oft node from to (scan_pages x store oft node size to fuel start)
  unfolding scan_pages
  scan_pages-Fine size zero start low = unfold Sees in tt
  scan_pages-Fine size (suc fuel) start low =
      Sees-if _ _ (leb start to) _ _
        (scan_page-Fine size start _ low (scan_pages-Fine size fuel (start + size) (omega arith)))
        (Sees-nothing _ _)

  seen-Fine :
      (seen : Seen)
      → Fine x store oft node from to (ok seen)
      → All (Sent x store oft node from to) (canonical_order x seen.sent)
        × All (IsRobinhoodReceived from to) (canonical_order x seen.received)
  unfolding Sees
  seen-Fine seen (p, q) = (
    All-canonical_order x (Sent x store oft node from to) seen.sent p,
    All-canonical_order x (IsRobinhoodReceived from to) seen.received q,
  )

-- Where the node answers with logs of the blocks it was asked for: in what `scanRobinhood` returns,
-- every message that was sent is unresolved, is at a height of the range in a transaction that
-- succeeded, and has the GUID, the nonce and the receiver of a packet from the token on Robinhood to
-- the store on Solana that the endpoint emitted in it; every message that was received is delivered at
-- a height of the range.
pub scan_robinhood-backed :
    (x : External) (store oft : String) (fuel : ℕ) (node : RobinhoodNode) (from to size : ℕ)
    {r : RobinhoodResult}
    → AnswersRange node
    → scan_robinhood x store oft fuel node from to size ≡ ok r
    → All (IsRobinhoodSent x store oft node from to) r.sent
      × All (IsRobinhoodReceived from to) r.received
unfolding scan_robinhood
scan_robinhood-backed x store oft fuel node from to size {r} answers h =
    let (chain, _, h1) = >>=-eq-ok node.chain_id _ h in
    let (_, h2) = >>-eq-ok _ _ h1 in
    let (final, _, h3) = >>=-eq-ok (finalized_block x store oft node) _ h2 in
    let (head, _, h4) = >>=-eq-ok (or_throw (big_int final.0) _) _ h3 in
    let (_, h5) = >>-eq-ok _ _ h4 in
    let (first, _, h6) = >>=-eq-ok (node.block_hash from) _ h5 in
    let (last, _, h7) = >>=-eq-ok (node.block_hash to) _ h6 in
    let (start_hash, _, h8) = >>=-eq-ok (or_throw (present first) _) _ h7 in
    let (end_hash, _, h9) = >>=-eq-ok (or_throw (present last) _) _ h8 in
    let (_, h10) = >>-eq-ok _ _ h9 in
    let (seen, scanned, h11) = >>=-eq-ok (scan_pages x store oft node size to fuel from) _ h10 in
    let fine =
      subst (Fine x store oft node from to) scanned
        (scan_pages-Fine x store oft node from to answers size fuel from (omega arith)) in
    subst
      (λ (t : RobinhoodResult).
        All (IsRobinhoodSent x store oft node from to) t.sent
        × All (IsRobinhoodReceived from to) t.received)
      (ok_inj h11) (seen-Fine x store oft node from to answers seen fine)
