-- ===== src/Scan/Robinhood/Coverage.antt =====
-- The pages of `scanRobinhood` cover the range: every log of it is looked at, once and in order.
use san_layerzero_bridge.Base.{
  ℕ, zero, suc, ◌+◌, ◌-◌, ◌≤◌, ◌<◌, String, ◌≡◌, refl, sym, ap, ◌∙◌, inl, inr, false, ◌&&◌, List,
  [], ◌∷◌, ◌++◌, arith, ltb, leb, Bool-cases, if◌then◌else◌, Result, ok, err, ◌>>=◌, All,
}
use san_layerzero_bridge.External.{External}
use mathlib.Core.Path.{subst}
use mathlib.Core.List.{append_assoc, append-nil}
use san_layerzero_bridge.Scan.Node.{RobinhoodNode, Log}
use san_layerzero_bridge.Scan.Solana.Messages.{Seen, nothing, join}
use san_layerzero_bridge.Scan.Robinhood.Logs.{page_end, scan_log, scan_logs, scan_pages, scan_page}

-- The logs of the blocks from `a` to `b`.
unfoldable pub between : ℕ → ℕ → List Log → List Log
between a b [] = []
between a b (log ∷ logs) =
    if leb a log.block_number && leb log.block_number b
    then log ∷ between a b logs
    else between a b logs

-- The history from the oldest block on.
abbrev pub IsAscending : List Log → Type 0
IsAscending [] = Unit
IsAscending (log ∷ logs) =
    All (λ later. log.block_number ≤ later.block_number) logs × IsAscending logs

between-nil :
    (a b c : ℕ) (logs : List Log)
    → b < c
    → All (λ later. c ≤ later.block_number) logs
    → between a b logs ≡ []
unfolding between
between-nil a b c [] h above = refl
between-nil a b c (log ∷ logs) h (first, above) =
    let late : leb log.block_number b ≡ false = ground arith in
    ground (arith, between-nil a b c logs h above)

between-empty : (a b : ℕ) (logs : List Log) → b < a → between a b logs ≡ []
unfolding between
between-empty a b [] h = refl
between-empty a b (log ∷ logs) h = ground (arith, between-empty a b logs h)

between-split :
    (a m b : ℕ) (logs : List Log)
    → a ≤ m
    → m ≤ b
    → IsAscending logs
    → between a m logs ++ between (m + 1) b logs ≡ between a b logs
unfolding between
between-split a m b [] h k o = refl
between-split a m b (log ∷ logs) h k (above, o) =
    ground (arith, between-split a m b logs h k o, between-nil a m log.block_number logs)

join_assoc : (a b c : Seen) → join a (join b c) ≡ join (join a b) c
join_assoc a b c = simp append_assoc

join-nothing : (r : Result Seen) → r ≡ (r >>= λ later. ok (join nothing later))
join-nothing (ok seen) = refl
join-nothing (err message) = refl

-- Three steps, joined from either end.
abbrev and_join : Result Seen → Result Seen → Result Seen
and_join first rest = do seen ← first; later ← rest; ok (join seen later)

and_join_assoc : (a b c : Result Seen) → and_join a (and_join b c) ≡ and_join (and_join a b) c
and_join_assoc (ok a) (ok b) (ok c) = ap ok (join_assoc a b c)
and_join_assoc (ok a) (ok b) (err message) = refl
and_join_assoc (ok a) (err message) c = refl
and_join_assoc (err message) b c = refl

module _ (x : External) (store oft : String) (node : RobinhoodNode) where
  -- The logs of one list after those of another.
  scan_logs-append :
      (first rest : List Log)
      → scan_logs x store oft node (first ++ rest)
        ≡ and_join (scan_logs x store oft node first) (scan_logs x store oft node rest)
  unfolding scan_logs
  scan_logs-append [] rest = join-nothing (scan_logs x store oft node rest)
  scan_logs-append (log ∷ first) rest =
      ap (and_join (scan_log x store oft node log)) (scan_logs-append first rest)
      ∙ and_join_assoc (scan_log x store oft node log) (scan_logs x store oft node first)
          (scan_logs x store oft node rest)

  module _ (size to : ℕ) (history : List Log) (positive : 0 < size)
      (serves : (first last : ℕ) → node.logs first last ≡ ok (between first last history))
      (ascending : IsAscending history) where
    one_page :
        (start : ℕ)
        → start ≤ to
        → between start (page_end size to start) history ++ between (start + size) to history
          ≡ between start to history
    one_page start h = elim (Bool-cases (ltb (start + size - 1) to)) [
      | inl inner ↦
          let next : start + size - 1 + 1 ≡ start + size = omega arith in
          rw inner (
            subst
              (λ k.
                between start (start + size - 1) history ++ between k to history
                ≡ between start to history)
              next
              (between-split start (start + size - 1) to history (omega arith) (ground arith)
                ascending))
      | inr last ↦
          let past : to < start + size = ground arith in
          rw (last, between-empty (start + size) to history past)
            (append-nil (between start to history))
    ]

    scan_page-eq :
        (start : ℕ) (rest : Result Seen)
        → scan_page x store oft node size to start rest
          ≡ and_join
              (scan_logs x store oft node (between start (page_end size to start) history))
              rest
    unfolding scan_page
    scan_page-eq start rest = rw (serves start (page_end size to start)) refl

    pages :
        (fuel start : ℕ)
        → to + 1 - start < fuel
        → scan_pages x store oft node size to fuel start
          ≡ scan_logs x store oft node (between start to history)
    unfolding scan_pages
    pages zero start h = absurd (omega arith)
    pages (suc fuel) start h = elim (Bool-cases (leb start to)) [
      | inr past ↦
          rw (past, between-empty start to history (ground arith)) (unfold scan_logs in refl)
      | inl inside ↦
          let low : start ≤ to = ground arith in
          rw inside (
            scan_page-eq start (scan_pages x store oft node size to fuel (start + size))
            ∙ ap
                (and_join
                  (scan_logs x store oft node (between start (page_end size to start) history)))
                (pages fuel (start + size) (omega arith))
            ∙ sym (
                scan_logs-append (between start (page_end size to start) history)
                  (between (start + size) to history))
            ∙ ap (scan_logs x store oft node) (one_page start low))
    ]

-- Where a node serves a history of logs, oldest first, the loop over the pages ends: with fuel for
-- each block of the range and two more it is the same as looking at the logs of the range one by one
-- in the order of the history, whatever the size of a page, where that is not zero.
pub scan_pages-between :
    (x : External) (store oft : String) (node : RobinhoodNode) (history : List Log)
    (size from to fuel : ℕ)
    → 0 < size
    → ((first last : ℕ) → node.logs first last ≡ ok (between first last history))
    → IsAscending history
    → to + 1 - from < fuel
    → scan_pages x store oft node size to fuel from
      ≡ scan_logs x store oft node (between from to history)
scan_pages-between x store oft node history size from to fuel p s o h =
    pages x store oft node size to history p s o fuel from h
