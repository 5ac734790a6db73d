-- ===== src/Scan/Solana/Order.antt =====
-- The indexes of the events of a transaction increase, so that no two events share one.
use mathlib.Core.Path.{subst}
use san_layerzero_bridge.Base.{
  ℕ, ◌+◌, ◌≤◌, ◌<◌, inl, inr, Option, none, some, List, [], ◌∷◌, ◌++◌, arith, Bool-cases,
  if◌then◌else◌, Result, ok, err, ◌>>=◌, ◌≡◌, ok_inj,
}
use san_layerzero_bridge.External.{External}
use san_layerzero_bridge.Scan.Node.{Instruction, Meta, Transaction}
use san_layerzero_bridge.Scan.Solana.Events.{
  Event, event_at, events_of, extract_instruction, extract_group, extract_groups, instruction_bytes,
  is_no_event, groups_events, meta_events, extract_solana_oft_events,
}

-- Each index is at least `low`, below `high`, and above the ones before it.
unfoldable pub IsIncreasing : ℕ → ℕ → List Event → Type 0
IsIncreasing low high [] = low ≤ high
IsIncreasing low high (event ∷ events) =
    (low ≤ event.index) × (event.index < high) × IsIncreasing (event.index + 1) high events

IsIncreasing-weaken :
    (low low' high : ℕ) (events : List Event)
    → low ≤ low'
    → IsIncreasing low' high events
    → IsIncreasing low high events
unfolding IsIncreasing
IsIncreasing-weaken low low' high [] h p = omega arith
IsIncreasing-weaken low low' high (event ∷ events) h (a, b, c) = (omega arith, b, c)

IsIncreasing-le : (low high : ℕ) (events : List Event) → IsIncreasing low high events → low ≤ high
unfolding IsIncreasing
IsIncreasing-le low high [] p = p
IsIncreasing-le low high (event ∷ events) (a, b, c) = omega arith

IsIncreasing-append :
    (low middle high : ℕ) (earlier later : List Event)
    → IsIncreasing low middle earlier
    → IsIncreasing middle high later
    → IsIncreasing low high (earlier ++ later)
unfolding IsIncreasing
IsIncreasing-append low middle high [] later p q = IsIncreasing-weaken low middle high later p q
IsIncreasing-append low middle high (event ∷ earlier) later (a, b, c) q =
    let reach = IsIncreasing-le middle high later q in
    (a, omega arith, IsIncreasing-append (event.index + 1) middle high earlier later c q)

-- A step that returns has pushed events with increasing indexes, up to the next index.
unfoldable pub Advances : ℕ → Result (List Event × ℕ) → Type 0
Advances low (ok (events, next)) = IsIncreasing low next events
Advances low (err message) = Unit

-- The steps of a loop, one after the other.
abbrev and_then : Result (List Event × ℕ) → (ℕ → Result (List Event × ℕ)) → Result (List Event × ℕ)
and_then first rest = do
  (events, next) ← first
  (later, last) ← rest next
  ok (events ++ later, last)

after_first :
    (low next : ℕ) (events : List Event) (later : Result (List Event × ℕ))
    → IsIncreasing low next events
    → Advances next later
    → Advances low (later >>= λ (more, last). ok (events ++ more, last))
unfolding Advances
after_first low next events (ok (more, last)) p q =
    IsIncreasing-append low next last events more p q
after_first low next events (err message) p q = tt

and_then-Advances :
    (low : ℕ) (first : Result (List Event × ℕ)) (rest : ℕ → Result (List Event × ℕ))
    → Advances low first
    → ((next : ℕ) → Advances next (rest next))
    → Advances low (and_then first rest)
and_then-Advances low (ok (events, next)) rest p q =
    after_first low next events (rest next) (unfold Advances in p) (q next)
and_then-Advances low (err message) rest p q = unfold Advances in tt

module _ (x : External) where
  events_of-IsIncreasing :
      (bytes : List ℕ) (index : ℕ) → IsIncreasing index (index + 1) (events_of x bytes index)
  unfolding IsIncreasing events_of event_at
  events_of-IsIncreasing bytes index = ground arith

  read-Advances :
      (index : ℕ) (read : Result (Option (List ℕ)))
      → Advances index (
          read >>= λ found. elim found [
            | none ↦ ok ([], index)
            | some bytes ↦
                if is_no_event bytes
                then ok ([], index)
                else ok (events_of x bytes index, index + 1)
          ])
  unfolding Advances IsIncreasing
  read-Advances index (err message) = tt
  read-Advances index (ok none) = omega arith
  read-Advances index (ok (some bytes)) = elim (Bool-cases (is_no_event bytes)) [
    | inl skipped ↦ rw skipped (omega arith)
    | inr read ↦ rw read (events_of-IsIncreasing bytes index)
  ]

  extract_instruction-Advances :
      (i : Instruction) (index : ℕ) → Advances index (extract_instruction x i index)
  unfolding extract_instruction
  extract_instruction-Advances i index = read-Advances index (instruction_bytes x i)

  extract_group-Advances :
      (group : List Instruction) (index : ℕ) → Advances index (extract_group x group index)
  unfolding extract_group Advances IsIncreasing
  extract_group-Advances [] index = omega arith
  extract_group-Advances (i ∷ rest) index =
      and_then-Advances index (extract_instruction x i index) (extract_group x rest)
        (extract_instruction-Advances i index) (extract_group-Advances rest)

  extract_groups-Advances :
      (groups : List (List Instruction)) (index : ℕ)
      → Advances index (extract_groups x groups index)
  unfolding extract_groups Advances IsIncreasing
  extract_groups-Advances [] index = omega arith
  extract_groups-Advances (group ∷ rest) index =
      and_then-Advances index (extract_group x group index) (extract_groups x rest)
        (extract_group-Advances group index) (extract_groups-Advances rest)

  from_groups :
      (groups : Result (List Event × ℕ)) {events : List Event}
      → Advances 0 groups
      → (groups >>= λ (found, last). ok found) ≡ ok events
      → (last : ℕ) × IsIncreasing 0 last events
  unfolding Advances
  from_groups (ok (found, last)) p h = (last, subst (IsIncreasing 0 last) (ok_inj h) p)
  from_groups (err message) p h = cc

  no_events : {events : List Event} → ok [] ≡ ok events → (last : ℕ) × IsIncreasing 0 last events
  no_events h = (0, subst (IsIncreasing 0 0) (ok_inj h) (unfold IsIncreasing in omega arith))

  of_groups :
      (groups : Option (List (List Instruction))) {events : List Event}
      → groups_events x groups ≡ ok events
      → (last : ℕ) × IsIncreasing 0 last events
  unfolding groups_events
  of_groups none h = no_events h
  of_groups (some groups) h =
      from_groups (extract_groups x groups 0) (extract_groups-Advances groups 0) h

  of_meta :
      (meta : Option Meta) {events : List Event}
      → meta_events x meta ≡ ok events
      → (last : ℕ) × IsIncreasing 0 last events
  unfolding meta_events
  of_meta none h = no_events h
  of_meta (some meta) h = elim (Bool-cases meta.failed) [
    | inl failed ↦ no_events (rw failed at h)
    | inr fine ↦ of_groups meta.inner_instructions (rw fine at h)
  ]

-- The events that a transaction yields carry increasing indexes, so no two of them share one.
pub extract_solana_oft_events-IsIncreasing :
    (x : External) (tx : Transaction) {events : List Event}
    → extract_solana_oft_events x tx ≡ ok events
    → (last : ℕ) × IsIncreasing 0 last events
unfolding extract_solana_oft_events
extract_solana_oft_events-IsIncreasing x tx h = of_meta x tx.meta h
