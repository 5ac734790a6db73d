-- ===== src/Scan/Grouping.antt =====
-- The grouping of the messages by their source transaction.
use san_layerzero_bridge.Base.{String, sym, inl, inr, List, [], ◌∷◌, ◌++◌, Bool-cases, All}
use mathlib.Core.Path.{subst}
use san_layerzero_bridge.Base.{str_eq, str_eq_iff, sym}
use san_layerzero_bridge.InFlight.Data.{Message}
use san_layerzero_bridge.Scan.Statuses.{Groups, add_to_group, group_by_transaction}

abbrev pub GroupsAll : (String → Message → Type 0) → Groups → Type 0
GroupsAll Q groups = All (λ group. All (Q group.0) group.1) groups

All-last :
    (P : Message → Type 0) (xs : List Message) (m : Message) → All P (xs ++ m ∷ []) → All P xs × P m
All-last P [] m h = (tt, h.0)
All-last P (x ∷ xs) m (p, ps) = let (q, r) = All-last P xs m ps in ((p, q), r)

module _ (Q : String → Message → Type 0) where
  add_to_group-All :
      (m : Message) (groups : Groups)
      → GroupsAll Q (add_to_group m groups)
      → Q m.source_transaction m × GroupsAll Q groups
  unfolding add_to_group
  add_to_group-All m [] h = (h.0.0, tt)
  add_to_group-All m ((transaction, group) ∷ groups) h =
      elim (Bool-cases (str_eq transaction m.source_transaction)) [
        | inl same ↦
            let (members, others) = rw same at h in
            let (first, last) = All-last (Q transaction) group m members in
            let e = (str_eq_iff transaction m.source_transaction).0 same in
            (subst (λ t. Q t m) e last, (first, others))
        | inr differ ↦
            let (members, others) = rw differ at h in
            let (q, rest) = add_to_group-All m groups others in (q, (members, rest))
      ]

  -- No message is lost where they are grouped.
  pub group_by_transaction-All :
      (ms : List Message) (groups : Groups)
      → GroupsAll Q (group_by_transaction ms groups)
      → All (λ m. Q m.source_transaction m) ms × GroupsAll Q groups
  unfolding group_by_transaction
  group_by_transaction-All [] groups h = (tt, h)
  group_by_transaction-All (m ∷ ms) groups h =
      let (rest, all') = group_by_transaction-All ms (add_to_group m groups) h in
      let (q, before) = add_to_group-All m groups all' in ((q, rest), before)

  All-snoc :
      (t : String) (xs : List Message) (m : Message)
      → All (Q t) xs
      → Q t m
      → All (Q t) (xs ++ m ∷ [])
  All-snoc t [] m h q = (q, tt)
  All-snoc t (x ∷ xs) m (p, ps) q = (p, All-snoc t xs m ps q)

  add_to_group-made :
      (m : Message) (groups : Groups)
      → Q m.source_transaction m
      → GroupsAll Q groups
      → GroupsAll Q (add_to_group m groups)
  unfolding add_to_group
  add_to_group-made m [] q h = ((q, tt), tt)
  add_to_group-made m ((transaction, group) ∷ groups) q (members, others) =
      elim (Bool-cases (str_eq transaction m.source_transaction)) [
        | inl same ↦
            let e = (str_eq_iff transaction m.source_transaction).0 same in
            rw same (All-snoc transaction group m members (subst (λ t. Q t m) (sym e) q), others)
        | inr differ ↦ rw differ (members, add_to_group-made m groups q others)
      ]

  -- Each message of a group is one of the list, under its own transaction.
  pub group_by_transaction-made :
      (ms : List Message) (groups : Groups)
      → All (λ m. Q m.source_transaction m) ms
      → GroupsAll Q groups
      → GroupsAll Q (group_by_transaction ms groups)
  unfolding group_by_transaction
  group_by_transaction-made [] groups h g = g
  group_by_transaction-made (m ∷ ms) groups (q, h) g =
      group_by_transaction-made ms (add_to_group m groups) h (add_to_group-made m groups q g)
