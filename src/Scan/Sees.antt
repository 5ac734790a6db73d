-- ===== src/Scan/Sees.antt =====
-- What holds of each message that steps of a scan see, put together from the steps.
use san_layerzero_bridge.Base.{
  ◌≡◌, refl, inl, inr, Bool, true, false, List, [], ◌∷◌, ◌++◌, Bool-cases, if◌then◌else◌, Result,
  ok, err, ◌>>=◌, All,
}
use san_layerzero_bridge.Base.Sort.{insert, sort}
use san_layerzero_bridge.InFlight.Data.{Message}
use san_layerzero_bridge.InFlight.Encode.{canonical_order}
use san_layerzero_bridge.External.{External}
use san_layerzero_bridge.Scan.Solana.Messages.{Seen, nothing, join}

pub All-append :
    {A : Type 0} (P : A → Type 0) (xs ys : List A) → All P xs → All P ys → All P (xs ++ ys)
All-append P [] ys p q = q
All-append P (x ∷ xs) ys (p, ps) q = (p, All-append P xs ys ps q)

All-insert :
    {A : Type 0} (P : A → Type 0) (le : A → A → Bool) (a : A) (xs : List A)
    → P a
    → All P xs
    → All P (insert le a xs)
unfolding insert
All-insert P le a [] p ps = (p, ps)
All-insert P le a (x ∷ xs) p (q, ps) = elim (Bool-cases (le a x)) [
  | inl here ↦ rw here (p, (q, ps))
  | inr later ↦ rw later (q, All-insert P le a xs p ps)
]

All-sort :
    {A : Type 0} (P : A → Type 0) (le : A → A → Bool) (xs : List A) → All P xs → All P (sort le xs)
unfolding sort
All-sort P le [] ps = tt
All-sort P le (x ∷ xs) (p, ps) = All-insert P le x (sort le xs) p (All-sort P le xs ps)

pub All-canonical_order :
    (x : External) (P : Message → Type 0) (ms : List Message)
    → All P ms
    → All P (canonical_order x ms)
unfolding canonical_order
All-canonical_order x P ms h = All-sort P _ ms h

-- Where a step returns, `P` holds of each sent message and `Q` of each received one.
module _ (P Q : Message → Type 0) where
  unfoldable pub Sees : Result Seen → Type 0
  Sees (ok seen) = All P seen.sent × All Q seen.received
  Sees (err message) = Unit

  pub Sees-nothing : Sees (ok nothing)
  unfolding Sees
  Sees-nothing = (tt, tt)

  pub Sees-sent : (m : Message) → P m → Sees (ok (record { sent = m ∷ []; received = [] }))
  unfolding Sees
  Sees-sent m p = ((p, tt), tt)

  pub Sees-received : (m : Message) → Q m → Sees (ok (record { sent = []; received = m ∷ [] }))
  unfolding Sees
  Sees-received m q = (tt, (q, tt))

  -- After a step that is no loop, with what it returned.
  pub Sees-bind :
      {A : Type 0} (m : Result A) (k : A → Result Seen)
      → ((a : A) → m ≡ ok a → Sees (k a))
      → Sees (m >>= k)
  unfolding Sees
  Sees-bind (ok a) k h = h a refl
  Sees-bind (err message) k h = tt

  pub Sees-join :
      (first rest : Result Seen)
      → Sees first
      → Sees rest
      → Sees (do seen ← first; later ← rest; ok (join seen later))
  unfolding Sees
  Sees-join (ok a) (ok b) (p, q) (p', q') =
      (All-append P a.sent b.sent p p', All-append Q a.received b.received q q')
  Sees-join (ok a) (err message) p q = tt
  Sees-join (err message) rest p q = tt

  pub Sees-if :
      (b : Bool) (yes' no' : Result Seen) → Sees yes' → Sees no' → Sees (if b then yes' else no')
  Sees-if true yes' no' p q = p
  Sees-if false yes' no' p q = q

  -- A test, with what it answered
  pub Sees-test :
      (b : Bool) (yes' no' : Result Seen)
      → (b ≡ true → Sees yes')
      → (b ≡ false → Sees no')
      → Sees (if b then yes' else no')
  Sees-test true yes' no' p q = p refl
  Sees-test false yes' no' p q = q refl
