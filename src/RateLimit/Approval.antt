-- ===== src/RateLimit/Approval.antt =====
-- What an accepted rate-limit task is bound to, and what the approved profiles have in common.
use san_layerzero_bridge.Base.{
  ℕ, ◌≡◌, ◌≢◌, refl, ◌*◌, ◌+◌, ◌≤◌, ◌<◌, ok, ℤ, arith, some, List, [], ◌∷◌, true, false, String,
  int, is_int_iff, pos_part, or_throw, >>=-eq-ok, >>-eq-ok, or_throw-eq-ok, ◌&&◌, Bool-cases, inl,
  inr, ◌==◌, int_Eq, nat_Eq, string_Eq, str_eq, str_eq_iff, int_eq_iff, nat_eq_iff,
}
use san_layerzero_bridge.Base.Accepts.{
  not_iff, ne_iff, check_iff, throw_if-accepts, or-eq-IsFalse, and-eq-IsTrue, not-eq-false,
  str_eq-ne,
}
use san_layerzero_bridge.Config.{
  solana_eid, robinhood_eid, canonical_san_mint, production_solana_oft_program,
  forbidden_test_oft_store,
}
use san_layerzero_bridge.External.{External}
use san_layerzero_bridge.RateLimit.{
  Profile, Task, profiles, lookup, find_profile, production_rate_limit_profile, same_public_key,
  validate_solana_production_rate_limit_task,
}

-- No name stands twice in the table.
IsFresh : String → List (String × Profile) → Type 0
IsFresh name [] = Unit
IsFresh name ((key, _) ∷ rest) = (key ≢ name) × IsFresh name rest

HasFreshNames : List (String × Profile) → Type 0
unfolding IsFresh
HasFreshNames [] = Unit
HasFreshNames ((key, _) ∷ rest) = IsFresh key rest × HasFreshNames rest

find_profile-fresh :
    (key : String) (c r : ℤ) {name : String} (table : List (String × Profile))
    → IsFresh key table
    → find_profile c r table ≡ some name
    → key ≢ name
unfolding find_profile IsFresh
find_profile-fresh key c r [] fresh h = λ _. cc
find_profile-fresh key c r {name} ((k, p) ∷ rest) (ne, fresh) h =
    elim (Bool-cases (p.capacity == c && p.refill_per_second == r)) [
      | inl hit ↦ λ e. ne (cc (rw hit at h))
      | inr miss ↦ find_profile-fresh key c r rest fresh (rw miss at h)
    ]

lookup-find_profile :
    (c r : ℤ) {name : String} (table : List (String × Profile))
    → HasFreshNames table
    → find_profile c r table ≡ some name
    → lookup name table ≡ some (record { capacity = c; refill_per_second = r })
unfolding find_profile lookup HasFreshNames
lookup-find_profile c r [] fresh h = cc
lookup-find_profile c r {name} ((k, p) ∷ rest) (fresh, later) h =
    elim (Bool-cases (p.capacity == c && p.refill_per_second == r)) [
      | inl hit ↦
          let named : k ≡ name = cc (rw hit at h) in
          let (c_true, r_true) = and-eq-IsTrue _ _ hit in
          let capacity_eq = (int_eq_iff p.capacity c).0 c_true in
          let refill_eq = (int_eq_iff p.refill_per_second r).0 r_true in
          ground (arith, str_eq_iff k name)
      | inr miss ↦
          let found : find_profile c r rest ≡ some name = rw miss at h in
          let ne = find_profile-fresh k c r rest fresh found in
          ground (arith, str_eq_iff k name, lookup-find_profile c r rest later found)
    ]

profiles-HasFreshNames : HasFreshNames profiles
unfolding HasFreshNames str_eq
profiles-HasFreshNames =
    let ne = λ (s t : String) (h : str_eq s t ≡ false). str_eq-ne s t h in
    (
      (
        ne "publicLaunch" "canary" refl,
        (ne "normal" "canary" refl, (ne "mature" "canary" refl, tt)),
      ),
      (
        (ne "normal" "publicLaunch" refl, (ne "mature" "publicLaunch" refl, tt)),
        ((ne "mature" "normal" refl, tt), (tt, tt)),
      ),
    )

find_profile-lookup :
    (c r : ℤ) {name : String}
    → find_profile c r profiles ≡ some name
    → production_rate_limit_profile name ≡ ok (record { capacity = c; refill_per_second = r })
unfolding production_rate_limit_profile
find_profile-lookup c r h = rw (lookup-find_profile c r profiles profiles-HasFreshNames h)

-- The two texts name one key.
abbrev pub SameKey : External → String → String → Type 0
SameKey x left right = (key : ℕ) × (x.public_key left ≡ some key) × (x.public_key right ≡ some key)

pub record IsApproved (x : External) (task : Task) (name : String) : Type 0 where
  pub local : task.local_eid ≡ int solana_eid
  pub peer : task.peer_eid ≡ int robinhood_eid
  pub mint : task.mint ≡ canonical_san_mint
  pub program : task.program_id ≡ production_solana_oft_program
  pub store : SameKey x task.oft_store task.approved_oft_store
  pub live : task.oft_store ≢ forbidden_test_oft_store
  pub profile :
      production_rate_limit_profile name
      ≡ ok (record { capacity = task.capacity; refill_per_second = task.refill_per_second })

-- Solana refills by the second what Robinhood refills by the day, rounded down: an approved profile
-- never lets Solana refill more than its capacity in a day, and less than a day's seconds below it.
pub production_rate_limit_profile_daily :
    (name : String) {p : Profile}
    → production_rate_limit_profile name ≡ ok p
    → (pos_part p.refill_per_second * 86_400 ≤ pos_part p.capacity)
      × (pos_part p.capacity < pos_part p.refill_per_second * 86_400 + 86_400)
unfolding production_rate_limit_profile lookup
production_rate_limit_profile_daily name h = ground arith

same_public_key-SameKey :
    (x : External) (left right : String)
    → same_public_key x left right ≡ ok true
    → SameKey x left right
unfolding same_public_key
same_public_key-SameKey x left right h =
    let (a, ea, h') = >>=-eq-ok (or_throw (x.public_key left) _) _ h in
    let (b, eb, h'') = >>=-eq-ok (or_throw (x.public_key right) _) _ h' in
    let same : a ≡ b = (nat_eq_iff a b).0 (cc h'') in
    (a, or_throw-eq-ok _ _ ea, rw same (or_throw-eq-ok _ _ eb))

-- An accepted task sets the limits of the production store on the pathway from Solana to Robinhood,
-- for the canonical mint and program, with the figures of the profile whose name is answered.
pub validate_solana_production_rate_limit_task-IsApproved :
    (x : External) (task : Task) {name : String}
    → validate_solana_production_rate_limit_task x task ≡ ok name
    → IsApproved x task name
unfolding validate_solana_production_rate_limit_task
validate_solana_production_rate_limit_task-IsApproved x task {name} h =
    let (local, h₁) = >>-eq-ok _ _ h in
    let (peer, h₂) = >>-eq-ok _ _ h₁ in
    let (mint, h₃) = >>-eq-ok _ _ h₂ in
    let (program, h₄) = >>-eq-ok _ _ h₃ in
    let (store, h₅) = >>-eq-ok _ _ h₄ in
    let (_, h₆) = >>-eq-ok _ _ h₅ in
    let (same, keys, h₇) =
      >>=-eq-ok (same_public_key x task.oft_store task.approved_oft_store) _ h₆ in
    let (held, found) = >>-eq-ok _ _ h₇ in
    let (_, live) = or-eq-IsFalse _ _ (throw_if-accepts _ _ store) in
    let equal = not-eq-false same (throw_if-accepts _ _ held) in
    record {
      local = (check_iff _ (not_iff (is_int_iff _ _))).0 local;
      peer = (check_iff _ (not_iff (is_int_iff _ _))).0 peer;
      mint = (check_iff _ ne_iff).0 mint;
      program = (check_iff _ ne_iff).0 program;
      store = same_public_key-SameKey x _ _ (rw equal at keys);
      live = str_eq-ne _ _ live;
      profile = find_profile-lookup _ _ (or_throw-eq-ok _ _ found);
    }
