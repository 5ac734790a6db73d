-- ===== src/Scan/Corroborated.antt =====
-- Every message that was sent has a status, from the answer for its own transaction.
use san_layerzero_bridge.Base.{
  String, ◌≡◌, refl, inl, inr, true, some, List, [], ◌∷◌, Bool-cases, ◌!=◌, Result, ok, or_throw,
  All, option_Eq, nat_Eq,
}
use mathlib.Core.Path.{subst}
use mathlib.Core.List.{Mem, mem-cons_self, mem-cons_of_mem}
use san_layerzero_bridge.Base.{Option-cases, ◌∙◌, false, ◌==◌, string_Eq}
use san_layerzero_bridge.Base.Accepts.{
  ne_iff, eq_iff, not-eq-false, or-eq-IsFalse, throw_if-accepts,
}
use san_layerzero_bridge.Base.{
  >>=-eq-ok, >>-eq-ok, or_throw-eq-ok, ok_inj, str_eq, str_eq_iff, str_eq_refl,
}
use san_layerzero_bridge.Base.Text.{to_lower}
use san_layerzero_bridge.InFlight.Data.{Message}
use san_layerzero_bridge.Scan.Build.{Entries, get}
use san_layerzero_bridge.Scan.Node.{ApiEntry, ApiResponse}
use san_layerzero_bridge.Scan.Statuses.{
  Groups, is_entry_of, find_entry, group_by_transaction, entry_of, status_name_of, expected_eids,
  message_status, set_statuses, fetch_groups, fetch_layer_zero_statuses,
}
use san_layerzero_bridge.Scan.Grouping.{
  GroupsAll, group_by_transaction-All, group_by_transaction-made,
}
use san_layerzero_bridge.Base.Members.{All-map, All-self}

-- The API answered for the message's own transaction, with an entry for its GUID that names its pathway
-- and the status `name`.
pub record IsNamed (fetch : String → Result ApiResponse) (m : Message) (name : String)
    : Type 0 where
  pub response : ApiResponse
  pub answered : fetch m.source_transaction ≡ ok response
  pub is_ok : response.is_ok ≡ true
  pub entries : List ApiEntry
  pub listed : response.entries ≡ some entries
  pub entry : ApiEntry
  pub member : Mem entry entries
  pub guid : (g : String) × (entry.guid ≡ some g) × (to_lower g ≡ to_lower m.guid)
  pub source : entry.src_eid ≡ some (expected_eids m).0
  pub destination : entry.dst_eid ≡ some (expected_eids m).1
  pub named : entry.status_name ≡ some name
  pub filled : (name == "") ≡ false

-- The API named a status for the message, and the status that is kept for its GUID is one that the API
-- named for a message of the list with that GUID.
pub record IsCorroborated (fetch : String → Result ApiResponse) (ms : List Message)
    (statuses : Entries String) (m : Message) : Type 0 where
  pub own : (name : String) × IsNamed fetch m name
  pub name : String
  pub status : get (to_lower m.guid) statuses ≡ some name
  pub twin : Message
  pub member : Mem twin ms
  pub same : to_lower twin.guid ≡ to_lower m.guid
  pub origin : IsNamed fetch twin name

abbrev HasStatus : Entries String → String → Type 0
HasStatus statuses guid = (name : String) × (get guid statuses ≡ some name)

-- A status stays where further ones are set.
abbrev Keeps : Entries String → Entries String → Type 0
Keeps before after' = (guid : String) → HasStatus before guid → HasStatus after' guid

HasStatus-cons :
    (statuses : Entries String) (key value : String) → Keeps statuses ((key, value) ∷ statuses)
unfolding get
HasStatus-cons statuses key value guid (name, h) = elim (Bool-cases (str_eq key guid)) [
  | inl same ↦ (value, rw same refl)
  | inr differ ↦ (name, rw differ h)
]

HasStatus-here :
    (statuses : Entries String) (key value : String) → HasStatus ((key, value) ∷ statuses) key
unfolding get
HasStatus-here statuses key value = (value, rw (str_eq_refl key) refl)

find_entry-Mem :
    (guid : String) (entries : List ApiEntry) {entry : ApiEntry}
    → find_entry guid entries ≡ some entry
    → Mem entry entries × (is_entry_of guid entry ≡ true)
unfolding find_entry
find_entry-Mem guid [] h = cc
find_entry-Mem guid (first ∷ rest) {entry} h = elim (Bool-cases (is_entry_of guid first)) [
  | inl same ↦
      let found : some first ≡ some entry = rw same at h in
      let is : first ≡ entry = cc found in
      subst (λ e. Mem e (first ∷ rest) × (is_entry_of guid e ≡ true)) is (mem-cons_self, same)
  | inr differ ↦
      let (member, is) = find_entry-Mem guid rest (rw differ at h) in
      (mem-cons_of_mem first member, is)
]

is_entry_of-guid :
    (guid : String) (entry : ApiEntry)
    → is_entry_of guid entry ≡ true
    → (g : String) × (entry.guid ≡ some g) × (to_lower g ≡ to_lower guid)
unfolding is_entry_of
is_entry_of-guid guid entry h = elim (Option-cases entry.guid) [
  | inl missing ↦ absurd (cc (rw missing at h))
  | inr (g, given) ↦ (g, given, eq_iff.0 (rw given at h))
]

status_name_of-named :
    (entry : ApiEntry) {name : String}
    → status_name_of entry ≡ some name
    → (entry.status_name ≡ some name) × ((name == "") ≡ false)
unfolding status_name_of
status_name_of-named entry {name} h = elim (Option-cases entry.status_name) [
  | inl missing ↦ absurd (cc (rw missing at h))
  | inr (given, here) ↦ elim (Bool-cases (given == "")) [
    | inl empty ↦ absurd (cc (rw (here, empty) at h))
    | inr filled ↦
        let is : some given ≡ some name = rw (here, filled) at h in
        let same : given ≡ name = cc is in (here ∙ is, subst (λ t. (t == "") ≡ false) same filled)
  ]
]

entry_of-listed :
    (m : Message) (response : ApiResponse) {entry : ApiEntry}
    → entry_of m response ≡ some entry
    → (entries : List ApiEntry) × (response.entries ≡ some entries)
      × (find_entry m.guid entries ≡ some entry)
unfolding entry_of
entry_of-listed m response h = elim (Option-cases response.entries) [
  | inl missing ↦ absurd (cc (rw missing at h))
  | inr (entries, given) ↦ (entries, given, rw given at h)
]

message_status-IsNamed :
    (fetch : String → Result ApiResponse) (response : ApiResponse) (m : Message) {name : String}
    → fetch m.source_transaction ≡ ok response
    → response.is_ok ≡ true
    → message_status response m ≡ ok name
    → IsNamed fetch m name
unfolding message_status
message_status-IsNamed fetch response m {name} answered fine h =
    let (entry, found, h1) = >>=-eq-ok (or_throw (entry_of m response) _) _ h in
    let (given, named, h2) = >>=-eq-ok (or_throw (status_name_of entry) _) _ h1 in
    let (eids, h3) = >>-eq-ok _ _ h2 in
    let (src, dst) =
      or-eq-IsFalse (entry.src_eid != some (expected_eids m).0)
        (entry.dst_eid != some (expected_eids m).1) (throw_if-accepts _ _ eids) in
    let (entries, listed, looked) = entry_of-listed m response (or_throw-eq-ok _ _ found) in
    let (member, is) = find_entry-Mem m.guid entries looked in
    let (given_name, filled) = status_name_of-named entry (or_throw-eq-ok _ _ named) in
    subst (IsNamed fetch m) (ok_inj h3) (record {
      response = response;
      answered = answered;
      is_ok = fine;
      entries = entries;
      listed = listed;
      entry = entry;
      member = member;
      guid = is_entry_of-guid m.guid entry is;
      source = ne_iff.0 src;
      destination = ne_iff.0 dst;
      named = given_name;
      filled = filled;
    })

-- A name that is kept for a GUID was given for a message of the list with that GUID.
record IsGivenTo (fetch : String → Result ApiResponse) (ms : List Message) (key name : String)
    : Type 0 where
  twin : Message
  member : Mem twin ms
  same : to_lower twin.guid ≡ key
  origin : IsNamed fetch twin name

module _ (fetch : String → Result ApiResponse) (all_messages : List Message) where
  abbrev AreGiven : Entries String → Type 0
  AreGiven statuses = All (λ (e : String × String). IsGivenTo fetch all_messages e.0 e.1) statuses

  get-IsGivenTo :
      (key : String) (statuses : Entries String) {name : String}
      → AreGiven statuses
      → get key statuses ≡ some name
      → IsGivenTo fetch all_messages key name
  unfolding get
  get-IsGivenTo key [] given h = cc
  get-IsGivenTo key ((k, v) ∷ statuses) {name} (first, rest) h = elim (Bool-cases (str_eq k key)) [
    | inl same ↦
        let is : some v ≡ some name = rw same at h in
        let value : v ≡ name = cc is in
        subst (λ n. IsGivenTo fetch all_messages key n) value
          (subst (λ t. IsGivenTo fetch all_messages t v) ((str_eq_iff k key).0 same) first)
    | inr differ ↦ get-IsGivenTo key statuses rest (rw differ at h)
  ]

  -- A message of the list, under its own transaction
  abbrev IsOwn : String → Message → Type 0
  IsOwn transaction m = (transaction ≡ m.source_transaction) × Mem m all_messages

  -- What holds of a message once its status is set
  abbrev IsSettled : Entries String → Message → Type 0
  IsSettled statuses m =
      ((name : String) × IsNamed fetch m name) × HasStatus statuses (to_lower m.guid)

  module _ (transaction : String) (response : ApiResponse)
      (answered : fetch transaction ≡ ok response) (fine : response.is_ok ≡ true) where
    set_statuses-IsSettled :
        (ms : List Message) (before : Entries String) {statuses : Entries String}
        → All (IsOwn transaction) ms
        → AreGiven before
        → set_statuses response ms before ≡ ok statuses
        → AreGiven statuses × Keeps before statuses × All (IsSettled statuses) ms
    unfolding set_statuses
    set_statuses-IsSettled [] before own given h =
        (subst AreGiven (ok_inj h) given, λ guid p. subst (λ s. HasStatus s guid) (ok_inj h) p, tt)
    set_statuses-IsSettled (m ∷ ms) before ((of, member), own) given h =
        let (name, one, h1) = >>=-eq-ok (message_status response m) _ h in
        let named =
          message_status-IsNamed fetch response m (subst (λ t. fetch t ≡ ok response) of answered)
            fine one in
        let first : IsGivenTo fetch all_messages (to_lower m.guid) name = record {
          twin = m;
          member = member;
          same = refl;
          origin = named;
        } in
        let (after_given, keeps, rest) =
          set_statuses-IsSettled ms ((to_lower m.guid, name) ∷ before) own (first, given) h1 in
        (
          after_given,
          λ guid p. keeps guid (HasStatus-cons before (to_lower m.guid) name guid p),
          (
            ((name, named), keeps (to_lower m.guid) (HasStatus-here before (to_lower m.guid) name)),
            rest,
          ),
        )

  fetch_groups-IsSettled :
      (groups : Groups) (before : Entries String) {statuses : Entries String}
      → GroupsAll IsOwn groups
      → AreGiven before
      → fetch_groups fetch groups before ≡ ok statuses
      → AreGiven statuses × Keeps before statuses × GroupsAll (λ t. IsSettled statuses) groups
  unfolding fetch_groups
  fetch_groups-IsSettled [] before own given h =
      (subst AreGiven (ok_inj h) given, λ guid p. subst (λ s. HasStatus s guid) (ok_inj h) p, tt)
  fetch_groups-IsSettled ((transaction, ms) ∷ groups) before (mine, own) given h =
      let (response, answered, h1) = >>=-eq-ok (fetch transaction) _ h in
      let (fine, h2) = >>-eq-ok _ _ h1 in
      let (updated, set, h3) = >>=-eq-ok (set_statuses response ms before) _ h2 in
      let is_ok' = not-eq-false response.is_ok (throw_if-accepts _ _ fine) in
      let (now, keeps, settled) =
        set_statuses-IsSettled transaction response answered is_ok' ms before mine given set in
      let (after_given, later, rest) = fetch_groups-IsSettled groups updated own now h3 in
      (
        after_given,
        λ guid p. later guid (keeps guid p),
        (All-map ms (λ m s. (s.0, later (to_lower m.guid) s.1)) settled, rest),
      )

-- Where the statuses are fetched, the API answered for the transaction of every message, with an entry
-- for the message's GUID that names its pathway and a status that is not empty; and the status kept for
-- each GUID is a name that the API gave in this way for a message of the list with that GUID.
pub fetch_layer_zero_statuses-IsCorroborated :
    (fetch : String → Result ApiResponse) (ms : List Message) {statuses : Entries String}
    → fetch_layer_zero_statuses fetch ms ≡ ok statuses
    → All (IsCorroborated fetch ms statuses) ms
unfolding fetch_layer_zero_statuses
fetch_layer_zero_statuses-IsCorroborated fetch ms {statuses} h =
    let own =
      group_by_transaction-made (IsOwn fetch ms) ms [] (All-map ms (λ m k. (refl, k)) (All-self ms))
        tt in
    let (given, _, settled) =
      fetch_groups-IsSettled fetch ms (group_by_transaction ms []) [] own tt h in
    let each = (group_by_transaction-All (λ t. IsSettled fetch ms statuses) ms [] settled).0 in
    All-map ms
      (λ m (named, (name, kept)).
        let from = get-IsGivenTo fetch ms (to_lower m.guid) statuses given kept in
        record {
          own = named;
          name = name;
          status = kept;
          twin = from.twin;
          member = from.member;
          same = from.same;
          origin = from.origin;
        })
      each
