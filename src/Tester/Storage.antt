-- ===== src/Tester/Storage.antt =====
-- raft/src/raft/config.rs: the entries that the servers have committed, as the tester collects them.
-- `none` is a panic. Indexes are far below 2 ^ 64. Proofs are in the child modules.
pub mod Agreement
pub mod Accepts
pub mod Counts
mod Tests
use key_value_distributed_sy.Base.{
  ◌>>=◌, ℕ, zero, suc, ◌+◌, ◌-◌, ◌%◌, Bool, true, false, ◌&&◌, ◌||◌, not, Option, none, some, List,
  [], ◌∷◌, ltb, ◌==◌, if◌then◌else◌, get_elem?, set, replicate,
}

-- An entry is its number, and the log of a server a map from indexes.
abbrev pub Entry : Type 0
Entry = ℕ

abbrev pub Log : Type 0
Log = ℕ → Option Entry

abbrev pub insert : Log → ℕ → Entry → Log
insert log index entry k = if k == index then some entry else log k

abbrev pub is_some : {A : Type 0} → Option A → Bool
is_some none = false
is_some (some a) = true

-- `==` on `Option<Entry>`.
abbrev pub same_entry : Option Entry → Option Entry → Bool
same_entry none none = true
same_entry none (some b) = false
same_entry (some a) none = false
same_entry (some a) (some b) = a == b

pub record Storage : Type 0 where
  pub logs : List Log
  pub max_index : ℕ
  pub max_index0 : ℕ

-- The storage of a new tester of `n` servers.
abbrev pub new_storage : ℕ → Storage
new_storage n = record { logs = replicate n (λ k. none); max_index = 0; max_index0 = 0 }

-- The variables `count` and `cmd`, after a log that holds `cmd1`.
abbrev pub count_entry : Option Entry → ℕ × Option Entry → Option (ℕ × Option Entry)
count_entry none (count, cmd) = some (count, cmd)
count_entry (some x) (count, cmd) =
    if ltb 0 count && not (same_entry cmd (some x)) then none else some (count + 1, some x)

abbrev pub count_committed : List Log → ℕ → ℕ × Option Entry → Option (ℕ × Option Entry)
count_committed [] index at = some at
count_committed (log ∷ logs) index at = do
  next ← count_entry (log index) at
  count_committed logs index next

-- `n_committed`: how many servers have committed an entry at the index, and which.
unfoldable pub n_committed : Storage → ℕ → Option (ℕ × Option Entry)
n_committed s index = count_committed s.logs index (0, none)

-- Whether a log holds another entry at the index.
abbrev pub differs : Option Entry → Entry → Bool
differs none entry = false
differs (some old) entry = not (old == entry)

-- The loop that compares the entry with those of the other servers.
abbrev pub is_refuted : List Log → ℕ → Entry → Bool
is_refuted [] index entry = false
is_refuted (log ∷ logs) index entry = differs (log index) entry || is_refuted logs index entry

-- Whether the entry before this one is missing.
abbrev pub has_gap : Log → ℕ → Bool
has_gap log index = ltb 1 index && not (is_some (log (index - 1)))

-- A newly committed command, of server `i`.
unfoldable pub apply_command : ℕ → ℕ → Entry → Storage → Option Storage
apply_command i index entry s = elim (is_refuted s.logs index entry) [
  | true ↦ none
  | false ↦ do
    log ← get_elem? s.logs i
    if has_gap log index
        then none
        else some (record s {
          logs = set s.logs i (insert log index entry);
          max_index = if ltb s.max_index index then index else s.max_index;
        })
]

abbrev pub snapshot_interval : ℕ
snapshot_interval = 10

-- Whether the node is told to make a snapshot of what it has committed up to the index.
abbrev pub asks_snapshot : Bool → ℕ → Bool
asks_snapshot snapshot index = snapshot && ((index + 1) % snapshot_interval == 0)

abbrev pub only : ℕ → Entry → Log
only index entry = insert (λ k. none) index entry

-- A snapshot that server `i` has installed.
unfoldable pub apply_snapshot : ℕ → ℕ → Entry → Storage → Option Storage
apply_snapshot i index entry s = do
  log ← get_elem? s.logs i
  some (record s { logs = set s.logs i (only index entry) })

-- `begin`, of the storage.
abbrev pub begin : Storage → Storage
begin s = record s { max_index0 = s.max_index }
