-- ===== src/Linearizability/Search.antt =====
-- crates/linearizability/src/lib.rs: the cache and `check_single`. One round of its `while` is
-- `iteration`, and `run` makes rounds on fuel. Proofs are in the child modules.
pub mod Spec
pub mod Cache
pub mod Decide
pub mod Explore
pub mod Scan
pub mod History
pub mod Rounds
use key_value_distributed_sy.Base.{
  ◌>>=◌, ℕ, zero, suc, ◌+◌, ◌-◌, ◌/◌, ◌^◌, ◌*◌, Bool, true, false, ◌&&◌, Option, none, some, List,
  [], ◌∷◌, ◌++◌, ◌==◌, if◌then◌else◌,
}
use key_value_distributed_sy.Linearizability.Bitset
use key_value_distributed_sy.Linearizability.Bitset.{Bitset}
use key_value_distributed_sy.Linearizability.Model.{Model, Value, nothing, get_input, get_output}
use key_value_distributed_sy.Linearizability.Nodes.{
  Ptr, Heap, LinkedNodes, alloc, push_front, len, lift, unlift,
}

pub record CacheEntry (S : Type 0) : Type 0 where
  pub linearized : Bitset
  pub state : S

-- `HashMap<u64, Vec<CacheEntry>>`; a key that is not in the map has no entries.
abbrev pub Cache : Type 0 → Type 0
Cache S = ℕ → List (CacheEntry S)

pub record CallsEntry (S : Type 0) : Type 0 where
  pub entry : Option Ptr
  pub state : S

module _ {S I O : Type 0} (m : Model S I O) where
  contains_in : List (CacheEntry S) → CacheEntry S → Bool
  contains_in [] entry = false
  contains_in (elem ∷ elems) entry =
      let rest = contains_in elems entry in
      if Bitset.equals entry.linearized elem.linearized && m.equal entry.state elem.state
      then true
      else rest

  unfoldable pub cache_contains : Cache S → CacheEntry S → Bool
  unfolding contains_in
  cache_contains cache entry = contains_in (cache (Bitset.hash entry.linearized)) entry

-- `cache.entry(hash).or_default().push(entry)`
abbrev pub cache_push : {S : Type 0} → Cache S → ℕ → CacheEntry S → Cache S
cache_push cache hash entry k = if k == hash then cache k ++ entry ∷ [] else cache k

-- The local variables of `check_single` at the head of its loop.
pub record Search (S I O : Type 0) : Type 0 where
  pub heap : Heap (Value I O)
  pub entry : Option Ptr
  pub state : S
  pub linearized : Bitset
  pub cache : Cache S
  pub calls : List (CallsEntry S)

-- What a round does: it goes on, it returns, or it panics.
pub data Outcome (A : Type 0) : Type 0 where
  running : A → Outcome A
  returned : Bool → Outcome A
  panicked : Outcome A

abbrev pub or_panic : {A : Type 0} → Option (Outcome A) → Outcome A
or_panic none = panicked
or_panic (some o) = o

module _ {S I O : Type 0} where
  abbrev pub advance : Search S I O → Ptr → Search S I O
  advance s e = record s { entry = s.heap.next e }

module _ {S I O : Type 0} (m : Model S I O) (head : Ptr) where
  -- The entry is a call that the model accepts, leading to `new_state`.
  unfoldable pub try_call : Search S I O → Ptr → S → Option (Outcome (Search S I O))
  try_call s e new_state = do
    new_linearized ← Bitset.set s.linearized (s.heap.id e)
    let new_cache_entry : CacheEntry S = record { linearized = new_linearized; state = new_state }
    if cache_contains m s.cache new_cache_entry then some (running (advance s e)) else do
      heap ← lift e s.heap
      some (
          running (record {
            heap = heap;
            entry = heap.next head;
            state = new_state;
            linearized = new_linearized;
            cache = cache_push s.cache (Bitset.hash new_linearized) new_cache_entry;
            calls = record { entry = some e; state = s.state } ∷ s.calls;
          }))

  unfoldable pub on_call : Search S I O → Ptr → Ptr → Option (Outcome (Search S I O))
  unfolding try_call
  on_call s e matching = do
    input ← get_input (s.heap.value e)
    output ← get_output (s.heap.value matching)
    let res : Bool × S = m.step s.state input output
    if res.0 then try_call s e res.1 else some (running (advance s e))

  -- The entry is a return: backtrack.
  unfoldable pub on_return : Search S I O → List (CallsEntry S) → Option (Outcome (Search S I O))
  on_return s [] = some (returned false)
  on_return s (top ∷ calls) = do
    e ← top.entry
    linearized ← Bitset.clear s.linearized (s.heap.id e)
    heap ← unlift e s.heap
    some (
        running (record {
          heap = heap;
          entry = heap.next e;
          state = top.state;
          linearized = linearized;
          cache = s.cache;
          calls = calls;
        }))

  unfoldable pub at_entry : Search S I O → Ptr → Option Ptr → Outcome (Search S I O)
  unfolding on_call on_return
  at_entry s e (some matching) = or_panic (on_call s e matching)
  at_entry s e none = or_panic (on_return s s.calls)

  at_cursor : Search S I O → Option Ptr → Outcome (Search S I O)
  at_cursor s none = panicked
  at_cursor s (some e) = at_entry s e (s.heap.matched e)

  round : Bool → Search S I O → Option Ptr → Outcome (Search S I O)
  round kill s none = returned true
  round kill s (some _) = if kill then returned false else at_cursor s s.entry

  -- `kill` is what the flag holds when this round reads it.
  unfoldable pub iteration : Bool → Search S I O → Outcome (Search S I O)
  unfolding round at_cursor at_entry
  iteration kill s = round kill s (s.heap.next head)
  -- What a call of `check_single` comes to.

pub data Run : Type 0 where
  finished : Bool → Run
  panic : Run
  out_of_fuel : Run

module _ {S I O : Type 0} (m : Model S I O) (head : Ptr) (kill : ℕ → Bool) where
  -- `kill f` is what the flag holds when `f` more rounds of fuel are left.
  unfoldable pub run : ℕ → Search S I O → Run
  run zero s = out_of_fuel
  run (suc fuel) s = elim (iteration m head (kill fuel) s) [
    | running s' ↦ run fuel s'
    | returned b ↦ finished b
    | panicked ↦ panic
  ]

-- Rounds for a history of `n` operations.
abbrev pub budget : ℕ → ℕ
budget zero = 0
budget (suc n) = 2 * suc n * (budget n + 2)

abbrev pub usize_max : ℕ
usize_max = 2 ^ 64 - 1

module _ {S I O : Type 0} (m : Model S I O) where
  -- The state of the loop when it is entered, with the address of the head entry.
  unfoldable pub start : LinkedNodes → Heap (Value I O) → Ptr × Search S I O
  unfolding push_front len
  start subhistory h0 =
      let n : ℕ = len subhistory h0 / 2 in
      let (head, h1) = alloc nothing none usize_max h0 in
      let (nodes, h2) = push_front subhistory head h1 in
      (
        head,
        record {
          heap = h2;
          entry = h2.next head;
          state = m.init;
          linearized = Bitset.new n;
          cache = λ _. [];
          calls = [];
        },
      )

  unfoldable pub check_single : LinkedNodes → Heap (Value I O) → (ℕ → Bool) → Run
  unfolding start run
  check_single subhistory h0 kill =
      let (head, s) = start subhistory h0 in run m head kill (budget (len subhistory h0 / 2) + 1) s
