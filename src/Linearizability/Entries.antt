-- ===== src/Linearizability/Entries.antt =====
-- crates/linearizability/src/lib.rs: from a history to the linked list that the search walks over
-- (`make_entries`, `renumber`, `convert_entries`, `LinkedNodes::from_entries`). Proofs are in the
-- child modules.
pub mod Build
pub mod Sorted
use key_value_distributed_sy.Base.{
  ℕ, zero, suc, ◌+◌, Bool, true, false, Option, none, some, List, [], ◌∷◌, ◌==◌, if◌then◌else◌,
}
use key_value_distributed_sy.Base.Int.{ℤ, negsuc, leb_ℤ}
use key_value_distributed_sy.Linearizability.Model.{
  Value, input, output, nothing, Operation, Operations, EventKind, call_event, return_event, Event,
}
use key_value_distributed_sy.Linearizability.Nodes.{
  Ptr, Heap, LinkedNodes, update, alloc, push_front,
}

pub data EntryKind : Type 0 where
  call_entry return_entry : EntryKind

pub record Entry (T : Type 0) : Type 0 where
  pub kind : EntryKind
  pub value : T
  pub id : ℕ
  pub time : ℤ

module _ {I O : Type 0} where
  -- The loop of `make_entries`: two entries for each operation, numbered from `id`.
  unfoldable pub push_entries : ℕ → Operations I O → List (Entry (Value I O))
  push_entries id [] = []
  push_entries id (elem ∷ history) =
      record { kind = call_entry; value = input elem.input; id = id; time = elem.call }
      ∷ record { kind = return_entry; value = output elem.output; id = id; time = elem.finish }
      ∷ push_entries (id + 1) history

module _ {T : Type 0} where
  -- `entries.sort_by(time)`, the standard library's stable sort.
  unfoldable pub insert_by_time : Entry T → List (Entry T) → List (Entry T)
  insert_by_time x [] = x ∷ []
  insert_by_time x (y ∷ ys) =
      let rest = y ∷ insert_by_time x ys in if leb_ℤ x.time y.time then x ∷ y ∷ ys else rest

  unfoldable pub sort_by_time : List (Entry T) → List (Entry T)
  unfolding insert_by_time
  sort_by_time [] = []
  sort_by_time (x ∷ xs) = insert_by_time x (sort_by_time xs)

unfoldable pub make_entries : {I O : Type 0} → Operations I O → List (Entry (Value I O))
unfolding push_entries sort_by_time
make_entries history = sort_by_time (push_entries 0 history)

unfoldable pub convert_kind : EventKind → EntryKind
convert_kind call_event = call_entry
convert_kind return_event = return_entry

module _ {T : Type 0} where
  -- The loop of `renumber`: the map `m` of old identifiers to new ones, and the next new one.
  unfoldable pub renumber_loop : (ℕ → Option ℕ) → ℕ → List (Event T) → List (Event T)
  renumber_loop m id [] = []
  renumber_loop m id (event ∷ events) = elim (m event.id) [
    | some k ↦ record event { id = k } ∷ renumber_loop m id events
    | none ↦ record event { id = id } ∷ renumber_loop (update m event.id (some id)) (id + 1) events
  ]

  unfoldable pub renumber : List (Event T) → List (Event T)
  unfolding renumber_loop
  renumber events = renumber_loop (λ _. none) 0 events

  unfoldable pub convert_entries : List (Event T) → List (Entry T)
  unfolding convert_kind
  convert_entries [] = []
  convert_entries (event ∷ events) =
      record { kind = convert_kind event.kind; value = event.value; id = event.id; time = negsuc 0 }
      ∷ convert_entries events

-- The variables of `LinkedNodes::from_entries`, with the heap that it allocates in.
pub record Built (I O : Type 0) : Type 0 where
  pub nodes : LinkedNodes
  pub matches : ℕ → Option Ptr
  pub heap : Heap (Value I O)

module _ {I O : Type 0} where
  abbrev pub empty_heap : Heap (Value I O)
  empty_heap = record {
    fresh = 0;
    value = λ _. nothing;
    matched = λ _. none;
    id = λ _. 0;
    next = λ _. none;
    prev = λ _. none;
  }

  -- One round of the loop.
  abbrev pub push_kind : EntryKind → Entry (Value I O) → Built I O → Built I O
  push_kind call_entry entry b =
      let (node, h1) = alloc entry.value (b.matches entry.id) entry.id b.heap in
      let (nodes, h2) = push_front b.nodes node h1 in
      record { nodes = nodes; matches = b.matches; heap = h2 }
  push_kind return_entry entry b =
      let (node, h1) = alloc entry.value none entry.id b.heap in
      let (nodes, h2) = push_front b.nodes node h1 in
      record { nodes = nodes; matches = update b.matches entry.id (some node); heap = h2 }

  -- The loop runs from the last entry to the first.
  unfoldable pub from_entries : List (Entry (Value I O)) → Built I O
  unfolding push_front
  from_entries [] = record {
    nodes = record { head = none };
    matches = λ _. none;
    heap = empty_heap;
  }
  from_entries (entry ∷ entries) = push_kind entry.kind entry (from_entries entries)
