-- ===== src/Linearizability/Checker/Spec.antt =====
-- Complete histories of call and return entries, and their linearizations, with no pointers.
use key_value_distributed_sy.Base.{
  ℕ, ◌*◌, ◌<◌, ◌≡◌, Bool, true, false, List, [], ◌∷◌, ◌==◌, ◌⊎◌, if◌then◌else◌, not, keep, length,
  All,
}
use key_value_distributed_sy.Linearizability.Model.{Model, Value, input, output}
use key_value_distributed_sy.Linearizability.Entries.{EntryKind, call_entry, return_entry, Entry}

module _ {T : Type 0} where
  -- Whether some return, or some call, has this identifier.
  abbrev pub returns_in : ℕ → List (Entry T) → Bool
  returns_in k [] = false
  returns_in k (x ∷ xs) =
      let r = returns_in k xs in
      elim x.kind [ call_entry ↦ r | return_entry ↦ if k == x.id then true else r ]

  abbrev pub called_in : ℕ → List (Entry T) → Bool
  called_in k [] = false
  called_in k (x ∷ xs) =
      let r = called_in k xs in
      elim x.kind [ return_entry ↦ r | call_entry ↦ if k == x.id then true else r ]

  abbrev pub In : Entry T → List (Entry T) → Type 0
  In x [] = ⊥
  In x (y ∷ ys) = (x ≡ y) ⊎ In x ys

  -- The calls before the first return.
  abbrev pub open_calls : List (Entry T) → List (Entry T)
  open_calls [] = []
  open_calls (x ∷ xs) =
      let r = open_calls xs in elim x.kind [ return_entry ↦ [] | call_entry ↦ x ∷ r ]

  abbrev pub drop_op : ℕ → List (Entry T) → List (Entry T)
  drop_op k = keep (λ x. not (x.id == k))

module _ {I O : Type 0} where
  abbrev pub IsWellFormedAt : EntryKind → Entry (Value I O) → List (Entry (Value I O)) → Type 0
  IsWellFormedAt call_entry x xs =
      ((i : I) × (x.value ≡ input i)) × (returns_in x.id xs ≡ true) × (called_in x.id xs ≡ false)
  IsWellFormedAt return_entry x xs =
      ((o : O) × (x.value ≡ output o)) × (returns_in x.id xs ≡ false) × (called_in x.id xs ≡ false)

  -- Each call has its return behind it, and an identifier is used for one operation.
  abbrev pub IsWellFormed : List (Entry (Value I O)) → Type 0
  IsWellFormed [] = Unit
  IsWellFormed (x ∷ xs) = IsWellFormedAt x.kind x xs × IsWellFormed xs

  -- A history of `n` operations, which are numbered below `n`.
  pub record IsComplete (n : ℕ) (es : List (Entry (Value I O))) : Type 0 where
    pub formed : IsWellFormed es
    pub size : length es ≡ 2 * n
    pub ids : All (λ x. x.id < n) es

-- `order` linearizes the history from the state `s`: again and again an operation that is called
-- before any of those left returns takes effect, and the model accepts its output.
pub data Linearizes {S I O : Type 0} (m : Model S I O)
    : S → List (Entry (Value I O)) → List ℕ → Type 0 where
  done : {s : S} → Linearizes m s [] []
  pick :
      {s s' : S} {es : List (Entry (Value I O))} {ks : List ℕ} (c r : Entry (Value I O)) (i : I)
      (o : O)
      → In c (open_calls es)
      → In r es
      → r.kind ≡ return_entry
      → r.id ≡ c.id
      → c.value ≡ input i
      → r.value ≡ output o
      → m.step s i o ≡ (true, s')
      → Linearizes m s' (drop_op c.id es) ks
      → Linearizes m s es (c.id ∷ ks)
