-- ===== src/Linearizability/Entries/Sorted.antt =====
-- `make_entries` makes a complete history: each call stands before its return.
use key_value_distributed_sy.Base.{
  ℕ, ◌+◌, ◌*◌, ◌≤◌, ◌<◌, ◌≡◌, ◌≢◌, refl, ◌∙◌, sym, subst, true, false, List, [], ◌∷◌, arith, length,
  All, All-mono, Bool-cases, inl, inr,
}
use key_value_distributed_sy.Base.Int.{leb_ℤ}
use key_value_distributed_sy.Linearizability.Model.{Value, input, output, Operation, Operations}
use key_value_distributed_sy.Linearizability.Entries.{
  EntryKind, call_entry, return_entry, Entry, push_entries, insert_by_time, sort_by_time,
  make_entries,
}
use key_value_distributed_sy.Linearizability.Checker.Spec.{
  returns_in, called_in, IsWellFormed, IsWellFormedAt, IsComplete,
}
use key_value_distributed_sy.Linearizability.Checker.Transfer.{kind_cases}

module _ {T : Type 0} where
  insert-length : (x : Entry T) (xs : List (Entry T)) → length (insert_by_time x xs) ≡ length xs + 1
  unfolding insert_by_time
  insert-length x [] = refl
  insert-length x (y ∷ ys) = elim (Bool-cases (leb_ℤ x.time y.time)) [
    | inl e ↦ rw e (omega arith)
    | inr e ↦ rw e (omega (arith, insert-length x ys))
  ]

  insert-All :
      (P : Entry T → Type 0) (x : Entry T) (xs : List (Entry T))
      → P x
      → All P xs
      → All P (insert_by_time x xs)
  unfolding insert_by_time
  insert-All P x [] p a = (p, tt)
  insert-All P x (y ∷ ys) p a = elim (Bool-cases (leb_ℤ x.time y.time)) [
    | inl e ↦ rw e (p, a)
    | inr e ↦ rw e (a.0, insert-All P x ys p a.1)
  ]

  -- An entry put in somewhere does to a list what it does in front.
  insert-returns_in :
      (k : ℕ) (x : Entry T) (xs : List (Entry T))
      → returns_in k (insert_by_time x xs) ≡ returns_in k (x ∷ xs)
  unfolding insert_by_time
  insert-returns_in k x [] = refl
  insert-returns_in k x (y ∷ ys) = elim (Bool-cases (leb_ℤ x.time y.time)) [
    | inl e ↦ rw e refl
    | inr e ↦ elim (kind_cases x.kind) [
      | inl c ↦ elim (kind_cases y.kind) [
        | inl d ↦ ground (arith, e, c, d, insert-returns_in k x ys)
        | inr d ↦ ground (arith, e, c, d, insert-returns_in k x ys)
      ]
      | inr c ↦ elim (kind_cases y.kind) [
        | inl d ↦ ground (arith, e, c, d, insert-returns_in k x ys)
        | inr d ↦ ground (arith, e, c, d, insert-returns_in k x ys)
      ]
    ]
  ]

  insert-called_in :
      (k : ℕ) (x : Entry T) (xs : List (Entry T))
      → called_in k (insert_by_time x xs) ≡ called_in k (x ∷ xs)
  unfolding insert_by_time
  insert-called_in k x [] = refl
  insert-called_in k x (y ∷ ys) = elim (Bool-cases (leb_ℤ x.time y.time)) [
    | inl e ↦ rw e refl
    | inr e ↦ elim (kind_cases x.kind) [
      | inl c ↦ elim (kind_cases y.kind) [
        | inl d ↦ ground (arith, e, c, d, insert-called_in k x ys)
        | inr d ↦ ground (arith, e, c, d, insert-called_in k x ys)
      ]
      | inr c ↦ elim (kind_cases y.kind) [
        | inl d ↦ ground (arith, e, c, d, insert-called_in k x ys)
        | inr d ↦ ground (arith, e, c, d, insert-called_in k x ys)
      ]
    ]
  ]

module _ {I O : Type 0} where
  -- What the entries that stand before a new one need of it.
  IsWellFormedAt-insert :
      (kind : EntryKind) (x y : Entry (Value I O)) (ys : List (Entry (Value I O)))
      → (x.id ≡ y.id → ⊥)
      → IsWellFormedAt kind y ys
      → IsWellFormedAt kind y (insert_by_time x ys)
  IsWellFormedAt-insert call_entry x y ys ne w =
      (w.0, insert-returns_in y.id x ys ∙ skip_return, insert-called_in y.id x ys ∙ skip_call)
    where
      skip_return : returns_in y.id (x ∷ ys) ≡ true
      skip_return = elim (kind_cases x.kind) [
        | inl c ↦ ground (arith, c, w.1)
        | inr c ↦ ground (arith, c, w.1)
      ]

      skip_call : called_in y.id (x ∷ ys) ≡ false
      skip_call = elim (kind_cases x.kind) [
        | inl c ↦ ground (arith, c, w.2, ne)
        | inr c ↦ ground (arith, c, w.2)
      ]
  IsWellFormedAt-insert return_entry x y ys ne w =
      (w.0, insert-returns_in y.id x ys ∙ skip_return, insert-called_in y.id x ys ∙ skip_call)
    where
      skip_return : returns_in y.id (x ∷ ys) ≡ false
      skip_return = elim (kind_cases x.kind) [
        | inl c ↦ ground (arith, c, w.1)
        | inr c ↦ ground (arith, c, w.1, ne)
      ]

      skip_call : called_in y.id (x ∷ ys) ≡ false
      skip_call = elim (kind_cases x.kind) [
        | inl c ↦ ground (arith, c, w.2, ne)
        | inr c ↦ ground (arith, c, w.2)
      ]

  absent :
      (k : ℕ) (xs : List (Entry (Value I O)))
      → All (λ y. k ≢ y.id) xs
      → (returns_in k xs ≡ false) × (called_in k xs ≡ false)
  absent k [] a = (refl, refl)
  absent k (x ∷ xs) a =
      let (r, c) = absent k xs a.1 in
      elim (kind_cases x.kind) [
        | inl d ↦ (ground (arith, d, r), ground (arith, d, c, a.0))
        | inr d ↦ (ground (arith, d, r, a.0), ground (arith, d, c))
      ]

  -- A return whose operation has no entry yet.
  IsWellFormed-insert_return :
      (x : Entry (Value I O)) (xs : List (Entry (Value I O)))
      → x.kind ≡ return_entry
      → (o : O) × (x.value ≡ output o)
      → All (λ y. x.id ≢ y.id) xs
      → IsWellFormed xs
      → IsWellFormed (insert_by_time x xs)
  unfolding insert_by_time
  IsWellFormed-insert_return x [] c v a w =
      (subst (λ k. IsWellFormedAt k x []) (sym c) (v, refl, refl), tt)
  IsWellFormed-insert_return x (y ∷ ys) c v a w = elim (Bool-cases (leb_ℤ x.time y.time)) [
    | inl e ↦
        let out = absent x.id (y ∷ ys) a in
        rw e (subst (λ k. IsWellFormedAt k x (y ∷ ys)) (sym c) (v, out.0, out.1), w)
    | inr e ↦
        rw e
          (IsWellFormedAt-insert y.kind x y ys a.0 w.0, IsWellFormed-insert_return x ys c v a.1 w.1)
  ]

  -- A call whose return is there already, and not earlier than the call.
  IsWellFormed-insert_call :
      (x : Entry (Value I O)) (xs : List (Entry (Value I O)))
      → x.kind ≡ call_entry
      → (i : I) × (x.value ≡ input i)
      → returns_in x.id xs ≡ true
      → called_in x.id xs ≡ false
      → All (λ y. x.id ≡ y.id → leb_ℤ x.time y.time ≡ true) xs
      → IsWellFormed xs
      → IsWellFormed (insert_by_time x xs)
  unfolding insert_by_time
  IsWellFormed-insert_call x [] c v r n a w = cc
  IsWellFormed-insert_call x (y ∷ ys) c v r n a w = elim (Bool-cases (leb_ℤ x.time y.time)) [
    | inl e ↦ rw e (subst (λ k. IsWellFormedAt k x (y ∷ ys)) (sym c) (v, r, n), w)
    | inr e ↦
        let ne : x.id ≢ y.id = λ q. let t = a.0 q in cc (t, e) in
        rw e (
          IsWellFormedAt-insert y.kind x y ys ne w.0,
          IsWellFormed-insert_call x ys c v (later_return y ys r ne) (later_call y ys n) a.1 w.1,
        )
  ]
    where
      later_return :
          (y : Entry (Value I O)) (ys : List (Entry (Value I O)))
          → returns_in x.id (y ∷ ys) ≡ true
          → x.id ≢ y.id
          → returns_in x.id ys ≡ true
      later_return y ys e ne = elim (kind_cases y.kind) [
        | inl d ↦ ground (arith, d, e, ne)
        | inr d ↦ ground (arith, d, e, ne)
      ]

      later_call :
          (y : Entry (Value I O)) (ys : List (Entry (Value I O)))
          → called_in x.id (y ∷ ys) ≡ false
          → called_in x.id ys ≡ false
      later_call y ys e = elim (kind_cases y.kind) [
        | inl d ↦ ground (arith, d, e)
        | inr d ↦ ground (arith, d, e)
      ]

  -- Each operation is called no later than it returns.
  abbrev pub IsTimed : Operations I O → Type 0
  IsTimed = All (λ op. leb_ℤ op.call op.finish ≡ true)

  -- The two entries that the loop pushes for an operation.
  abbrev pub call_of : ℕ → Operation I O → Entry (Value I O)
  call_of id op = record { kind = call_entry; value = input op.input; id = id; time = op.call }

  abbrev pub return_of : ℕ → Operation I O → Entry (Value I O)
  return_of id op = record {
    kind = return_entry;
    value = output op.output;
    id = id;
    time = op.finish;
  }

  push_entries-IsComplete :
      (id : ℕ) (ops : Operations I O)
      → All (λ op. leb_ℤ op.call op.finish ≡ true) ops
      → IsWellFormed (sort_by_time (push_entries id ops))
        × (length (sort_by_time (push_entries id ops)) ≡ 2 * length ops)
        × All (λ y. (id ≤ y.id) × (y.id < id + length ops)) (sort_by_time (push_entries id ops))
  unfolding push_entries sort_by_time
  push_entries-IsComplete id [] t = (tt, refl, tt)
  push_entries-IsComplete id (op ∷ ops) t =
      let (formed, size, ids) = push_entries-IsComplete (id + 1) ops t.1 in
      let xs = sort_by_time (push_entries (id + 1) ops) in
      let c = call_of id op in
      let r = return_of id op in
      let ys = insert_by_time r xs in
      let fresh : All (λ y. id ≢ y.id) xs = All-mono xs (λ y b e. omega (arith, b.0)) ids in
      let out = absent id xs fresh in
      let later : All (λ y. id ≡ y.id → leb_ℤ op.call y.time ≡ true) ys =
        insert-All (λ y. id ≡ y.id → leb_ℤ op.call y.time ≡ true) r xs (λ _. t.0)
          (All-mono xs (λ y b e. absurd (b e)) fresh) in
      (
        IsWellFormed-insert_call c ys refl (op.input, refl)
            (insert-returns_in id r xs ∙ ground arith) (insert-called_in id r xs ∙ out.1) later
            (IsWellFormed-insert_return r xs refl (op.output, refl) fresh formed),
        omega (arith, insert-length c ys, insert-length r xs, size),
        insert-All _ c ys (omega arith, omega arith)
            (insert-All _ r xs (omega arith, omega arith)
              (All-mono xs (λ y b. (omega (arith, b.0), omega (arith, b.1))) ids)),
      )

-- When no operation returns before it is called, `make_entries` makes of `n` operations a complete
-- history: `2 * n` entries, numbered below `n`, with the return of each call behind it.
pub make_entries-IsComplete :
    {I O : Type 0} (ops : Operations I O)
    → All (λ op. leb_ℤ op.call op.finish ≡ true) ops
    → IsComplete (length ops) (make_entries ops)
unfolding make_entries
make_entries-IsComplete ops t =
    let (formed, size, ids) = push_entries-IsComplete 0 ops t in
    record { formed = formed; size = size; ids = All-mono _ (λ y b. omega (arith, b.1)) ids }
