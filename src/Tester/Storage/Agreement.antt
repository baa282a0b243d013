-- ===== src/Tester/Storage/Agreement.antt =====
-- What the tester knows once every committed entry has been taken in without a panic.
use key_value_distributed_sy.Base.{
  ℕ, suc, ◌-◌, ◌≤◌, ◌≡◌, refl, ap, ◌∙◌, sym, subst, Bool, true, false, not, none, some, List, [],
  ◌∷◌, ◌⊎◌, inl, inr, some_inj, ltb, ◌==◌, ==_iff, if◌then◌else◌, get_elem?, set, lt→ltb, All,
  All-mono, All-set, All-get_elem?, All-replicate, Bool-cases, Option-cases, arith,
}
use key_value_distributed_sy.Tester.Storage.{
  Entry, Log, insert, is_some, Storage, new_storage, differs, is_refuted, has_gap, apply_command,
}

-- The log holds nothing at the index, or the entry.
abbrev pub IsHolding : ℕ → Entry → Log → Type 0
IsHolding index entry log = (log index ≡ none) ⊎ (log index ≡ some entry)

-- No two logs hold different entries at an index.
abbrev pub IsAgreed : List Log → Type 0
IsAgreed logs = (index : ℕ) → (entry : Entry) × All (IsHolding index entry) logs

-- No entry stands behind a gap, from index 1 on.
abbrev pub IsContiguous : Log → Type 0
IsContiguous log = (k : ℕ) → is_some (log (suc (suc k))) ≡ true → is_some (log (suc k)) ≡ true

abbrev pub IsBelow : ℕ → Log → Type 0
IsBelow limit log = (k : ℕ) → is_some (log k) ≡ true → k ≤ limit

-- An entry that no server refutes is held by none but itself.
pub unrefuted :
    (logs : List Log) (index : ℕ) (entry : Entry)
    → is_refuted logs index entry ≡ false
    → All (IsHolding index entry) logs
unrefuted [] index entry e = tt
unrefuted (log ∷ logs) index entry e = elim (Option-cases (log index)) [
  | inl n ↦ (inl n, unrefuted logs index entry (ground (arith, e, n)))
  | inr (old, n) ↦ elim (Bool-cases (old == entry)) [
    | inl t ↦ (
      inr (n ∙ ap some ((==_iff old entry).0 t)),
      unrefuted logs index entry (ground (arith, e, n, t)),
    )
    | inr t ↦ ground (arith, e, n, t)
  ]
]

differs-false : (entry : Entry) → differs (some entry) entry ≡ false
differs-false entry = ground arith

pub refuted-false :
    (logs : List Log) (index : ℕ) (entry : Entry)
    → All (IsHolding index entry) logs
    → is_refuted logs index entry ≡ false
refuted-false [] index entry h = refl
refuted-false (log ∷ logs) index entry (inl e, h) = rw (e, refuted-false logs index entry h) refl
refuted-false (log ∷ logs) index entry (inr e, h) =
    rw (e, differs-false entry, refuted-false logs index entry h) refl

insert-same : (log : Log) (index : ℕ) (entry : Entry) → insert log index entry index ≡ some entry
insert-same log index entry = ground arith

insert-other :
    (log : Log) (index : ℕ) (entry : Entry) (k : ℕ)
    → (k == index) ≡ false
    → insert log index entry k ≡ log k
insert-other log index entry k e = rw e refl

-- The entry is put into one of the logs.
IsHolding-insert :
    (log : Log) (index : ℕ) (entry : Entry) → IsHolding index entry (insert log index entry)
IsHolding-insert log index entry = inr (insert-same log index entry)

IsAgreed-insert :
    (logs : List Log) (i : ℕ) (log : Log) (index : ℕ) (entry : Entry)
    → is_refuted logs index entry ≡ false
    → get_elem? logs i ≡ some log
    → IsAgreed logs
    → IsAgreed (set logs i (insert log index entry))
IsAgreed-insert logs i log index entry r e w k = elim (Bool-cases (k == index)) [
  | inl t ↦
      let same = (==_iff k index).0 t in
      (
        entry,
        subst (λ k. All (IsHolding k entry) (set logs i (insert log index entry))) (sym same)
            (All-set (IsHolding index entry) logs i (insert log index entry)
              (unrefuted logs index entry r) (IsHolding-insert log index entry)),
      )
  | inr t ↦
      let (old, all) = w k in
      let at = All-get_elem? (IsHolding k old) logs i log all e in
      let kept : insert log index entry k ≡ log k = insert-other log index entry k t in
      (old, All-set (IsHolding k old) logs i (insert log index entry) all (rw kept at))
]

not-false : (b : Bool) → not b ≡ false → b ≡ true
not-false true e = refl
not-false false e = cc

no_gap : (log : Log) (k : ℕ) → has_gap log (suc (suc k)) ≡ false → is_some (log (suc k)) ≡ true
no_gap log k g =
    let at : suc (suc k) - 1 ≡ suc k = omega arith in
    let high : ltb 1 (suc (suc k)) ≡ true = lt→ltb 1 (suc (suc k)) (omega arith) in
    let h : not (is_some (log (suc k))) ≡ false = rw (high, at) at g in
    not-false (is_some (log (suc k))) h

IsContiguous-insert :
    (log : Log) (index : ℕ) (entry : Entry)
    → has_gap log index ≡ false
    → IsContiguous log
    → IsContiguous (insert log index entry)
IsContiguous-insert log index entry g w k h = elim (Bool-cases (suc k == index)) [
  | inl t ↦ rw t refl
  | inr t ↦ rw t (elim (Bool-cases (suc (suc k) == index)) [
    | inl u ↦
        let same = (==_iff (suc (suc k)) index).0 u in
        no_gap log k (subst (λ i. has_gap log i ≡ false) (sym same) g)
    | inr u ↦ w k (rw (insert-other log index entry (suc (suc k)) u) at h)
  ])
]

IsBelow-insert :
    (log : Log) (index : ℕ) (entry : Entry) (limit : ℕ)
    → IsBelow limit log
    → IsBelow (if ltb limit index then index else limit) (insert log index entry)
IsBelow-insert log index entry limit w k h = elim (Bool-cases (k == index)) [
  | inl t ↦ ground arith
  | inr t ↦ let low = w k (rw⁻¹ (insert-other log index entry k t) h) in ground arith
]

-- What holds of the storage between two messages.
pub record IsCommitted (s : Storage) : Type 0 where
  pub agreed : IsAgreed s.logs
  pub contiguous : All IsContiguous s.logs
  pub below : All (IsBelow s.max_index) s.logs

pub new_storage-IsCommitted : (n : ℕ) → IsCommitted (new_storage n)
new_storage-IsCommitted n = record {
  agreed = λ k. (0, All-replicate (IsHolding k 0) n (λ k. none) (inl refl));
  contiguous = All-replicate IsContiguous n (λ k. none) (λ k h. cc);
  below = All-replicate (IsBelow 0) n (λ k. none) (λ k h. absurd cc);
}

IsBelow-mono : (low high : ℕ) → low ≤ high → (log : Log) → IsBelow low log → IsBelow high log
IsBelow-mono low high h log w k e = let l = w k e in omega arith

abbrev pub committed : Storage → ℕ → ℕ → Entry → Log → Storage
committed s i index entry log = record s {
  logs = set s.logs i (insert log index entry);
  max_index = if ltb s.max_index index then index else s.max_index;
}

-- A command that is taken in without a panic.
pub apply_command-inv :
    (i index : ℕ) (entry : Entry) (s t : Storage)
    → apply_command i index entry s ≡ some t
    → (log : Log) × (is_refuted s.logs index entry ≡ false)
      × (get_elem? s.logs i ≡ some log)
      × (has_gap log index ≡ false)
      × (committed s i index entry log ≡ t)
unfolding apply_command
apply_command-inv i index entry s t e = elim (Bool-cases (is_refuted s.logs index entry)) [
  | inl r ↦ ground (arith, e, r)
  | inr r ↦ elim (Option-cases (get_elem? s.logs i)) [
    | inl g ↦ ground (arith, e, r, g)
    | inr (log, g) ↦ elim (Bool-cases (has_gap log index)) [
      | inl h ↦ ground (arith, e, r, g, h)
      | inr h ↦ (
        log,
        r,
        g,
        h,
        let taken : apply_command i index entry s ≡ some (committed s i index entry log) =
              rw (r, g, h, apply_command) in
            some_inj (sym taken ∙ e),
      )
    ]
  ]
]

pub apply_command-IsCommitted :
    (i index : ℕ) (entry : Entry) (s t : Storage)
    → apply_command i index entry s ≡ some t
    → IsCommitted s
    → IsCommitted t
apply_command-IsCommitted i index entry s t e w =
    let (log, r, g, h, same) = apply_command-inv i index entry s t e in
    let limit = if ltb s.max_index index then index else s.max_index in
    let low : s.max_index ≤ limit = ground arith in
    let below = All-get_elem? (IsBelow s.max_index) s.logs i log w.below g in
    let contiguous = All-get_elem? IsContiguous s.logs i log w.contiguous g in
    subst IsCommitted same (record {
      agreed = IsAgreed-insert s.logs i log index entry r g w.agreed;
      contiguous =
          All-set IsContiguous s.logs i (insert log index entry) w.contiguous
            (IsContiguous-insert log index entry h contiguous);
      below =
          All-set (IsBelow limit) s.logs i (insert log index entry)
            (All-mono s.logs (IsBelow-mono s.max_index limit low) w.below)
            (IsBelow-insert log index entry s.max_index below);
    })
