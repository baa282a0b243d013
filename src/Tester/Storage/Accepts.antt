-- ===== src/Tester/Storage/Accepts.antt =====
-- When a committed command is taken in, and what it changes.
use key_value_distributed_sy.Base.{
  ℕ, zero, suc, ◌-◌, ◌≤◌, ◌≡◌, ◌≢◌, ◌↔◌, refl, ap, ◌∙◌, sym, subst, true, false, none, some, List,
  [], ◌∷◌, ◌⊎◌, inl, inr, some_inj, ltb, ◌==◌, ==_iff, get_elem?, set, All, Bool-cases,
  Option-cases, arith,
}
use key_value_distributed_sy.Tester.Storage.{Entry, Log, insert, Storage, has_gap, apply_command}
use key_value_distributed_sy.Tester.Storage.Agreement.{
  IsHolding, unrefuted, refuted-false, apply_command-inv, committed,
}

-- The entry before the index is there, or the index is the first.
abbrev pub IsNext : Log → ℕ → Type 0
IsNext log index = (index ≤ 1) ⊎ ((before : Entry) × (log (index - 1) ≡ some before))

has_gap_iff : (log : Log) (index : ℕ) → (has_gap log index ≡ false) ↔ IsNext log index
has_gap_iff log index = (there, back)
  where
    there : has_gap log index ≡ false → IsNext log index
    there e = elim (Bool-cases (ltb 1 index)) [
      | inr f ↦ inl (ground (arith, f))
      | inl f ↦ elim (Option-cases (log (index - 1))) [
        | inl g ↦ let bad : has_gap log index ≡ true = rw (f, g, has_gap) refl in absurd cc
        | inr (before, g) ↦ inr (before, g)
      ]
    ]

    back : IsNext log index → has_gap log index ≡ false
    back (inl less) = let f : ltb 1 index ≡ false = ground (arith, less) in rw (f, has_gap) refl
    back (inr (before, g)) = elim (Bool-cases (ltb 1 index)) [
      | inr f ↦ rw (f, has_gap) refl
      | inl f ↦ rw (f, g, has_gap) refl
    ]

-- Server `i` is one of the tester's, and it may commit the entry at the index.
abbrev pub IsAccepted : ℕ → ℕ → Entry → Storage → Type 0
IsAccepted i index entry s =
    All (IsHolding index entry) s.logs
    × ((log : Log) × (get_elem? s.logs i ≡ some log) × IsNext log index)

-- `t` is `s` but that server `i` has the entry at the index, and that `max_index` is the greater.
abbrev pub IsTaken : ℕ → ℕ → Entry → Storage → Storage → Type 0
IsTaken i index entry s t =
    ((log' : Log) × (get_elem? t.logs i ≡ some log')
      × (log' index ≡ some entry)
      × ((log : Log) → get_elem? s.logs i ≡ some log → (k : ℕ) → k ≢ index → log' k ≡ log k))
    × ((j : ℕ) → j ≢ i → get_elem? t.logs j ≡ get_elem? s.logs j)
    × (s.max_index ≤ t.max_index)
    × (index ≤ t.max_index)
    × ((t.max_index ≡ s.max_index) ⊎ (t.max_index ≡ index))
    × (t.max_index0 ≡ s.max_index0)

get_elem?-set :
    (logs : List Log) (i : ℕ) (old new : Log)
    → get_elem? logs i ≡ some old
    → get_elem? (set logs i new) i ≡ some new
get_elem?-set [] i old new e = absurd cc
get_elem?-set (log ∷ logs) zero old new e = refl
get_elem?-set (log ∷ logs) (suc i) old new e = get_elem?-set logs i old new e

get_elem?-set_other :
    (logs : List Log) (i j : ℕ) (new : Log)
    → j ≢ i
    → get_elem? (set logs i new) j ≡ get_elem? logs j
get_elem?-set_other [] i j new ne = refl
get_elem?-set_other (log ∷ logs) zero zero new ne = absurd (ne refl)
get_elem?-set_other (log ∷ logs) zero (suc j) new ne = refl
get_elem?-set_other (log ∷ logs) (suc i) zero new ne = refl
get_elem?-set_other (log ∷ logs) (suc i) (suc j) new ne =
    get_elem?-set_other logs i j new (λ e. ne (ap suc e))

committed-IsTaken :
    (i index : ℕ) (entry : Entry) (s : Storage) (log : Log)
    → get_elem? s.logs i ≡ some log
    → IsTaken i index entry s (committed s i index entry log)
committed-IsTaken i index entry s log g = (
  (
    insert log index entry,
    get_elem?-set s.logs i log (insert log index entry) g,
    ground arith,
    λ log0 g0 k ne.
        let same : log ≡ log0 = some_inj (sym g ∙ g0) in
        let out : (k == index) ≡ false = elim (Bool-cases (k == index)) [
          | inl e ↦ absurd (ne ((==_iff k index).0 e))
          | inr e ↦ e
        ] in
        rw out (ap (λ log. log k) same),
  ),
  λ j ne. get_elem?-set_other s.logs i j (insert log index entry) ne,
  ground arith,
  ground arith,
  elim (Bool-cases (ltb s.max_index index)) [ inl e ↦ inr (rw e refl) | inr e ↦ inl (rw e refl) ],
  refl,
)

-- A committed command is taken in when no server holds another entry at its index, the server is one
-- of the tester's, and it holds an entry before the index, or the index is not above 1: then the
-- server holds the entry there, nothing else changes in the logs, and `max_index` is the greater of
-- what it was and the index. In all other cases the code panics.
pub apply_command_lem :
    (i index : ℕ) (entry : Entry) (s : Storage)
    → (IsAccepted i index entry s
        × ((t : Storage) × (apply_command i index entry s ≡ some t) × IsTaken i index entry s t))
      ⊎ ((¬ IsAccepted i index entry s) × (apply_command i index entry s ≡ none))
unfolding apply_command
apply_command_lem i index entry s = elim (Option-cases (apply_command i index entry s)) [
  | inr (t, e) ↦
      let (log, r, g, h, same) = apply_command-inv i index entry s t e in
      inl (
        (unrefuted s.logs index entry r, (log, g, (has_gap_iff log index).0 h)),
        (t, e, subst (IsTaken i index entry s) same (committed-IsTaken i index entry s log g)),
      )
  | inl e ↦ inr (
    λ (all, (log, g, next)).
        let r = refuted-false s.logs index entry all in
        let h = (has_gap_iff log index).1 next in
        let taken : apply_command i index entry s ≡ some (committed s i index entry log) =
          rw (r, g, h, apply_command) refl in
        absurd cc,
    e,
  )
]
