-- ===== src/Linearizability/Checker/Timed.antt =====
-- The entries of `make_entries` stand in the order of their times.
use key_value_distributed_sy.Base.{
  ℕ, ◌+◌, ◌*◌, ◌≤◌, ◌≡◌, refl, ap, ◌∙◌, sym, subst, Bool, true, false, List, [], ◌∷◌, inl, inr,
  arith, keep, All, All-mono, Bool-cases,
}
use key_value_distributed_sy.Base.Int.{ℤ, pos, negsuc, leb_ℤ}
use key_value_distributed_sy.Linearizability.Entries.{
  EntryKind, call_entry, return_entry, Entry, insert_by_time,
}
use key_value_distributed_sy.Linearizability.Checker.Spec.{In, open_calls}
use key_value_distributed_sy.Linearizability.Checker.Transfer.{kind_cases}

leb_ℤ-trans : (a b c : ℤ) → leb_ℤ a b ≡ true → leb_ℤ b c ≡ true → leb_ℤ a c ≡ true
leb_ℤ-trans (pos a) (pos b) (pos c) e f = ground (arith, e, f)
leb_ℤ-trans (pos a) (pos b) (negsuc c) e f = ground (arith, e, f)
leb_ℤ-trans (pos a) (negsuc b) (pos c) e f = ground (arith, e, f)
leb_ℤ-trans (pos a) (negsuc b) (negsuc c) e f = ground (arith, e, f)
leb_ℤ-trans (negsuc a) (pos b) (pos c) e f = ground (arith, e, f)
leb_ℤ-trans (negsuc a) (pos b) (negsuc c) e f = ground (arith, e, f)
leb_ℤ-trans (negsuc a) (negsuc b) (pos c) e f = ground (arith, e, f)
leb_ℤ-trans (negsuc a) (negsuc b) (negsuc c) e f = ground (arith, e, f)

leb_ℤ-total : (a b : ℤ) → leb_ℤ a b ≡ false → leb_ℤ b a ≡ true
leb_ℤ-total (pos a) (pos b) e = ground (arith, e)
leb_ℤ-total (pos a) (negsuc b) e = ground (arith, e)
leb_ℤ-total (negsuc a) (pos b) e = ground (arith, e)
leb_ℤ-total (negsuc a) (negsuc b) e = ground (arith, e)

-- The place among the entries as they are pushed.
abbrev pub rank : EntryKind → ℕ → ℕ
rank call_entry id = 2 * id
rank return_entry id = 2 * id + 1

module _ {T : Type 0} where
  -- `x` is not later than `y`; of two entries at the same time, the one pushed first is earlier.
  abbrev pub IsEarly : Entry T → Entry T → Type 0
  IsEarly x y =
      (leb_ℤ x.time y.time ≡ true)
      × (leb_ℤ y.time x.time ≡ true → rank x.kind x.id ≤ rank y.kind y.id)

  abbrev pub IsSorted : List (Entry T) → Type 0
  IsSorted [] = Unit
  IsSorted (x ∷ xs) = All (IsEarly x) xs × IsSorted xs

  IsEarly-trans : (x y z : Entry T) → IsEarly x y → IsEarly y z → IsEarly x z
  IsEarly-trans x y z (e, f) (g, h) = (
    leb_ℤ-trans x.time y.time z.time e g,
    λ k.
        let a = f (leb_ℤ-trans y.time z.time x.time g k) in
        let b = h (leb_ℤ-trans z.time x.time y.time k e) in omega arith,
  )

  pub insert-All :
      (P : Entry T → Type 0) (x : Entry T) (xs : List (Entry T))
      → P x
      → All P xs
      → All P (insert_by_time x xs)
  unfolding insert_by_time
  insert-All P x [] p a = (p, tt)
  insert-All P x (y ∷ ys) p a = elim (Bool-cases (leb_ℤ x.time y.time)) [
    | inl e ↦ rw e (p, a)
    | inr e ↦ rw e (a.0, insert-All P x ys p a.1)
  ]

  -- An entry that was pushed before those of the list.
  pub insert-IsSorted :
      (x : Entry T) (xs : List (Entry T))
      → All (λ y. rank x.kind x.id ≤ rank y.kind y.id) xs
      → IsSorted xs
      → IsSorted (insert_by_time x xs)
  unfolding insert_by_time
  insert-IsSorted x [] r s = (tt, tt)
  insert-IsSorted x (y ∷ ys) r s = elim (Bool-cases (leb_ℤ x.time y.time)) [
    | inl e ↦
        let early : IsEarly x y = (e, λ _. r.0) in
        rw e ((early, All-mono ys (λ z g. IsEarly-trans x y z early g) s.0), s)
    | inr e ↦
        let later = leb_ℤ-total x.time y.time e in
        rw e (insert-All (IsEarly y) x ys (later, λ k. absurd cc) s.0, insert-IsSorted x ys r.1 s.1)
  ]

  pub In-of_insert :
      (z x : Entry T) (xs : List (Entry T)) → In z (insert_by_time x xs) → In z (x ∷ xs)
  unfolding insert_by_time
  In-of_insert z x [] i = i
  In-of_insert z x (y ∷ ys) i = elim (Bool-cases (leb_ℤ x.time y.time)) [
    | inl e ↦ let at : insert_by_time x (y ∷ ys) ≡ x ∷ y ∷ ys = rw e refl in subst (In z) at i
    | inr e ↦
        let at : insert_by_time x (y ∷ ys) ≡ y ∷ insert_by_time x ys = rw e refl in
        let i' : In z (y ∷ insert_by_time x ys) = subst (In z) at i in
        elim i' [
          | inl q ↦ inr (inl q)
          | inr j ↦ elim (In-of_insert z x ys j) [ inl q ↦ inl q | inr l ↦ inr (inr l) ]
        ]
  ]

  keep_in :
      (p : Entry T → Bool) (x : Entry T) (xs : List (Entry T))
      → p x ≡ true
      → keep p (x ∷ xs) ≡ x ∷ keep p xs
  keep_in p x xs e = ground (arith, e)

  keep_out :
      (p : Entry T → Bool) (x : Entry T) (xs : List (Entry T))
      → p x ≡ false
      → keep p (x ∷ xs) ≡ keep p xs
  keep_out p x xs e = ground (arith, e)

  keep-All :
      (P : Entry T → Type 0) (p : Entry T → Bool) (xs : List (Entry T))
      → All P xs
      → All P (keep p xs)
  keep-All P p [] a = tt
  keep-All P p (x ∷ xs) a = elim (Bool-cases (p x)) [
    | inl e ↦ subst (All P) (sym (keep_in p x xs e)) (a.0, keep-All P p xs a.1)
    | inr e ↦ subst (All P) (sym (keep_out p x xs e)) (keep-All P p xs a.1)
  ]

  pub keep-IsSorted :
      (p : Entry T → Bool) (xs : List (Entry T)) → IsSorted xs → IsSorted (keep p xs)
  keep-IsSorted p [] s = tt
  keep-IsSorted p (x ∷ xs) s = elim (Bool-cases (p x)) [
    | inl e ↦
        subst IsSorted (sym (keep_in p x xs e))
          (keep-All (IsEarly x) p xs s.0, keep-IsSorted p xs s.1)
    | inr e ↦ subst IsSorted (sym (keep_out p x xs e)) (keep-IsSorted p xs s.1)
  ]

  pub In-insert : (z x : Entry T) (xs : List (Entry T)) → In z (x ∷ xs) → In z (insert_by_time x xs)
  unfolding insert_by_time
  In-insert z x [] i = i
  In-insert z x (y ∷ ys) i = elim (Bool-cases (leb_ℤ x.time y.time)) [
    | inl e ↦ rw e i
    | inr e ↦ rw e (elim i [
      | inl q ↦ inr (In-insert z x ys (inl q))
      | inr j ↦ elim j [ inl q ↦ inl q | inr l ↦ inr (In-insert z x ys (inr l)) ]
    ])
  ]

  In-All : (P : Entry T → Type 0) (ys : List (Entry T)) (y : Entry T) → All P ys → In y ys → P y
  In-All P [] y a i = absurd i
  In-All P (z ∷ zs) y a (inl q) = subst P (sym q) a.0
  In-All P (z ∷ zs) y a (inr l) = In-All P zs y a.1 l

  -- An open call is not later than any return, and a call that is not is open.
  pub open_calls-IsEarly :
      (es : List (Entry T)) (c r : Entry T)
      → IsSorted es
      → In c (open_calls es)
      → In r es
      → r.kind ≡ return_entry
      → IsEarly c r
  open_calls-IsEarly [] c r s i j k = absurd j
  open_calls-IsEarly (x ∷ xs) c r s i j k = elim (kind_cases x.kind) [
    | inr d ↦ let e : open_calls (x ∷ xs) ≡ [] = ground (arith, d) in absurd (subst (In c) e i)
    | inl d ↦
        let e : open_calls (x ∷ xs) ≡ x ∷ open_calls xs = ground (arith, d) in
        let i' : In c (x ∷ open_calls xs) = subst (In c) e i in
        elim j [
          | inl q ↦
              let bad : call_entry ≡ return_entry = sym d ∙ ap (λ x. x.kind) (sym q) ∙ k in
              absurd cc
          | inr l ↦ elim i' [
            | inl q ↦ subst (λ z. IsEarly z r) (sym q) (In-All (IsEarly x) xs r s.0 l)
            | inr h ↦ open_calls-IsEarly xs c r s.1 h l k
          ]
        ]
  ]

  pub IsEarly-open_calls :
      (es : List (Entry T)) (c : Entry T)
      → IsSorted es
      → In c es
      → c.kind ≡ call_entry
      → ((r : Entry T) → In r es → r.kind ≡ return_entry → IsEarly c r)
      → In c (open_calls es)
  IsEarly-open_calls [] c s i k early = i
  IsEarly-open_calls (x ∷ xs) c s i k early = elim (kind_cases x.kind) [
    | inl d ↦
        let e : open_calls (x ∷ xs) ≡ x ∷ open_calls xs = ground (arith, d) in
        subst (In c) (sym e) (elim i [
          | inl q ↦ inl q
          | inr l ↦ inr (IsEarly-open_calls xs c s.1 l k (λ r h. early r (inr h)))
        ])
    | inr d ↦ elim i [
      | inl q ↦ let bad : call_entry ≡ return_entry = sym k ∙ ap (λ x. x.kind) q ∙ d in absurd cc
      | inr l ↦
          let back = early x (inl refl) d in
          let (before, order) = In-All (IsEarly x) xs c s.0 l in
          let one = order back.0 in
          let two = back.1 before in
          let one' : 2 * x.id + 1 ≤ 2 * c.id =
            subst (λ z. rank z x.id ≤ 2 * c.id) d
              (subst (λ z. rank x.kind x.id ≤ rank z c.id) k one) in
          let two' : 2 * c.id ≤ 2 * x.id + 1 =
            subst (λ z. 2 * c.id ≤ rank z x.id) d
              (subst (λ z. rank z c.id ≤ rank x.kind x.id) k two) in
          absurd (omega arith)
    ]
  ]
