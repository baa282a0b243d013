-- ===== src/Linearizability/Checker/Transfer.antt =====
-- From a list of entries to the nodes that hold them, and back.
use key_value_distributed_sy.Base.{
  ℕ, ◌≡◌, refl, ap, ◌∙◌, sym, subst, true, false, none, some, some_inj, List, [], ◌∷◌, ◌==◌, arith,
  has, Bool-cases, inl, inr, ◌⊎◌, ==_iff,
}
use key_value_distributed_sy.Linearizability.Model.{Value, output}
use key_value_distributed_sy.Linearizability.Nodes.{Ptr, Heap}
use key_value_distributed_sy.Linearizability.Search.Spec.{IsMatch, IsHistory, HasUniqueIds}
use key_value_distributed_sy.Linearizability.Entries.{EntryKind, call_entry, return_entry, Entry}
use key_value_distributed_sy.Linearizability.Entries.Build.{find_return, match_ptr, Holds}
use key_value_distributed_sy.Linearizability.Checker.Spec.{
  returns_in, called_in, IsWellFormed, IsWellFormedAt,
}

pub kind_cases : (k : EntryKind) → (k ≡ call_entry) ⊎ (k ≡ return_entry)
kind_cases call_entry = inl refl
kind_cases return_entry = inr refl

module _ {I O : Type 0} (h : Heap (Value I O)) where
  -- What a search for a return finds.
  record FoundReturn (k : ℕ) (r : Ptr) (ps : List Ptr) : Type 0 where
    within : has r ps ≡ true
    ends : h.matched r ≡ none
    id : h.id r ≡ k
    res : (o : O) × (h.value r ≡ output o)

  pub find_return-exists :
      (k : ℕ) (ps : List Ptr) (xs : List (Entry (Value I O)))
      → Holds h ps xs
      → returns_in k xs ≡ true
      → (r : Ptr) × (find_return k ps xs ≡ some r)
  find_return-exists k [] [] w e = cc
  find_return-exists k [] (x ∷ xs) w e = absurd w
  find_return-exists k (p ∷ ps) [] w e = absurd w
  find_return-exists k (p ∷ ps) (x ∷ xs) w e = elim (kind_cases x.kind) [
    | inl c ↦ rw c (find_return-exists k ps xs w.1 (ground (arith, c)))
    | inr c ↦ elim (Bool-cases (k == x.id)) [
      | inl t ↦ rw (c, t) (p, refl)
      | inr t ↦ rw (c, t) (find_return-exists k ps xs w.1 (ground (arith, c, t)))
    ]
  ]

  find_return-FoundReturn :
      (k r : ℕ) (ps : List Ptr) (xs : List (Entry (Value I O)))
      → Holds h ps xs
      → IsWellFormed xs
      → find_return k ps xs ≡ some r
      → FoundReturn k r ps
  find_return-FoundReturn k r [] xs w f e = cc
  find_return-FoundReturn k r (p ∷ ps) [] w f e = absurd w
  find_return-FoundReturn k r (p ∷ ps) (x ∷ xs) w f e = elim (kind_cases x.kind) [
    | inl c ↦ skip (find_return-FoundReturn k r ps xs w.1 f.1 (ground (arith, e, c)))
    | inr c ↦ elim (Bool-cases (k == x.id)) [
      | inl t ↦
          let pr : p ≡ r = some_inj (ground (arith, e, c, t)) in
          let g = subst (λ z. IsWellFormedAt z x xs) c f.0 in
          record {
            within = ground arith;
            ends = ap h.matched (sym pr) ∙ w.0.2 ∙ rw c refl;
            id = ap h.id (sym pr) ∙ w.0.1 ∙ ground arith;
            res = (g.0.0, ap h.value (sym pr) ∙ w.0.0 ∙ g.0.1);
          }
      | inr t ↦ skip (find_return-FoundReturn k r ps xs w.1 f.1 (ground (arith, e, c, t)))
    ]
  ]
    where
      skip : FoundReturn k r ps → FoundReturn k r (p ∷ ps)
      skip g = record { within = ground (arith, g.within); ends = g.ends; id = g.id; res = g.res }

  -- The nodes of a well-formed list of entries are a history.
  pub Holds-IsHistory :
      (ps : List Ptr) (xs : List (Entry (Value I O)))
      → Holds h ps xs
      → IsWellFormed xs
      → IsHistory h ps
  Holds-IsHistory [] xs w f = tt
  Holds-IsHistory (p ∷ ps) [] w f = absurd w
  Holds-IsHistory (p ∷ ps) (x ∷ xs) w f = (match, Holds-IsHistory ps xs w.1 f.1)
    where
      match : (r : Ptr) → h.matched p ≡ some r → IsMatch h p r ps
      match r e = elim (kind_cases x.kind) [
        | inr c ↦ cc (e, w.0.2, ap (λ z. match_ptr z x.id ps xs) c)
        | inl c ↦
            let g = subst (λ z. IsWellFormedAt z x xs) c f.0 in
            let found =
              find_return-FoundReturn x.id r ps xs w.1 f.1
                (sym (w.0.2 ∙ ap (λ z. match_ptr z x.id ps xs) c) ∙ e) in
            record {
              behind = found.within;
              ends = found.ends;
              same_id = found.id ∙ sym w.0.1;
              arg = (g.0.0, w.0.0 ∙ g.0.1);
              res = found.res;
            }
      ]

  id_in :
      (q : Ptr) (ps : List Ptr) (xs : List (Entry (Value I O)))
      → Holds h ps xs
      → has q ps ≡ true
      → (returns_in (h.id q) xs ≡ true) ⊎ (called_in (h.id q) xs ≡ true)
  id_in q [] xs w e = cc
  id_in q (p ∷ ps) [] w e = absurd w
  id_in q (p ∷ ps) (x ∷ xs) w e = elim (Bool-cases (q == p)) [
    | inl t ↦
        let same : h.id q ≡ x.id = ap h.id ((==_iff q p).0 t) ∙ w.0.1 in
        let at : (h.id q == x.id) ≡ true = (==_iff (h.id q) x.id).1 same in
        elim (kind_cases x.kind) [ inl c ↦ inr (rw (c, at) refl) | inr c ↦ inl (rw (c, at) refl) ]
    | inr t ↦ elim (id_in q ps xs w.1 (ground arith)) [
      | inl g ↦ elim (kind_cases x.kind) [
        | inl c ↦ inl (ground (arith, c, g))
        | inr c ↦ inl (ground (arith, c, g))
      ]
      | inr g ↦ elim (kind_cases x.kind) [
        | inl c ↦ inr (ground (arith, c, g))
        | inr c ↦ inr (ground (arith, c, g))
      ]
    ]
  ]

  id_not_in :
      (q k : Ptr) (ps : List Ptr) (xs : List (Entry (Value I O)))
      → Holds h ps xs
      → has q ps ≡ true
      → h.id q ≡ k
      → returns_in k xs ≡ false
      → called_in k xs ≡ false
      → ⊥
  id_not_in q k ps xs w m e a b = elim (id_in q ps xs w m) [
    | inl g ↦ cc (ap (λ z. returns_in z xs) e)
    | inr g ↦ cc (ap (λ z. called_in z xs) e)
  ]

  -- The return with an identifier that no later call has is the only node with it.
  find_return_unique :
      (k q : Ptr) (ps : List Ptr) (xs : List (Entry (Value I O)))
      → Holds h ps xs
      → IsWellFormed xs
      → called_in k xs ≡ false
      → has q ps ≡ true
      → h.id q ≡ k
      → find_return k ps xs ≡ some q
  find_return_unique k q [] xs w f nc m e = cc
  find_return_unique k q (p ∷ ps) [] w f nc m e = absurd w
  find_return_unique k q (p ∷ ps) (x ∷ xs) w f nc m e = elim (Bool-cases (q == p)) [
    | inl t ↦
        let qp = (==_iff q p).0 t in
        let at : (k == x.id) ≡ true = (==_iff k x.id).1 (sym e ∙ ap h.id qp ∙ w.0.1) in
        elim (kind_cases x.kind) [
          | inl c ↦ cc (nc, at_call x xs k c at)
          | inr c ↦ rw (c, at) (ap some (sym qp))
        ]
    | inr t ↦ elim (kind_cases x.kind) [
      | inl c ↦ rw c (find_return_unique k q ps xs w.1 f.1 (ground (arith, c, nc)) (ground arith) e)
      | inr c ↦ elim (Bool-cases (k == x.id)) [
        | inl u ↦
            let g = subst (λ z. IsWellFormedAt z x xs) c f.0 in
            absurd (id_not_in q x.id ps xs w.1 (ground arith) (e ∙ (==_iff k x.id).0 u) g.1 g.2)
        | inr u ↦
            rw (c, u)
              (find_return_unique k q ps xs w.1 f.1 (ground (arith, c, nc)) (ground arith) e)
      ]
    ]
  ]
    where
      at_call :
          (x : Entry (Value I O)) (xs : List (Entry (Value I O))) (k : ℕ)
          → x.kind ≡ call_entry
          → (k == x.id) ≡ true
          → called_in k (x ∷ xs) ≡ true
      at_call x xs k c a = rw (c, a) refl

  matched_to :
      (p q : Ptr) (ps : List Ptr) (x : Entry (Value I O)) (xs : List (Entry (Value I O)))
      → Holds h (p ∷ ps) (x ∷ xs)
      → IsWellFormed (x ∷ xs)
      → has q ps ≡ true
      → h.id p ≡ h.id q
      → h.matched p ≡ some q
  matched_to p q ps x xs w f m e = elim (kind_cases x.kind) [
    | inl c ↦
        let g = subst (λ z. IsWellFormedAt z x xs) c f.0 in
        w.0.2
        ∙ ap (λ z. match_ptr z x.id ps xs) c
        ∙ find_return_unique x.id q ps xs w.1 f.1 g.2 m (sym e ∙ w.0.1)
    | inr c ↦
        let g = subst (λ z. IsWellFormedAt z x xs) c f.0 in
        absurd (id_not_in q x.id ps xs w.1 m (sym e ∙ w.0.1) g.1 g.2)
  ]

  pub Holds-HasUniqueIds :
      (ps : List Ptr) (xs : List (Entry (Value I O)))
      → Holds h ps xs
      → IsWellFormed xs
      → HasUniqueIds h ps
  Holds-HasUniqueIds [] xs w f a b ha hb e = cc
  Holds-HasUniqueIds (p ∷ ps) [] w f a b ha hb e = absurd w
  Holds-HasUniqueIds (p ∷ ps) (x ∷ xs) w f a b ha hb e = elim (Bool-cases (a == p)) [
    | inl s ↦
        let ap' = (==_iff a p).0 s in
        elim (Bool-cases (b == p)) [
          | inl t ↦ inl (ap' ∙ sym ((==_iff b p).0 t))
          | inr t ↦ inr (
              inl (
                ap h.matched ap'
                ∙ matched_to p b ps x xs w f (ground arith) (ap h.id (sym ap') ∙ e)))
        ]
    | inr s ↦ elim (Bool-cases (b == p)) [
      | inl t ↦
          let bp = (==_iff b p).0 t in
          inr (
            inr (
              ap h.matched bp
              ∙ matched_to p a ps x xs w f (ground arith) (ap h.id (sym bp) ∙ sym e)))
      | inr t ↦ Holds-HasUniqueIds ps xs w.1 f.1 a b (ground arith) (ground arith) e
    ]
  ]
