-- ===== src/Linearizability/Checker/Orders.antt =====
-- What the order of a linearization is made of.
use key_value_distributed_sy.Base.{
  ℕ, ◌≡◌, refl, ap, ◌∙◌, sym, subst, true, false, List, [], ◌∷◌, ◌==◌, arith, has, IsNodup,
  Bool-cases, inl, inr, ==_iff,
}
use key_value_distributed_sy.Linearizability.Model.{Model, Value}
use key_value_distributed_sy.Linearizability.Entries.{Entry}
use key_value_distributed_sy.Linearizability.Checker.Spec.{
  In, open_calls, drop_op, Linearizes, done, pick,
}
use key_value_distributed_sy.Linearizability.Checker.Transfer.{kind_cases}

module _ {T : Type 0} where
  drop_op-out :
      (k : ℕ) (x : Entry T) (xs : List (Entry T))
      → (x.id == k) ≡ true
      → drop_op k (x ∷ xs) ≡ drop_op k xs
  drop_op-out k x xs e = ground (arith, e)

  drop_op-in :
      (k : ℕ) (x : Entry T) (xs : List (Entry T))
      → (x.id == k) ≡ false
      → drop_op k (x ∷ xs) ≡ x ∷ drop_op k xs
  drop_op-in k x xs e = ground (arith, e)

  pub In-drop_op :
      (k : ℕ) (x : Entry T) (xs : List (Entry T))
      → In x xs
      → (x.id == k) ≡ false
      → In x (drop_op k xs)
  In-drop_op k x [] i ne = i
  In-drop_op k x (y ∷ ys) i ne = elim (Bool-cases (y.id == k)) [
    | inl e ↦ elim i [
      | inl q ↦ cc (ne, e, ap (λ z. z.id == k) q)
      | inr j ↦ subst (In x) (sym (drop_op-out k y ys e)) (In-drop_op k x ys j ne)
    ]
    | inr e ↦ elim i [
      | inl q ↦ subst (In x) (sym (drop_op-in k y ys e)) (inl q)
      | inr j ↦ subst (In x) (sym (drop_op-in k y ys e)) (inr (In-drop_op k x ys j ne))
    ]
  ]

  pub In-of_drop_op :
      (k : ℕ) (x : Entry T) (xs : List (Entry T))
      → In x (drop_op k xs)
      → In x xs × ((x.id == k) ≡ false)
  In-of_drop_op k x [] i = absurd i
  In-of_drop_op k x (y ∷ ys) i = elim (Bool-cases (y.id == k)) [
    | inl e ↦
        let (j, ne) = In-of_drop_op k x ys (subst (In x) (drop_op-out k y ys e) i) in (inr j, ne)
    | inr e ↦
        let i' : In x (y ∷ drop_op k ys) = subst (In x) (drop_op-in k y ys e) i in
        elim i' [
          | inl q ↦ (inl q, ap (λ z. z.id == k) q ∙ e)
          | inr j ↦ let (l, ne) = In-of_drop_op k x ys j in (inr l, ne)
        ]
  ]

  pub In-open_calls : (x : Entry T) (xs : List (Entry T)) → In x (open_calls xs) → In x xs
  In-open_calls x [] i = i
  In-open_calls x (y ∷ ys) i = elim (kind_cases y.kind) [
    | inl c ↦
        let e : open_calls (y ∷ ys) ≡ y ∷ open_calls ys = ground (arith, c) in
        let i' : In x (y ∷ open_calls ys) = subst (In x) e i in
        elim i' [ inl q ↦ inl q | inr j ↦ inr (In-open_calls x ys j) ]
    | inr c ↦ let e : open_calls (y ∷ ys) ≡ [] = ground (arith, c) in absurd (subst (In x) e i)
  ]

module _ {S I O : Type 0} (m : Model S I O) where
  order-In :
      (s : S) (es : List (Entry (Value I O))) (order : List ℕ)
      → Linearizes m s es order
      → (k : ℕ) → has k order ≡ true
      → (x : Entry (Value I O)) × In x es × (x.id ≡ k)
  order-In s es [] l k h = cc
  order-In s es (_ ∷ ks) (pick {s' = t} c r i o ic ir kr same vc vr st rest) k h =
      elim (Bool-cases (k == c.id)) [
        | inl e ↦ (c, In-open_calls c es ic, sym ((==_iff k c.id).0 e))
        | inr e ↦
            let (x, j, q) = order-In t (drop_op c.id es) ks rest k (ground (arith, h, e)) in
            (x, (In-of_drop_op c.id x es j).0, q)
      ]

  order-IsNodup :
      (s : S) (es : List (Entry (Value I O))) (order : List ℕ)
      → Linearizes m s es order
      → IsNodup order
  order-IsNodup s es [] l = tt
  order-IsNodup s es (_ ∷ ks) (pick {s' = t} c r i o ic ir kr same vc vr st rest) =
      (once, order-IsNodup t (drop_op c.id es) ks rest)
    where
      once : has c.id ks ≡ false
      once = elim (Bool-cases (has c.id ks)) [
        | inr e ↦ e
        | inl e ↦
            let (x, j, q) = order-In t (drop_op c.id es) ks rest c.id e in
            let ne = (In-of_drop_op c.id x es j).1 in cc (ne, (==_iff x.id c.id).1 q)
      ]

  order-has :
      (s : S) (es : List (Entry (Value I O))) (order : List ℕ)
      → Linearizes m s es order
      → (x : Entry (Value I O)) → In x es
      → has x.id order ≡ true
  order-has s [] [] done x j = absurd j
  order-has s (y ∷ es) [] l x j = elim l [ ]
  order-has s es (_ ∷ ks) (pick {s' = t} c r i o ic ir kr same vc vr st rest) x j =
      elim (Bool-cases (x.id == c.id)) [
        | inl e ↦ rw e refl
        | inr e ↦ rw e (order-has t (drop_op c.id es) ks rest x (In-drop_op c.id x es j e))
      ]

  -- In the order of a linearization, each operation of the history stands exactly once, and nothing
  -- else stands in it.
  Linearizes-order :
      (s : S) (es : List (Entry (Value I O))) (order : List ℕ)
      → Linearizes m s es order
      → IsNodup order
        × ((x : Entry (Value I O)) → In x es → has x.id order ≡ true)
        × ((k : ℕ) → has k order ≡ true → (x : Entry (Value I O)) × In x es × (x.id ≡ k))
  Linearizes-order s es order l =
      (order-IsNodup s es order l, order-has s es order l, order-In s es order l)
