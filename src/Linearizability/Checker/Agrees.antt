-- ===== src/Linearizability/Checker/Agrees.antt =====
-- A linearization of the entries of `make_entries` is one of the operations in real time.
use key_value_distributed_sy.Base.{
  ℕ, ◌+◌, ◌*◌, ◌≤◌, ◌≡◌, ◌≢◌, ◌↔◌, refl, ap, ◌∙◌, sym, subst, true, false, List, [], ◌∷◌, ◌==◌, ◌⊎◌,
  inl, inr, arith, ltb, All, All-mono, Bool-cases,
}
use key_value_distributed_sy.Base.Int.{leb_ℤ}
use key_value_distributed_sy.Linearizability.Model.{
  Model, Value, input, output, Operation, Operations,
}
use key_value_distributed_sy.Linearizability.Entries.{
  call_entry, return_entry, Entry, push_entries, insert_by_time, sort_by_time, make_entries,
}
use key_value_distributed_sy.Linearizability.Entries.Sorted.{call_of, return_of}
use key_value_distributed_sy.Linearizability.Checker.Spec.{In, drop_op, Linearizes, done, pick}
use key_value_distributed_sy.Linearizability.Checker.Orders.{
  In-drop_op, In-of_drop_op, In-open_calls,
}
use key_value_distributed_sy.Linearizability.Checker.Transfer.{kind_cases}
use key_value_distributed_sy.Linearizability.Checker.Realtime.{
  number, Among, precedes, without, Explains, nothing_left, effect,
}
use key_value_distributed_sy.Linearizability.Checker.Timed.{
  rank, IsEarly, IsSorted, insert-All, insert-IsSorted, In-insert, In-of_insert, keep-IsSorted,
  open_calls-IsEarly, IsEarly-open_calls,
}

module _ {I O : Type 0} where
  without-out :
      (k : ℕ) (q : ℕ × Operation I O) (qs : List (ℕ × Operation I O))
      → (q.0 == k) ≡ true
      → without k (q ∷ qs) ≡ without k qs
  without-out k q qs e = ground (arith, e)

  without-in :
      (k : ℕ) (q : ℕ × Operation I O) (qs : List (ℕ × Operation I O))
      → (q.0 == k) ≡ false
      → without k (q ∷ qs) ≡ q ∷ without k qs
  without-in k q qs e = ground (arith, e)

  Among-without :
      (k : ℕ) (p : ℕ × Operation I O) (qs : List (ℕ × Operation I O))
      → Among p qs
      → (p.0 == k) ≡ false
      → Among p (without k qs)
  Among-without k p [] i ne = i
  Among-without k p (q ∷ qs) i ne = elim (Bool-cases (q.0 == k)) [
    | inl e ↦ elim i [
      | inl s ↦ let z = ap (λ q. q.0 == k) s in absurd cc
      | inr j ↦ subst (Among p) (sym (without-out k q qs e)) (Among-without k p qs j ne)
    ]
    | inr e ↦
        subst (Among p) (sym (without-in k q qs e))
          (elim i [ inl s ↦ inl s | inr j ↦ inr (Among-without k p qs j ne) ])
  ]

  Among-of_without :
      (k : ℕ) (p : ℕ × Operation I O) (qs : List (ℕ × Operation I O))
      → Among p (without k qs)
      → Among p qs × ((p.0 == k) ≡ false)
  Among-of_without k p [] i = absurd i
  Among-of_without k p (q ∷ qs) i = elim (Bool-cases (q.0 == k)) [
    | inl e ↦
        let (j, ne) = Among-of_without k p qs (subst (Among p) (without-out k q qs e) i) in
        (inr j, ne)
    | inr e ↦
        let i' : Among p (q ∷ without k qs) = subst (Among p) (without-in k q qs e) i in
        elim i' [
          | inl s ↦ (inl s, ap (λ q. q.0 == k) s ∙ e)
          | inr l ↦ let (j, ne) = Among-of_without k p qs l in (inr j, ne)
        ]
  ]

  -- The entries `es` are the calls and the returns of the operations `ps`, in order.
  record Stand (ps : List (ℕ × Operation I O)) (es : List (Entry (Value I O))) : Type 0 where
    sorted : IsSorted es
    calls : (k : ℕ) (op : Operation I O) → Among (k, op) ps → In (call_of k op) es
    returns : (k : ℕ) (op : Operation I O) → Among (k, op) ps → In (return_of k op) es
    ops :
        (x : Entry (Value I O))
        → In x es
        → (k : ℕ) × (op : Operation I O) × Among (k, op) ps
          × ((x ≡ call_of k op) ⊎ (x ≡ return_of k op))
    once : (k : ℕ) (op op' : Operation I O) → Among (k, op) ps → Among (k, op') ps → op ≡ op'

  Stand-without :
      (k : ℕ) (ps : List (ℕ × Operation I O)) (es : List (Entry (Value I O)))
      → Stand ps es
      → Stand (without k ps) (drop_op k es)
  Stand-without k ps es w = record {
    sorted = keep-IsSorted _ es w.sorted;
    calls = λ l op i.
        let (j, ne) = Among-of_without k (l, op) ps i in
        In-drop_op k (call_of l op) es (w.calls l op j) ne;
    returns = λ l op i.
        let (j, ne) = Among-of_without k (l, op) ps i in
        In-drop_op k (return_of l op) es (w.returns l op j) ne;
    ops = λ x i.
        let (j, ne) = In-of_drop_op k x es i in
        let (l, op, among, shape) = w.ops x j in
        let id : x.id ≡ l = elim shape [ inl e ↦ ap (λ x. x.id) e | inr e ↦ ap (λ x. x.id) e ] in
        (l, op, Among-without k (l, op) ps among (ap (λ l. l == k) (sym id) ∙ ne), shape);
    once = λ l op op' i j.
        w.once l op op' (Among-of_without k (l, op) ps i).0 (Among-of_without k (l, op') ps j).0;
  }

  precedes-IsEarly :
      (k l : ℕ) (p q : Operation I O)
      → precedes (l, q) (k, p) ≡ false
      → IsEarly (call_of k p) (return_of l q)
  precedes-IsEarly k l p q e = elim (Bool-cases (leb_ℤ p.call q.finish)) [
    | inr f ↦ let bad : precedes (l, q) (k, p) ≡ true = rw f refl in absurd cc
    | inl f ↦ (
      f,
      λ g. elim (Bool-cases (ltb l k)) [
        | inl h ↦ let bad : precedes (l, q) (k, p) ≡ true = rw (f, g, h) refl in absurd cc
        | inr h ↦ ground (arith, h)
      ],
    )
  ]

  IsEarly-precedes :
      (k l : ℕ) (p q : Operation I O)
      → IsEarly (call_of k p) (return_of l q)
      → precedes (l, q) (k, p) ≡ false
  IsEarly-precedes k l p q (f, order) = elim (Bool-cases (leb_ℤ q.finish p.call)) [
    | inr g ↦ rw (f, g) refl
    | inl g ↦ let le = order g in let h : ltb l k ≡ false = ground (arith, le) in rw (f, g, h) refl
  ]

  call_not_return :
      (x : Entry (Value I O)) (k : ℕ) (op : Operation I O)
      → x ≡ return_of k op
      → x.kind ≢ call_entry
  call_not_return x k op e c =
      let bad : call_entry ≡ return_entry = sym c ∙ ap (λ x. x.kind) e in absurd cc

  rank-le : (x : Entry (Value I O)) → 2 * x.id ≤ rank x.kind x.id
  rank-le x = elim (kind_cases x.kind) [
    | inl e ↦ subst (λ kind. 2 * x.id ≤ rank kind x.id) (sym e) (omega arith)
    | inr e ↦ subst (λ kind. 2 * x.id ≤ rank kind x.id) (sym e) (omega arith)
  ]

  number-le :
      (k : ℕ) (ops : Operations I O) (l : ℕ) (op : Operation I O)
      → Among (l, op) (number k ops)
      → k ≤ l
  number-le k [] l op i = absurd i
  number-le k (p ∷ ops) l op (inl e) = let same : l ≡ k = ap (λ q. q.0) e in omega arith
  number-le k (p ∷ ops) l op (inr i) = let le = number-le (k + 1) ops l op i in omega arith

  push_entries-Stand :
      (k : ℕ) (ops : Operations I O)
      → Stand (number k ops) (sort_by_time (push_entries k ops))
        × All (λ y. k ≤ y.id) (sort_by_time (push_entries k ops))
  unfolding push_entries sort_by_time
  push_entries-Stand k [] = (
    record {
      sorted = tt;
      calls = λ l op i. i;
      returns = λ l op i. i;
      ops = λ x i. absurd i;
      once = λ l op op' i. absurd i;
    },
    tt,
  )
  push_entries-Stand k (p ∷ ops) =
      let (w, ids) = push_entries-Stand (k + 1) ops in
      let xs = sort_by_time (push_entries (k + 1) ops) in
      let c = call_of k p in
      let r = return_of k p in
      let ys = insert_by_time r xs in
      let later : All (λ y. 2 * k + 1 ≤ rank y.kind y.id) xs =
        All-mono xs (λ y le. let at = rank-le y in omega arith) ids in
      let old : All (λ y. k ≤ y.id) xs = All-mono xs (λ y le. omega arith) ids in
      let kept : (x : Entry (Value I O)) → In x xs → In x (insert_by_time c ys) =
        λ x i. In-insert x c ys (inr (In-insert x r xs (inr i))) in
      (
        record {
          sorted =
              insert-IsSorted c ys
                (insert-All _ r xs (omega arith) (All-mono xs (λ y le. omega arith) later))
                (insert-IsSorted r xs later w.sorted);
          calls = λ l op i. elim i [
            | inl e ↦ In-insert (call_of l op) c ys (inl (ap (λ q. call_of q.0 q.1) e))
            | inr j ↦ kept (call_of l op) (w.calls l op j)
          ];
          returns = λ l op i. elim i [
            | inl e ↦
                In-insert (return_of l op) c ys
                  (inr (In-insert (return_of l op) r xs (inl (ap (λ q. return_of q.0 q.1) e))))
            | inr j ↦ kept (return_of l op) (w.returns l op j)
          ];
          ops = λ x i. elim (In-of_insert x c ys i) [
            | inl e ↦ (k, p, inl refl, inl e)
            | inr j ↦ elim (In-of_insert x r xs j) [
              | inl e ↦ (k, p, inl refl, inr e)
              | inr h ↦ let (l, op, among, shape) = w.ops x h in (l, op, inr among, shape)
            ]
          ];
          once = λ l op op' i j. elim i [
            | inl e ↦ elim j [
              | inl f ↦ ap (λ q. q.1) e ∙ sym (ap (λ q. q.1) f)
              | inr h ↦
                  let le = number-le (k + 1) ops l op' h in
                  let same : l ≡ k = ap (λ q. q.0) e in absurd (omega arith)
            ]
            | inr h ↦ elim j [
              | inl f ↦
                  let le = number-le (k + 1) ops l op h in
                  let same : l ≡ k = ap (λ q. q.0) f in absurd (omega arith)
              | inr h' ↦ w.once l op op' h h'
            ]
          ];
        },
        insert-All _ c ys (omega arith) (insert-All _ r xs (omega arith) old),
      )

module _ {S I O : Type 0} (m : Model S I O) where
  Linearizes-Explains :
      (s : S) (ps : List (ℕ × Operation I O)) (es : List (Entry (Value I O))) (order : List ℕ)
      → Stand ps es
      → Linearizes m s es order
      → Explains m s ps order
  Linearizes-Explains s [] [] [] w done = nothing_left
  Linearizes-Explains s ((k, p) ∷ ps) [] [] w done = absurd (w.calls k p (inl refl))
  Linearizes-Explains s ps (e ∷ es) [] w l = elim l [ ]
  Linearizes-Explains s ps es (_ ∷ ks) w (pick {s' = t} c r i o ic ir kr same vc vr st rest) =
      let (k, op, among, shape) = w.ops c (In-open_calls c es ic) in
      elim shape [
        | inr e ↦ let bad : output op.output ≡ input i = sym (ap (λ x. x.value) e) ∙ vc in absurd cc
        | inl e ↦
            let (l, op', among', shape') = w.ops r ir in
            elim shape' [
              | inl f ↦
                  let bad : call_entry ≡ return_entry = sym (ap (λ x. x.kind) f) ∙ kr in absurd cc
              | inr f ↦
                  let id_c : c.id ≡ k = ap (λ x. x.id) e in
                  let id_r : l ≡ k = sym (ap (λ x. x.id) f) ∙ same ∙ id_c in
                  let one : op' ≡ op =
                    w.once k op' op (subst (λ l. Among (l, op') ps) id_r among') among in
                  let in_c : input op.input ≡ input i = sym (ap (λ x. x.value) e) ∙ vc in
                  let out_r : output op'.output ≡ output o = sym (ap (λ x. x.value) f) ∙ vr in
                  let i_same : op.input ≡ i = cc in
                  let o_same : op'.output ≡ o = cc in
                  let o_same' : op.output ≡ o = ap (λ op. op.output) (sym one) ∙ o_same in
                  let takes : m.step s op.input op.output ≡ (true, t) =
                    subst (λ i. m.step s i op.output ≡ (true, t)) (sym i_same)
                      (subst (λ o. m.step s i o ≡ (true, t)) (sym o_same') st) in
                  let left =
                    Linearizes-Explains t (without c.id ps) (drop_op c.id es) ks
                      (Stand-without c.id ps es w) rest in
                  subst (λ z. Explains m s ps (z ∷ ks)) (sym id_c)
                    (effect (k, op) among
                      (λ (n, q) a. IsEarly-precedes k n op q (
                        subst (λ c. IsEarly c (return_of n q)) e
                          (open_calls-IsEarly es c (return_of n q) w.sorted ic (w.returns n q a)
                            refl)))
                      takes (subst (λ z. Explains m t (without z ps) ks) id_c left))
            ]
      ]

  Explains-Linearizes :
      (s : S) (ps : List (ℕ × Operation I O)) (es : List (Entry (Value I O))) (order : List ℕ)
      → Stand ps es
      → Explains m s ps order
      → Linearizes m s es order
  Explains-Linearizes s [] [] [] w nothing_left = done
  Explains-Linearizes s [] (x ∷ es) [] w nothing_left = absurd (w.ops x (inl refl)).2
  Explains-Linearizes s (p ∷ ps) es [] w ex = elim ex [ ]
  Explains-Linearizes s ps es (_ ∷ ks) w (effect {s' = t} p among free st rest) =
      let c = call_of p.0 p.1 in
      let r = return_of p.0 p.1 in
      pick c r p.1.input p.1.output
        (IsEarly-open_calls es c w.sorted (w.calls p.0 p.1 among) refl (λ x h k.
          let (l, q, among', shape) = w.ops x h in
          elim shape [
            | inl f ↦
                let bad : call_entry ≡ return_entry = sym (ap (λ x. x.kind) f) ∙ k in absurd cc
            | inr f ↦ subst (IsEarly c) (sym f) (precedes-IsEarly p.0 l p.1 q (free (l, q) among'))
          ]))
        (w.returns p.0 p.1 among) refl refl refl refl st
        (Explains-Linearizes t (without p.0 ps) (drop_op p.0 es) ks (Stand-without p.0 ps es w)
          rest)

  -- The orders that linearize the entries of a history are those that explain its operations.
  pub Linearizes-IsLinear :
      (ops : Operations I O) (order : List ℕ)
      → Linearizes m m.init (make_entries ops) order ↔ Explains m m.init (number 0 ops) order
  unfolding make_entries
  Linearizes-IsLinear ops order =
      let (w, ids) = push_entries-Stand 0 ops in
      (
        Linearizes-Explains m.init (number 0 ops) (sort_by_time (push_entries 0 ops)) order w,
        Explains-Linearizes m.init (number 0 ops) (sort_by_time (push_entries 0 ops)) order w,
      )
