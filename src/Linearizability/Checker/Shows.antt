-- ===== src/Linearizability/Checker/Shows.antt =====
-- Linearizations of a list of nodes are linearizations of the entries that the nodes hold.
use key_value_distributed_sy.Base.{
  ℕ, ◌≡◌, refl, ap, ◌∙◌, sym, subst, true, false, Option, none, some, List, [], ◌∷◌, ◌==◌, arith,
  has, Bool-cases, Option-cases, inl, inr, ==_iff,
}
use key_value_distributed_sy.Linearizability.Model.{Model, Value}
use key_value_distributed_sy.Linearizability.Nodes.{Ptr, Heap}
use key_value_distributed_sy.Linearizability.Search.Spec
use key_value_distributed_sy.Linearizability.Search.Spec.{
  IsMatch, IsHistory, HasUniqueIds, IsLinearizable, calls_prefix, drop_id,
}
use key_value_distributed_sy.Linearizability.Search.History.{match_of, IsHistory-drop_id}
use key_value_distributed_sy.Linearizability.Entries.{EntryKind, call_entry, return_entry, Entry}
use key_value_distributed_sy.Linearizability.Entries.Build.{match_ptr, Holds}
use key_value_distributed_sy.Linearizability.Checker.Spec.{
  In, open_calls, drop_op, Linearizes, done, pick, IsWellFormed, IsWellFormedAt,
}
use key_value_distributed_sy.Linearizability.Checker.Transfer.{kind_cases, find_return-exists}
use key_value_distributed_sy.Linearizability.Search.Decide.{has-calls_prefix}
use key_value_distributed_sy.Linearizability.Search.Explore.{HasUniqueIds-drop_id}

module _ {I O : Type 0} (h : Heap (Value I O)) where
  -- A node that has no match is a return.
  abbrev pub kind_of : Option Ptr → EntryKind
  kind_of none = return_entry
  kind_of (some r) = call_entry

  abbrev pub SameEntry : Ptr → Entry (Value I O) → Type 0
  SameEntry p x = (h.value p ≡ x.value) × (h.id p ≡ x.id) × (x.kind ≡ kind_of (h.matched p))

  abbrev pub Shows : List Ptr → List (Entry (Value I O)) → Type 0
  Shows [] [] = Unit
  Shows [] (x ∷ xs) = ⊥
  Shows (p ∷ ps) [] = ⊥
  Shows (p ∷ ps) (x ∷ xs) = SameEntry p x × Shows ps xs

  Holds-kind :
      (p : Ptr) (ps : List Ptr) (x : Entry (Value I O)) (xs : List (Entry (Value I O)))
      → Holds h (p ∷ ps) (x ∷ xs)
      → IsWellFormed (x ∷ xs)
      → x.kind ≡ kind_of (h.matched p)
  Holds-kind p ps x xs w f = elim (kind_cases x.kind) [
    | inl c ↦
        let g = subst (λ z. IsWellFormedAt z x xs) c f.0 in
        let (r, e) = find_return-exists h x.id ps xs w.1 g.1 in
        let m : h.matched p ≡ some r = w.0.2 ∙ ap (λ z. match_ptr z x.id ps xs) c ∙ e in
        c ∙ sym (ap kind_of m)
    | inr c ↦
        let m : h.matched p ≡ none = w.0.2 ∙ ap (λ z. match_ptr z x.id ps xs) c in
        c ∙ sym (ap kind_of m)
  ]

  pub Holds-Shows :
      (ps : List Ptr) (xs : List (Entry (Value I O)))
      → Holds h ps xs
      → IsWellFormed xs
      → Shows ps xs
  Holds-Shows [] [] w f = tt
  Holds-Shows [] (x ∷ xs) w f = w
  Holds-Shows (p ∷ ps) [] w f = w
  Holds-Shows (p ∷ ps) (x ∷ xs) w f =
      ((w.0.0, w.0.1, Holds-kind p ps x xs w f), Holds-Shows ps xs w.1 f.1)

  Shows-drop :
      (k : ℕ) (ps : List Ptr) (xs : List (Entry (Value I O)))
      → Shows ps xs
      → Shows (drop_id h k ps) (drop_op k xs)
  Shows-drop k [] [] w = tt
  Shows-drop k [] (x ∷ xs) w = absurd w
  Shows-drop k (p ∷ ps) [] w = absurd w
  Shows-drop k (p ∷ ps) (x ∷ xs) w = elim (Bool-cases (x.id == k)) [
    | inl e ↦
        let e' : (h.id p == k) ≡ true = ap (λ z. z == k) w.0.1 ∙ e in
        subst2 (sym (keep_out e')) (sym (keep_out' e)) (Shows-drop k ps xs w.1)
    | inr e ↦
        let e' : (h.id p == k) ≡ false = ap (λ z. z == k) w.0.1 ∙ e in
        subst2 (sym (keep_in e')) (sym (keep_in' e)) (w.0, Shows-drop k ps xs w.1)
  ]
    where
      subst2 :
          {us vs : List Ptr} {cs ds : List (Entry (Value I O))}
          → us ≡ vs
          → cs ≡ ds
          → Shows us cs
          → Shows vs ds
      subst2 {vs} {cs} s t g = subst (Shows vs) t (subst (λ z. Shows z cs) s g)

      keep_out : (h.id p == k) ≡ true → drop_id h k (p ∷ ps) ≡ drop_id h k ps
      keep_out e = ground (arith, e)

      keep_in : (h.id p == k) ≡ false → drop_id h k (p ∷ ps) ≡ p ∷ drop_id h k ps
      keep_in e = ground (arith, e)

      keep_out' : (x.id == k) ≡ true → drop_op k (x ∷ xs) ≡ drop_op k xs
      keep_out' e = ground (arith, e)

      keep_in' : (x.id == k) ≡ false → drop_op k (x ∷ xs) ≡ x ∷ drop_op k xs
      keep_in' e = ground (arith, e)

  entry_of :
      (p : Ptr) (ps : List Ptr) (xs : List (Entry (Value I O)))
      → Shows ps xs
      → has p ps ≡ true
      → (x : Entry (Value I O)) × In x xs × SameEntry p x
  entry_of p [] xs w e = cc
  entry_of p (q ∷ ps) [] w e = absurd w
  entry_of p (q ∷ ps) (x ∷ xs) w e = elim (Bool-cases (p == q)) [
    | inl t ↦ (x, inl refl, subst (λ z. SameEntry z x) (sym ((==_iff p q).0 t)) w.0)
    | inr t ↦ let (y, i, s) = entry_of p ps xs w.1 (ground arith) in (y, inr i, s)
  ]

  node_of :
      (x : Entry (Value I O)) (ps : List Ptr) (xs : List (Entry (Value I O)))
      → Shows ps xs
      → In x xs
      → (p : Ptr) × (has p ps ≡ true) × SameEntry p x
  node_of x [] [] w i = absurd i
  node_of x [] (y ∷ ys) w i = absurd w
  node_of x (p ∷ ps) [] w i = absurd i
  node_of x (p ∷ ps) (y ∷ ys) w (inl e) = (p, ground arith, subst (SameEntry p) (sym e) w.0)
  node_of x (p ∷ ps) (y ∷ ys) w (inr i) =
      let (q, m, s) = node_of x ps ys w.1 i in (q, ground (arith, m), s)

  -- The step of `calls_prefix`, and of `open_calls`.
  abbrev prefix_step : Option Ptr → Ptr → List Ptr → List Ptr
  prefix_step none p r = []
  prefix_step (some q) p r = p ∷ r

  abbrev open_step :
      EntryKind → Entry (Value I O) → List (Entry (Value I O)) → List (Entry (Value I O))
  open_step return_entry x r = []
  open_step call_entry x r = x ∷ r

  calls_prefix_step :
      (p : Ptr) (ps : List Ptr)
      → calls_prefix h (p ∷ ps) ≡ prefix_step (h.matched p) p (calls_prefix h ps)
  calls_prefix_step p ps = elim (Option-cases (h.matched p)) [
    | inl e ↦ ground (arith, e)
    | inr (r, e) ↦ ground (arith, e)
  ]

  open_calls_step :
      (x : Entry (Value I O)) (xs : List (Entry (Value I O)))
      → open_calls (x ∷ xs) ≡ open_step x.kind x (open_calls xs)
  open_calls_step x xs = elim (kind_cases x.kind) [
    | inl e ↦ ground (arith, e)
    | inr e ↦ ground (arith, e)
  ]

  Shows-steps :
      (o : Option Ptr) (p : Ptr) (ps : List Ptr) (x : Entry (Value I O))
      (xs : List (Entry (Value I O)))
      → SameEntry p x
      → Shows ps xs
      → Shows (prefix_step o p ps) (open_step (kind_of o) x xs)
  Shows-steps none p ps x xs e w = tt
  Shows-steps (some q) p ps x xs e w = (e, w)

  Shows-open :
      (ps : List Ptr) (xs : List (Entry (Value I O)))
      → Shows ps xs
      → Shows (calls_prefix h ps) (open_calls xs)
  Shows-open [] [] w = tt
  Shows-open [] (x ∷ xs) w = absurd w
  Shows-open (p ∷ ps) [] w = absurd w
  Shows-open (p ∷ ps) (x ∷ xs) w =
      subst (λ z. Shows z (open_calls (x ∷ xs))) (sym (calls_prefix_step p ps))
        (subst (Shows (prefix_step (h.matched p) p (calls_prefix h ps)))
          (sym (open_calls_step x xs ∙ ap (λ k. open_step k x (open_calls xs)) w.0.2))
          (Shows-steps (h.matched p) p (calls_prefix h ps) x (open_calls xs) w.0
            (Shows-open ps xs w.1)))

  kind_of-none : (o : Option Ptr) → kind_of o ≡ return_entry → o ≡ none
  kind_of-none none e = refl
  kind_of-none (some q) e = cc

  prefix-call :
      (p : Ptr) (ps : List Ptr)
      → has p (calls_prefix h ps) ≡ true
      → (q : Ptr) × (h.matched p ≡ some q)
  prefix-call p [] e = cc
  prefix-call p (x ∷ xs) e = elim (Option-cases (h.matched x)) [
    | inl k ↦ ground (arith, k, e)
    | inr (q, k) ↦ elim (Bool-cases (p == x)) [
      | inl t ↦ (q, ap h.matched ((==_iff p x).0 t) ∙ k)
      | inr t ↦ prefix-call p xs (ground (arith, k, t, e))
    ]
  ]

module _ {S I O : Type 0} (m : Model S I O) (h : Heap (Value I O)) where
  -- The nodes of a linearization of the entries.
  pub Linearizes-nodes :
      (s : S) (es : List (Entry (Value I O))) (order : List ℕ)
      → Linearizes m s es order
      → (ps : List Ptr) → Shows h ps es
      → IsHistory h ps
      → HasUniqueIds h ps
      → IsLinearizable m h s ps
  Linearizes-nodes s [] [] done [] w f u = Spec.done
  Linearizes-nodes s [] [] done (p ∷ ps) w f u = absurd w
  Linearizes-nodes s (x ∷ es) [] g ps w f u = elim g [ ]
  Linearizes-nodes s es (_ ∷ ks) (pick {s' = t'} c r i o ic ir kr same vc vr st rest) ps w f u =
      let (p, hp, sp) = node_of h c (calls_prefix h ps) (open_calls es) (Shows-open h ps es w) ic in
      let (q, hq, sq) = node_of h r ps es w ir in
      let (_, mt) = prefix-call h p ps hp in
      let mq : h.matched q ≡ none = kind_of-none h (h.matched q) (sym sq.2 ∙ kr) in
      let matches : h.matched p ≡ some q =
        elim (u p q (has-calls_prefix h p ps hp) hq (sp.1 ∙ sym same ∙ sym sq.1)) [
          | inl e ↦ cc (mt, ap h.matched e)
          | inr (inl e) ↦ e
          | inr (inr e) ↦ cc
        ] in
      Spec.pick p q i o hp matches (sp.0 ∙ vc) (sq.0 ∙ vr) st (
        subst (λ k. IsLinearizable m h t' (drop_id h k ps)) (sym sp.1)
          (Linearizes-nodes t' (drop_op c.id es) ks rest (drop_id h c.id ps)
            (Shows-drop h c.id ps es w) (IsHistory-drop_id h c.id ps f)
            (HasUniqueIds-drop_id m h 0 [] c.id ps u)))

  -- The entries of a linearization of the nodes.
  pub IsLinearizable-entries :
      (s : S) (ps : List Ptr)
      → IsLinearizable m h s ps
      → (es : List (Entry (Value I O))) → Shows h ps es
      → IsHistory h ps
      → (order : List ℕ) × Linearizes m s es order
  IsLinearizable-entries s [] Spec.done [] w f = ([], done)
  IsLinearizable-entries s [] Spec.done (x ∷ es) w f = absurd w
  IsLinearizable-entries s ps (Spec.pick {s' = t} e r i o he me ve vr st rest) es w f =
      let (c, ic, sc) =
        entry_of h e (calls_prefix h ps) (open_calls es) (Shows-open h ps es w) he in
      let mr = match_of h ps e r f (has-calls_prefix h e ps he) me in
      let (x, ix, sx) = entry_of h r ps es w mr.within in
      let (ks, g) =
        IsLinearizable-entries t (drop_id h (h.id e) ps) rest (drop_op (h.id e) es)
          (Shows-drop h (h.id e) ps es w) (IsHistory-drop_id h (h.id e) ps f) in
      (
        c.id ∷ ks,
        pick c x i o ic ix (sx.2 ∙ ap (kind_of h) mr.ends) (sym sx.1 ∙ mr.same_id ∙ sc.1)
            (sym sc.0 ∙ ve) (sym sx.0 ∙ vr) st
            (subst (λ k. Linearizes m t (drop_op k es) ks) sc.1 g),
      )
