-- ===== src/Linearizability/Checker/Total.antt =====
-- `check_single` on the nodes of a complete history.
use key_value_distributed_sy.Base.{
  ℕ, zero, suc, ◌+◌, ◌*◌, ◌/◌, ◌≤◌, ◌<◌, ◌≡◌, refl, ap, ◌∙◌, sym, true, false, none, List, [], ◌∷◌,
  ◌==◌, arith, has, head?, length, All, Bool-cases, inl, inr, ◌⊎◌,
}
use key_value_distributed_sy.Linearizability.Bitset
use key_value_distributed_sy.Linearizability.Bitset.{mem}
use key_value_distributed_sy.Linearizability.Bitset.Laws.{new_lem}
use key_value_distributed_sy.Linearizability.Model.{Model, Value, nothing, EqualIsSound}
use key_value_distributed_sy.Linearizability.Nodes.{
  Ptr, Heap, LinkedNodes, alloc, push_front, len, len_from,
}
use key_value_distributed_sy.Linearizability.Nodes.Chain.{Chain, Chain-head?}
use key_value_distributed_sy.Linearizability.Search.{
  finished, run, budget, usize_max, start, check_single,
}
use key_value_distributed_sy.Linearizability.Search.Explore.{IsLevel, at_level}
use key_value_distributed_sy.Linearizability.Search.Decide.{decide}
use key_value_distributed_sy.Linearizability.Search.History.{remaining}
use key_value_distributed_sy.Linearizability.Entries.{Entry, Built, from_entries}
use key_value_distributed_sy.Linearizability.Entries.Build.{
  Links, IsListed, push-IsListed, Holds, Holds-push, addresses, IsBuilt, from_entries-IsBuilt,
}
use key_value_distributed_sy.Linearizability.Checker.Spec.{IsComplete, Linearizes}
use key_value_distributed_sy.Linearizability.Checker.Transfer.{Holds-IsHistory, Holds-HasUniqueIds}
use key_value_distributed_sy.Linearizability.Checker.Shows.{
  Holds-Shows, Linearizes-nodes, IsLinearizable-entries,
}

module _ {V : Type 0} where
  len_from-Chain :
      (h : Heap V) (x : Ptr) (xs : List Ptr) (fuel : ℕ)
      → Chain h x xs
      → length xs < fuel
      → len_from fuel h (h.next x) ≡ length xs
  unfolding len_from
  len_from-Chain h x xs zero c lt = omega arith
  len_from-Chain h x [] (suc fuel) c lt = rw c refl
  len_from-Chain h x (y ∷ ys) (suc fuel) c lt =
      rw c.0 (ap (λ n. n + 1) (len_from-Chain h y ys fuel c.2 (omega (arith, lt))) ∙ omega arith)

  len_from-Links :
      (h : Heap V) (xs : List Ptr) (fuel : ℕ)
      → Links h xs
      → length xs < fuel
      → len_from fuel h (head? xs) ≡ length xs
  unfolding len_from
  len_from-Links h xs zero c lt = omega arith
  len_from-Links h [] (suc fuel) c lt = refl
  len_from-Links h (x ∷ xs) (suc fuel) c lt =
      ap (λ n. n + 1) (len_from-Chain h x xs fuel c (omega (arith, lt))) ∙ omega arith

  -- `len` counts the nodes of the list.
  pub len-IsListed :
      (nodes : LinkedNodes) (h : Heap V) (xs : List Ptr)
      → IsListed nodes h xs
      → length xs ≤ h.fresh
      → len nodes h ≡ length xs
  unfolding len
  len-IsListed nodes h xs l le =
      ap (len_from (h.fresh + 1) h) l.first
      ∙ len_from-Links h xs (h.fresh + 1) l.links (omega (arith, le))

  Holds-length :
      (h : Heap V) (ps : List Ptr) (es : List (Entry V)) → Holds h ps es → length ps ≡ length es
  Holds-length h [] [] w = refl
  Holds-length h [] (x ∷ es) w = absurd w
  Holds-length h (p ∷ ps) [] w = absurd w
  Holds-length h (p ∷ ps) (x ∷ es) w = omega (arith, Holds-length h ps es w.1)

  ids_fit :
      (h : Heap V) (n : ℕ) (ps : List Ptr) (es : List (Entry V))
      → Holds h ps es
      → All (λ x. x.id < n) es
      → (p : Ptr) → has p ps ≡ true
      → h.id p < n
  ids_fit h n [] es w a p e = cc
  ids_fit h n (q ∷ ps) [] w a p e = absurd w
  ids_fit h n (q ∷ ps) (x ∷ es) w a p e = elim (Bool-cases (p == q)) [
    | inl t ↦ let pq : p ≡ q = ground arith in rw (pq, w.0.1) a.0
    | inr t ↦ ids_fit h n ps es w.1 a.1 p (ground arith)
  ]

  remaining-none :
      (h : Heap V) (b : Bitset.Bitset) (xs : List Ptr)
      → ((j : ℕ) → mem b j ≡ false)
      → remaining h b xs ≡ xs
  remaining-none h b [] e = refl
  remaining-none h b (x ∷ xs) e = ground (arith, e (h.id x), remaining-none h b xs e)

  Links-head :
      (nodes : LinkedNodes) (h : Heap V) (p : Ptr) (xs : List Ptr)
      → IsListed nodes h (p ∷ xs)
      → Chain h p xs
  Links-head nodes h p xs l = l.links

module _ {S I O : Type 0} (m : Model S I O) (n : ℕ) (es : List (Entry (Value I O)))
    (w : IsComplete n es) where
  abbrev built : Built I O
  built = from_entries es

  built-lem : IsBuilt built es
  built-lem = from_entries-IsBuilt es

  abbrev started : LinkedNodes × Heap (Value I O)
  started = push_front built.nodes built.heap.fresh (alloc nothing none usize_max built.heap).1

  addresses-length : length (addresses es) ≡ 2 * n
  addresses-length = Holds-length built.heap (addresses es) es built-lem.holds ∙ w.size

  half : len built.nodes built.heap / 2 ≡ n
  half =
      let l = len-IsListed built.nodes built.heap (addresses es) built-lem.listed (
        omega
          (arith, built-lem.fresh, Holds-length built.heap (addresses es) es built-lem.holds)) in
      omega (arith, l, addresses-length)

  started-Holds : Holds started.1 (addresses es) es
  started-Holds =
      Holds-push built.nodes nothing none usize_max built.heap (addresses es) es
        built-lem.listed.allocated built-lem.holds

  started-IsListed : IsListed started.0 started.1 (built.heap.fresh ∷ addresses es)
  started-IsListed =
      push-IsListed built.nodes nothing none usize_max built.heap (addresses es) built-lem.listed

  started-IsLevel :
      IsLevel m started.1 built.heap.fresh (addresses es) started.1 (addresses es) (Bitset.new n)
  started-IsLevel = record {
    nodes = record { fresh = refl; value = refl; matched = refl; id = refl };
    chain = started-IsListed.links;
    nodup = started-IsListed.nodup;
    history = Holds-IsHistory started.1 (addresses es) es started-Holds w.formed;
    unique = Holds-HasUniqueIds started.1 (addresses es) es started-Holds w.formed;
    left = sym (remaining-none started.1 (Bitset.new n) (addresses es) (new_lem n).2);
    words = (new_lem n).1;
    fits = λ p e.
        omega (arith, ids_fit started.1 n (addresses es) es started-Holds w.ids p e, (new_lem n).0);
  }

  -- The run of `check_single` on these nodes, from the state in which its loop starts.
  started_run :
      check_single m built.nodes built.heap (λ _. false)
      ≡ run m built.heap.fresh
          (λ _. false)
          (budget n + 1)
          (at_level m started.1 built.heap.fresh
            (addresses es)
            started.1
            (head? (addresses es))
            m.init
            (Bitset.new n)
            (λ _. [])
            [])
  unfolding check_single start
  started_run =
      ap
        (λ k.
          run m built.heap.fresh (λ _. false) (budget k + 1)
            (at_level m started.1 built.heap.fresh (addresses es) started.1
              (started.1.next built.heap.fresh) m.init (Bitset.new k) (λ _. []) []))
        half
      ∙ ap
          (λ e.
            run m built.heap.fresh (λ _. false) (budget n + 1)
              (at_level m started.1 built.heap.fresh (addresses es) started.1 e m.init
                (Bitset.new n) (λ _. []) []))
          (Chain-head? started.1 built.heap.fresh (addresses es) started-IsListed.links)

-- With the flag never set, `check_single` on the nodes of a complete history neither panics nor
-- runs out of its budget: it returns `true` and the history has a linearization, or it returns
-- `false` and the history has none. It holds when states that compare equal are equal.
pub check_single-decides :
    {S I O : Type 0} (m : Model S I O) (n : ℕ) (es : List (Entry (Value I O)))
    → EqualIsSound m
    → IsComplete n es
    → ((check_single m (from_entries es).nodes (from_entries es).heap (λ _. false) ≡ finished true)
        × ((order : List ℕ) × Linearizes m m.init es order))
      ⊎ ((check_single m (from_entries es).nodes (from_entries es).heap (λ _. false)
            ≡ finished false)
          × ((order : List ℕ) → ¬ Linearizes m m.init es order))
check_single-decides m n es sound w =
    let h = (started m n es w).1 in
    let ps = addresses es in
    let holds = started-Holds m n es w in
    let shows = Holds-Shows h ps es holds w.formed in
    let history = Holds-IsHistory h ps es holds w.formed in
    let unique = Holds-HasUniqueIds h ps es holds w.formed in
    elim (decide m sound h (from_entries es).heap.fresh ps h ps (Bitset.new n) m.init n
      (budget n + 1) (started-IsLevel m n es w) (omega (arith, addresses-length m n es w))
      (omega arith)) [
        | inl (e, lin) ↦
            inl
              (started_run m n es w ∙ e, IsLinearizable-entries m h m.init ps lin es shows history)
        | inr (e, never) ↦ inr (
          started_run m n es w ∙ e,
          λ order g. never (Linearizes-nodes m h m.init es order g ps shows history unique),
        )
      ]
