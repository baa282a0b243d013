-- ===== src/Linearizability/Search/Decide.antt =====
-- `check_single` decides linearizability: within its budget of rounds it returns `true` exactly
-- for the histories that have a linearization.
use key_value_distributed_sy.Base.{
  ℕ, zero, suc, ◌+◌, ◌*◌, ◌≤◌, ◌<◌, ◌≡◌, refl, ap, ◌∙◌, sym, subst, true, false, some, List, [],
  ◌∷◌, arith, has, head?, length, All-mono, Bool-cases, Option-cases, inl, inr, ◌⊎◌,
}
use key_value_distributed_sy.Linearizability.Bitset.{Bitset}
use key_value_distributed_sy.Linearizability.Model.{Model, Value, EqualIsSound}
use key_value_distributed_sy.Linearizability.Nodes.{Ptr, Heap}
use key_value_distributed_sy.Linearizability.Nodes.Chain.{Chain, Chain-head?}
use key_value_distributed_sy.Linearizability.Search.{
  CacheEntry, Cache, CallsEntry, cache_contains, cache_push, budget, run, Run, finished,
}
use key_value_distributed_sy.Linearizability.Search.Spec.{
  calls_prefix, has_return, drop_id, IsLinearizable, done, IsMatch, IsHistory,
}
use key_value_distributed_sy.Linearizability.Search.History.{has_return_lem}
use key_value_distributed_sy.Linearizability.Search.Rounds.{
  here, Steps-run, round-empty, round-stuck,
}
use key_value_distributed_sy.Linearizability.Search.Cache.{AllCached, AllCached-push}
use key_value_distributed_sy.Linearizability.Search.Explore.{
  IsLevel, IsSettled, at_level, Explored, found, exhausted, NoPick-IsLinearizable, NoPick-return,
  Descent, descend,
}
use key_value_distributed_sy.Linearizability.Search.Scan.{
  scan_rejected, scan_cached, scan_done, scan_below,
}

List-cases : (xs : List Ptr) → (xs ≡ []) ⊎ ((y : Ptr) × (ys : List Ptr) × (xs ≡ y ∷ ys))
List-cases [] = inl refl
List-cases (x ∷ xs) = inr (x, xs, refl)

mul_mono : (a b c : ℕ) → a ≤ b → a * c ≤ b * c
mul_mono a b c h = grind arith

pub has-calls_prefix :
    {V : Type 0} (h : Heap V) (y : Ptr) (xs : List Ptr)
    → has y (calls_prefix h xs) ≡ true
    → has y xs ≡ true
has-calls_prefix h y [] e = cc
has-calls_prefix h y (x ∷ xs) e = elim (Option-cases (h.matched x)) [
  | inl k ↦ ground (arith, k)
  | inr (r, k) ↦ ground (arith, k, has-calls_prefix h y xs)
]

module _ {S I O : Type 0} (m : Model S I O) (sound : EqualIsSound m) (h0 : Heap (Value I O))
    (head : Ptr) (xs0 : List Ptr) where
  Explored-weaken :
      {h : Heap (Value I O)} {xs : List Ptr} {b : Bitset} {s : S} {calls : List (CallsEntry S)}
      {c : Cache S} {rest : List Ptr} {k : ℕ} (bound : ℕ)
      → k ≤ bound
      → Explored m h0 head xs0 h xs b s calls c rest k
      → Explored m h0 head xs0 h xs b s calls c rest bound
  Explored-weaken bound le (found n t l st em lin) = found n t (omega arith) st em lin
  Explored-weaken bound le (exhausted n r c' l st end ext np) =
      exhausted n r c' (omega arith) st end ext np

  -- The search of a whole level with at most `d` operations.
  abbrev IsExplored : ℕ → Type 1
  IsExplored d =
      (h : Heap (Value I O)) (xs : List Ptr) (b : Bitset)
      → IsLevel m h0 head xs0 h xs b
      → length xs ≤ 2 * d
      → (y : Ptr) (ys : List Ptr) → xs ≡ y ∷ ys
      → (s : S) (calls : List (CallsEntry S)) (c : Cache S)
      → AllCached (IsSettled m h0 head xs0 (length xs)) c
      → Explored m h0 head xs0 h xs b s calls c xs (budget d)

  IsSettled-below :
      (h : Heap (Value I O)) (xs : List Ptr) (b : Bitset) (e : Ptr)
      (d : Descent m h0 head xs0 h xs b e) (c : Cache S) (s' : S) (k : ℕ)
      → AllCached (IsSettled m h0 head xs0 (length xs)) c
      → AllCached
          (IsSettled m h0 head xs0 (length (drop_id h0 (h0.id e) xs)))
          (cache_push c k (record { linearized = d.set; state = s' }))
  IsSettled-below h xs b e d c s' k ok =
      AllCached-push _ c k (record { linearized = d.set; state = s' })
        (λ j. All-mono (c j) (λ x. weaken x) (ok j))
        (inr (omega (arith, ap (length {A = Ptr}) d.level.left)))
    where
      weaken :
          (x : CacheEntry S)
          → IsSettled m h0 head xs0 (length xs) x
          → IsSettled m h0 head xs0 (length (drop_id h0 (h0.id e) xs)) x
      weaken x (inl dead) = inl dead
      weaken x (inr far) = inr (omega (arith, d.shorter))

  module _ (d : ℕ) (deeper : IsExplored d) (h : Heap (Value I O)) (xs : List Ptr) (b : Bitset)
      (l : IsLevel m h0 head xs0 h xs b) (le : length xs ≤ 2 * suc d) {x : Ptr}
      (busy : h.next head ≡ some x) (s : S) (calls : List (CallsEntry S)) where
    abbrev Scanned : List Ptr → ℕ → Type 1
    Scanned rest bound =
        (c : Cache S)
        → AllCached (IsSettled m h0 head xs0 (length xs)) c
        → Explored m h0 head xs0 h xs b s calls c rest bound

    scan_call :
        (e r n : Ptr) (rest : List Ptr) (bound : ℕ)
        → has e (calls_prefix h0 xs) ≡ true
        → h0.matched e ≡ some r
        → IsMatch h0 e r rest
        → h.next e ≡ some n
        → head? rest ≡ some n
        → Scanned rest bound
        → Scanned (e ∷ rest) (bound + (budget d + 2))
    scan_call e r n rest bound hp k im nx hd ih c ok =
        let he = has-calls_prefix h0 e xs hp in
        let (i, ve) = im.arg in
        let (o, vr) = im.res in
        let s' = (m.step s i o).1 in
        let down = descend m h0 head xs0 h xs b e r n l he k nx in
        let below = drop_id h0 (h0.id e) xs in
        elim (Bool-cases (m.step s i o).0) [
          | inr no_step ↦ Explored-weaken (bound + (budget d + 2)) (omega arith) (
              scan_rejected m sound h0 head xs0 h xs b l s calls e r n rest i o he k ve vr nx hd
                busy bound ih c ok s' (λ j. (no_step j, s')))
          | inl takes ↦
              let st : m.step s i o ≡ (true, s') = λ j. (takes j, s') in
              elim (Bool-cases
                (cache_contains m c (record { linearized = down.set; state = s' }))) [
                  | inl hit ↦ Explored-weaken (bound + (budget d + 2)) (omega arith) (
                      scan_cached m sound h0 head xs0 h xs b l s calls e r n rest i o he k ve vr nx
                        hd busy bound ih c ok down s' st hit)
                  | inr miss ↦ elim (List-cases below) [
                    | inl empty ↦ Explored-weaken (bound + (budget d + 2)) (omega arith) (
                        scan_done m sound h0 head xs0 h xs b l s calls e r n rest i o he k ve vr nx
                          hd busy bound ih c ok down s' st miss hp empty)
                    | inr (y, ys, shape) ↦
                        scan_below m sound h0 head xs0 h xs b l s calls e r n rest i o he k ve vr nx
                          hd busy bound ih c ok down s' y ys (budget d) st miss hp shape
                          (deeper down.heap below down.set down.level (omega (arith, down.shorter))
                            y ys shape s' (record { entry = some e; state = s } ∷ calls) _
                            (IsSettled-below h xs b e down c s' _ ok))
                  ]
                ]
        ]

    scan :
        (rest : List Ptr) (q : Ptr)
        → Chain h q rest
        → IsHistory h0 rest
        → has_return h0 rest ≡ true
        → ((y : Ptr) → has y (calls_prefix h0 rest) ≡ true → has y (calls_prefix h0 xs) ≡ true)
        → Scanned rest (length rest * (budget d + 2))
    scan [] q ch hist ret pre c ok = cc
    scan (e ∷ rest) q ch hist ret pre c ok = elim (Option-cases (h0.matched e)) [
      | inl k ↦
          exhausted zero e c (omega arith) here k (λ Q dead all. all)
            (NoPick-return m h0 head xs0 s xs e rest k)
      | inr (r, k) ↦
          let im = hist.0 r k in
          elim (List-cases rest) [
            | inl t ↦ cc (ap (has r) t, im.behind)
            | inr (n, ns, t) ↦ Explored-weaken (suc (length rest) * (budget d + 2)) (omega arith) (
                scan_call e r n rest (length rest * (budget d + 2)) (pre e (ground (arith, k))) k im
                  (Chain-head? h e rest ch.2 ∙ ap head? t) (ap head? t)
                  (scan rest e ch.2 hist.1 (ground (arith, k))
                    (λ y g. pre y (ground (arith, k, g))))
                  c ok)
          ]
    ]

  explore : (d : ℕ) → IsExplored d
  explore zero h xs b l le y ys shape s calls c ok =
      absurd (omega (arith, ap (length {A = Ptr}) shape))
  explore (suc d) h xs b l le y ys shape s calls c ok =
      Explored-weaken (budget (suc d)) (mul_mono (length xs) (2 * suc d) (budget d + 2) le) (
        scan d (explore d) h xs b l le (Chain-head? h head xs l.chain ∙ ap head? shape) s calls xs
          head l.chain l.history
          (subst (λ z. has_return h0 z ≡ true) (sym shape)
            (has_return_lem h0 y ys (subst (IsHistory h0) shape l.history)))
          (λ z g. g) c ok)

  -- What a run comes to, and what that says of the history.
  abbrev pub Decides : Run → S → List Ptr → Type 0
  Decides r s xs =
      ((r ≡ finished true) × IsLinearizable m h0 s xs)
      ⊎ ((r ≡ finished false) × (¬ IsLinearizable m h0 s xs))

  decide-Explored :
      (h : Heap (Value I O)) (y : Ptr) (ys : List Ptr) (b : Bitset) (s : S) (c : Cache S)
      (bound fuel : ℕ)
      → h.matched ≡ h0.matched
      → h.next head ≡ some y
      → bound < fuel
      → Explored m h0 head xs0 h (y ∷ ys) b s [] c (y ∷ ys) bound
      → Decides
          (run m head (λ _. false) fuel (at_level m h0 head xs0 h (some y) s b c []))
          s
          (y ∷ ys)
  decide-Explored h y ys b s c bound fuel same busy le (found n t l st em lin) =
      inl (Steps-run m head fuel true st (round-empty m head t em) (omega arith), lin)
  decide-Explored h y ys b s c bound fuel same busy le (exhausted n r c' l st end ext np) = inr (
    Steps-run m head fuel false st
        (round-stuck m head _ busy r refl (ap (λ f. f r) same ∙ end) refl) (omega arith),
    NoPick-IsLinearizable m h0 head xs0 s y ys np,
  )

  -- From the state in which the loop is entered, the budget is enough for an answer, and the
  -- answer is right.
  pub decide :
      (h : Heap (Value I O)) (xs : List Ptr) (b : Bitset) (s : S) (d fuel : ℕ)
      → IsLevel m h0 head xs0 h xs b
      → length xs ≤ 2 * d
      → budget d < fuel
      → Decides
          (run m head (λ _. false) fuel (at_level m h0 head xs0 h (head? xs) s b (λ _. []) []))
          s
          xs
  decide h [] b s d fuel l le lt =
      inl (Steps-run m head fuel true here (round-empty m head _ l.chain) (omega arith), done)
  decide h (y ∷ ys) b s d fuel l le lt =
      decide-Explored h y ys b s (λ _. []) (budget d) fuel l.nodes.matched l.chain.0 lt
        (explore d h (y ∷ ys) b l le y ys refl s [] (λ _. []) (λ k. tt))
