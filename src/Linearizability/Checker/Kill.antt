-- ===== src/Linearizability/Checker/Kill.antt =====
-- The kill flag of `check_single`, which any round may find set.
use key_value_distributed_sy.Base.{
  ℕ, zero, suc, ◌≡◌, refl, ◌∙◌, sym, Bool, true, false, List, Option-cases, inl, inr, ◌⊎◌,
}
use key_value_distributed_sy.Linearizability.Model.{Model, Value, EqualIsSound}
use key_value_distributed_sy.Linearizability.Nodes.{Ptr, Heap, LinkedNodes}
use key_value_distributed_sy.Linearizability.Search.{
  Search, Outcome, running, returned, panicked, finished, iteration, run, check_single,
}
use key_value_distributed_sy.Linearizability.Entries.{Entry, from_entries}
use key_value_distributed_sy.Linearizability.Checker.Spec.{IsComplete, Linearizes}
use key_value_distributed_sy.Linearizability.Checker.Total.{check_single-decides}

Outcome-cases :
    {A : Type 0} (o : Outcome A)
    → ((a : A) × (o ≡ running a)) ⊎ ((b : Bool) × (o ≡ returned b)) ⊎ (o ≡ panicked)
Outcome-cases (running a) = inl (a, refl)
Outcome-cases (returned b) = inr (inl (b, refl))
Outcome-cases panicked = inr (inr refl)

module _ {S I O : Type 0} (m : Model S I O) (head : Ptr) where
  iteration_killed :
      (b : Bool) (s : Search S I O)
      → (iteration m head b s ≡ iteration m head false s) ⊎ (iteration m head b s ≡ returned false)
  unfolding iteration
  iteration_killed false s = inl refl
  iteration_killed true s = elim (Option-cases (s.heap.next head)) [
    | inl e ↦ inl (rw e refl)
    | inr (p, e) ↦ inr (rw e refl)
  ]

  run_running :
      (kill : ℕ → Bool) (fuel : ℕ) (s t : Search S I O)
      → iteration m head (kill fuel) s ≡ running t
      → run m head kill (suc fuel) s ≡ run m head kill fuel t
  unfolding run
  run_running kill fuel s t e = rw (e, run)

  run_ended :
      (kill kill' : ℕ → Bool) (fuel : ℕ) (s : Search S I O)
      → iteration m head (kill fuel) s ≡ iteration m head (kill' fuel) s
      → ((b : Bool) × (iteration m head (kill fuel) s ≡ returned b))
        ⊎ (iteration m head (kill fuel) s ≡ panicked)
      → run m head kill (suc fuel) s ≡ run m head kill' (suc fuel) s
  unfolding run
  run_ended kill kill' fuel s e (inl (b, k)) = rw (sym e, k, run) refl
  run_ended kill kill' fuel s e (inr k) = rw (sym e, k, run) refl

  run_returned :
      (kill : ℕ → Bool) (fuel : ℕ) (s : Search S I O) (b : Bool)
      → iteration m head (kill fuel) s ≡ returned b
      → run m head kill (suc fuel) s ≡ finished b
  unfolding run
  run_returned kill fuel s b e = rw (e, run)

  run_out : (kill : ℕ → Bool) (s : Search S I O) → run m head kill 0 s ≡ run m head (λ _. false) 0 s
  unfolding run
  run_out kill s = refl

  -- The flag can only cut a run short, with the answer `false`.
  run_killed :
      (kill : ℕ → Bool) (fuel : ℕ) (s : Search S I O)
      → (run m head kill fuel s ≡ run m head (λ _. false) fuel s)
        ⊎ (run m head kill fuel s ≡ finished false)
  run_killed kill zero s = inl (run_out kill s)
  run_killed kill (suc fuel) s = elim (iteration_killed (kill fuel) s) [
    | inr e ↦ inr (run_returned kill fuel s false e)
    | inl e ↦ elim (Outcome-cases (iteration m head false s)) [
      | inl (t, k) ↦
          let here = run_running kill fuel s t (e ∙ k) in
          elim (run_killed kill fuel t) [
            | inl g ↦ inl (here ∙ g ∙ sym (run_running (λ _. false) fuel s t k))
            | inr g ↦ inr (here ∙ g)
          ]
      | inr (inl (b, k)) ↦ inl (run_ended kill (λ _. false) fuel s e (inl (b, e ∙ k)))
      | inr (inr k) ↦ inl (run_ended kill (λ _. false) fuel s e (inr (e ∙ k)))
    ]
  ]

check_single_killed :
    {S I O : Type 0} (m : Model S I O) (nodes : LinkedNodes) (h : Heap (Value I O))
    (kill : ℕ → Bool)
    → (check_single m nodes h kill ≡ check_single m nodes h (λ _. false))
      ⊎ (check_single m nodes h kill ≡ finished false)
unfolding check_single
check_single_killed m nodes h kill = run_killed m _ kill _ _

-- Whatever the flag holds in each round, `check_single` on the nodes of a complete history returns,
-- and when it returns `true` the history has a linearization. It holds when states that compare
-- equal are equal.
pub check_single_sound :
    {S I O : Type 0} (m : Model S I O) (n : ℕ) (es : List (Entry (Value I O))) (kill : ℕ → Bool)
    → EqualIsSound m
    → IsComplete n es
    → ((check_single m (from_entries es).nodes (from_entries es).heap kill ≡ finished true)
        × ((order : List ℕ) × Linearizes m m.init es order))
      ⊎ (check_single m (from_entries es).nodes (from_entries es).heap kill ≡ finished false)
check_single_sound m n es kill sound w =
    elim (check_single_killed m (from_entries es).nodes (from_entries es).heap kill) [
      | inr e ↦ inr e
      | inl e ↦ elim (check_single-decides m n es sound w) [
        | inl (d, lin) ↦ inl (e ∙ d, lin)
        | inr (d, never) ↦ inr (e ∙ d)
      ]
    ]
