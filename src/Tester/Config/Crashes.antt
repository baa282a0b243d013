-- ===== src/Tester/Config/Crashes.antt =====
-- What is saved after a server crashed.
use key_value_distributed_sy.Base.{
  ℕ, zero, suc, ◌<◌, ◌≡◌, refl, ap, ◌∙◌, sym, subst, Bool, true, false, some, some_inj, List, [],
  ◌∷◌, inl, inr, ltb, ◌==◌, ==_iff, Bool-cases, arith,
}
use key_value_distributed_sy.Base.Loops.{each, put}
use key_value_distributed_sy.Base.Text.{Text}
use key_value_distributed_sy.Tester.Persister.{
  Bytes, SimplePersister, Persisters, raft_state, save_raft_state, save_state_and_snapshot,
  copy_persister,
}
use key_value_distributed_sy.Tester.Config.{
  Config, disconnect, connect, crash1, start1_ext, save_new, blank, new_with, TestStep, start_of,
  crash_of, connect_of, disconnect_of, index_of, take_step, run_steps,
}
use key_value_distributed_sy.Tester.Config.Wired.{put-same, put-other}
use key_value_distributed_sy.Tester.Config.Kept.{
  IsKept, IsRenewed-IsKept, each-save_new, crash1-IsRenewed, start1_ext-IsRenewed,
}

module _ {N : Type 0} (make : List Text → ℕ → ℕ → N) where
  take_step-IsKept :
      (n : ℕ) (step : TestStep) (c : Config N) → IsKept n c → IsKept n (take_step make step c)
  unfolding disconnect connect
  take_step-IsKept n (start_of i) c w =
      IsRenewed-IsKept n n i c (start1_ext make i c) (start1_ext-IsRenewed make i c) w (λ r h p. h)
  take_step-IsKept n (crash_of i) c w =
      IsRenewed-IsKept n n i c (crash1 i c) (crash1-IsRenewed i c) w (λ r h p. h)
  take_step-IsKept n (connect_of i) c w = record { old = w.old; apart = w.apart }
  take_step-IsKept n (disconnect_of i) c w = record { old = w.old; apart = w.apart }

  run_steps-IsKept :
      (n : ℕ) (steps : List TestStep) (c d : Config N)
      → IsKept n c
      → run_steps make steps c ≡ some d
      → IsKept n d
  run_steps-IsKept n [] c d w h = subst (IsKept n) (some_inj h) w
  run_steps-IsKept n (step ∷ steps) c d w h = elim (Bool-cases (ltb (index_of make step) c.n)) [
    | inl e ↦
        run_steps-IsKept n steps (take_step make step c) d (take_step-IsKept n step c w)
          (ground (arith, e, h))
    | inr e ↦ absurd (ground (arith, e, h))
  ]

  each-IsKept :
      (n k : ℕ) (f : ℕ → Config N → Config N) (c : Config N)
      → ((i : ℕ) (d : Config N) → IsKept n d → IsKept n (f i d))
      → IsKept n c
      → IsKept n (each k f c)
  each-IsKept n zero f c keeps w = w
  each-IsKept n (suc k) f c keeps w = keeps k (each k f c) (each-IsKept n k f c keeps w)

  new_with-IsKept :
      (n : ℕ) (unreliable : Bool) (next_id next_server : ℕ)
      → IsKept n (new_with make n unreliable next_id next_server)
  unfolding new_with
  new_with-IsKept n unreliable next_id next_server =
      let saved = each n save_new (blank n unreliable next_id next_server) in
      let started = each n (start1_ext make) saved in
      each-IsKept n n connect started (λ i. take_step-IsKept n (connect_of i))
        (each-IsKept n n (start1_ext make) saved (λ i. take_step-IsKept n (start_of i))
          (each-save_new n (blank n unreliable next_id next_server)))

copy_persister-same : (p : ℕ) (ps : Persisters) → (copy_persister p ps).1.cells ps.next ≡ ps.cells p
copy_persister-same p ps = let e : (ps.next == ps.next) ≡ true = ground arith in rw e refl

put-put : {A : Type 0} (f : ℕ → A) (i : ℕ) (a b : A) (k : ℕ) → put (put f i a) i b k ≡ put f i b k
put-put f i a b k = elim (Bool-cases (k == i)) [ inl e ↦ rw e refl | inr e ↦ rw e refl ]

copy_persister-other :
    (p k : ℕ) (ps : Persisters)
    → (k == ps.next) ≡ false
    → (copy_persister p ps).1.cells k ≡ ps.cells k
copy_persister-other p k ps e = rw e refl

module _ {N : Type 0} (n i : ℕ) (c : Config N) (w : IsKept n c) (inside : i < n) where
  crash1-cells :
      (late : SimplePersister) (r : ℕ)
      → r < n
      → put (crash1 i c).persisters.cells (c.saved i) late ((crash1 i c).saved r)
        ≡ c.persisters.cells (c.saved r)
  unfolding crash1 disconnect
  crash1-cells late r h =
      let next = c.persisters.next in
      let crashed = crash1 i c in
      let less = w.old i inside in
      elim (Bool-cases (r == i)) [
        | inl p ↦
            let at = (==_iff r i).0 p in
            ap (put crashed.persisters.cells (c.saved i) late) (put-same c.saved i next r at)
            ∙ put-other crashed.persisters.cells (c.saved i) late next (ground (arith, less))
            ∙ copy_persister-same (c.saved i) c.persisters
            ∙ ap (λ r. c.persisters.cells (c.saved r)) (sym at)
        | inr p ↦
            let less' = w.old r h in
            let other : (c.saved r == c.saved i) ≡ false =
              elim (Bool-cases (c.saved r == c.saved i)) [
                | inl q ↦
                    let same = w.apart r i h inside ((==_iff (c.saved r) (c.saved i)).0 q) in
                    absurd (ground (arith, p, same))
                | inr q ↦ q
              ] in
            ap (put crashed.persisters.cells (c.saved i) late) (put-other c.saved i next r p)
            ∙ put-other crashed.persisters.cells (c.saved i) late (c.saved r) other
            ∙ copy_persister-other (c.saved i) (c.saved r) c.persisters (ground (arith, less'))
      ]

-- After whatever servers a test started, crashed, connected and disconnected since the tester was
-- made, server i crashes, and its old instance still saves a state and a snapshot: every server is
-- kept with the state and the snapshot that it had before the crash.
pub run_steps-crash1 :
    {N : Type 0} (make : List Text → ℕ → ℕ → N) (n : ℕ) (unreliable : Bool)
    (next_id next_server : ℕ) (steps : List TestStep) (c : Config N)
    → run_steps make steps (new_with make n unreliable next_id next_server) ≡ some c
    → (i r : ℕ) → i < n
    → r < n
    → (state snap : Bytes)
    → (save_state_and_snapshot (c.saved i) state snap (crash1 i c).persisters).cells
        ((crash1 i c).saved r)
      ≡ c.persisters.cells (c.saved r)
run_steps-crash1 make n unreliable next_id next_server steps c h i r hi hr state snap =
    let w =
      run_steps-IsKept make n steps (new_with make n unreliable next_id next_server) c
        (new_with-IsKept make n unreliable next_id next_server) h in
    let ps = (crash1 i c).persisters in
    let p = c.saved i in
    let first : SimplePersister = record { state = state; snap = (ps.cells p).snap } in
    let late : SimplePersister = record {
      state = raft_state p (save_raft_state p state ps);
      snap = snap;
    } in
    put-put ps.cells p first late ((crash1 i c).saved r) ∙ crash1-cells n i c w hi late r hr
