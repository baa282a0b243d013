-- ===== src/Tester/Config/Runs.antt =====
-- The endpoints after the tester was made and after what a test does with the servers.
use key_value_distributed_sy.Base.{
  ℕ, zero, suc, ◌<◌, ◌≤◌, ◌≡◌, refl, ap, ◌∙◌, sym, subst, Bool, true, false, ◌&&◌, some, some_inj,
  List, [], ◌∷◌, inl, inr, ltb, ◌==◌, ==_iff, Bool-cases, arith,
}
use key_value_distributed_sy.Base.Loops.{each, put}
use key_value_distributed_sy.Base.Text.{Text}
use key_value_distributed_sy.Tester.Config.{Config, disconnect, connect, crash1, start1_ext}
use key_value_distributed_sy.Tester.Config.Ends.{is_enabled}
use key_value_distributed_sy.Tester.Config.Wired.{IsWired, put-same, put-other}
use key_value_distributed_sy.Tester.Config.Joined.{disconnect-IsWired, connect-IsWired}
use key_value_distributed_sy.Tester.Config.{
  save_new, blank, new_with, TestStep, start_of, crash_of, connect_of, disconnect_of, index_of,
  take_step, run_steps,
}
use key_value_distributed_sy.Tester.Config.Starts.{start1_ext-IsStarted, crash1-IsWired}
use key_value_distributed_sy.Tester.Config.Rows.{IsStarted-IsWired}

module _ {N : Type 0} (make : List Text → ℕ → ℕ → N) where
  start1_ext-IsWired :
      (row : ℕ → Bool) (i : ℕ) (c : Config N)
      → IsWired row c
      → i < c.n
      → IsWired (put row i true) (start1_ext make i c)
  unfolding crash1 disconnect
  start1_ext-IsWired row i c w inside =
      IsStarted-IsWired row i (crash1 i c) (start1_ext make i c) (crash1-IsWired row i c w inside)
        (start1_ext-IsStarted make i c) inside (put-same c.connected i false i refl)

  pub start1_ext-n : (i : ℕ) (c : Config N) → (start1_ext make i c).n ≡ c.n
  unfolding crash1 disconnect
  start1_ext-n i c = let s = start1_ext-IsStarted make i c in s.same_n

  -- Which of the servers are started is all that `row` says.
  IsWired-row :
      (row row' : ℕ → Bool) (c : Config N)
      → ((r : ℕ) → row r ≡ row' r)
      → IsWired row c
      → IsWired row' c
  IsWired-row row row' c e w = record {
    ids = w.ids;
    inside = λ i r. w.inside i (e i ∙ r);
    named = λ i j r. w.named i j (e i ∙ r);
    old = λ i j r. w.old i j (e i ∙ r);
    apart = λ i j k l r hj t hl. w.apart i j k l (e i ∙ r) hj (e k ∙ t) hl;
    unnamed = λ i j r. w.unnamed i j (e i ∙ r);
    wired = λ i j r. w.wired i j (e i ∙ r);
  }

  -- The first `k` servers are wired, and there are `n` servers.
  abbrev pub IsWiredTo : ℕ → ℕ → Config N → Type 0
  IsWiredTo n k c = (c.n ≡ n) × IsWired (λ r. ltb r k) c

  started-IsWiredTo :
      (n k i : ℕ) (c : Config N)
      → IsWiredTo n k c
      → i < n
      → (k' : ℕ) → ((r : ℕ) → put (λ r. ltb r k) i true r ≡ ltb r k')
      → IsWiredTo n k' (start1_ext make i c)
  started-IsWiredTo n k i c (e, w) h k' same = (
    start1_ext-n i c ∙ e,
    IsWired-row _ (λ r. ltb r k') _ same
        (start1_ext-IsWired _ i c w (subst (λ m. i < m) (sym e) h)),
  )

  each-start1_ext :
      (n k : ℕ) (c : Config N)
      → IsWiredTo n 0 c
      → k ≤ n
      → IsWiredTo n k (each k (start1_ext make) c)
  each-start1_ext n zero c w h = w
  each-start1_ext n (suc k) c w h =
      started-IsWiredTo n k k (each k (start1_ext make) c) (each-start1_ext n k c w (omega arith))
        (omega arith) (suc k)
        (λ r. elim (Bool-cases (r == k)) [
          | inl e ↦ put-same (λ r. ltb r k) k true r ((==_iff r k).0 e) ∙ sym (ground (arith, e))
          | inr e ↦ put-other (λ r. ltb r k) k true r e ∙ ground (arith, e)
        ])

  connected-IsWiredTo :
      (n k i : ℕ) (c : Config N) → IsWiredTo n k c → i < n → IsWiredTo n k (connect i c)
  unfolding connect
  connected-IsWiredTo n k i c (e, w) h =
      (e, connect-IsWired (λ r. ltb r k) c w i (subst (λ m. i < m) (sym e) h))

  each-connect :
      (n k : ℕ) (c : Config N) → IsWiredTo n n c → k ≤ n → IsWiredTo n n (each k connect c)
  each-connect n zero c w h = w
  each-connect n (suc k) c w h =
      connected-IsWiredTo n n k (each k connect c) (each-connect n k c w (omega arith))
        (omega arith)

  -- Before a server is started.
  abbrev IsBlank : ℕ → Config N → Type 0
  IsBlank n c = (c.n ≡ n) × (c.endnames ≡ (λ _ _. []))

  each-save_new : (n k : ℕ) (c : Config N) → IsBlank n c → IsBlank n (each k save_new c)
  each-save_new n zero c w = w
  each-save_new n (suc k) c w = each-save_new n k c w

  IsBlank-IsWiredTo : (n : ℕ) (c : Config N) → IsBlank n c → IsWiredTo n 0 c
  IsBlank-IsWiredTo n c (e, f) = (
    e,
    record {
      ids = λ _ _. 0;
      inside = λ i r. absurd (ground (arith, r));
      named = λ i j r. absurd (ground (arith, r));
      old = λ i j r. absurd (ground (arith, r));
      apart = λ i j k l r. absurd (ground (arith, r));
      unnamed = λ i j r. ap (λ f. f i j) f;
      wired = λ i j r. absurd (ground (arith, r));
    },
  )

  pub new_with-IsWiredTo :
      (n : ℕ) (unreliable : Bool) (next_id next_server : ℕ)
      → IsWiredTo n n (new_with make n unreliable next_id next_server)
  unfolding new_with
  new_with-IsWiredTo n unreliable next_id next_server =
      let start = blank n unreliable next_id next_server in
      let saved = each n save_new start in
      each-connect n n (each n (start1_ext make) saved)
        (each-start1_ext n n saved
          (IsBlank-IsWiredTo n saved (each-save_new n n start (refl, refl))) (omega arith))
        (omega arith)

  pub take_step-IsWiredTo :
      (n : ℕ) (step : TestStep) (c : Config N)
      → IsWiredTo n n c
      → index_of make step < n
      → IsWiredTo n n (take_step make step c)
  unfolding disconnect crash1
  take_step-IsWiredTo n (start_of i) c w h = started-IsWiredTo n n i c w h n (λ r.
      elim (Bool-cases (r == i)) [
        | inl e ↦ put-same (λ r. ltb r n) i true r ((==_iff r i).0 e) ∙ sym (ground (arith, e, h))
        | inr e ↦ put-other (λ r. ltb r n) i true r e
      ])
  take_step-IsWiredTo n (crash_of i) c (e, w) h =
      (e, crash1-IsWired _ i c w (subst (λ m. i < m) (sym e) h))
  take_step-IsWiredTo n (connect_of i) c w h = connected-IsWiredTo n n i c w h
  take_step-IsWiredTo n (disconnect_of i) c (e, w) h =
      (e, disconnect-IsWired _ c w i (subst (λ m. i < m) (sym e) h))

  pub run_steps-IsWiredTo :
      (n : ℕ) (steps : List TestStep) (c d : Config N)
      → IsWiredTo n n c
      → run_steps make steps c ≡ some d
      → IsWiredTo n n d
  run_steps-IsWiredTo n [] c d w h = subst (IsWiredTo n n) (some_inj h) w
  run_steps-IsWiredTo n (step ∷ steps) c d w h = elim (Bool-cases (ltb (index_of make step) c.n)) [
    | inl e ↦
        let below : index_of make step < n =
          subst (λ m. index_of make step < m) w.0 (ground (arith, e)) in
        run_steps-IsWiredTo n steps (take_step make step c) d (take_step-IsWiredTo n step c w below)
          (ground (arith, e, h))
    | inr e ↦ absurd (ground (arith, e, h))
  ]

  -- Whatever servers a test starts, crashes, connects and disconnects after the tester was made, the
  -- endpoint from one server to another is enabled exactly when both are connected.
  pub run_steps-is_enabled :
      (n : ℕ) (unreliable : Bool) (next_id next_server : ℕ) (steps : List TestStep) (c : Config N)
      → run_steps make steps (new_with make n unreliable next_id next_server) ≡ some c
      → (i j : ℕ) → i < n
      → j < n
      → is_enabled c.net (c.endnames i j) ≡ some (c.connected i && c.connected j)
  run_steps-is_enabled n unreliable next_id next_server steps c h i j hi hj =
      let (e, w) =
        run_steps-IsWiredTo n steps _ c (new_with-IsWiredTo n unreliable next_id next_server) h in
      w.wired i j (ground (arith, hi)) (subst (λ m. j < m) (sym e) hj)
