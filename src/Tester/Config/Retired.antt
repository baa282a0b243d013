-- ===== src/Tester/Config/Retired.antt =====
-- The endpoints of a server from before it was started again.
use key_value_distributed_sy.Base.{
  ℕ, ◌+◌, ◌<◌, ◌≡◌, ◌≢◌, refl, ap, ◌∙◌, sym, subst, Bool, true, false, ◌&&◌, some, some_inj, List,
  [], ◌∷◌, inl, inr, ltb, ◌==◌, ==_iff, Bool-cases, arith,
}
use key_value_distributed_sy.Base.Decimal.{to_string, to_string_inj}
use key_value_distributed_sy.Base.Loops.{each, put}
use key_value_distributed_sy.Base.Text.{Text}
use key_value_distributed_sy.Labrpc.Network.{NetworkCore}
use key_value_distributed_sy.Tester.Config.{
  Config, enable_if, disconnect, connect, crash1, start1_ext,
}
use key_value_distributed_sy.Tester.Config.Ends.{is_enabled, each-Effect}
use key_value_distributed_sy.Tester.Config.Wired.{untouched, touched, put-same}
use key_value_distributed_sy.Tester.Config.{
  new_with, TestStep, start_of, crash_of, connect_of, disconnect_of, index_of, take_step, run_steps,
}
use key_value_distributed_sy.Labrpc.Network.{Draws, Plan, give_up, process_rpc}
use key_value_distributed_sy.Labrpc.Network.Delivery.{process_rpc-given_up}
use key_value_distributed_sy.Tester.Config.Starts.{
  is_enabled-delete_server, IsStarted, start1_ext-IsStarted, crash1-IsWired,
}
use key_value_distributed_sy.Tester.Config.Runs.{IsWiredTo, new_with-IsWiredTo, run_steps-IsWiredTo}

module _ {N : Type 0} where
  -- A name that was used for an endpoint, which is disabled, and that no endpoint has now.
  record IsRetired (x : Text) (c : Config N) : Type 0 where
    pub id : ℕ
    pub named : x ≡ to_string id
    pub old : id < c.next_id
    pub gone : (r j : ℕ) → r < c.n → j < c.n → c.endnames r j ≢ x
    pub disabled : is_enabled c.net x ≡ some false

  disconnect-IsRetired :
      (x : Text) (a : ℕ) (c : Config N) → IsRetired x c → IsRetired x (disconnect a c)
  unfolding disconnect
  disconnect-IsRetired x a c w =
      let mid = each c.n (λ j. enable_if true false (c.endnames a j)) c.net in
      record {
        id = w.id;
        named = w.named;
        old = w.old;
        gone = w.gone;
        disabled = touched (each-Effect false c.n (λ _. true) (λ j. c.endnames j a) mid x) (
            inr (
              touched (each-Effect false c.n (λ _. true) (λ j. c.endnames a j) c.net x)
                (inr w.disabled)));
      }

  connect-IsRetired :
      (x : Text) (a : ℕ) (c : Config N) → IsRetired x c → a < c.n → IsRetired x (connect a c)
  unfolding connect
  connect-IsRetired x a c w inside =
      let connected' = put c.connected a true in
      let mid = each c.n (λ j. enable_if (connected' j) true (c.endnames a j)) c.net in
      record {
        id = w.id;
        named = w.named;
        old = w.old;
        gone = w.gone;
        disabled =
            untouched (each-Effect true c.n connected' (λ j. c.endnames j a) mid x)
              (λ k h e. w.gone k a h inside)
            ∙ untouched (each-Effect true c.n connected' (λ j. c.endnames a j) c.net x)
                (λ k h e. w.gone a k inside h)
            ∙ w.disabled;
      }

  crash1-IsRetired : (x : Text) (a : ℕ) (c : Config N) → IsRetired x c → IsRetired x (crash1 a c)
  unfolding crash1 disconnect
  crash1-IsRetired x a c w =
      let d = disconnect-IsRetired x a c w in
      record {
        id = d.id;
        named = d.named;
        old = d.old;
        gone = d.gone;
        disabled = is_enabled-delete_server (to_string a) x (disconnect a c).net ∙ d.disabled;
      }

  module _ (x : Text) (i : ℕ) (c d : Config N) (s : IsStarted i c d) (id : ℕ)
      (named : x ≡ to_string id) (old : id < c.next_id) where
    -- A new name is no old one.
    fresh-gone : (j : ℕ) → j < c.n → d.endnames i j ≢ x
    fresh-gone j h e =
        let same = to_string_inj (j + c.next_id) id (sym (s.fresh j h) ∙ e ∙ named) in
        absurd (omega arith)

    IsStarted-IsRetired :
        ((r j : ℕ) → r < c.n → j < c.n → (r == i) ≡ false → c.endnames r j ≢ x)
        → is_enabled c.net x ≡ some false
        → IsRetired x d
    IsStarted-IsRetired gone disabled = record {
      id = id;
      named = named;
      old = subst (λ m. id < m) (sym s.next) (omega arith);
      gone = λ r j hr hj e.
          let hr' = subst (λ m. r < m) s.same_n hr in
          let hj' = subst (λ m. j < m) s.same_n hj in
          elim (Bool-cases (r == i)) [
            | inl p ↦ fresh-gone j hj' (ap (λ r. d.endnames r j) (sym ((==_iff r i).0 p)) ∙ e)
            | inr p ↦ gone r j hr' hj' p (ap (λ f. f j) (sym (s.others r p)) ∙ e)
          ];
      disabled =
          s.disabled x
          ∙ touched (each-Effect false c.n (λ _. true) (λ j. d.endnames i j) c.net x)
              (inr disabled);
    }

module _ {N : Type 0} (make : List Text → ℕ → ℕ → N) where
  -- The names that server `i` had when it is started again.
  start1_ext-IsRetired :
      (n i j : ℕ) (c : Config N)
      → IsWiredTo make n n c
      → i < n
      → j < n
      → IsRetired (c.endnames i j) (start1_ext make i c)
  unfolding crash1 disconnect
  start1_ext-IsRetired n i j c (e, w) hi hj =
      let i_in : i < c.n = subst (λ m. i < m) (sym e) hi in
      let j_in : j < c.n = subst (λ m. j < m) (sym e) hj in
      let row : ltb i n ≡ true = ground (arith, hi) in
      let crashed = crash1-IsWired (λ r. ltb r n) i c w i_in in
      IsStarted-IsRetired (c.endnames i j) i (crash1 i c) (start1_ext make i c)
        (start1_ext-IsStarted make i c) (w.ids i j) (w.named i j row j_in) (w.old i j row j_in)
        (λ r k hr hk p z.
          let r_row : ltb r n ≡ true = ground (arith, subst (λ m. r < m) e hr) in
          let same =
            to_string_inj (w.ids r k) (w.ids i j)
              (sym (w.named r k r_row hk) ∙ z ∙ w.named i j row j_in) in
          let at = (w.apart r k i j r_row hk row j_in same).0 in absurd (ground (arith, p, at)))
        (crashed.wired i j row j_in
          ∙ ap (λ b. some (b && (crash1 i c).connected j)) (put-same c.connected i false i refl))

  take_step-IsRetired :
      (x : Text) (n : ℕ) (step : TestStep) (c : Config N)
      → IsRetired x c
      → index_of make step < c.n
      → IsRetired x (take_step make step c)
  unfolding crash1 disconnect
  take_step-IsRetired x n (start_of i) c w h =
      let crashed = crash1-IsRetired x i c w in
      IsStarted-IsRetired x i (crash1 i c) (start1_ext make i c) (start1_ext-IsStarted make i c)
        w.id w.named w.old (λ r k hr hk p. w.gone r k hr hk) crashed.disabled
  take_step-IsRetired x n (crash_of i) c w h = crash1-IsRetired x i c w
  take_step-IsRetired x n (connect_of i) c w h = connect-IsRetired x i c w h
  take_step-IsRetired x n (disconnect_of i) c w h = disconnect-IsRetired x i c w

  run_steps-IsRetired :
      (x : Text) (steps : List TestStep) (c d : Config N)
      → IsRetired x c
      → run_steps make steps c ≡ some d
      → IsRetired x d
  run_steps-IsRetired x [] c d w h = subst (IsRetired x) (some_inj h) w
  run_steps-IsRetired x (step ∷ steps) c d w h = elim (Bool-cases (ltb (index_of make step) c.n)) [
    | inl e ↦
        run_steps-IsRetired x steps (take_step make step c) d
          (take_step-IsRetired x c.n step c w (ground (arith, e))) (ground (arith, e, h))
    | inr e ↦ absurd (ground (arith, e, h))
  ]

  -- Server i is started again after whatever servers a test started, crashed, connected and
  -- disconnected since the tester was made. However the test goes on with these, an RPC over an endpoint that the server had before, if the code does not panic, is given
  -- up, so that its old instance reaches no server.
  pub run_steps-given_up :
      (n : ℕ) (unreliable : Bool) (next_id next_server : ℕ) (steps later : List TestStep)
      (c d : Config N)
      → run_steps make steps (new_with make n unreliable next_id next_server) ≡ some c
      → (i j : ℕ) → i < n
      → j < n
      → run_steps make later (start1_ext make i c) ≡ some d
      → (draws : Draws) (net : NetworkCore) (plan : Plan)
      → process_rpc d.net (c.endnames i j) draws ≡ some (net, plan)
      → (ms : ℕ) × (plan ≡ give_up ms)
  run_steps-given_up n unreliable next_id next_server steps later c d h i j hi hj g draws net plan
        sent =
      let w =
        run_steps-IsWiredTo make n steps (new_with make n unreliable next_id next_server) c
          (new_with-IsWiredTo make n unreliable next_id next_server) h in
      let retired =
        run_steps-IsRetired (c.endnames i j) later (start1_ext make i c) d
          (start1_ext-IsRetired n i j c w hi hj) g in
      process_rpc-given_up d.net net (c.endnames i j) draws plan retired.disabled sent
