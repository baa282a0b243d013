-- ===== src/Tester/Kv/Runs.antt =====
-- The partition that a test makes, whatever it did before.
use key_value_distributed_sy.Base.{
  ℕ, zero, suc, ◌+◌, ◌*◌, ◌<◌, ◌≤◌, ◌≡◌, refl, ◌∙◌, sym, subst, Bool, false, Option, some, some_inj,
  List, [], ◌∷◌, ◌++◌, ltb, Bool-cases, inl, inr, length, has, arith,
}
use key_value_distributed_sy.Base.Decimal.{to_string}
use key_value_distributed_sy.Base.Loops.{each, put}
use key_value_distributed_sy.Base.Text.{Text}
use key_value_distributed_sy.Labrpc.Network.{NetworkCore, delete_server}
use key_value_distributed_sy.Tester.Config.Ends.{is_enabled}
use key_value_distributed_sy.Tester.Kv.{
  KvConfig, each_of, all, partition, connect_all, split, fresh_names, make_ends, disconnect,
  ends_of, renew, stop, shutdown_server, add_kv, start_server, save_new, blank, new, KvStep,
  start_of, shutdown_of, partition_of, partition_net, take_step, run_steps,
}
use key_value_distributed_sy.Tester.Kv.Each.{bind-some}
use key_value_distributed_sy.Tester.Kv.Cut.{chosen, same_group, partition-split}
use key_value_distributed_sy.Tester.Kv.Names.{
  IsNamed, IsNamed-IsApart, IsSame, IsSame-IsNamed, IsRenamed, IsRenamed-IsNamed,
}

module _ {N : Type 0} (make : List Text → ℕ → ℕ → Option ℕ → N) where
  start_server-IsRenamed :
      (i : ℕ) (c d : KvConfig N) → start_server make i c ≡ some d → IsRenamed i c d × (i < c.n)
  unfolding start_server
  start_server-IsRenamed i c d e = elim (Bool-cases (ltb i c.n)) [
    | inr f ↦ absurd (ground (arith, f, e))
    | inl f ↦
        let row = fresh_names c.next_id in
        let named : KvConfig N = record c {
          endnames = put c.endnames i row;
          next_id = c.next_id + c.n;
          net = make_ends c.n row c.net;
        } in
        let same : add_kv make i (renew i named) ≡ d = some_inj (sym (rw f refl) ∙ e) in
        (subst (IsRenamed i c) same (refl, refl, refl), ground (arith, f))
  ]

  shutdown_server-IsSame : (i : ℕ) (c d : KvConfig N) → shutdown_server i c ≡ some d → IsSame c d
  unfolding shutdown_server
  shutdown_server-IsSame i c d e =
      let (net, at, next) = bind-some (disconnect (ends_of c) i (all c.n) c.net) _ d e in
      elim (Bool-cases (ltb i c.n)) [
        | inr f ↦ absurd (ground (arith, f, next))
        | inl f ↦
            let off : KvConfig N = record c { net = delete_server (to_string i) net } in
            let same : stop i (renew i off) ≡ d = some_inj (sym (rw f refl) ∙ next) in
            subst (IsSame c) same (refl, refl, refl)
      ]

  partition_net-IsSame :
      (p1 p2 : List ℕ) (c d : KvConfig N) → partition_net make p1 p2 c ≡ some d → IsSame c d
  partition_net-IsSame p1 p2 c d e =
      let (net, at, next) = bind-some (partition (ends_of c) p1 p2 c.net) _ d e in
      subst (IsSame c) (some_inj next) (refl, refl, refl)

  take_step-IsNamed :
      (n : ℕ) (step : KvStep) (c d : KvConfig N)
      → IsNamed n n c
      → take_step make step c ≡ some d
      → IsNamed n n d
  take_step-IsNamed n (start_of i) c d w e =
      IsRenamed-IsNamed n n n i c d (start_server-IsRenamed i c d e).0 w (λ r h p. h)
  take_step-IsNamed n (shutdown_of i) c d w e =
      IsSame-IsNamed n n c d (shutdown_server-IsSame i c d e) w
  take_step-IsNamed n (partition_of p1 p2) c d w e =
      IsSame-IsNamed n n c d (partition_net-IsSame p1 p2 c d e) w

  run_steps-IsNamed :
      (n : ℕ) (steps : List KvStep) (c d : KvConfig N)
      → IsNamed n n c
      → run_steps make steps c ≡ some d
      → IsNamed n n d
  run_steps-IsNamed n [] c d w e = subst (IsNamed n n) (some_inj e) w
  run_steps-IsNamed n (step ∷ steps) c d w e =
      let (mid, first, rest) = bind-some (take_step make step c) (run_steps make steps) d e in
      run_steps-IsNamed n steps mid d (take_step-IsNamed n step c mid w first) rest

  each_of-append :
      {S : Type 0} (xs : List ℕ) (y : ℕ) (f : ℕ → S → Option S) (s s' : S)
      → each_of (xs ++ y ∷ []) f s ≡ some s'
      → (mid : S) × (each_of xs f s ≡ some mid) × (f y mid ≡ some s')
  each_of-append [] y f s s' e =
      let (mid, first, rest) = bind-some (f y s) (each_of [] f) s' e in (s, refl, first ∙ rest)
  each_of-append (x ∷ xs) y f s s' e =
      let (next, first, rest) = bind-some (f x s) (each_of (xs ++ y ∷ []) f) s' e in
      let (mid, before, turn) = each_of-append xs y f next s' rest in (mid, rw first before, turn)

  started-IsNamed :
      (n k : ℕ) (c d : KvConfig N)
      → IsNamed n 0 c
      → each_of (all k) (start_server make) c ≡ some d
      → IsNamed n k d
  started-IsNamed n zero c d w e = subst (IsNamed n 0) (some_inj e) w
  started-IsNamed n (suc k) c d w e =
      let (mid, before, turn) = each_of-append (all k) k (start_server make) c d e in
      IsRenamed-IsNamed n k (suc k) k mid d (start_server-IsRenamed k mid d turn).0
        (started-IsNamed n k c mid w before) (λ r h p. ground (arith, h, p))

  each-save_new-IsSame : (k : ℕ) (c : KvConfig N) → IsSame c (each k save_new c)
  each-save_new-IsSame zero c = (refl, refl, refl)
  each-save_new-IsSame (suc k) c = each-save_new-IsSame k c

  new-IsNamed :
      (n : ℕ) (unreliable : Bool) (maxraftstate : Option ℕ) (next_id next_server : ℕ)
      (c : KvConfig N)
      → new make n unreliable maxraftstate next_id next_server ≡ some c
      → IsNamed n n c
  unfolding new
  new-IsNamed n unreliable maxraftstate next_id next_server c e =
      let start : KvConfig N = blank n maxraftstate next_id next_server in
      let saved = each n save_new start in
      let nothing : IsNamed n 0 saved = record {
        size = (each-save_new-IsSame n start).0;
        ids = λ _ _. 0;
        named = λ i j h. absurd (omega arith);
        old = λ i j h. absurd (omega arith);
        apart = λ i j r l h. absurd (omega arith);
      } in
      let (started, first, rest) = bind-some (each_of (all n) (start_server make) saved) _ c e in
      let (net, at, next) = bind-some (connect_all (ends_of started) started.net) _ c rest in
      IsSame-IsNamed n n started c (subst (IsSame started) (some_inj next) (refl, refl, refl))
        (started-IsNamed n n saved started nothing first)

  -- A new tester of at least three servers, after whatever a test did: starts, shutdowns and
  -- partitions, none of which panicked. `partition` of the groups that `make_partition` makes then
  -- succeeds, the first group has more than a half of the servers and does not have the leader, or
  -- server 0 when no server claims to be the leader, and after it the endpoint from one server to
  -- another is enabled exactly when they are in the same group.
  pub run_steps-split :
      (n : ℕ) (unreliable : Bool) (maxraftstate : Option ℕ) (next_id next_server : ℕ)
      (steps : List KvStep) (fresh c : KvConfig N) (is_leader : N → Bool)
      → new make n unreliable maxraftstate next_id next_server ≡ some fresh
      → run_steps make steps fresh ≡ some c
      → 3 ≤ n
      → (c.n < 2 * length (split is_leader c).0)
        × (has (chosen is_leader c) (split is_leader c).0 ≡ false)
        × (net : NetworkCore) × (partition
              (ends_of c)
              (split is_leader c).0
              (split is_leader c).1
              c.net
            ≡ some net)
        × ((a b : ℕ)
            → a < c.n
            → b < c.n
            → is_enabled net (c.endnames a b) ≡ some (same_group (split is_leader c).0 a b))
  run_steps-split n unreliable maxraftstate next_id next_server steps fresh c is_leader e f size =
      let w =
        run_steps-IsNamed n steps fresh c
          (new-IsNamed n unreliable maxraftstate next_id next_server fresh e) f in
      partition-split is_leader c (IsNamed-IsApart n c w) (subst (λ m. 3 ≤ m) (sym w.size) size)
