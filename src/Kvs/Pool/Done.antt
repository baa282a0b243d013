-- ===== src/Kvs/Pool/Done.antt =====
-- project_5/src/threadpool/shared_queue.rs: the threads come to the end of their jobs.
use key_value_distributed_sy.Base.{
  ℕ, zero, suc, ◌+◌, ◌*◌, ◌<◌, ◌≡◌, refl, ap, subst, ◌∙◌, sym, Bool, Bool-cases, List, [], ◌∷◌,
  ◌++◌, ◌⊎◌, inl, inr, length, ++-[], ◌==◌, ==_iff, ◌≤◌, arith,
}
use key_value_distributed_sy.Kvs.Errors.{ok}
use key_value_distributed_sy.Kvs.Pool.{
  Task, returning, panicking, Pool, receivers, new_pool, Work, recv, returns, replaced, Reach,
}
use key_value_distributed_sy.Kvs.Pool.Runs.{
  count, length-middle, IsPool, Work-IsPool, Reach-new_pool,
}

-- What is left to be done.
abbrev pub load : Pool → ℕ
load p = 2 * length p.queue + length p.running

Work-load : {p q : Pool} → Work p q → load q < load p
Work-load {p = p} (recv job rest n e i) =
    let l : length p.queue ≡ suc (length rest) = ap length e in omega arith
Work-load {p = p} (returns n xs ys e) =
    let m = ap length e ∙ length-middle (returning n) xs ys in omega arith
Work-load {p = p} (replaced n xs ys e) =
    let m = ap length e ∙ length-middle (panicking n) xs ys in omega arith

List-cases : (xs : List Task) → (xs ≡ []) ⊎ ((x : Task) × (rest : List Task) × (xs ≡ x ∷ rest))
List-cases [] = inl refl
List-cases (x ∷ rest) = inr (x, rest, refl)

predecessor : (n : ℕ) → 0 < n → (m : ℕ) × (n ≡ suc m)
predecessor zero h = absurd (omega arith)
predecessor (suc m) h = (m, refl)

ends : (p : Pool) (job : Task) (ys : List Task) → p.running ≡ job ∷ ys → (q : Pool) × Work p q
ends p (returning n) ys r = (_, returns n [] ys r)
ends p (panicking n) ys r = (_, replaced n [] ys r)

one_works : (p : Pool) → 0 < load p → 0 < receivers p → (q : Pool) × Work p q
one_works p l h = elim (List-cases p.running) [
  | inr (job, ys, r) ↦ ends p job ys r
  | inl r ↦
      let none : length p.running ≡ 0 = ap length r in
      let (n, i) = predecessor p.idle (omega arith) in
      elim (List-cases p.queue) [
        | inr (job, rest, e) ↦ (_, recv job rest n e i)
        | inl e ↦ let nothing : length p.queue ≡ 0 = ap length e in absurd (omega arith)
      ]
]

Work-receivers : {p q : Pool} → Work p q → receivers q ≡ receivers p
Work-receivers {p = p} (recv job rest n e i) = omega arith
Work-receivers {p = p} (returns n xs ys e) =
    let m = ap length e ∙ length-middle (returning n) xs ys in omega arith
Work-receivers {p = p} (replaced n xs ys e) =
    let m = ap length e ∙ length-middle (panicking n) xs ys in omega arith

-- What the threads do, one step after the other.
pub data Works : Pool → Pool → Type 0 where
  done : {p : Pool} → Works p p
  then_work : {p q r : Pool} → Work p q → Works q r → Works p r

-- Nothing is left to be begun or ended, and everything that was sent has ended, as often.
pub record IsOver (sent : List Task) (p : Pool) : Type 0 where
  pub queue : p.queue ≡ []
  pub running : p.running ≡ []
  pub same : p.sent ≡ sent
  pub every : (t : Task → Bool) → count t p.ended ≡ count t sent

Work-sent : {p q : Pool} → Work p q → q.sent ≡ p.sent
Work-sent (recv job rest n e i) = refl
Work-sent (returns n xs ys e) = refl
Work-sent (replaced n xs ys e) = refl

nothing : (xs : List Task) → length xs ≡ 0 → xs ≡ []
nothing [] e = refl
nothing (x ∷ xs) e = absurd (omega (arith, e))

over : {num : ℕ} (p : Pool) → IsPool num p → load p ≡ 0 → IsOver p.sent p
over p w e =
    let q : p.queue ≡ [] = nothing p.queue (omega (arith, e)) in
    let r : p.running ≡ [] = nothing p.running (omega (arith, e)) in
    let begun : p.begun ≡ p.sent =
      sym (++-[] p.begun) ∙ ap (λ z. p.begun ++ z) (sym q) ∙ w.in_order in
    record {
      queue = q;
      running = r;
      same = refl;
      every = λ t.
          let c = w.once t in
          let z : count t p.running ≡ 0 = ap (count t) r in
          let b : count t p.begun ≡ count t p.sent = ap (count t) begun in omega (arith, c, z, b);
    }

come_over :
    {num : ℕ} (fuel : ℕ) (p : Pool)
    → load p ≤ fuel
    → 0 < receivers p
    → IsPool num p
    → (q : Pool) × Works p q × IsOver p.sent q
come_over zero p l h w = (p, done, over p w (omega (arith, l)))
come_over (suc fuel) p l h w = elim (Bool-cases (load p == 0)) [
  | inl z ↦ (p, done, over p w ((==_iff (load p) 0).0 z))
  | inr z ↦
      let (q, s) = one_works p (ground (arith, z)) h in
      let less = Work-load s in
      let alive = Work-receivers s in
      let (r, rest, o) =
        come_over fuel q (omega (arith, less, l)) (omega (arith, alive, h)) (Work-IsPool s w) in
      (r, then_work s rest, subst (λ sent. IsOver sent r) (Work-sent s) o)
]

-- In every state that a new pool comes to in which a receiver is left: whatever
-- a thread does next with the jobs, a panic of a job included, less is left to be done and as many
-- receivers are left; and by such steps alone the threads can come to a state in which no job is queued or
-- runs, and the jobs that have ended are those that were sent, each as often.
pub Work-IsDone :
    (spawns : ℕ → Bool) (num : ℕ) (p q : Pool)
    → new_pool spawns num ≡ ok p
    → Reach p q
    → 0 < receivers q
    → ((r : Pool) → Work q r → (load r < load q) × (receivers r ≡ receivers q))
      × ((r : Pool) × Works q r × IsOver q.sent r)
Work-IsDone spawns num p q e r h = (
  λ r s. (Work-load s, Work-receivers s),
  come_over (load q) q (omega arith) h (Reach-new_pool spawns num p q e r),
)
