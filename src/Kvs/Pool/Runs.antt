-- ===== src/Kvs/Pool/Runs.antt =====
-- project_5/src/threadpool/shared_queue.rs: what becomes of the jobs.
use key_value_distributed_sy.Base.{
  ℕ, zero, suc, ◌+◌, ◌<◌, ◌≡◌, refl, ap, subst, ◌∙◌, sym, Bool, true, false, Bool-cases, List, [],
  ◌∷◌, ◌++◌, inl, inr, length, ++-assoc, ◌==◌, arith,
}
use key_value_distributed_sy.Kvs.Errors.{Result, ok, err, panicked}
use key_value_distributed_sy.Kvs.Pool.{
  Task, returning, panicking, Pool, receivers, make_threads, fresh, fresh_result, new_pool, spawn,
  Work, recv, returns, replaced, Step, work, send, close, leave, Reach, here, next,
}

-- How many of some jobs have a property.
abbrev pub bit : Bool → ℕ
bit true = 1
bit false = 0

abbrev pub count : (Task → Bool) → List Task → ℕ
count t [] = 0
count t (x ∷ xs) = bit (t x) + count t xs

pub record IsPool (num : ℕ) (p : Pool) : Type 0 where
  pub counted : p.idle + length p.running + p.left ≡ num
  pub in_order : p.begun ++ p.queue ≡ p.sent
  pub once : (t : Task → Bool) → count t p.ended + count t p.running ≡ count t p.begun
  pub leaving : 0 < p.left → (p.queue ≡ []) × (p.is_open ≡ false)

pub length-middle :
    (x : Task) (xs ys : List Task) → length (xs ++ (x ∷ ys)) ≡ suc (length (xs ++ ys))
length-middle x [] ys = refl
length-middle x (y ∷ xs) ys = ap suc (length-middle x xs ys)

count-middle :
    (t : Task → Bool) (x : Task) (xs ys : List Task)
    → count t (xs ++ (x ∷ ys)) ≡ bit (t x) + count t (xs ++ ys)
count-middle t x [] ys = refl
count-middle t x (y ∷ xs) ys = let h = count-middle t x xs ys in omega (arith, h)

count-last :
    (t : Task → Bool) (xs : List Task) (x : Task)
    → count t (xs ++ (x ∷ [])) ≡ count t xs + bit (t x)
count-last t [] x = omega arith
count-last t (y ∷ xs) x = let h = count-last t xs x in omega (arith, h)

-- A job that runs ends.
count-end :
    (t : Task → Bool) (p : Pool) (job : Task) (xs ys : List Task)
    → p.running ≡ xs ++ (job ∷ ys)
    → count t p.ended + count t p.running ≡ count t p.begun
    → count t (p.ended ++ (job ∷ [])) + count t (xs ++ ys) ≡ count t p.begun
count-end t p job xs ys e c =
    let m : count t p.running ≡ bit (t job) + count t (xs ++ ys) =
      ap (count t) e ∙ count-middle t job xs ys in
    let l = count-last t p.ended job in omega (arith, c, m, l)

pub Work-IsPool : {num : ℕ} {p q : Pool} → Work p q → IsPool num p → IsPool num q
Work-IsPool {p = p} (recv job rest n e i) w = record {
  counted = let c = w.counted in omega arith;
  in_order = ++-assoc p.begun (job ∷ []) rest ∙ ap (λ queue. p.begun ++ queue) (sym e) ∙ w.in_order;
  once = λ t. let c = w.once t in let l = count-last t p.begun job in omega (arith, c, l);
  leaving = λ h. let q = (w.leaving h).0 in cc;
}
Work-IsPool {p = p} (returns n xs ys e) w =
    let m : length p.running ≡ suc (length (xs ++ ys)) =
      ap length e ∙ length-middle (returning n) xs ys in
    record {
      counted = let c = w.counted in omega arith;
      in_order = w.in_order;
      once = λ t. count-end t p (returning n) xs ys e (w.once t);
      leaving = w.leaving;
    }
Work-IsPool {p = p} (replaced n xs ys e) w =
    let m : length p.running ≡ suc (length (xs ++ ys)) =
      ap length e ∙ length-middle (panicking n) xs ys in
    record {
      counted = let c = w.counted in omega arith;
      in_order = w.in_order;
      once = λ t. count-end t p (panicking n) xs ys e (w.once t);
      leaving = w.leaving;
    }

send-IsPool :
    {num : ℕ} (p : Pool) (job : Task) → p.is_open ≡ true → IsPool num p → IsPool num (spawn p job).0
unfolding spawn
send-IsPool p job o w = elim (Bool-cases (receivers p == 0)) [
  | inl z ↦ rw z w
  | inr z ↦ rw z (record {
    counted = w.counted;
    in_order = sym (++-assoc p.begun p.queue (job ∷ [])) ∙ ap (λ xs. xs ++ (job ∷ [])) w.in_order;
    once = w.once;
    leaving = λ h. let q = (w.leaving h).1 in cc;
  })
]

Step-IsPool : {num : ℕ} {p q : Pool} → Step p q → IsPool num p → IsPool num q
Step-IsPool (work s) w = Work-IsPool s w
Step-IsPool {p = p} (send job o) w = send-IsPool p job o w
Step-IsPool close w = record {
  counted = w.counted;
  in_order = w.in_order;
  once = w.once;
  leaving = λ h. ((w.leaving h).0, refl);
}
Step-IsPool {p = p} (leave n e o i) w = record {
  counted = let c = w.counted in omega arith;
  in_order = w.in_order;
  once = w.once;
  leaving = λ h. (e, o);
}

Reach-IsPool : {num : ℕ} {p q : Pool} → Reach p q → IsPool num p → IsPool num q
Reach-IsPool here w = w
Reach-IsPool (next r s) w = Step-IsPool s (Reach-IsPool r w)

make_threads_lem :
    (spawns : ℕ → Bool) (more n m : ℕ) → make_threads spawns more n ≡ ok m → m ≡ more + n
unfolding make_threads
make_threads_lem spawns zero n m e = let same : n ≡ m = cc in omega arith
make_threads_lem spawns (suc more) n m e = elim (Bool-cases (spawns n)) [
  | inl s ↦
      let made : make_threads spawns more (suc n) ≡ ok m = ground (arith, e, s) in
      let r = make_threads_lem spawns more (suc n) m made in omega arith
  | inr s ↦ ground (arith, e, s)
]

fresh_result-inv :
    (r : Result ℕ) (p : Pool) → fresh_result r ≡ ok p → (n : ℕ) × (r ≡ ok n) × (fresh n ≡ p)
fresh_result-inv (ok n) p e = (n, refl, let same : fresh n ≡ p = cc in same)
fresh_result-inv (err x) p e = cc
fresh_result-inv panicked p e = cc

fresh-IsPool : (num : ℕ) → IsPool num (fresh num)
fresh-IsPool num = record {
  counted = omega arith;
  in_order = refl;
  once = λ t. refl;
  leaving = λ h. absurd (omega arith);
}

new_pool-IsPool :
    (spawns : ℕ → Bool) (num : ℕ) (p : Pool) → new_pool spawns num ≡ ok p → IsPool num p
unfolding new_pool
new_pool-IsPool spawns num p e =
    let (n, made, same) = fresh_result-inv (make_threads spawns num 0) p e in
    let all : n ≡ num = let r = make_threads_lem spawns num 0 n made in omega arith in
    subst (λ p. IsPool num p) same (subst (λ n. IsPool num (fresh n)) (sym all) (fresh-IsPool num))

-- In every state that a new pool comes to, whatever its threads and its users do in whatever order:
-- each of the threads waits, runs a job or left its loop; the jobs that were
-- begun, and then those in the queue, are the jobs that were sent, in their order, so that none is
-- begun twice or skipped; those that have ended and those that run are together those that were
-- begun, each as often; and no thread has left before the queue was empty and every sender gone.
pub Reach-new_pool :
    (spawns : ℕ → Bool) (num : ℕ) (p q : Pool)
    → new_pool spawns num ≡ ok p
    → Reach p q
    → IsPool num q
Reach-new_pool spawns num p q e r = Reach-IsPool r (new_pool-IsPool spawns num p e)
