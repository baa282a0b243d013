-- ===== src/Kvs/Pool.antt =====
-- project_5/src/threadpool/shared_queue.rs: threads that run the jobs of one queue. Proofs are in the
-- child modules.
pub mod Runs
pub mod Done
mod Tests
use key_value_distributed_sy.Base.{
  ℕ, zero, suc, ◌+◌, ◌≡◌, Bool, true, false, List, [], ◌∷◌, ◌++◌, length, ◌==◌, if◌then◌else◌,
}
use key_value_distributed_sy.Kvs.Errors.{Result, ok, err, panicked, io_error}

-- A job, with a number of its own, and how it ends when it is run.
pub data Task : Type 0 where
  returning panicking : ℕ → Task

-- The jobs in the channel, the threads that wait in `recv`, the jobs that the others run, and whether
-- a sender is left. The rest is history: the jobs that were sent, begun and ended, in these orders,
-- and the threads that left their loop.
pub record Pool : Type 0 where
  pub queue : List Task
  pub idle : ℕ
  pub running : List Task
  pub is_open : Bool
  pub sent : List Task
  pub begun : List Task
  pub ended : List Task
  pub left : ℕ

-- Each thread has a receiver of the channel.
abbrev pub receivers : Pool → ℕ
receivers p = p.idle + length p.running

-- The loop of `new` over the threads that are still to be made, with those that there are; `spawns n`
-- is whether thread number n can be made.
unfoldable pub make_threads : (ℕ → Bool) → ℕ → ℕ → Result ℕ
make_threads spawns zero n = ok n
make_threads spawns (suc more) n =
    let rest = make_threads spawns more (suc n) in if spawns n then rest else err io_error

abbrev pub fresh : ℕ → Pool
fresh n = record {
  queue = [];
  idle = n;
  running = [];
  is_open = true;
  sent = [];
  begun = [];
  ended = [];
  left = 0;
}

abbrev pub fresh_result : Result ℕ → Result Pool
fresh_result (ok n) = ok (fresh n)
fresh_result (err e) = err e
fresh_result panicked = panicked

unfoldable pub new_pool : (ℕ → Bool) → ℕ → Result Pool
unfolding make_threads
new_pool spawns num = fresh_result (make_threads spawns num 0)

-- `spawn`: sending panics when no receiver is left.
unfoldable pub spawn : Pool → Task → Pool × Result Unit
spawn p job =
    if receivers p == 0
    then (p, panicked)
    else (record p { queue = p.queue ++ (job ∷ []); sent = p.sent ++ (job ∷ []) }, ok tt)

-- What the threads do with the jobs: `run_task`, and `drop` when a job panics.
pub data Work (p : Pool) : Pool → Type 0 where
  recv :
      (job : Task) (rest : List Task) (n : ℕ)
      → p.queue ≡ job ∷ rest
      → p.idle ≡ suc n
      → Work p (record p {
        queue = rest;
        idle = n;
        running = job ∷ p.running;
        begun = p.begun ++ (job ∷ []);
      })
  returns :
      (n : ℕ) (xs ys : List Task)
      → p.running ≡ xs ++ (returning n ∷ ys)
      → Work p (record p {
        idle = suc p.idle;
        running = xs ++ ys;
        ended = p.ended ++ (returning n ∷ []);
      })
  -- The thread that ends starts another one on a clone of its receiver. A start that fails drops
  -- that clone, which tries again; how often is not modelled.
  replaced :
      (n : ℕ) (xs ys : List Task)
      → p.running ≡ xs ++ (panicking n ∷ ys)
      → Work p (record p {
        idle = suc p.idle;
        running = xs ++ ys;
        ended = p.ended ++ (panicking n ∷ []);
      })

pub data Step (p : Pool) : Pool → Type 0 where
  work : {q : Pool} → Work p q → Step p q
  send : (job : Task) → p.is_open ≡ true → Step p (spawn p job).0
  -- The last clone of the pool is dropped.
  close : Step p (record p { is_open = false })
  -- `recv` fails, and the loop ends.
  leave :
      (n : ℕ)
      → p.queue ≡ []
      → p.is_open ≡ false
      → p.idle ≡ suc n
      → Step p (record p { idle = n; left = suc p.left })

pub data Reach (p : Pool) : Pool → Type 0 where
  here : Reach p p
  next : {q r : Pool} → Reach p q → Step q r → Reach p r
