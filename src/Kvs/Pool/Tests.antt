-- ===== src/Kvs/Pool/Tests.antt =====
-- The theorems on the thread pool, on two threads and one job.
use key_value_distributed_sy.Base.{ℕ, ◌<◌, ◌≡◌, refl, true, Bool, [], ◌∷◌, arith}
use key_value_distributed_sy.Kvs.Errors.{ok}
use key_value_distributed_sy.Kvs.Pool.{
  Task, panicking, Pool, receivers, make_threads, fresh, new_pool, spawn, Work, recv, replaced,
  Step, work, send, Reach, here, next,
}
use key_value_distributed_sy.Kvs.Pool.Runs.{IsPool, Reach-new_pool}
use key_value_distributed_sy.Kvs.Pool.Done.{load, Works, IsOver, Work-IsDone}

abbrev spawns : ℕ → Bool
spawns n = true

made : new_pool spawns 2 ≡ ok (fresh 2)
unfolding new_pool make_threads
made = refl

abbrev job : Task
job = panicking 7

abbrev sent : Pool
sent = record (fresh 2) { queue = job ∷ []; sent = job ∷ [] }

abbrev over : Pool
over = record (fresh 2) { sent = job ∷ []; begun = job ∷ []; ended = job ∷ [] }

fresh-sent : Step (fresh 2) sent
unfolding spawn
fresh-sent = send job refl

reached : Reach (fresh 2) over
reached =
    next (next (next here fresh-sent) (work (recv job [] 1 refl refl)))
      (work (replaced 7 [] [] refl))

Reach-new_pool_example : IsPool 2 over
Reach-new_pool_example = Reach-new_pool spawns 2 (fresh 2) over made reached

Work-IsDone_example :
    ((r : Pool) → Work sent r → (load r < load sent) × (receivers r ≡ receivers sent))
    × ((r : Pool) × Works sent r × IsOver sent.sent r)
Work-IsDone_example = Work-IsDone spawns 2 (fresh 2) sent made (next here fresh-sent) (omega arith)
