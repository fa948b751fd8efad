-- ===== src/Tcp/ShutdownTests.antt =====
-- A pool of two workers that is asked to stop while one task runs and one waits.
use mathlib.Core.List.{Perm}
use streaming_gateway.Prelude.{◌+◌, ◌*◌, ◌≤◌, ◌⊎◌, refl, [], ◌∷◌, ◌++◌, arith, length}
use streaming_gateway.Tcp.Pool.{new_pool, pick}
use streaming_gateway.Tcp.Order.{content}
use streaming_gateway.Tcp.Workers.{
  Threads, start_threads, stop_threads, wake, Works, worker_takes, worker_runs, worker_returns,
  Steps, none_yet, and_then,
}
use streaming_gateway.Tcp.Shutdown.{IsStopped, workers_return}

abbrev asked : Threads
asked = record (start_threads 2) {
  pool = record new_pool { task_queue = (8 ∷ []) ∷ []; taken = (7 ∷ []) ∷ [] };
}

abbrev ended : Threads
ended = record (stop_threads asked) {
  pool = record new_pool { messages = (8 ∷ []) ∷ (7 ∷ []) ∷ [] };
  workers = 0;
}

-- The free worker takes the task that waits, and runs it first.
ended-Steps : Steps 5 (stop_threads asked) ended
unfolding stop_threads start_threads wake pick
ended-Steps =
    and_then
      (and_then
        (and_then
          (and_then (and_then none_yet (worker_takes (omega arith) refl)) (worker_runs 1 refl))
          (worker_runs 0 refl))
        (worker_returns (omega arith) refl))
      (worker_returns (omega arith) refl)

workers_return_example :
    (5 ≤ 2 * length asked.pool.task_queue + length asked.pool.taken + asked.workers)
    × (((u : Threads) × Works ended u)
        ⊎ (IsStopped ended
            × Perm (ended.pool.returned ++ ended.pool.messages) (content asked.pool)))
unfolding start_threads
workers_return_example = workers_return asked (omega arith) (omega arith) ended-Steps
