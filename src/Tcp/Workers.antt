-- ===== src/Tcp/Workers.antt =====
-- The threads of the pool of TCPStreamer/src/TCPStreamer.h until they end: how the constructor
-- starts them, how the destructor asks them to stop, and what `thread_pool_worker` does when it is
-- woken.
use streaming_gateway.Prelude.{
  ℕ, ◌+◌, ◌-◌, ◌<◌, ◌≡◌, Bool, true, false, some, List, [], ◌∷◌, ◌++◌, Bytes, length,
}
use streaming_gateway.Tcp.Pool.{Pool, new_pool, pick}

-- `workers` counts the threads of `thread_pool_` that have not returned.
pub record Threads : Type 0 where
  pub pool : Pool
  pub workers : ℕ
  pub stop_thread_pool : Bool

-- The loop of the constructor that fills `thread_pool_`
unfoldable pub start_threads : ℕ → Threads
start_threads thread_pool_size = record {
  pool = new_pool;
  workers = thread_pool_size;
  stop_thread_pool = false;
}

-- The block of the destructor under `task_mutex_`, and `notify_all`
unfoldable pub stop_threads : Threads → Threads
stop_threads s = record s { stop_thread_pool = true }

-- Under `task_mutex_` a worker sleeps, returns, or has a task and the tasks that are left.
pub data Woken : Type 0 where
  sleeps : Woken
  returns : Woken
  takes : Bytes → List Bytes → Woken

unfoldable pub wake : Bool → List Bytes → Woken
wake false [] = sleeps
wake true [] = returns
wake stop_thread_pool (task ∷ task_queue) = takes task task_queue

-- A step of one of the workers. One that has a task is not woken before it has run it.
pub data Works : Threads → Threads → Type 0 where
  worker_takes :
      {s : Threads} {task : Bytes} {task_queue : List Bytes}
      → length s.pool.taken < s.workers
      → wake s.stop_thread_pool s.pool.task_queue ≡ takes task task_queue
      → Works s (record s {
        pool = record s.pool { task_queue = task_queue; taken = s.pool.taken ++ (task ∷ []) };
      })
  worker_runs :
      {s : Threads} {task : Bytes} {others : List Bytes} (i : ℕ)
      → pick i s.pool.taken ≡ some (task, others)
      → Works s (record s {
        pool = record s.pool { taken = others; messages = s.pool.messages ++ (task ∷ []) };
      })
  worker_returns :
      {s : Threads}
      → length s.pool.taken < s.workers
      → wake s.stop_thread_pool s.pool.task_queue ≡ returns
      → Works s (record s { workers = s.workers - 1 })

-- Some steps, the last one first
pub data Steps : ℕ → Threads → Threads → Type 0 where
  none_yet : {s : Threads} → Steps 0 s s
  and_then : {n : ℕ} {s t u : Threads} → Steps n s t → Works t u → Steps (n + 1) s u
