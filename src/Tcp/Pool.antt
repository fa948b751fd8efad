-- ===== src/Tcp/Pool.antt =====
-- The threads of `TCPMessageIterator` in TCPStreamer/src/TCPStreamer.h, as moves on the two queues
-- that they share: the listener's task, `thread_pool_worker`, and `new_message`. Each move is made
-- under a mutex. What a worker does that is asked to stop is in Workers.
use streaming_gateway.Prelude.{
  ℕ, zero, suc, true, false, Option, none, some, List, [], ◌∷◌, ◌++◌, Bytes, length, ltb,
}

-- `task_queue_`, the tasks that workers have taken and not run yet, `messages_`, and what
-- `new_message` has returned so far
pub record Pool : Type 0 where
  pub task_queue : List Bytes
  pub taken : List Bytes
  pub messages : List Bytes
  pub returned : List Bytes

abbrev pub new_pool : Pool
new_pool = record { task_queue = []; taken = []; messages = []; returned = [] }

-- `emplace` by the listener, a worker that takes a task, the worker at a place that runs its task,
-- and a call of `new_message` that returns
pub data Move : Type 0 where
  emplace : Bytes → Move
  take_task : Move
  run_task : ℕ → Move
  new_message : Move

-- `task_queue_.front()` and `pop()`
unfoldable pub take_front_task : List Bytes → Pool → Option Pool
take_front_task [] p = none
take_front_task (m ∷ task_queue) p =
    some (record p { task_queue = task_queue; taken = p.taken ++ (m ∷ []) })

-- The task at a place among those taken, and the others
unfoldable pub pick : ℕ → List Bytes → Option (Bytes × List Bytes)
pick i [] = none
pick zero (m ∷ ms) = some (m, ms)
pick (suc i) (m ∷ ms) = elim (pick i ms) [ none ↦ none | some (n, ns) ↦ some (n, m ∷ ns) ]

-- `messages_.front()` and `erase`
unfoldable pub take_front_message : List Bytes → Pool → Option Pool
take_front_message [] p = none
take_front_message (m ∷ messages) p =
    some (record p { messages = messages; returned = p.returned ++ (m ∷ []) })

-- A move, for some number of workers; `none` where it is not possible.
unfoldable pub step : ℕ → Move → Pool → Option Pool
step thread_pool_size (emplace m) p = some (record p { task_queue = p.task_queue ++ (m ∷ []) })
step thread_pool_size take_task p = elim (ltb (length p.taken) thread_pool_size) [
  | true ↦ take_front_task p.task_queue p
  | false ↦ none
]
step thread_pool_size (run_task i) p = elim (pick i p.taken) [
  | none ↦ none
  | some (m, others) ↦ some (record p { taken = others; messages = p.messages ++ (m ∷ []) })
]
step thread_pool_size new_message p = take_front_message p.messages p

unfoldable pub steps : ℕ → List Move → Pool → Option Pool
steps thread_pool_size [] p = some p
steps thread_pool_size (move ∷ moves) p = elim (step thread_pool_size move p) [
  | none ↦ none
  | some q ↦ steps thread_pool_size moves q
]

-- The messages that the listener has put in
unfoldable pub arrivals : List Move → List Bytes
arrivals [] = []
arrivals (emplace m ∷ moves) = m ∷ arrivals moves
arrivals (take_task ∷ moves) = arrivals moves
arrivals (run_task i ∷ moves) = arrivals moves
arrivals (new_message ∷ moves) = arrivals moves
