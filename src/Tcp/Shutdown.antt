-- ===== src/Tcp/Shutdown.antt =====
-- The destructor's wait for the pool of TCPStreamer/src/TCPStreamer.h: all tasks are run, and all
-- workers return.
use mathlib.Core.List.{Perm}
use mathlib.Core.List.Perm
use mathlib.Core.Path.{subst}
use streaming_gateway.Prelude.{
  ℕ, zero, suc, ◌+◌, ◌*◌, ◌<◌, ◌≤◌, ◌≡◌, ◌⊎◌, inl, inr, refl, ap, ap₂, ◌∙◌, Bool, true, false, some,
  List, [], ◌∷◌, ◌++◌, Bytes, length, length-append, append-nil, arith,
}
use streaming_gateway.Tcp.Pool.{pick, take_front_task}
use streaming_gateway.Tcp.Order.{
  content, Perm-eq, pick_split, run_task-content, take_front_task-content,
}
use streaming_gateway.Tcp.Workers.{
  Threads, stop_threads, wake, takes, returns, Works, worker_takes, worker_runs, worker_returns,
  Steps, none_yet, and_then,
}

zero-cases : (n : ℕ) → (n ≡ 0) ⊎ (0 < n)
zero-cases zero = inl refl
zero-cases (suc n) = inr (omega arith)

-- How many steps are left
unfoldable pub steps_left : Threads → ℕ
steps_left s = 2 * length s.pool.task_queue + length s.pool.taken + s.workers

-- The pool was asked to stop, each task that was taken has a worker, and a worker is left for the
-- tasks in the queue.
pub record IsStopping (s : Threads) : Type 0 where
  pub asked : s.stop_thread_pool ≡ true
  pub busy : length s.pool.taken ≤ s.workers
  pub served : (0 < s.workers) ⊎ (s.pool.task_queue ≡ [])

-- All workers have returned, and no task is left.
pub record IsStopped (s : Threads) : Type 0 where
  pub gone : s.workers ≡ 0
  pub none_queued : s.pool.task_queue ≡ []
  pub none_taken : s.pool.taken ≡ []

wake-takes :
    (stop : Bool) (queue : List Bytes) (task : Bytes) (rest : List Bytes)
    → wake stop queue ≡ takes task rest
    → queue ≡ task ∷ rest
unfolding wake
wake-takes false [] task rest e = cc e
wake-takes true [] task rest e = cc e
wake-takes stop (x ∷ xs) task rest e = cc e

wake-returns : (stop : Bool) (queue : List Bytes) → wake stop queue ≡ returns → queue ≡ []
unfolding wake
wake-returns false [] e = refl
wake-returns true [] e = refl
wake-returns stop (x ∷ xs) e = cc e

length-pick :
    (i : ℕ) (taken : List Bytes) (task : Bytes) (others : List Bytes)
    → pick i taken ≡ some (task, others)
    → length taken ≡ length others + 1
length-pick i taken task others e =
    let (front, back, a, b) = pick_split i taken task others e in
    omega
      (arith, ap length a, ap length b, length-append front (task ∷ back), length-append front back)

-- Each step is one less to make.
Works-steps_left : {s t : Threads} → Works s t → steps_left s ≡ steps_left t + 1
unfolding steps_left
Works-steps_left {s} (worker_takes {task} {task_queue} free e) = omega (
  arith,
  ap length (wake-takes s.stop_thread_pool s.pool.task_queue task task_queue e),
  length-append s.pool.taken (task ∷ []),
)
Works-steps_left {s} (worker_runs {task} {others} i e) =
    omega (arith, length-pick i s.pool.taken task others e)
Works-steps_left (worker_returns free e) = omega arith

Works-IsStopping : {s t : Threads} → Works s t → IsStopping s → IsStopping t
Works-IsStopping {s} (worker_takes {task} {task_queue} free e) h = record {
  asked = h.asked;
  busy = omega (arith, length-append s.pool.taken (task ∷ []));
  served = inl (omega arith);
}
Works-IsStopping {s} (worker_runs {task} {others} i e) h = record {
  asked = h.asked;
  busy = omega (arith, h.busy, length-pick i s.pool.taken task others e);
  served = h.served;
}
Works-IsStopping {s} (worker_returns free e) h = record {
  asked = h.asked;
  busy = omega arith;
  served = inr (wake-returns s.stop_thread_pool s.pool.task_queue e);
}

Works-Perm : {s t : Threads} → Works s t → Perm (content t.pool) (content s.pool)
unfolding take_front_task
Works-Perm {s} {t} (worker_takes {task} {task_queue} free e) =
    let front = wake-takes s.stop_thread_pool s.pool.task_queue task task_queue e in
    Perm-eq (take_front_task-content (task ∷ task_queue) s.pool t.pool front refl)
Works-Perm {s} (worker_runs {task} {others} i e) = run_task-content i task others s.pool e
Works-Perm {s} (worker_returns free e) = Perm.refl (content s.pool)

-- A pool that was asked to stop can go on, or has stopped.
goes_on : (s : Threads) → IsStopping s → ((t : Threads) × Works s t) ⊎ IsStopped s
unfolding wake pick
goes_on s h = go s.pool.taken s.pool.task_queue refl refl
  where
    go :
        (taken task_queue : List Bytes)
        → s.pool.taken ≡ taken
        → s.pool.task_queue ≡ task_queue
        → ((t : Threads) × Works s t) ⊎ IsStopped s
    go (x ∷ xs) task_queue e f = inl (_, worker_runs 0 (ap (pick 0) e))
    go [] (x ∷ xs) e f =
        let some_left : 0 < s.workers = elim h.served [
          | inl some_left ↦ some_left
          | inr none ↦ absurd (cc (f, none))
        ] in
        inl (_, worker_takes (omega (arith, ap length e)) (ap₂ wake h.asked f))
    go [] [] e f = elim (zero-cases s.workers) [
      | inl none ↦ inr (record { gone = none; none_queued = f; none_taken = e })
      | inr some_left ↦ inl (_, worker_returns (omega (arith, ap length e)) (ap₂ wake h.asked f))
    ]

-- What holds after some steps
Steps-lem :
    {n : ℕ} {s t : Threads}
    → Steps n s t
    → IsStopping s
    → IsStopping t × (steps_left s ≡ steps_left t + n) × Perm (content t.pool) (content s.pool)
Steps-lem {s} none_yet h = (h, omega arith, Perm.refl (content s.pool))
Steps-lem (and_then steps work) h =
    let (h', left, same) = Steps-lem steps h in
    (
      Works-IsStopping work h',
      omega (arith, left, Works-steps_left work),
      Perm.trans (Works-Perm work) same,
    )

-- When the destructor asks the pool to stop, with a worker for each task that was taken and one at
-- least, the workers make at most two steps for each task in the queue, one for each task that was
-- taken, and one for each of themselves. After any of their steps they can go on, or all of them
-- have returned, no task is left, and the messages that were returned or wait for `new_message`
-- are those there were, each once, in some order.
pub workers_return :
    {n : ℕ} {t : Threads} (s : Threads)
    → length s.pool.taken ≤ s.workers
    → 0 < s.workers
    → Steps n (stop_threads s) t
    → (n ≤ 2 * length s.pool.task_queue + length s.pool.taken + s.workers)
      × (((u : Threads) × Works t u)
          ⊎ (IsStopped t × Perm (t.pool.returned ++ t.pool.messages) (content s.pool)))
unfolding steps_left stop_threads
workers_return {t} s busy some_left steps =
    let stopping : IsStopping (stop_threads s) = record {
      asked = refl;
      busy = busy;
      served = inl some_left;
    } in
    let (h, left, same) = Steps-lem steps stopping in
    (
      omega (arith, left),
      elim (goes_on t h) [
        | inl more ↦ inl more
        | inr stopped ↦ inr (stopped, subst (λ xs. Perm xs (content s.pool)) (all_out stopped) same)
      ],
    )
  where
    all_out : IsStopped t → content t.pool ≡ t.pool.returned ++ t.pool.messages
    all_out e =
        ap₂ (λ xs ys. t.pool.returned ++ (t.pool.messages ++ (xs ++ ys))) e.none_taken e.none_queued
        ∙ ap (◌++◌ t.pool.returned) (append-nil t.pool.messages)
