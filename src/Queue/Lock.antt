-- ===== src/Queue/Lock.antt =====
-- `QueueMetric::Acquire` and `Unlock` of core/common/src/ipc_message_queue.h, and `InitializeQueue`
-- of ipc_message_queue.cpp, between processes: a step relation on the bytes of the region and on
-- where each process stands.
pub mod Exclusion
pub mod Initialized
use streaming_gateway.Prelude.{
  ℕ, ◌≡◌, ◌≢◌, ◌∙◌, refl, sym, ap, true, false, [], ◌∷◌, ◌⊎◌, inl, inr, arith, ◌==◌, Bool-cases,
  if◌then◌else◌,
}
use streaming_gateway.Memory.{Cells, write_bytes, put64}
use streaming_gateway.Queue.{metric_size}
use streaming_gateway.Queue.Metric.{test_and_set, message_cnt, head_position, rear_position}
use streaming_gateway.Memory.Laws.{write_bytes_one, write_bytes_outside}

-- A process is outside, in the loop of `Acquire`, or behind it.
pub data Phase : Type 0 where
  outside : Phase
  spinning : Phase
  inside : Phase

pub record System : Type 0 where
  pub cells : Cells
  pub phase : ℕ → Phase

abbrev pub moved_to : ℕ → Phase → (ℕ → Phase) → ℕ → Phase
moved_to p x phase q = if p == q then x else phase q

-- `Unlock`
unfoldable pub cleared : ℕ → Cells → Cells
cleared metric c = write_bytes c metric (0 ∷ [])

-- What `InitializeQueue` puts at the front of the region: the flag, the counter and the positions
unfoldable pub fresh_metric : ℕ → Cells → Cells
fresh_metric metric c =
    put64
      (put64 (put64 (write_bytes c metric (0 ∷ [])) (message_cnt metric) 0) (head_position metric)
        metric_size)
      (rear_position metric) 0

-- A step of the process `p`. What a process behind `Acquire` stores leaves the flag alone. No process
-- calls `Acquire` for `InitializeQueue`, whose stores are one step.
pub data Moves (metric : ℕ) : (p : ℕ) → System → System → Type 0 where
  calls :
      {p : ℕ} {s : System}
      → s.phase p ≡ outside
      → Moves metric p s (record s { phase = moved_to p spinning s.phase })
  tries :
      {p : ℕ} {s : System}
      → s.phase p ≡ spinning
      → (test_and_set metric s.cells).0 ≡ true
      → Moves metric p s (record s { cells = (test_and_set metric s.cells).1 })
  enters :
      {p : ℕ} {s : System}
      → s.phase p ≡ spinning
      → (test_and_set metric s.cells).0 ≡ false
      → Moves metric p s
          (record { cells = (test_and_set metric s.cells).1; phase = moved_to p inside s.phase })
  stores :
      {p : ℕ} {s : System} (c : Cells)
      → s.phase p ≡ inside
      → c metric ≡ s.cells metric
      → Moves metric p s (record s { cells = c })
  leaves :
      {p : ℕ} {s : System}
      → s.phase p ≡ inside
      → Moves metric p s
          (record { cells = cleared metric s.cells; phase = moved_to p outside s.phase })
  initializes :
      {p : ℕ} {s : System}
      → s.phase p ≡ outside
      → Moves metric p s (record s { cells = fresh_metric metric s.cells })

-- The step is not an `InitializeQueue`.
unfoldable pub IsLocking : {metric p : ℕ} {s t : System} → Moves metric p s t → Type 0
IsLocking (calls out) = Unit
IsLocking (tries spins set) = Unit
IsLocking (enters spins clear) = Unit
IsLocking (stores c in_it same) = Unit
IsLocking (leaves in_it) = Unit
IsLocking (initializes out) = ⊥

-- Steps of any processes, one after another
pub data Reaches (metric : ℕ) : System → System → Type 0 where
  stays : {s : System} → Reaches metric s s
  goes : {p : ℕ} {s t u : System} → Reaches metric s t → Moves metric p t u → Reaches metric s u

-- No process calls `InitializeQueue`.
unfoldable pub Quiet : {metric : ℕ} {s t : System} → Reaches metric s t → Type 0
Quiet stays = Unit
Quiet (goes before move) = Quiet before × IsLocking move

pub moved_to-same : (p : ℕ) (x : Phase) (phase : ℕ → Phase) → moved_to p x phase p ≡ x
moved_to-same p x phase = ground arith

pub moved_to-other :
    (p q : ℕ) (x : Phase) (phase : ℕ → Phase) → p ≢ q → moved_to p x phase q ≡ phase q
moved_to-other p q x phase other = ground (arith, other)

pub outside≢inside : outside ≢ inside
outside≢inside e = cc e
