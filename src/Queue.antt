-- ===== src/Queue.antt =====
-- core/common/src/ipc_message_queue.{h,cpp}: a queue of messages in a region of shared memory.
-- A process sees the bytes of the region, its own manager, and what the other processes do while
-- it waits.
pub mod Access
pub mod Metric
pub mod Lock
pub mod Transfer
pub mod Join
pub mod Enqueue
pub mod Deque
pub mod Ready
pub mod Publish
pub mod Shape
pub mod Moved
pub mod Effect
pub mod Published
pub mod Append
pub mod Remove
pub mod Take
pub mod Oldest
pub mod Overrun
pub mod Room
pub mod Wrap
pub mod Astray
pub mod Fifo
pub mod Endless
pub mod Overtake
pub mod Refine
mod Tests
mod WrapTests
mod PacedTests
mod LockTests
use streaming_gateway.Prelude.{ℕ, ◌+◌, ◌-◌, ◌%◌, ◌^◌, List, Bytes}
use streaming_gateway.Memory.{Cells}
use streaming_gateway.Manager.{SharedMemoryManager, add_size}

-- `peers` are the steps that other processes take, in order, at the times when this one spins on
-- the lock or sleeps. Within a critical section nobody else writes.
pub record World : Type 0 where
  pub cells : Cells
  pub manager : SharedMemoryManager
  pub peers : List (Cells → Cells)

-- `Message`. `processed` is the address of the flag; `bytes` is what `u_char* data` points at.
pub record Message : Type 0 where
  pub data_length : ℕ
  pub next_message_start : ℕ
  pub processed : ℕ
  pub bytes : Bytes

abbrev pub sub_size : ℕ → ℕ → ℕ
sub_size a b = (a + 2 ^ 64 - b) % 2 ^ 64

-- `FromRelationalPointer`
abbrev pub from_relational_pointer : ℕ → ℕ → ℕ
from_relational_pointer base_addr offset = add_size base_addr offset

-- `ToRelationalPointer`
abbrev pub to_relational_pointer : ℕ → ℕ → ℕ
to_relational_pointer base_addr ptr = sub_size ptr base_addr

-- `GetPtrOnProcessedOnSHM` and the three like it. `sizeof(std::atomic_bool)` is 1.
abbrev pub ptr_on_processed : ℕ → ℕ
ptr_on_processed base_addr = base_addr

abbrev pub ptr_on_data_length : ℕ → ℕ
ptr_on_data_length base_addr = add_size base_addr 1

abbrev pub ptr_on_next : ℕ → ℕ
ptr_on_next base_addr = add_size base_addr 9

abbrev pub ptr_on_data : ℕ → ℕ
ptr_on_data base_addr = add_size (ptr_on_next base_addr) 8

-- `MessageSizeOnSHM`
abbrev pub message_size_on_shm : Message → ℕ
message_size_on_shm msg = add_size (add_size (add_size 8 msg.data_length) 8) 1

-- `MessageSizeWithoutDataOnSHM`
abbrev pub message_size_without_data : ℕ
message_size_without_data = 17

-- `sizeof(QueueMetric)`: a flag, and words at 8, 16 and 24
abbrev pub metric_size : ℕ
metric_size = 32
