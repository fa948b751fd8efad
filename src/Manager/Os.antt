-- ===== src/Manager/Os.antt =====
-- The system calls that shared_memory_manager.cpp makes. They are the kernel's: a parameter of the
-- model, over a state that the model does not look into.
use streaming_gateway.Prelude.{ℕ, Bool, Option, Bytes}

-- `st_size` of `fstat`: a failed call, a negative `off_t`, or a size
pub data FileStatus : Type 0 where
  failed : FileStatus
  negative : FileStatus
  size : ℕ → FileStatus

-- `none` and `false` stand for the result -1 (`MAP_FAILED` for `mmap`). The permissions and the
-- modes are fixed by the callers. A size above the range of `off_t` stands for the negative
-- number with its bits.
pub record Os (W : Type 0) : Type 0 where
  pub shm_open : (key : Bytes) → W → Option ℕ × W
  pub ftruncate : (fd byte_size : ℕ) → W → Bool × W
  pub fstat : (fd : ℕ) → W → FileStatus × W
  pub mmap : (fd offset byte_size : ℕ) → W → Option ℕ × W
  pub close : (fd : ℕ) → W → Bool × W
  pub munmap : (addr byte_size : ℕ) → W → Bool × W
