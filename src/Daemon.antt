-- ===== src/Daemon.antt =====
-- core/common/src/HandleStreamDaemon.{h,cpp}: the handler's side of the queue.
pub mod Handshake
pub mod Listen
pub mod Batch
pub mod Stream
pub mod Frames
pub mod Pipeline
pub mod Camera
pub mod Greeting
pub mod Tests
use streaming_gateway.Prelude.{ℕ, Bool, Bytes}
use streaming_gateway.Prelude.Run.{ok, throw, undefined, blocked, Cmd}
use streaming_gateway.Queue.{World}

-- The semaphores of System V and `getppid`, which are the kernel's, over a state of its own. A
-- descriptor is its bits; `false` is a failed `semctl`. Other processes act between two calls.
pub record Ipc (W : Type 0) : Type 0 where
  pub semget : ℕ → W → ℕ × W
  pub semctl_setval : ℕ → ℕ → W → Bool × W
  pub semctl_getval : ℕ → W → ℕ × W
  pub getppid : Bytes

-- `HandleStreamDaemon`, with the process's view of the queue and the kernel. `mu_held` is `mu_`.
pub record HandleStreamDaemon (W : Type 0) : Type 0 where
  pub world : World
  pub kernel : W
  pub mu_held : Bool
  pub initialized_publisher : Bool
