-- ===== src/Gateway.antt =====
-- core/src/main.cpp: the three modes of the gateway, and how it ends.
pub mod Commands
pub mod Modes
pub mod Server
pub mod Daemons
pub mod Given
pub mod Passing
pub mod Hops
pub mod Endings
mod Tests
use streaming_gateway.Prelude.{ℕ, Bool, Option, List, Bytes}
use streaming_gateway.Manager.Region.{Host}

-- How a process ends: another program takes its place, with its name and its
-- arguments, it returns from `main`, it calls `exit`
-- (both with the bits of an `int`), or an assertion fails.
pub data Ending : Type 0 where
  executed : Bytes → List Bytes → Ending
  returned : ℕ → Ending
  exited : ℕ → Ending
  aborted : Ending

-- The globals `streamer_process`, `handler_process` and `shm_key`, with `shm_manager` and the kernel
pub record Gateway (W : Type 0) : Type 0 where
  pub host : Host W
  pub streamer_process : Option ℕ
  pub handler_process : Option ℕ
  pub shm_key : Bytes

-- What the gateway asks of the system and of boost: to start a child (`none` is an exception), to
-- terminate it and to wait for it (`false` is one), to unlink a key, to run the server in a thread
-- until it ends, and the tests in the assertions.
pub record Processes (W : Type 0) : Type 0 where
  pub child : Bytes → List Bytes → W → Option ℕ × W
  pub terminate : ℕ → W → Bool × W
  pub join : ℕ → W → Bool × W
  pub shm_unlink : Bytes → W → W
  pub serve : Bytes → W → W
  pub random_uuid : W → Bytes × W
  pub is_directory : Bytes → W → Bool
  pub exists : Bytes → W → Bool
  pub is_executable : Bytes → W → Bool
