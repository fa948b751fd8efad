-- ===== src/Manager.antt =====
-- core/common/src/shared_memory_manager.{h,cpp}: the regions that a process has mapped, and the
-- calls that register, look up and unregister them. The mutex is a flag of the state.
pub mod Os
pub mod Region
pub mod Register
pub mod Unregister
pub mod Keeps
pub mod Lookup
pub mod Unregisters
pub mod Registers
pub mod Reused
pub mod Interface
pub mod Session
mod Tests
use streaming_gateway.Prelude.{
  ℕ, ◌+◌, ◌-◌, ◌%◌, ◌^◌, Bool, true, false, ◌||◌, Option, none, some, List, [], ◌∷◌, Bytes, ltb,
  if◌then◌else◌,
}
use streaming_gateway.Prelude.Run.{
  Run, ok, throw, undefined, blocked, Cmd, pure, raise, shared_memory_exception, runtime_error,
}
use streaming_gateway.Dict.{lookup}

-- `sizeof(size_t)` is 8, and its arithmetic wraps.
abbrev pub add_size : ℕ → ℕ → ℕ
add_size a b = (a + b) % 2 ^ 64

pub record SharedMemoryInfo : Type 0 where
  pub name : Bytes
  pub shm_key : Bytes
  pub offset : ℕ
  pub byte_size : ℕ
  pub shm_fd : ℕ
  pub mapped_addr : ℕ

abbrev pub SharedMemoryStateMap : Type 0
SharedMemoryStateMap = List (Bytes × SharedMemoryInfo)

-- `shared_memory_map_`, and whether `mu_` is held
pub record SharedMemoryManager : Type 0 where
  pub shared_memory_map : SharedMemoryStateMap
  pub locked : Bool

-- `SharedMemoryManager() = default`
abbrev pub new_manager : SharedMemoryManager
new_manager = record { shared_memory_map = []; locked = false }

-- What the lock guard does when its scope is left, by a return or by an exception.
unfoldable pub release : {A : Type 0} → Run SharedMemoryManager A → Run SharedMemoryManager A
release (ok a g) = ok a (record g { locked = false })
release (throw e g) = throw e (record g { locked = false })
release undefined = undefined
release blocked = blocked

-- `SharedLockGuard<std::mutex> guard(mu_)` round the rest of a function
unfoldable pub with_lock : {A : Type 0} → Cmd SharedMemoryManager A → Cmd SharedMemoryManager A
with_lock body g = if g.locked then blocked else release (body (record g { locked = true }))

-- `SharedMemoryManager::IsLocked`: `try_lock`, and `unlock` if that got the mutex
unfoldable pub is_locked : Cmd SharedMemoryManager Bool
is_locked g = if g.locked then ok true g else ok false (record g { locked = false })

-- `SharedMemoryManager::UnlockMu`: to unlock a mutex that is not held is undefined
unfoldable pub unlock_mu : Cmd SharedMemoryManager (Unit {0})
unlock_mu g = if g.locked then ok tt (record g { locked = false }) else undefined

-- The test and the result of `SharedMemoryManager::GetMemoryInfo` for an entry that is found
unfoldable pub locate : SharedMemoryInfo → ℕ → ℕ → Cmd SharedMemoryManager ℕ
locate info offset byte_size =
    let shm_region_end = add_size info.offset info.byte_size in
    if ltb shm_region_end offset || ltb shm_region_end (add_size offset byte_size)
    then raise shared_memory_exception
    else pure (add_size info.mapped_addr offset)

unfoldable pub find_and_locate : Bytes → ℕ → ℕ → Cmd SharedMemoryManager ℕ
find_and_locate name offset byte_size g = elim (lookup name g.shared_memory_map) [
  | none ↦ throw shared_memory_exception g
  | some info ↦ locate info offset byte_size g
]

-- `SharedMemoryManager::GetMemoryInfo`; the result is `*shm_mapped_addr`
unfoldable pub get_memory_info : Bytes → ℕ → ℕ → Cmd SharedMemoryManager ℕ
get_memory_info name offset byte_size = with_lock (find_and_locate name offset byte_size)

-- `SharedMemoryManager::GetMemoryMap`, which takes no lock
unfoldable pub get_memory_map : Bytes → Cmd SharedMemoryManager SharedMemoryInfo
get_memory_map name g = elim (lookup name g.shared_memory_map) [
  | none ↦ throw runtime_error g
  | some info ↦ ok info g
]

-- `SharedMemoryManager(SharedMemoryManager& manager)`: each `SharedMemoryInfo` is copied, with its
-- mapped address; the copy has a mutex of its own
unfoldable pub copy_manager : SharedMemoryManager → SharedMemoryManager
copy_manager g = record { shared_memory_map = g.shared_memory_map; locked = false }
