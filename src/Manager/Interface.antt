-- ===== src/Manager/Interface.antt =====
-- The free functions at the front of shared_memory_manager.cpp, which forward to a manager and log
-- whether its mutex is held.
use streaming_gateway.Prelude.{ℕ, ◌+◌, ◌-◌, ◌^◌, Bool, Bytes, ltb, if◌then◌else◌}
use streaming_gateway.Prelude.Run.{Run, ok, throw, undefined, blocked, Cmd, pure, ◌>>=◌, ◌>>◌}
use streaming_gateway.Manager.{
  SharedMemoryManager, new_manager, is_locked, unlock_mu, get_memory_info,
}
use streaming_gateway.Manager.Os.{Os}
use streaming_gateway.Manager.Region.{Host}
use streaming_gateway.Manager.Register.{register_system_shared_memory}
use streaming_gateway.Manager.Unregister.{unregister, unregister_all}

-- An `int`, given by its bits, as a `size_t`
abbrev pub int_to_size : ℕ → ℕ
int_to_size b = if ltb b (2 ^ 31) then b else b + (2 ^ 64 - 2 ^ 32)

-- A call of the manager that makes no system call
unfoldable pub on_manager : {W A : Type 0} → Cmd SharedMemoryManager A → Cmd (Host W) A
on_manager m h = elim (m h.manager) [
  | ok a g ↦ ok a (record h { manager = g })
  | throw e g ↦ throw e (record h { manager = g })
  | undefined ↦ undefined
  | blocked ↦ blocked
]

-- `MutexState`
unfoldable pub mutex_state : {W : Type 0} → Cmd (Host W) Bool
mutex_state = on_manager is_locked

-- `UnlockManagerMutex`
unfoldable pub unlock_manager_mutex : {W : Type 0} → Cmd (Host W) (Unit {0})
unlock_manager_mutex = on_manager unlock_mu

-- `SharedMemoryManager_new`, with the kernel that there is
unfoldable pub shared_memory_manager_new : {W : Type 0} → W → Run (Host W) (Unit {0})
shared_memory_manager_new k =
    (do _ ← mutex_state; pure tt) (record { manager = new_manager; kernel = k })

-- `GetMemoryInfo`: the name, and `*shm_mapped_addr`
unfoldable pub get_memory_info_of : {W : Type 0} → Bytes → ℕ → ℕ → Cmd (Host W) (Bytes × ℕ)
get_memory_info_of name offset byte_size = do
  _ ← mutex_state
  addr ← on_manager (get_memory_info name offset byte_size)
  _ ← mutex_state
  pure (name, addr)

module _ {W : Type 0} (os : Os W) where
  -- `SharedMemoryManager_delete`: the destructor calls `UnregisterAll`.
  unfoldable pub shared_memory_manager_delete : Cmd (Host W) (Unit {0})
  shared_memory_manager_delete = unregister_all os

  -- `RegisterSystemSharedMemory`; the sizes are the bits of an `int`.
  unfoldable pub register_system_shared_memory_of :
      (name shm_key : Bytes) (offset byte_size : ℕ) → Cmd (Host W) (Unit {0})
  register_system_shared_memory_of name shm_key offset byte_size = do
    register_system_shared_memory os name shm_key (int_to_size offset) (int_to_size byte_size)
    _ ← mutex_state
    pure tt

  -- `Unregister`
  unfoldable pub unregister_of : Bytes → Cmd (Host W) (Unit {0})
  unregister_of name = do unregister os name; _ ← mutex_state; pure tt
