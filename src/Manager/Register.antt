-- ===== src/Manager/Register.antt =====
-- `SharedMemoryManager::RegisterSystemSharedMemory` and the free function of that name.
use streaming_gateway.Prelude.{
  ℕ, true, false, Option, none, some, [], ◌∷◌, Bytes, bytes_eq, if◌then◌else◌,
}
use streaming_gateway.Prelude.Run.{
  Run, ok, throw, undefined, blocked, Cmd, pure, raise, ◌>>=◌, ◌>>◌, shared_memory_exception,
}
use streaming_gateway.Dict.{lookup, insert}
use streaming_gateway.Manager.{SharedMemoryInfo, SharedMemoryStateMap}
use streaming_gateway.Manager.Os.{Os}
use streaming_gateway.Manager.Region.{
  Host, check_shared_memory_region_size, map_shared_memory, open_shared_memory_region,
  close_shared_memory_region,
}

-- The loop over `shared_memory_map_`: the descriptor of the first region with the key
unfoldable pub find_fd : Bytes → SharedMemoryStateMap → Option ℕ
find_fd shm_key [] = none
find_fd shm_key ((name, info) ∷ m) =
    if bytes_eq info.shm_key shm_key then some info.shm_fd else find_fd shm_key m

module _ {W : Type 0} where
  unfoldable pub release_host : {A : Type 0} → Run (Host W) A → Run (Host W) A
  release_host (ok a h) = ok a (record h { manager = record (h.manager) { locked = false } })
  release_host (throw e h) = throw e (record h { manager = record (h.manager) { locked = false } })
  release_host undefined = undefined
  release_host blocked = blocked

  -- The lock guard round a function that makes system calls
  unfoldable pub with_lock_host : {A : Type 0} → Cmd (Host W) A → Cmd (Host W) A
  with_lock_host body h =
      if h.manager.locked
      then blocked
      else release_host (body (record h { manager = record (h.manager) { locked = true } }))

  -- `shared_memory_map_.insert`
  unfoldable pub add_entry : SharedMemoryInfo → Cmd (Host W) (Unit {0})
  add_entry info h = ok tt (record h {
    manager = record (h.manager) {
      shared_memory_map = insert info.name info h.manager.shared_memory_map;
    };
  })

  module _ (os : Os W) where
    -- `shm_fd`: the descriptor of a region that is there, or a new one
    unfoldable pub open_unless : Bytes → ℕ → Option ℕ → Cmd (Host W) ℕ
    open_unless shm_key byte_size (some fd) = pure fd
    open_unless shm_key byte_size none = open_shared_memory_region os shm_key byte_size

    unfoldable pub obtain_fd : Bytes → ℕ → Cmd (Host W) ℕ
    obtain_fd shm_key byte_size h =
        open_unless shm_key byte_size (find_fd shm_key h.manager.shared_memory_map) h

    -- the part under `// register`
    unfoldable pub register_new :
        (name shm_key : Bytes) (offset byte_size : ℕ) → Cmd (Host W) (Unit {0})
    register_new name shm_key offset byte_size = do
      shm_fd ← obtain_fd shm_key byte_size
      check_shared_memory_region_size os shm_fd offset byte_size
      mapped_addr ← map_shared_memory os shm_fd offset byte_size
      close_shared_memory_region os shm_fd
      add_entry (record {
        name = name;
        shm_key = shm_key;
        offset = offset;
        byte_size = byte_size;
        shm_fd = shm_fd;
        mapped_addr = mapped_addr;
      })

    unfoldable pub register_unless :
        (name shm_key : Bytes) (offset byte_size : ℕ)
        → Option SharedMemoryInfo
        → Cmd (Host W) (Unit {0})
    register_unless name shm_key offset byte_size (some info) = raise shared_memory_exception
    register_unless name shm_key offset byte_size none = register_new name shm_key offset byte_size

    unfoldable pub register_body :
        (name shm_key : Bytes) (offset byte_size : ℕ) → Cmd (Host W) (Unit {0})
    register_body name shm_key offset byte_size h =
        register_unless name shm_key offset byte_size (lookup name h.manager.shared_memory_map) h

    -- `SharedMemoryManager::RegisterSystemSharedMemory`
    unfoldable pub register_system_shared_memory :
        (name shm_key : Bytes) (offset byte_size : ℕ) → Cmd (Host W) (Unit {0})
    register_system_shared_memory name shm_key offset byte_size =
        with_lock_host (register_body name shm_key offset byte_size)
