-- ===== src/Manager/Region.antt =====
-- The functions of shared_memory_manager.cpp over one file descriptor or mapping, and the state of
-- a process that calls them: its manager and the kernel.
use streaming_gateway.Prelude.{ℕ, Option, none, some, Bytes, ltb, not}
use streaming_gateway.Prelude.Run.{
  ok, Cmd, pure, raise, ◌>>=◌, ◌>>◌, guard, shared_memory_exception, plain_exception,
}
use streaming_gateway.Manager.{SharedMemoryManager, add_size}
use streaming_gateway.Manager.Os.{Os, FileStatus, failed, negative, size}

pub record Host (W : Type 0) : Type 0 where
  pub manager : SharedMemoryManager
  pub kernel : W

module _ {W : Type 0} where
  -- a system call, as a command
  abbrev pub call : {A : Type 0} → (W → A × W) → Cmd (Host W) A
  call f h = let (a, w) = f h.kernel in ok a (record h { kernel = w })

  -- the tests of `fstat`'s result
  unfoldable pub size_of : FileStatus → Cmd (Host W) ℕ
  size_of failed = raise shared_memory_exception
  size_of negative = raise shared_memory_exception
  size_of (size n) = pure n

  -- the test for `MAP_FAILED`
  unfoldable pub address_of : Option ℕ → Cmd (Host W) ℕ
  address_of none = raise shared_memory_exception
  address_of (some addr) = pure addr

  module _ (os : Os W) where
    -- `GetSharedMemoryRegionSize`
    unfoldable pub get_shared_memory_region_size : ℕ → Cmd (Host W) ℕ
    get_shared_memory_region_size fd = do status ← call (os.fstat fd); size_of status

    -- `CheckSharedMemoryRegionSize`
    unfoldable pub check_shared_memory_region_size :
        (fd offset byte_size : ℕ) → Cmd (Host W) (Unit {0})
    check_shared_memory_region_size fd offset byte_size = do
      shm_region_size ← get_shared_memory_region_size fd
      guard (not (ltb shm_region_size (add_size offset byte_size))) shared_memory_exception

    -- `MapSharedMemory`
    unfoldable pub map_shared_memory : (fd offset byte_size : ℕ) → Cmd (Host W) ℕ
    map_shared_memory fd offset byte_size = do
      mapped ← call (os.mmap fd offset byte_size)
      address_of mapped

    -- the part of `OpenSharedMemoryRegion` after `shm_open`
    unfoldable pub truncate_opened : ℕ → Option ℕ → Cmd (Host W) ℕ
    truncate_opened byte_size none = raise shared_memory_exception
    truncate_opened byte_size (some fd) = do
      done ← call (os.ftruncate fd byte_size)
      guard done shared_memory_exception
      pure fd

    -- `OpenSharedMemoryRegion`
    unfoldable pub open_shared_memory_region : Bytes → ℕ → Cmd (Host W) ℕ
    open_shared_memory_region shm_key byte_size = do
      opened ← call (os.shm_open shm_key)
      truncate_opened byte_size opened

    -- `CloseSharedMemoryRegion`
    unfoldable pub close_shared_memory_region : ℕ → Cmd (Host W) (Unit {0})
    close_shared_memory_region fd = do done ← call (os.close fd); guard done shared_memory_exception

    -- `UnmapSharedMemory`
    unfoldable pub unmap_shared_memory : (addr byte_size : ℕ) → Cmd (Host W) (Unit {0})
    unmap_shared_memory addr byte_size = do
      done ← call (os.munmap addr byte_size)
      guard done plain_exception
