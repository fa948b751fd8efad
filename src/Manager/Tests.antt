-- ===== src/Manager/Tests.antt =====
-- Runs of the manager over a small kernel, and the theorems at concrete inputs.
use streaming_gateway.Prelude.{
  ℕ, Bool, none, suc, ◌+◌, ◌%◌, ◌^◌, leb, if◌then◌else◌, ◌<◌, ◌≡◌, ◌-◌, ◌&&◌, ◌||◌, refl, true,
  false, some, [], ◌∷◌, Bytes, arith, codes,
}
use streaming_gateway.Prelude.Run.{ok, throw, shared_memory_exception}
use streaming_gateway.Dict.{lookup, insert}
use streaming_gateway.Manager.{
  SharedMemoryInfo, SharedMemoryManager, new_manager, is_locked, get_memory_info,
}
use streaming_gateway.Manager.Os.{Os, failed, size}
use streaming_gateway.Manager.Region.{
  Host, size_of, address_of, get_shared_memory_region_size, check_shared_memory_region_size,
  map_shared_memory, truncate_opened, open_shared_memory_region, close_shared_memory_region,
}
use streaming_gateway.Manager.Register.{
  find_fd, open_unless, obtain_fd, add_entry, register_new, register_unless, register_body,
  with_lock_host, release_host, register_system_shared_memory,
}
use streaming_gateway.Manager.Registers.{Registers, register-Registers, info_of}
use streaming_gateway.Manager.Reused.{IsClosing, second_region_refused}
use streaming_gateway.Manager.Lookup.{get_memory_info_lem}
use streaming_gateway.Manager.Interface.{
  on_manager, mutex_state, shared_memory_manager_new, get_memory_info_of,
  register_system_shared_memory_of, unregister_of,
}
use streaming_gateway.Manager.Session.{session_lem}
use streaming_gateway.Manager.Unregister.{unregister_all}
use streaming_gateway.Manager.Unregisters.{unmapped_all, unregister_all_lem}

abbrev queue_name : Bytes
queue_name = codes "shm_queue"

-- A kernel with one shared memory object of 96 bytes; its state counts the calls of `munmap`.
abbrev kernel : Os ℕ
kernel = record {
  shm_open = λ key k. (some 3, k);
  ftruncate = λ fd n k. (true, k);
  fstat = λ fd k. (size 96, k);
  mmap = λ fd offset n k. (some 4096, k);
  close = λ fd k. (true, k);
  munmap = λ addr n k. (true, suc k);
}

abbrev started : Host ℕ
started = record { manager = new_manager; kernel = 0 }

abbrev region : SharedMemoryInfo
region = info_of queue_name (codes "key") 0 96 3 4096

abbrev registered : SharedMemoryManager
registered = record { shared_memory_map = (queue_name, region) ∷ []; locked = false }

register_runs :
    register_system_shared_memory kernel queue_name (codes "key") 0 96 started
    ≡ ok tt (record { manager = registered; kernel = 0 })
unfolding register_system_shared_memory with_lock_host release_host register_body register_unless
    register_new obtain_fd open_unless find_fd open_shared_memory_region truncate_opened
    check_shared_memory_region_size get_shared_memory_region_size size_of map_shared_memory
    address_of close_shared_memory_region add_entry lookup insert
register_runs = refl

register-Registers_example :
    Registers queue_name
      (codes "key")
      0
      96
      []
      false
      (register_system_shared_memory kernel queue_name (codes "key") 0 96 started)
register-Registers_example = register-Registers queue_name (codes "key") 0 96 kernel started refl

get_memory_info_example : get_memory_info queue_name 1 (2 ^ 64 - 1) registered ≡ ok 4097 registered
unfolding lookup
get_memory_info_example =
    get_memory_info_lem queue_name 1 (2 ^ 64 - 1) registered refl (omega arith) (omega arith) sums
  where
    sums :
        (info : SharedMemoryInfo)
        → lookup queue_name registered.shared_memory_map ≡ some info
        → info.offset + info.byte_size < 2 ^ 64
    sums info e = ground (arith, e)

unregister_all_example :
    unregister_all kernel (record { manager = registered; kernel = 0 })
    ≡ ok tt (record {
      manager = record { shared_memory_map = []; locked = false };
      kernel = unmapped_all kernel ((queue_name, region) ∷ []) 0;
    })
unregister_all_example =
    unregister_all_lem kernel (λ addr n k. refl) (record { manager = registered; kernel = 0 }) refl

register_of_runs :
    register_system_shared_memory_of kernel queue_name (codes "key") 0 96 started
    ≡ ok tt (record { manager = registered; kernel = 0 })
unfolding register_system_shared_memory_of mutex_state on_manager is_locked
register_of_runs = rw register_runs refl

new_runs : shared_memory_manager_new {W = ℕ} 0 ≡ ok tt started
unfolding shared_memory_manager_new mutex_state on_manager is_locked
new_runs = refl

session_lem_example :
    (addr : ℕ) × (get_memory_info_of {W = ℕ} queue_name 8 16
        (record { manager = registered; kernel = 0 })
      ≡ (if leb 8 (0 + 96) && (leb (8 + 16) (0 + 96) || leb (2 ^ 64) (8 + 16))
          then ok (queue_name, (addr + 8) % 2 ^ 64) (record { manager = registered; kernel = 0 })
          else throw shared_memory_exception (record { manager = registered; kernel = 0 })))
    × (unregister_of kernel queue_name (record { manager = registered; kernel = 0 })
        ≡ ok tt (record { manager = new_manager; kernel = 1 }))
session_lem_example =
    session_lem kernel (λ addr n k. refl) queue_name (codes "key") 0 96 8 16 0 started
      (record { manager = registered; kernel = 0 }) (omega arith) (omega arith) (omega arith)
      (omega arith) new_runs register_of_runs

-- A kernel with one descriptor; its state says whether it is open.
abbrev one_descriptor : Os Bool
one_descriptor = record {
  shm_open = λ key k. (some 3, true);
  ftruncate = λ fd n k. (k, k);
  fstat = λ fd k. (if k then size 96 else failed, k);
  mmap = λ fd offset n k. (if k then some 4096 else none, k);
  close = λ fd k. (k, false);
  munmap = λ addr n k. (true, k);
}

one_descriptor-IsClosing : IsClosing one_descriptor (λ fd k. k ≡ false)
one_descriptor-IsClosing = record { closes = λ fd k e. refl; unusable = λ fd k e. rw e refl }

registers_once :
    register_system_shared_memory one_descriptor queue_name
      (codes "key")
      0
      96
      (record { manager = new_manager; kernel = false })
    ≡ ok tt (record { manager = registered; kernel = false })
unfolding register_system_shared_memory with_lock_host release_host register_body register_unless
    register_new obtain_fd open_unless find_fd open_shared_memory_region truncate_opened
    check_shared_memory_region_size get_shared_memory_region_size size_of map_shared_memory
    address_of close_shared_memory_region add_entry lookup insert
registers_once = refl

second_region_refused_example :
    register_system_shared_memory one_descriptor
      (codes "second")
      (codes "key")
      0
      64
      (record { manager = registered; kernel = false })
    ≡ throw shared_memory_exception (record { manager = registered; kernel = false })
unfolding lookup find_fd
second_region_refused_example =
    second_region_refused one_descriptor (λ fd k. k ≡ false) one_descriptor-IsClosing (codes "key")
      queue_name (codes "second") 0 96 0 64 (record { manager = new_manager; kernel = false })
      (record { manager = registered; kernel = false }) refl refl refl registers_once refl
