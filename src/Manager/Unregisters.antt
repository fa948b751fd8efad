-- ===== src/Manager/Unregisters.antt =====
-- `Unregister` and `UnregisterAll` over a kernel whose `munmap` succeeds.
use streaming_gateway.Prelude.{
  ℕ, ◌≡◌, refl, Bool, true, false, none, some, Bytes, arith, [], ◌∷◌, bytes_eq_refl,
}
use streaming_gateway.Prelude.Run.{ok, undefined}
use streaming_gateway.Dict.{lookup, erase}
use streaming_gateway.Manager.{SharedMemoryInfo, SharedMemoryStateMap}
use streaming_gateway.Manager.Os.{Os}
use streaming_gateway.Manager.Region.{Host, unmap_shared_memory}
use streaming_gateway.Manager.Register.{with_lock_host, release_host}
use streaming_gateway.Manager.Unregister.{
  drop_entry, unregister_helper, unregister, unregister_each, unregister_all,
}

module _ {W : Type 0} (os : Os W) where
  -- `Unregister` of a name that is not registered has undefined behaviour, if the mutex is free: it
  -- erases `end()`.
  pub unregister_unknown :
      (name : Bytes) (h : Host W)
      → h.manager.locked ≡ false
      → lookup name h.manager.shared_memory_map ≡ none
      → unregister os name h ≡ undefined
  unfolding unregister unregister_helper with_lock_host release_host
  unregister_unknown name h free e = ground arith

  -- the kernel after the `munmap` of a region
  abbrev pub unmapped : SharedMemoryInfo → W → W
  unmapped info k = (os.munmap info.mapped_addr info.byte_size k).1

  unregister_helper_lem :
      (name : Bytes) (info : SharedMemoryInfo) (h : Host W)
      → lookup name h.manager.shared_memory_map ≡ some info
      → (os.munmap info.mapped_addr info.byte_size h.kernel).0 ≡ true
      → unregister_helper os name h
        ≡ ok tt (record {
          manager = record (h.manager) {
            shared_memory_map = erase name h.manager.shared_memory_map;
          };
          kernel = unmapped info h.kernel;
        })
  unfolding unregister_helper unmap_shared_memory drop_entry
  unregister_helper_lem name info h e done = ground arith

  -- `Unregister` of a region unmaps just that region, and takes its entry out of the map.
  pub unregister_lem :
      (name : Bytes) (info : SharedMemoryInfo) (h : Host W)
      → h.manager.locked ≡ false
      → lookup name h.manager.shared_memory_map ≡ some info
      → (os.munmap info.mapped_addr info.byte_size h.kernel).0 ≡ true
      → unregister os name h
        ≡ ok tt (record {
          manager = record (h.manager) {
            shared_memory_map = erase name h.manager.shared_memory_map;
          };
          kernel = unmapped info h.kernel;
        })
  unfolding unregister with_lock_host release_host
  unregister_lem name info h free e done = ground (
    arith,
    unregister_helper_lem name info (record h {
      manager = record { shared_memory_map = h.manager.shared_memory_map; locked = true };
    }),
  )

  -- the kernel after the `munmap` of all regions, in the order of their names
  unfoldable pub unmapped_all : SharedMemoryStateMap → W → W
  unmapped_all [] k = k
  unmapped_all ((name, info) ∷ m) k = unmapped_all m (unmapped info k)

  module _ (succeeds : (addr byte_size : ℕ) (k : W) → (os.munmap addr byte_size k).0 ≡ true) where
    unregister_each_lem :
        (m : SharedMemoryStateMap) (locked : Bool) (k : W)
        → unregister_each os m
            (record { manager = record { shared_memory_map = m; locked = locked }; kernel = k })
          ≡ ok tt (record {
            manager = record { shared_memory_map = []; locked = locked };
            kernel = unmapped_all m k;
          })
    unfolding unregister_each unmapped_all
    unregister_each_lem [] locked k = refl
    unregister_each_lem ((name, info) ∷ m) locked k = ground (
      arith,
      unregister_helper_lem name info
          (record {
            manager = record { shared_memory_map = (name, info) ∷ m; locked = locked };
            kernel = k;
          })
          (found name info m) (succeeds info.mapped_addr info.byte_size k),
      gone name info m,
      unregister_each_lem m locked (unmapped info k),
    )
      where
        found :
            (name : Bytes) (info : SharedMemoryInfo) (m : SharedMemoryStateMap)
            → lookup name ((name, info) ∷ m) ≡ some info
        found name info m = unfold lookup in rw bytes_eq_refl

        gone :
            (name : Bytes) (info : SharedMemoryInfo) (m : SharedMemoryStateMap)
            → erase name ((name, info) ∷ m) ≡ m
        gone name info m = unfold erase in rw bytes_eq_refl

    -- With the mutex free and every `munmap` successful, `UnregisterAll`, and so the destructor,
    -- unmaps every region once, in the order of the names, and leaves an empty map and a free mutex.
    pub unregister_all_lem :
        (h : Host W)
        → h.manager.locked ≡ false
        → unregister_all os h
          ≡ ok tt (record {
            manager = record { shared_memory_map = []; locked = false };
            kernel = unmapped_all h.manager.shared_memory_map h.kernel;
          })
    unfolding unregister_all with_lock_host release_host
    unregister_all_lem h free =
        ground (arith, unregister_each_lem h.manager.shared_memory_map true h.kernel)
