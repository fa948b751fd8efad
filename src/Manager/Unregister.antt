-- ===== src/Manager/Unregister.antt =====
-- `Unregister`, `UnregisterAll`, `UnregisterHelper` and the destructor of `SharedMemoryManager`.
use streaming_gateway.Prelude.{none, some, [], ◌∷◌, Bytes}
use streaming_gateway.Prelude.Run.{ok, undefined, Cmd, pure, ◌>>◌}
use streaming_gateway.Dict.{lookup, erase}
use streaming_gateway.Manager.{SharedMemoryStateMap}
use streaming_gateway.Manager.Os.{Os}
use streaming_gateway.Manager.Region.{Host, unmap_shared_memory}
use streaming_gateway.Manager.Register.{with_lock_host}

module _ {W : Type 0} where
  -- `shared_memory_map_.erase(it)` for an entry
  unfoldable pub drop_entry : Bytes → Cmd (Host W) (Unit {0})
  drop_entry name h = ok tt (record h {
    manager = record (h.manager) { shared_memory_map = erase name h.manager.shared_memory_map };
  })

  module _ (os : Os W) where
    -- `SharedMemoryManager::UnregisterHelper`. The code erases the iterator also where `find`
    -- gives `end()`, which is undefined.
    unfoldable pub unregister_helper : Bytes → Cmd (Host W) (Unit {0})
    unregister_helper name h = elim (lookup name h.manager.shared_memory_map) [
      | none ↦ undefined
      | some info ↦ (do unmap_shared_memory os info.mapped_addr info.byte_size; drop_entry name) h
    ]

    -- `SharedMemoryManager::Unregister`
    unfoldable pub unregister : Bytes → Cmd (Host W) (Unit {0})
    unregister name = with_lock_host (unregister_helper name)

    -- The loop of `UnregisterAll`. Each round erases the entry that it is at, so the list is what
    -- the iterator has not reached.
    unfoldable pub unregister_each : SharedMemoryStateMap → Cmd (Host W) (Unit {0})
    unregister_each [] = pure tt
    unregister_each ((name, info) ∷ rest) = do unregister_helper name; unregister_each rest

    -- `SharedMemoryManager::UnregisterAll`; `unregister_fails` stays empty. The destructor makes
    -- this call and no other.
    unfoldable pub unregister_all : Cmd (Host W) (Unit {0})
    unregister_all = with_lock_host (λ h. unregister_each h.manager.shared_memory_map h)
