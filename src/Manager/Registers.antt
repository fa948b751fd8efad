-- ===== src/Manager/Registers.antt =====
-- `RegisterSystemSharedMemory` as a whole: it adds the region, or fails and adds nothing.
use streaming_gateway.Prelude.{ℕ, ◌≡◌, refl, sym, ap, Bool, true, false, Option, none, some, Bytes}
use mathlib.Core.Path.{subst}
use streaming_gateway.Prelude.Run.{
  Run, ok, throw, undefined, blocked, Cmd, and_then, shared_memory_exception,
}
use streaming_gateway.Dict.{lookup, insert, IsUnique}
use streaming_gateway.Dict.Laws.{insert-IsUnique}
use streaming_gateway.Manager.{SharedMemoryInfo, SharedMemoryStateMap, SharedMemoryManager}
use streaming_gateway.Manager.Os.{Os}
use streaming_gateway.Manager.Region.{Host}
use streaming_gateway.Manager.Register.{
  find_fd, obtain_fd, add_entry, register_new, register_unless, register_body, with_lock_host,
  release_host, register_system_shared_memory,
}
use streaming_gateway.Manager.Keeps.{
  Keeps, returns, throws, check-Keeps, map-Keeps, close-Keeps, obtain-Keeps,
}

-- The entry that a registration makes, from the descriptor and the address that the kernel gave
abbrev pub info_of :
    (name shm_key : Bytes) (offset byte_size shm_fd mapped_addr : ℕ) → SharedMemoryInfo
info_of name shm_key offset byte_size shm_fd mapped_addr = record {
  name = name;
  shm_key = shm_key;
  offset = offset;
  byte_size = byte_size;
  shm_fd = shm_fd;
  mapped_addr = mapped_addr;
}

abbrev unlocked : SharedMemoryManager → SharedMemoryManager
unlocked g = record { shared_memory_map = g.shared_memory_map; locked = false }

module _ {W : Type 0} (name shm_key : Bytes) (offset byte_size : ℕ) where
  -- From the map `m` the run adds the entry, or it throws `SharedMemoryException`; the lock is
  -- left at `locked`.
  pub data Registers (m : SharedMemoryStateMap) (locked : Bool)
      : Run (Host W) (Unit {0}) → Type 0 where
    added :
        {h : Host W} (fd addr : ℕ)
        → lookup name m ≡ none
        → h.manager ≡ record {
          shared_memory_map = insert name (info_of name shm_key offset byte_size fd addr) m;
          locked = locked;
        }
        → Registers m locked (ok tt h)
    refused :
        {h : Host W}
        → h.manager ≡ record { shared_memory_map = m; locked = locked }
        → Registers m locked (throw shared_memory_exception h)

  module _ (g : SharedMemoryManager) where
    after :
        {A : Type 0} {r : Run (Host W) A} (k : A → Cmd (Host W) (Unit {0}))
        → Keeps g r
        → ((a : A) (h : Host W) → h.manager ≡ g → Registers g.shared_memory_map g.locked (k a h))
        → Registers g.shared_memory_map g.locked (and_then r k)
    after k (returns e) next = next _ _ e
    after k (throws e) next = refused e

  module _ (os : Os W) (g : SharedMemoryManager)
      (new : lookup name g.shared_memory_map ≡ none) where
    register_new-Registers :
        (h : Host W)
        → h.manager ≡ g
        → Registers g.shared_memory_map g.locked (register_new os name shm_key offset byte_size h)
    unfolding register_new obtain_fd add_entry
    register_new-Registers h e =
        after g _
          (obtain-Keeps os g h e shm_key byte_size (find_fd shm_key h.manager.shared_memory_map))
          λ fd h₁ e₁. after g _ (check-Keeps os g h₁ e₁ fd offset byte_size) λ _ h₂ e₂.
            after g _ (map-Keeps os g h₂ e₂ fd offset byte_size) λ addr h₃ e₃.
              after g _ (close-Keeps os g h₃ e₃ fd) λ _ h₄ e₄. added fd addr new (
                ap
                  (λ m. record {
                    shared_memory_map =
                        insert name (info_of name shm_key offset byte_size fd addr)
                          m.shared_memory_map;
                    locked = m.locked;
                  })
                  e₄)

  register_unless-Registers :
      (os : Os W) (h : Host W) (o : Option SharedMemoryInfo)
      → lookup name h.manager.shared_memory_map ≡ o
      → Registers h.manager.shared_memory_map h.manager.locked
          (register_unless os name shm_key offset byte_size o h)
  unfolding register_unless
  register_unless-Registers os h (some info) e = refused refl
  register_unless-Registers os h none e = register_new-Registers os h.manager e h refl

  release-Registers :
      (m : SharedMemoryStateMap) {r : Run (Host W) (Unit {0})}
      → Registers m true r
      → Registers m false (release_host r)
  unfolding release_host
  release-Registers m (added fd addr new e) = added fd addr new (ap unlocked e)
  release-Registers m (refused e) = refused (ap unlocked e)

  -- With the mutex free, `RegisterSystemSharedMemory` returns or throws `SharedMemoryException`. If
  -- it returns, the name was not registered, and the map has got the one new entry; if it throws,
  -- the map is as before. The mutex is free again in both cases.
  pub register-Registers :
      (os : Os W) (h : Host W)
      → h.manager.locked ≡ false
      → Registers h.manager.shared_memory_map false
          (register_system_shared_memory os name shm_key offset byte_size h)
  unfolding register_system_shared_memory with_lock_host register_body
  register-Registers os h free = rw free (
      release-Registers h.manager.shared_memory_map (
        register_unless-Registers os
          (record {
            manager = record { shared_memory_map = h.manager.shared_memory_map; locked = true };
            kernel = h.kernel;
          })
          (lookup name h.manager.shared_memory_map) refl))

-- Every key is there once, and the mutex is free.
pub record IsValid (g : SharedMemoryManager) : Type 0 where
  pub unique : IsUnique g.shared_memory_map
  pub free : g.locked ≡ false

-- The manager after a run
abbrev pub Ends : {W A : Type 0} → (SharedMemoryManager → Type 0) → Run (Host W) A → Type 0
Ends P (ok a h) = P h.manager
Ends P (throw e h) = P h.manager
Ends P undefined = ⊥
Ends P blocked = ⊥

Registers-IsValid :
    {W : Type 0} (name shm_key : Bytes) (offset byte_size : ℕ) {m : SharedMemoryStateMap}
    {r : Run (Host W) (Unit {0})}
    → IsUnique m
    → Registers name shm_key offset byte_size m false r
    → Ends IsValid r
Registers-IsValid name shm_key offset byte_size {m} u (added fd addr new e) =
    subst IsValid (sym e) (record {
      unique = insert-IsUnique name (info_of name shm_key offset byte_size fd addr) m new u;
      free = refl;
    })
Registers-IsValid name shm_key offset byte_size u (refused e) =
    subst IsValid (sym e) (record { unique = u; free = refl })

-- On every path `RegisterSystemSharedMemory` keeps the keys unique and gives the mutex back.
pub register-IsValid :
    {W : Type 0} (os : Os W) (name shm_key : Bytes) (offset byte_size : ℕ) (h : Host W)
    → IsValid h.manager
    → Ends IsValid (register_system_shared_memory os name shm_key offset byte_size h)
register-IsValid os name shm_key offset byte_size h v =
    Registers-IsValid name shm_key offset byte_size v.unique
      (register-Registers name shm_key offset byte_size os h v.free)
