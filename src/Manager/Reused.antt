-- ===== src/Manager/Reused.antt =====
-- A second region over a shared memory object that is registered: `RegisterSystemSharedMemory` takes
-- the descriptor of the first one, which it has closed.
use streaming_gateway.Prelude.{
  ℕ, ◌≡◌, refl, ap, ◌∙◌, true, false, none, some, [], ◌∷◌, Bytes, bytes_eq_refl, Bool-cases, inl,
  inr, arith,
}
use mathlib.Core.Path.{subst}
use streaming_gateway.Prelude.Run.{
  Run, ok, throw, undefined, blocked, Cmd, and_then, shared_memory_exception,
}
use streaming_gateway.Dict.{lookup, insert}
use streaming_gateway.Manager.{SharedMemoryInfo, SharedMemoryStateMap, SharedMemoryManager}
use streaming_gateway.Manager.Os.{Os, failed}
use streaming_gateway.Manager.Region.{
  Host, close_shared_memory_region, check_shared_memory_region_size, get_shared_memory_region_size,
  size_of,
}
use streaming_gateway.Manager.Register.{
  find_fd, open_unless, obtain_fd, add_entry, register_new, register_unless, register_body,
  with_lock_host, release_host, register_system_shared_memory,
}
use streaming_gateway.Manager.Keeps.{Keeps, returns, throws, check-Keeps, map-Keeps, obtain-Keeps}
use streaming_gateway.Manager.Registers.{
  info_of, Registers, added, refused, Ends, register-Registers,
}

find_fd-insert :
    (name : Bytes) (info : SharedMemoryInfo) (m : SharedMemoryStateMap)
    → lookup name m ≡ none
    → find_fd info.shm_key m ≡ none
    → find_fd info.shm_key (insert name info m) ≡ some info.shm_fd
unfolding lookup insert find_fd
find_fd-insert name info [] new first = ground (arith, bytes_eq_refl info.shm_key)
find_fd-insert name info ((other, i) ∷ m) new first =
    ground (arith, bytes_eq_refl info.shm_key, find_fd-insert name info m)

-- `close` closes a descriptor where it succeeds, and `fstat` of a closed one fails.
pub record IsClosing {W : Type 0} (os : Os W) (closed : ℕ → W → Type 0) : Type 0 where
  pub closes : (fd : ℕ) (w : W) → (os.close fd w).0 ≡ true → closed fd (os.close fd w).1
  pub unusable : (fd : ℕ) (w : W) → closed fd w → os.fstat fd w ≡ (failed, w)

Registers-free :
    {W : Type 0} {name shm_key : Bytes} {offset byte_size : ℕ} {m : SharedMemoryStateMap}
    {r : Run (Host W) (Unit {0})}
    → Registers name shm_key offset byte_size m false r
    → Ends (λ g. g.locked ≡ false) r
Registers-free (added fd addr new e) = ap (λ g. g.locked) e
Registers-free (refused e) = ap (λ g. g.locked) e

module _ {W : Type 0} (os : Os W) (closed : ℕ → W → Type 0) (law : IsClosing os closed)
    (shm_key : Bytes) where
  -- The region for the key has a closed descriptor.
  abbrev Stale : Host W → Type 0
  Stale h = (fd : ℕ) × (find_fd shm_key h.manager.shared_memory_map ≡ some fd) × closed fd h.kernel

  -- The run fails, or the region for the key has a closed descriptor.
  abbrev Leaves : Run (Host W) (Unit {0}) → Type 0
  Leaves (ok a h) = Stale h
  Leaves (throw e h) = Unit
  Leaves undefined = Unit
  Leaves blocked = Unit

  after :
      {A : Type 0} (g : SharedMemoryManager) {r : Run (Host W) A} (k : A → Cmd (Host W) (Unit {0}))
      → Keeps g r
      → ((a : A) (h : Host W) → h.manager ≡ g → Leaves (k a h))
      → Leaves (and_then r k)
  after g k (returns e) next = next _ _ e
  after g k (throws e) next = tt

  module _ (name : Bytes) (offset byte_size : ℕ) (g : SharedMemoryManager)
      (new : lookup name g.shared_memory_map ≡ none)
      (first : find_fd shm_key g.shared_memory_map ≡ none) where
    close_then_add :
        (fd addr : ℕ) (h : Host W)
        → h.manager ≡ g
        → Leaves (
            and_then
              (close_shared_memory_region os fd h)
              (λ _. add_entry (info_of name shm_key offset byte_size fd addr)))
    unfolding close_shared_memory_region add_entry
    close_then_add fd addr h e = elim (Bool-cases (os.close fd h.kernel).0) [
      | inl done ↦ rw done (
        fd,
        ap
              (λ m.
                find_fd shm_key
                  (insert name (info_of name shm_key offset byte_size fd addr) m.shared_memory_map))
              e
            ∙ find_fd-insert name (info_of name shm_key offset byte_size fd addr)
                g.shared_memory_map new first,
        law.closes fd h.kernel done,
      )
      | inr not_done ↦ rw not_done tt
    ]

    register_new-Leaves :
        (h : Host W) → h.manager ≡ g → Leaves (register_new os name shm_key offset byte_size h)
    unfolding register_new obtain_fd
    register_new-Leaves h e =
        after g _
          (obtain-Keeps os g h e shm_key byte_size (find_fd shm_key h.manager.shared_memory_map))
          λ fd h₁ e₁. after g _ (check-Keeps os g h₁ e₁ fd offset byte_size) λ _ h₂ e₂.
            after g _ (map-Keeps os g h₂ e₂ fd offset byte_size)
              λ addr h₃ e₃. close_then_add fd addr h₃ e₃

  -- A registration of the key under another name takes the closed descriptor.
  reused_refused :
      (name : Bytes) (offset byte_size : ℕ) (h : Host W)
      → Stale h
      → lookup name h.manager.shared_memory_map ≡ none
      → h.manager.locked ≡ false
      → register_system_shared_memory os name shm_key offset byte_size h
        ≡ throw shared_memory_exception h
  unfolding register_system_shared_memory with_lock_host release_host register_body register_unless
      register_new obtain_fd open_unless check_shared_memory_region_size
      get_shared_memory_region_size size_of
  reused_refused name offset byte_size h (fd, found, stale) new free =
      ground (arith, free, new, found, law.unusable fd h.kernel stale)

  released : (r : Run (Host W) (Unit {0})) → Leaves r → Leaves (release_host r)
  unfolding release_host
  released (ok a h) e = e
  released (throw x h) e = tt
  released undefined e = tt
  released blocked e = tt

  register-Leaves :
      (name : Bytes) (offset byte_size : ℕ) (h : Host W)
      → lookup name h.manager.shared_memory_map ≡ none
      → find_fd shm_key h.manager.shared_memory_map ≡ none
      → h.manager.locked ≡ false
      → Leaves (register_system_shared_memory os name shm_key offset byte_size h)
  unfolding register_system_shared_memory with_lock_host register_body register_unless
  register-Leaves name offset byte_size h new first free =
      rw (free, new)
        (released
          (register_new os name shm_key offset byte_size
            (record h { manager = record (h.manager) { locked = true } }))
          (register_new-Leaves name offset byte_size (record (h.manager) { locked = true }) new
            first (record h { manager = record (h.manager) { locked = true } }) refl))

  -- If `fstat` fails on a descriptor once `close` has succeeded on it, then after a region was
  -- registered, the first one over its shared memory object, no other region over that object can
  -- be registered: `RegisterSystemSharedMemory` of a new name throws `SharedMemoryException`, and
  -- nothing has changed.
  pub second_region_refused :
      (name other : Bytes) (offset byte_size offset' byte_size' : ℕ) (h h' : Host W)
      → h.manager.locked ≡ false
      → lookup name h.manager.shared_memory_map ≡ none
      → find_fd shm_key h.manager.shared_memory_map ≡ none
      → register_system_shared_memory os name shm_key offset byte_size h ≡ ok tt h'
      → lookup other h'.manager.shared_memory_map ≡ none
      → register_system_shared_memory os other shm_key offset' byte_size' h'
        ≡ throw shared_memory_exception h'
  second_region_refused name other offset byte_size offset' byte_size' h h' free new first done
        unused =
      let stale : Stale h' =
        subst Leaves done (register-Leaves name offset byte_size h new first free) in
      reused_refused other offset' byte_size' h' stale unused (
        subst (Ends (λ g. g.locked ≡ false)) done
          (Registers-free (register-Registers name shm_key offset byte_size os h free)))
