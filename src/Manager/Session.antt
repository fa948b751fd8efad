-- ===== src/Manager/Session.antt =====
-- A client of the free functions: it registers a region, asks where it lies, and unregisters it.
use mathlib.Core.Path.{subst}
use streaming_gateway.Prelude.{
  ℕ, ◌+◌, ◌%◌, ◌^◌, ◌<◌, ◌≡◌, refl, sym, ap, ap₂, ◌∙◌, true, false, some, [], ◌∷◌, Bytes, leb,
  if◌then◌else◌, ◌&&◌, ◌||◌, bytes_eq_refl, arith,
}
use streaming_gateway.Prelude.Run.{Run, ok, throw, and_then, ◌>>=◌, pure, shared_memory_exception}
use streaming_gateway.Dict.{lookup, insert, erase}
use streaming_gateway.Manager.{
  SharedMemoryInfo, SharedMemoryStateMap, SharedMemoryManager, new_manager, is_locked,
  get_memory_info,
}
use streaming_gateway.Manager.Lookup.{grants, located, get_memory_info_lem}
use streaming_gateway.Manager.Os.{Os}
use streaming_gateway.Manager.Region.{Host}
use streaming_gateway.Manager.Register.{register_system_shared_memory}
use streaming_gateway.Manager.Registers.{info_of, Registers, added, refused, register-Registers}
use streaming_gateway.Manager.Unregisters.{unregister_lem}
use streaming_gateway.Manager.Interface.{
  int_to_size, on_manager, mutex_state, shared_memory_manager_new, get_memory_info_of,
  register_system_shared_memory_of, unregister_of,
}

-- The manager of one region
abbrev only : Bytes → SharedMemoryInfo → SharedMemoryManager
only name info = record { shared_memory_map = (name, info) ∷ []; locked = false }

abbrev host : {W : Type 0} → SharedMemoryStateMap → W → Host W
host m k = record { manager = record { shared_memory_map = m; locked = false }; kernel = k }

-- A look at a free mutex leaves it free.
mutex_state_lem :
    {W : Type 0} (m : SharedMemoryStateMap) (k : W) → mutex_state (host m k) ≡ ok false (host m k)
unfolding mutex_state on_manager is_locked
mutex_state_lem m k = refl

abbrev looked : {W : Type 0} → Host W → Run (Host W) (Unit {0})
looked = mutex_state >>= λ _. pure tt

module _ {W : Type 0} (name shm_key : Bytes) (offset byte_size : ℕ) where
  -- A registration that returns leaves the one region.
  registered_as :
      {r : Run (Host W) (Unit {0})}
      → Registers name shm_key offset byte_size [] false r
      → (h : Host W) → and_then r (λ _. looked) ≡ ok tt h
      → (fd addr : ℕ) × (h
          ≡ host ((name, info_of name shm_key offset byte_size fd addr) ∷ []) h.kernel)
  unfolding insert
  registered_as (added {h = h₁} fd addr new e) h run =
      let m : SharedMemoryStateMap = (name, info_of name shm_key offset byte_size fd addr) ∷ [] in
      let start : h₁ ≡ host m h₁.kernel =
        ap (λ (g : SharedMemoryManager). record { manager = g; kernel = h₁.kernel }) e in
      let same : host m h₁.kernel ≡ h = cc (
        start,
        ap (λ r. and_then r (λ _. pure {S = Host W} tt)) (mutex_state_lem m h₁.kernel),
        run,
      ) in
      (fd, addr, sym same ∙ ap (λ (g : Host W). host m g.kernel) same)
  registered_as (refused e) h run = cc run

found : (name : Bytes) (info : SharedMemoryInfo) → lookup name ((name, info) ∷ []) ≡ some info
unfolding lookup
found name info = rw (lookup, bytes_eq_refl name) refl

erased : (name : Bytes) (info : SharedMemoryInfo) → erase name ((name, info) ∷ []) ≡ []
unfolding erase
erased name info = rw (erase, bytes_eq_refl name) refl

module _ (name : Bytes) (info : SharedMemoryInfo) (start length : ℕ)
    (sum : info.offset + info.byte_size < 2 ^ 64) (low : start < 2 ^ 64)
    (low' : length < 2 ^ 64) where
  granted :
      get_memory_info name start length (only name info)
      ≡ located (some info) start length (only name info)
  granted =
      get_memory_info_lem name start length (only name info) refl low low' (λ x e.
        let same : info ≡ x = cc (found name info, e) in
        subst (λ y. y.offset + y.byte_size < 2 ^ 64) same sum)
      ∙ ap (λ o. located o start length (only name info)) (found name info)

  get_memory_info_of_lem :
      {W : Type 0} (k : W)
      → get_memory_info_of name start length (host ((name, info) ∷ []) k) ≡ (
          if grants info start length
          then ok (name, (info.mapped_addr + start) % 2 ^ 64) (host ((name, info) ∷ []) k)
          else throw shared_memory_exception (host ((name, info) ∷ []) k))
  unfolding get_memory_info_of on_manager mutex_state is_locked
  get_memory_info_of_lem k = ground (arith, granted)

unregister_of_lem :
    {W : Type 0} (os : Os W) (name : Bytes) (info : SharedMemoryInfo) (k : W)
    → (os.munmap info.mapped_addr info.byte_size k).0 ≡ true
    → unregister_of os name (host ((name, info) ∷ []) k)
      ≡ ok tt (host [] (os.munmap info.mapped_addr info.byte_size k).1)
unfolding unregister_of
unregister_of_lem os name info k done =
    rw
      (
        unregister_lem os name info (host ((name, info) ∷ []) k) refl (found name info) done,
        erased name info,
      )
      (ap (λ r. and_then r (λ _. pure tt))
        (mutex_state_lem [] (os.munmap info.mapped_addr info.byte_size k).1))

-- A client makes a manager, registers a region with it, with an offset and a size below 2^31, and
-- the call returns. Then `GetMemoryInfo` gives each access, of a start and a length below 2^64, the
-- address that lies its start behind one address, or throws: it grants just the accesses that start
-- by offset + byte_size and either end by it or end at 2^64 or more. For a positive offset these
-- are also accesses that end more than byte_size behind that address. And `Unregister` leaves the
-- manager as it was when it was made, if `munmap` succeeds.
pub session_lem :
    {W : Type 0} (os : Os W)
    → ((addr byte_size : ℕ) (k : W) → (os.munmap addr byte_size k).0 ≡ true)
    → (name shm_key : Bytes) (offset byte_size start length : ℕ) (k : W) (g h : Host W)
    → offset < 2 ^ 31
    → byte_size < 2 ^ 31
    → start < 2 ^ 64
    → length < 2 ^ 64
    → shared_memory_manager_new k ≡ ok tt g
    → register_system_shared_memory_of os name shm_key offset byte_size g ≡ ok tt h
    → (addr : ℕ) × (get_memory_info_of name start length h ≡ (
        if leb start (offset + byte_size)
          && (leb (start + length) (offset + byte_size) || leb (2 ^ 64) (start + length))
        then ok (name, (addr + start) % 2 ^ 64) h
        else throw shared_memory_exception h))
      × (unregister_of os name h
          ≡ ok tt
              (record { manager = new_manager; kernel = (os.munmap addr byte_size h.kernel).1 }))
unfolding shared_memory_manager_new register_system_shared_memory_of
session_lem os succeeds name shm_key offset byte_size start length k g h small small' low low' made
      run =
    let same : host [] k ≡ g = cc (made, mutex_state_lem [] k) in
    let plain : int_to_size offset ≡ offset = ground (arith, small) in
    let plain' : int_to_size byte_size ≡ byte_size = ground (arith, small') in
    let run' : and_then (register_system_shared_memory os name shm_key offset byte_size (host [] k))
          (λ _. looked)
        ≡ ok tt h =
      ap
        (λ x.
          and_then (register_system_shared_memory os name shm_key offset byte_size x) (λ _. looked))
        same
      ∙ ap₂ (λ x y. and_then (register_system_shared_memory os name shm_key x y g) (λ _. looked))
          (sym plain) (sym plain')
      ∙ run in
    let (fd, addr, is) =
      registered_as name shm_key offset byte_size
        (register-Registers name shm_key offset byte_size os (host [] k) refl) h run' in
    let info = info_of name shm_key offset byte_size fd addr in
    (
      addr,
      subst
          (λ x. get_memory_info_of name start length x ≡ (
            if leb start (offset + byte_size)
              && (leb (start + length) (offset + byte_size) || leb (2 ^ 64) (start + length))
            then ok (name, (addr + start) % 2 ^ 64) x
            else throw shared_memory_exception x))
          (sym is) (get_memory_info_of_lem name info start length (omega arith) low low' h.kernel),
      ap (unregister_of os name) is
          ∙ unregister_of_lem os name info h.kernel (succeeds addr byte_size h.kernel),
    )
