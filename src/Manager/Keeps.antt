-- ===== src/Manager/Keeps.antt =====
-- The system calls of a registration leave the manager as it is, and fail by `SharedMemoryException`.
use streaming_gateway.Prelude.{ℕ, ◌≡◌, Bool, true, false, Option, none, some, Bytes, ltb, not}
use streaming_gateway.Prelude.Run.{
  Run, ok, throw, Cmd, and_then, pure, guard, shared_memory_exception,
}
use streaming_gateway.Manager.{SharedMemoryManager, add_size}
use streaming_gateway.Manager.Os.{Os, FileStatus, failed, negative, size}
use streaming_gateway.Manager.Region.{
  Host, size_of, address_of, truncate_opened, get_shared_memory_region_size,
  check_shared_memory_region_size, map_shared_memory, open_shared_memory_region,
  close_shared_memory_region,
}
use streaming_gateway.Manager.Register.{open_unless}

module _ {W : Type 0} where
  -- The run returns or throws `SharedMemoryException`, and the manager is `g`.
  pub data Keeps {A : Type 0} (g : SharedMemoryManager) : Run (Host W) A → Type 0 where
    returns : {a : A} {h : Host W} → h.manager ≡ g → Keeps g (ok a h)
    throws : {h : Host W} → h.manager ≡ g → Keeps g (throw shared_memory_exception h)

  pub Keeps-bind :
      {A B : Type 0} {g : SharedMemoryManager} {r : Run (Host W) A} (k : A → Cmd (Host W) B)
      → Keeps g r
      → ((a : A) (h : Host W) → h.manager ≡ g → Keeps g (k a h))
      → Keeps g (and_then r k)
  Keeps-bind k (returns e) next = next _ _ e
  Keeps-bind k (throws e) next = throws e

  module _ (g : SharedMemoryManager) (h : Host W) (e : h.manager ≡ g) where
    guard-Keeps : (b : Bool) → Keeps g (guard b shared_memory_exception h)
    guard-Keeps true = returns e
    guard-Keeps false = throws e

    size_of-Keeps : (s : FileStatus) → Keeps g (size_of s h)
    unfolding size_of
    size_of-Keeps failed = throws e
    size_of-Keeps negative = throws e
    size_of-Keeps (size n) = returns e

    address_of-Keeps : (o : Option ℕ) → Keeps g (address_of o h)
    unfolding address_of
    address_of-Keeps none = throws e
    address_of-Keeps (some addr) = returns e

  module _ (os : Os W) (g : SharedMemoryManager) (h : Host W) (e : h.manager ≡ g) where
    pub check-Keeps :
        (fd offset byte_size : ℕ)
        → Keeps g (check_shared_memory_region_size os fd offset byte_size h)
    unfolding check_shared_memory_region_size get_shared_memory_region_size
    check-Keeps fd offset byte_size =
        Keeps-bind (λ n. guard (not (ltb n (add_size offset byte_size))) shared_memory_exception)
          (size_of-Keeps g (record h { kernel = (os.fstat fd h.kernel).1 }) e
            (os.fstat fd h.kernel).0)
          (λ n h' e'. guard-Keeps g h' e' (not (ltb n (add_size offset byte_size))))

    pub map-Keeps : (fd offset byte_size : ℕ) → Keeps g (map_shared_memory os fd offset byte_size h)
    unfolding map_shared_memory
    map-Keeps fd offset byte_size =
        address_of-Keeps g (record h { kernel = (os.mmap fd offset byte_size h.kernel).1 }) e
          (os.mmap fd offset byte_size h.kernel).0

    pub close-Keeps : (fd : ℕ) → Keeps g (close_shared_memory_region os fd h)
    unfolding close_shared_memory_region
    close-Keeps fd =
        guard-Keeps g (record h { kernel = (os.close fd h.kernel).1 }) e (os.close fd h.kernel).0

    truncate-Keeps : (byte_size : ℕ) (o : Option ℕ) → Keeps g (truncate_opened os byte_size o h)
    unfolding truncate_opened
    truncate-Keeps byte_size none = throws e
    truncate-Keeps byte_size (some fd) =
        Keeps-bind (λ _. pure fd)
          (guard-Keeps g (record h { kernel = (os.ftruncate fd byte_size h.kernel).1 }) e
            (os.ftruncate fd byte_size h.kernel).0)
          (λ a h' e'. returns e')

  module _ (os : Os W) (g : SharedMemoryManager) (h : Host W) (e : h.manager ≡ g) where
    pub obtain-Keeps :
        (shm_key : Bytes) (byte_size : ℕ) (o : Option ℕ)
        → Keeps g (open_unless os shm_key byte_size o h)
    unfolding open_unless open_shared_memory_region
    obtain-Keeps shm_key byte_size (some fd) = returns e
    obtain-Keeps shm_key byte_size none =
        truncate-Keeps os g (record h { kernel = (os.shm_open shm_key h.kernel).1 }) e byte_size
          (os.shm_open shm_key h.kernel).0
