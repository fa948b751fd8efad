-- ===== src/Queue/Access.antt =====
-- Loads and stores of a process, which are defined inside the regions that it has mapped, and its
-- calls of the manager.
use streaming_gateway.Prelude.{
  ℕ, ◌+◌, Bool, false, ◌&&◌, ◌||◌, [], ◌∷◌, Bytes, leb, length, if◌then◌else◌,
}
use streaming_gateway.Prelude.Run.{ok, throw, undefined, blocked, Cmd}
use streaming_gateway.Memory.{read_bytes, write_bytes, get64, put64}
use streaming_gateway.Manager.{SharedMemoryStateMap, SharedMemoryManager}
use streaming_gateway.Queue.{World}

-- The `n` bytes at `a` lie in one of the regions.
unfoldable pub in_regions : SharedMemoryStateMap → ℕ → ℕ → Bool
in_regions [] a n = false
in_regions ((name, info) ∷ m) a n =
    (leb info.mapped_addr a && leb (a + n) (info.mapped_addr + info.byte_size)) || in_regions m a n

abbrev pub is_mapped : World → ℕ → ℕ → Bool
is_mapped w a n = in_regions w.manager.shared_memory_map a n

unfoldable pub load : ℕ → ℕ → Cmd World Bytes
load a n w = if is_mapped w a n then ok (read_bytes w.cells a n) w else undefined

unfoldable pub load64 : ℕ → Cmd World ℕ
load64 a w = if is_mapped w a 8 then ok (get64 w.cells a) w else undefined

unfoldable pub store : ℕ → Bytes → Cmd World (Unit {0})
store a xs w =
    if is_mapped w a (length xs)
    then ok tt (record w { cells = write_bytes w.cells a xs })
    else undefined

unfoldable pub store64 : ℕ → ℕ → Cmd World (Unit {0})
store64 a v w =
    if is_mapped w a 8 then ok tt (record w { cells = put64 w.cells a v }) else undefined

-- A call of the process's own manager
unfoldable pub in_manager : {A : Type 0} → Cmd SharedMemoryManager A → Cmd World A
in_manager m w = elim (m w.manager) [
  | ok a g ↦ ok a (record w { manager = g })
  | throw e g ↦ throw e (record w { manager = g })
  | undefined ↦ undefined
  | blocked ↦ blocked
]
