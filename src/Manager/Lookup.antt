-- ===== src/Manager/Lookup.antt =====
-- `GetMemoryInfo`: which accesses it grants, and where they lie.
use streaming_gateway.Prelude.{
  ℕ, ◌+◌, ◌%◌, ◌^◌, ◌<◌, ◌≡◌, Bool, false, not, ◌&&◌, ◌||◌, ltb, inl, inr, Option-cases, Option,
  none, some, Bytes, arith, leb, if◌then◌else◌,
}
use streaming_gateway.Prelude.Run.{Run, ok, throw, shared_memory_exception}
use streaming_gateway.Dict.{lookup}
use streaming_gateway.Manager.{
  SharedMemoryInfo, SharedMemoryManager, release, with_lock, locate, find_and_locate,
  get_memory_info,
}

-- An access is granted that starts and ends by the region's end, which counts from the start of the
-- shared memory object; and so is one that starts by it and is so long that its end wraps round.
abbrev pub grants : SharedMemoryInfo → ℕ → ℕ → Bool
grants info offset byte_size =
    let last = info.offset + info.byte_size in
    leb offset last && (leb (offset + byte_size) last || leb (2 ^ 64) (offset + byte_size))

-- What `GetMemoryInfo` gives: the address counts from the start of the mapping.
abbrev pub located :
    Option SharedMemoryInfo → ℕ → ℕ → SharedMemoryManager → Run SharedMemoryManager ℕ
located none offset byte_size g = throw shared_memory_exception g
located (some info) offset byte_size g =
    if grants info offset byte_size
    then ok ((info.mapped_addr + offset) % 2 ^ 64) g
    else throw shared_memory_exception g

-- The two guards of the code, with their sums as machine words, are the one test.
guards_lem :
    (last offset byte_size : ℕ)
    → last < 2 ^ 64
    → offset < 2 ^ 64
    → byte_size < 2 ^ 64
    → (ltb last offset || ltb last ((offset + byte_size) % 2 ^ 64))
      ≡ not
          (leb offset last && (leb (offset + byte_size) last || leb (2 ^ 64) (offset + byte_size)))
guards_lem last offset byte_size h h' h'' = ground arith

-- With the mutex free, for an offset and a size that are machine words and regions that end below
-- 2^64, `GetMemoryInfo` throws for an unknown name. For a known one it grants an access that starts
-- and ends by the region's end, at its distance from the mapping's start; it also grants an access
-- that starts by that end and whose own end is 2^64 or more; it throws for any other. In all cases
-- it leaves the manager as it was.
pub get_memory_info_lem :
    (name : Bytes) (offset byte_size : ℕ) (g : SharedMemoryManager)
    → g.locked ≡ false
    → offset < 2 ^ 64
    → byte_size < 2 ^ 64
    → ((info : SharedMemoryInfo)
        → lookup name g.shared_memory_map ≡ some info
        → info.offset + info.byte_size < 2 ^ 64)
    → get_memory_info name offset byte_size g
      ≡ located (lookup name g.shared_memory_map) offset byte_size g
unfolding get_memory_info with_lock find_and_locate locate release
get_memory_info_lem name offset byte_size g free small small' sums =
    elim (Option-cases (lookup name g.shared_memory_map)) [
      | inl e ↦ ground (arith, e)
      | inr (info, e) ↦
          let low = sums info e in
          ground (
            arith,
            e,
            low,
            guards_lem (info.offset + info.byte_size) offset byte_size low small small',
          )
    ]
