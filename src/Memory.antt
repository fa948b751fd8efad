-- ===== src/Memory.antt =====
-- The bytes of the address space, as `memcpy` and the atomic words of ipc_message_queue.h see them.
pub mod Laws
use streaming_gateway.Prelude.{
  ℕ, zero, suc, ◌+◌, ◌*◌, ◌/◌, ◌%◌, Bytes, [], ◌∷◌, if◌then◌else◌, ◌==◌,
}

abbrev pub Cells : Type 0
Cells = ℕ → ℕ

unfoldable pub write : Cells → ℕ → ℕ → Cells
write c a v b = if b == a then v else c b

unfoldable pub read_bytes : Cells → ℕ → ℕ → Bytes
read_bytes c a zero = []
read_bytes c a (suc n) = c a ∷ read_bytes c (a + 1) n

unfoldable pub write_bytes : Cells → ℕ → Bytes → Cells
write_bytes c a [] = c
write_bytes c a (x ∷ xs) = write (write_bytes c (a + 1) xs) a x

-- The `n` bytes of a number, the lowest first, as on x86-64.
unfoldable pub to_bytes : ℕ → ℕ → Bytes
to_bytes zero v = []
to_bytes (suc n) v = (v % 256) ∷ to_bytes n (v / 256)

unfoldable pub of_bytes : Bytes → ℕ
of_bytes [] = 0
of_bytes (x ∷ xs) = x + 256 * of_bytes xs

-- A `size_t`, `ulong` or pointer in memory.
unfoldable pub get64 : Cells → ℕ → ℕ
get64 c a = of_bytes (read_bytes c a 8)

unfoldable pub put64 : Cells → ℕ → ℕ → Cells
put64 c a v = write_bytes c a (to_bytes 8 v)
