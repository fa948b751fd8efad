-- ===== src/Crc.antt =====
-- core/common/src/utils.{h,cpp}: the checksums that name the semaphore and its value, and the wait
-- for a semaphore. A table is the function that fills it: both are filled anew at each call, since
-- their first entry is 0.
pub mod Xor
pub mod Serial
pub mod Serial8
mod Tests
use Prim.Native.Nat.{bit_xor}
use streaming_gateway.Prelude.{ℕ, zero, suc, ◌*◌, ◌/◌, ◌%◌, [], ◌∷◌, Bytes, ◌==◌, if◌then◌else◌}

-- A round of the inner loop of `generate_crc16_table`
unfoldable pub crc16_step : ℕ → ℕ
crc16_step crc = bit_xor (crc / 2) (if crc % 2 == 1 then 40961 else 0)

-- A round of the inner loop of `generate_crc8_table`; `uint8_t` keeps 8 bits.
unfoldable pub crc8_step : ℕ → ℕ
crc8_step crc = if (crc / 128) % 2 == 1 then bit_xor (crc * 2) 29 % 256 else (crc * 2) % 256

unfoldable pub rounds : (ℕ → ℕ) → ℕ → ℕ → ℕ
rounds step zero crc = crc
rounds step (suc j) crc = rounds step j (step crc)

unfoldable pub crc16_table : ℕ → ℕ
crc16_table i = rounds crc16_step 8 i

unfoldable pub crc8_table : ℕ → ℕ
crc8_table i = rounds crc8_step 8 i

-- The loop of `crc16`
unfoldable pub crc16_loop : ℕ → Bytes → ℕ
crc16_loop crc [] = crc
crc16_loop crc (b ∷ bs) = crc16_loop (bit_xor (crc / 256) (crc16_table (bit_xor crc b % 256))) bs

-- `crc16`; `~crc` turns all 16 bits.
unfoldable pub crc16 : Bytes → ℕ
crc16 data_bytes = bit_xor (crc16_loop 65535 data_bytes) 65535

-- The loop of `crc8`
unfoldable pub crc8_loop : ℕ → Bytes → ℕ
crc8_loop crc [] = crc
crc8_loop crc (b ∷ bs) = crc8_loop (crc8_table (bit_xor crc b)) bs

unfoldable pub crc8 : Bytes → ℕ
crc8 data_bytes = crc8_loop 0 data_bytes
