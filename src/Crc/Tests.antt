-- ===== src/Crc/Tests.antt =====
-- The check values of CRC-16/USB and CRC-8/GSM-A, which these checksums are.
use Prim.Native.Nat.{bit_xor}
use streaming_gateway.Prelude.{◌≡◌, refl, Bytes, codes, arith}
use streaming_gateway.Crc.Serial.{take_bytes, AreBytes}
use streaming_gateway.Crc.Serial8.{take_bytes8, checksums_lem}
use streaming_gateway.Crc.{
  crc16_step, crc8_step, rounds, crc16_table, crc8_table, crc16_loop, crc16, crc8_loop, crc8,
}

crc16_check : crc16 (codes "123456789") ≡ 46280
unfolding crc16 crc16_loop crc16_table crc16_step rounds
crc16_check = refl

crc8_check : crc8 (codes "123456789") ≡ 55
unfolding crc8 crc8_loop crc8_table crc8_step rounds
crc8_check = refl

abbrev digits : Bytes
digits = codes "123456789"

digits-AreBytes : AreBytes digits
unfolding AreBytes
digits-AreBytes = ground arith

checksums_example :
    (crc16 digits ≡ bit_xor (take_bytes 65535 digits) 65535) × (crc8 digits ≡ take_bytes8 0 digits)
checksums_example = checksums_lem digits digits-AreBytes
