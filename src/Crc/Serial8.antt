-- ===== src/Crc/Serial8.antt =====
-- The shift register that crc8 stands for, which takes each byte from its highest bit on.
use Prim.Native.Nat.{bit_xor}
use streaming_gateway.Prelude.{
  ℕ, zero, suc, ◌+◌, ◌*◌, ◌/◌, ◌%◌, ◌≡◌, refl, sym, ap, ap₂, ◌∙◌, [], ◌∷◌, Bytes, ◌==◌, Bool-cases,
  if◌then◌else◌, inl, inr, arith,
}
use streaming_gateway.Crc.{crc8_step, rounds, crc8_table, crc8_loop, crc8, crc16}
use streaming_gateway.Crc.Xor.{
  half-bit_xor, low-bit_xor, bit_xor_comm, bit_xor_assoc, bit_xor-zero, bit_xor_step,
}
use streaming_gateway.Crc.Serial.{take_bytes, AreBytes, crc16-take_bytes, halve, halve-bit_xor}

-- The polynomial where a bit is set
unfoldable pub feedback8 : ℕ → ℕ
feedback8 bit = if bit == 1 then 29 else 0

-- The register of 8 bits takes a bit: it is shifted to the left, and the polynomial is added if the
-- bit that falls out differs from the bit that comes in.
unfoldable pub take_bit8 : ℕ → ℕ → ℕ
take_bit8 register bit = bit_xor (register * 2 % 256) (feedback8 ((register / 128 % 2 + bit) % 2))

-- Some bits of a byte, the highest first
unfoldable pub take_bits8 : ℕ → ℕ → ℕ → ℕ
take_bits8 zero register byte = register
take_bits8 (suc n) register byte =
    take_bits8 n (take_bit8 register (byte / 128 % 2)) (byte * 2 % 256)

-- The register after a message
unfoldable pub take_bytes8 : ℕ → Bytes → ℕ
take_bytes8 register [] = register
take_bytes8 register (byte ∷ bytes) = take_bytes8 (take_bits8 8 register byte) bytes

-- the lowest digits of a number
abbrev low : ℕ → ℕ → ℕ
low zero x = 0
low (suc n) x = low n (x / 2) * 2 + x % 2

lows-bit_xor : (n a b : ℕ) → low n (bit_xor a b) ≡ bit_xor (low n a) (low n b)
lows-bit_xor zero a b = sym (bit_xor-zero 0)
lows-bit_xor (suc n) a b =
    let x = low n (a / 2) * 2 + a % 2 in
    let y = low n (b / 2) * 2 + b % 2 in
    let halves : bit_xor (x / 2) (y / 2) ≡ bit_xor (low n (a / 2)) (low n (b / 2)) =
      ap₂ bit_xor (omega arith) (omega arith) in
    let rest : low n (bit_xor a b / 2) ≡ bit_xor (low n (a / 2)) (low n (b / 2)) =
      ap (low n) (half-bit_xor a b) ∙ lows-bit_xor n (a / 2) (b / 2) in
    omega (arith, rest, halves, low-bit_xor a b, bit_xor_step x y)

byte-bit_xor : (a b : ℕ) → bit_xor a b % 256 ≡ bit_xor (a % 256) (b % 256)
byte-bit_xor a b =
    let whole : low 8 (bit_xor a b) ≡ bit_xor a b % 256 = omega arith in
    let left : low 8 a ≡ a % 256 = omega arith in
    let right : low 8 b ≡ b % 256 = omega arith in
    sym whole ∙ lows-bit_xor 8 a b ∙ ap₂ bit_xor left right

double-bit_xor : (a b : ℕ) → bit_xor (a * 2) (b * 2) ≡ bit_xor a b * 2
double-bit_xor a b =
    let halves : bit_xor (a * 2 / 2) (b * 2 / 2) ≡ bit_xor a b =
      ap₂ bit_xor (omega arith) (omega arith) in
    omega (arith, halves, bit_xor_step (a * 2) (b * 2))

-- Shifted to the left by one
shifted-bit_xor : (a b : ℕ) → bit_xor a b * 2 % 256 ≡ bit_xor (a * 2 % 256) (b * 2 % 256)
shifted-bit_xor a b = ap (λ x. x % 256) (sym (double-bit_xor a b)) ∙ byte-bit_xor (a * 2) (b * 2)

top-bit_xor : (a b : ℕ) → bit_xor a b / 128 % 2 ≡ (a / 128 % 2 + b / 128 % 2) % 2
top-bit_xor a b =
    let seven : halve 7 (bit_xor a b) ≡ bit_xor (halve 7 a) (halve 7 b) = halve-bit_xor 7 a b in
    omega (arith, ap (λ x. x % 2) seven, low-bit_xor (halve 7 a) (halve 7 b))

crc8_step_lem : (x : ℕ) → crc8_step x ≡ bit_xor (x * 2 % 256) (feedback8 (x / 128 % 2))
unfolding crc8_step feedback8
crc8_step_lem x = elim (Bool-cases (x / 128 % 2 == 1)) [
  | inl e ↦ rw e (byte-bit_xor (x * 2) 29)
  | inr e ↦ rw e (sym (bit_xor-zero (x * 2 % 256)))
]

step8-bit_xor :
    (register byte : ℕ)
    → crc8_step (bit_xor register byte)
      ≡ bit_xor (take_bit8 register (byte / 128 % 2)) (byte * 2 % 256)
unfolding take_bit8
step8-bit_xor register byte =
    let f = feedback8 ((register / 128 % 2 + byte / 128 % 2) % 2) in
    crc8_step_lem (bit_xor register byte)
    ∙ ap₂ bit_xor (shifted-bit_xor register byte) (ap feedback8 (top-bit_xor register byte))
    ∙ bit_xor_assoc (register * 2 % 256) (byte * 2 % 256) f
    ∙ ap (bit_xor (register * 2 % 256)) (bit_xor_comm (byte * 2 % 256) f)
    ∙ sym (bit_xor_assoc (register * 2 % 256) f (byte * 2 % 256))

abbrev shift : ℕ → ℕ → ℕ
shift zero byte = byte
shift (suc n) byte = shift n (byte * 2 % 256)

rounds-take_bits8 :
    (n register byte : ℕ)
    → rounds crc8_step n (bit_xor register byte)
      ≡ bit_xor (take_bits8 n register byte) (shift n byte)
unfolding rounds take_bits8
rounds-take_bits8 zero register byte = refl
rounds-take_bits8 (suc n) register byte =
    ap (rounds crc8_step n) (step8-bit_xor register byte)
    ∙ rounds-take_bits8 n (take_bit8 register (byte / 128 % 2)) (byte * 2 % 256)

crc8_loop-take_bytes8 :
    (register : ℕ) (bytes : Bytes) → crc8_loop register bytes ≡ take_bytes8 register bytes
unfolding crc8_loop take_bytes8 crc8_table
crc8_loop-take_bytes8 register [] = refl
crc8_loop-take_bytes8 register (byte ∷ bytes) =
    let out : shift 8 byte ≡ 0 = omega arith in
    let one : rounds crc8_step 8 (bit_xor register byte) ≡ take_bits8 8 register byte =
      rounds-take_bits8 8 register byte
      ∙ ap (bit_xor (take_bits8 8 register byte)) out
      ∙ bit_xor-zero (take_bits8 8 register byte) in
    ap (λ y. crc8_loop y bytes) one ∙ crc8_loop-take_bytes8 (take_bits8 8 register byte) bytes

-- For a message of bytes, `crc16` with its table is what a shift register gives that takes the
-- message bit by bit, each byte from its lowest bit on, begun with all ones and turned at the end;
-- and `crc8` with its table is what one of 8 bits gives that takes each byte from its highest bit on,
-- begun with 0.
pub checksums_lem :
    (bytes : Bytes)
    → AreBytes bytes
    → (crc16 bytes ≡ bit_xor (take_bytes 65535 bytes) 65535) × (crc8 bytes ≡ take_bytes8 0 bytes)
unfolding crc8
checksums_lem bytes a = (crc16-take_bytes bytes a, crc8_loop-take_bytes8 0 bytes)
