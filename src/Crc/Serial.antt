-- ===== src/Crc/Serial.antt =====
-- The shift register that crc16 stands for, which takes one bit of the message after another, and
-- why the table gives the same.
use Prim.Native.Nat.{bit_xor}
use native.Mathlib.Nat.{pow-suc, mul_assoc}
use streaming_gateway.Prelude.{
  ℕ, zero, suc, ◌+◌, ◌*◌, ◌/◌, ◌%◌, ◌^◌, ◌<◌, ◌≡◌, refl, sym, ap, ap₂, ◌∙◌, [], ◌∷◌, Bytes, ◌==◌,
  if◌then◌else◌, arith,
}
use streaming_gateway.Crc.{crc16_step, rounds, crc16_table, crc16_loop, crc16}
use streaming_gateway.Crc.Xor.{
  half-bit_xor, low-bit_xor, bit_xor_comm, bit_xor_assoc, bit_xor-zero, bit_xor-disjoint,
}

-- The polynomial where a bit is set
unfoldable pub feedback : ℕ → ℕ
feedback bit = if bit == 1 then 40961 else 0

-- The register takes a bit: it is shifted, and the polynomial is added if the bit that falls out
-- differs from the bit that comes in.
unfoldable pub take_bit : ℕ → ℕ → ℕ
take_bit register bit = bit_xor (register / 2) (feedback ((register % 2 + bit) % 2))

-- Some bits of a byte, the lowest first
unfoldable pub take_bits : ℕ → ℕ → ℕ → ℕ
take_bits zero register byte = register
take_bits (suc n) register byte = take_bits n (take_bit register (byte % 2)) (byte / 2)

-- The register after a message
unfoldable pub take_bytes : ℕ → Bytes → ℕ
take_bytes register [] = register
take_bytes register (byte ∷ bytes) = take_bytes (take_bits 8 register byte) bytes

crc16_step_lem : (x : ℕ) → crc16_step x ≡ bit_xor (x / 2) (feedback (x % 2))
unfolding crc16_step feedback
crc16_step_lem x = refl

-- A bit that is added to the register first has the same effect as one that comes in.
step-bit_xor :
    (register byte : ℕ)
    → crc16_step (bit_xor register byte) ≡ bit_xor (take_bit register (byte % 2)) (byte / 2)
unfolding take_bit
step-bit_xor register byte =
    let f = feedback ((register % 2 + byte % 2) % 2) in
    crc16_step_lem (bit_xor register byte)
    ∙ ap₂ bit_xor (half-bit_xor register byte) (ap feedback (low-bit_xor register byte))
    ∙ bit_xor_assoc (register / 2) (byte / 2) f
    ∙ ap (bit_xor (register / 2)) (bit_xor_comm (byte / 2) f)
    ∙ sym (bit_xor_assoc (register / 2) f (byte / 2))

rounds-take_bits :
    (n register byte : ℕ)
    → byte < 2 ^ n
    → rounds crc16_step n (bit_xor register byte) ≡ take_bits n register byte
unfolding rounds take_bits
rounds-take_bits zero register byte h =
    ap (bit_xor register) {x = byte} {y = 0} (omega (arith, h)) ∙ bit_xor-zero register
rounds-take_bits (suc n) register byte h =
    ap (rounds crc16_step n) (step-bit_xor register byte)
    ∙ rounds-take_bits n (take_bit register (byte % 2)) (byte / 2) (omega (arith, pow-suc 2 n, h))

-- What stands high enough is only shifted down.
step-high : (x high : ℕ) → crc16_step (bit_xor x (high * 2)) ≡ bit_xor (crc16_step x) high
step-high x high =
    let f = feedback (x % 2) in
    crc16_step_lem (bit_xor x (high * 2))
    ∙ ap₂ bit_xor
        (half-bit_xor x (high * 2)
          ∙ ap (bit_xor (x / 2)) {x = high * 2 / 2} {y = high} (omega arith))
        (ap feedback (low-bit_xor x (high * 2) ∙ omega arith))
    ∙ bit_xor_assoc (x / 2) high f
    ∙ ap (bit_xor (x / 2)) (bit_xor_comm high f)
    ∙ sym (bit_xor_assoc (x / 2) f high)
    ∙ ap (λ y. bit_xor y high) (sym (crc16_step_lem x))

rounds-high :
    (n x high : ℕ)
    → rounds crc16_step n (bit_xor x (high * 2 ^ n)) ≡ bit_xor (rounds crc16_step n x) high
unfolding rounds
rounds-high zero x high = ap (bit_xor x) {x = high * 2 ^ 0} {y = high} (omega arith)
rounds-high (suc n) x high =
    ap (λ y. rounds crc16_step n (crc16_step (bit_xor x y)))
      (ap (λ p. high * p) (pow-suc 2 n) ∙ sym (mul_assoc high (2 ^ n) 2))
    ∙ ap (rounds crc16_step n) (step-high x (high * 2 ^ n))
    ∙ rounds-high n (crc16_step x) high

-- One look into the table does what eight steps do.
table_lem : (x : ℕ) → bit_xor (x / 256) (crc16_table (x % 256)) ≡ rounds crc16_step 8 x
unfolding crc16_table
table_lem x =
    let split : bit_xor (x % 256) (x / 256 * 2 ^ 8) ≡ x =
      bit_xor-disjoint 8 (x % 256) (x / 256) (omega arith) ∙ omega arith in
    bit_xor_comm (x / 256) (rounds crc16_step 8 (x % 256))
    ∙ sym (rounds-high 8 (x % 256) (x / 256))
    ∙ ap (rounds crc16_step 8) split

-- Each entry of a list is a byte.
unfoldable pub AreBytes : Bytes → Type 0
AreBytes [] = Unit
AreBytes (b ∷ bs) = (b < 256) × AreBytes bs

abbrev pub halve : ℕ → ℕ → ℕ
halve zero x = x
halve (suc n) x = halve n (x / 2)

pub halve-bit_xor : (n a b : ℕ) → halve n (bit_xor a b) ≡ bit_xor (halve n a) (halve n b)
halve-bit_xor zero a b = refl
halve-bit_xor (suc n) a b = ap (halve n) (half-bit_xor a b) ∙ halve-bit_xor n (a / 2) (b / 2)

-- A byte does not reach the digits above it.
above-bit_xor : (register byte : ℕ) → byte < 256 → bit_xor register byte / 256 ≡ register / 256
above-bit_xor register byte h =
    let top : halve 8 byte ≡ 0 = omega (arith, h) in
    let rest : halve 8 (bit_xor register byte) ≡ halve 8 register =
      halve-bit_xor 8 register byte
      ∙ ap (bit_xor (halve 8 register)) top
      ∙ bit_xor-zero (halve 8 register) in
    omega (arith, rest)

crc16_loop-take_bytes :
    (register : ℕ) (bytes : Bytes)
    → AreBytes bytes
    → crc16_loop register bytes ≡ take_bytes register bytes
unfolding crc16_loop take_bytes AreBytes
crc16_loop-take_bytes register [] a = refl
crc16_loop-take_bytes register (byte ∷ bytes) (small, a) =
    let x = bit_xor register byte in
    let one : bit_xor (register / 256) (crc16_table (x % 256)) ≡ take_bits 8 register byte =
      ap (λ y. bit_xor y (crc16_table (x % 256))) (sym (above-bit_xor register byte small))
      ∙ table_lem x
      ∙ rounds-take_bits 8 register byte small in
    ap (λ y. crc16_loop y bytes) one ∙ crc16_loop-take_bytes (take_bits 8 register byte) bytes a

-- For a message of bytes, `crc16` with its table is what the shift register gives that takes the
-- message bit by bit, each byte from its lowest bit on, begun with all ones and turned at the end.
pub crc16-take_bytes :
    (bytes : Bytes) → AreBytes bytes → crc16 bytes ≡ bit_xor (take_bytes 65535 bytes) 65535
unfolding crc16
crc16-take_bytes bytes a = ap (λ y. bit_xor y 65535) (crc16_loop-take_bytes 65535 bytes a)
