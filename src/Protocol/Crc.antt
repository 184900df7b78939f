-- ===== src/Protocol/Crc.antt =====
-- common/protocol.c: crc16_update and Protocol_Crc16, CRC-16/CCITT-FALSE bit by bit.
use embedded_project_pc.Common.{
  ℕ, zero, suc, ◌*◌, ◌%◌, ◌^◌, ◌≡◌, refl, List, [], ◌∷◌, ◌++◌, arith, bit_and, bit_xor, ◌==◌,
  if◌then◌else◌,
}
use embedded_project_pc.Protocol.{IsU16}

-- The body of the inner loop: shift out the top bit, and mix in the polynomial if it was set.
unfoldable pub crc16_bit : ℕ → ℕ
crc16_bit crc =
    if bit_and crc 0x8000 == 0 then crc * 2 % 2 ^ 16 else bit_xor (crc * 2) 0x1021 % 2 ^ 16

-- `for (bit = 0; bit < 8; bit++)`; the number counts the rounds left.
unfoldable pub crc16_bits : ℕ → ℕ → ℕ
unfolding crc16_bit
crc16_bits zero crc = crc
crc16_bits (suc rounds) crc = crc16_bits rounds (crc16_bit crc)

unfoldable pub crc16_byte : ℕ → ℕ → ℕ
unfolding crc16_bits
crc16_byte crc byte = crc16_bits 8 (bit_xor crc (byte * 2 ^ 8 % 2 ^ 16) % 2 ^ 16)

unfoldable pub crc16_update : ℕ → List ℕ → ℕ
unfolding crc16_byte
crc16_update crc [] = crc
crc16_update crc (byte ∷ rest) = crc16_update (crc16_byte crc byte) rest

-- The checksum of `length data` bytes.
unfoldable pub crc16 : List ℕ → ℕ
unfolding crc16_update
crc16 bytes = crc16_update 0xffff bytes

crc16_bit-IsU16 : (crc : ℕ) → IsU16 (crc16_bit crc)
unfolding crc16_bit
crc16_bit-IsU16 crc = ground arith

crc16_bits-IsU16 : (rounds crc : ℕ) → IsU16 crc → IsU16 (crc16_bits rounds crc)
unfolding crc16_bits
crc16_bits-IsU16 zero crc h = h
crc16_bits-IsU16 (suc rounds) crc h = crc16_bits-IsU16 rounds (crc16_bit crc) (crc16_bit-IsU16 crc)

crc16_byte-IsU16 : (crc byte : ℕ) → IsU16 (crc16_byte crc byte)
unfolding crc16_byte
crc16_byte-IsU16 crc byte = crc16_bits-IsU16 8 _ (omega arith)

pub crc16_update-IsU16 : (crc : ℕ) (bytes : List ℕ) → IsU16 crc → IsU16 (crc16_update crc bytes)
unfolding crc16_update
crc16_update-IsU16 crc [] h = h
crc16_update-IsU16 crc (byte ∷ rest) h =
    crc16_update-IsU16 (crc16_byte crc byte) rest (crc16_byte-IsU16 crc byte)

-- A checksum over two buffers, one after the other, is that of the joined buffer: so the frame
-- functions, which feed LENGTH and payload in two calls, check one continuous run of bytes.
pub crc16_update-append :
    (crc : ℕ) (xs ys : List ℕ) → crc16_update (crc16_update crc xs) ys ≡ crc16_update crc (xs ++ ys)
unfolding crc16_update
crc16_update-append crc [] ys = refl
crc16_update-append crc (x ∷ xs) ys = crc16_update-append (crc16_byte crc x) xs ys

-- The check value of CRC-16/CCITT-FALSE, the checksum of the text "123456789".
crc16_check_value :
    crc16 (0x31 ∷ 0x32 ∷ 0x33 ∷ 0x34 ∷ 0x35 ∷ 0x36 ∷ 0x37 ∷ 0x38 ∷ 0x39 ∷ []) ≡ 0x29b1
unfolding crc16
crc16_check_value = refl
