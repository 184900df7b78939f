-- ===== src/Protocol/Bytes.antt =====
-- common/protocol.c: Protocol_PutU16, Protocol_PutU32, Protocol_GetU16 and Protocol_GetU32.
use embedded_project_pc.Common.{
  ℕ, ◌+◌, ◌*◌, ◌/◌, ◌%◌, ◌^◌, ◌<◌, ◌≡◌, refl, ap, List, [], ◌∷◌, ◌++◌, All, length, arith, bit_or,
}
use embedded_project_pc.Common.Bits.{bit_or-shift, bit_or-add}
use embedded_project_pc.Protocol.{IsByte, IsU16, IsU32, Outcome, ok, fault}

-- The bytes written, in order: `>>` is a division, a cast to uint8_t and `& 0xFF` keep 8 bits.
unfoldable pub put_u16 : ℕ → List ℕ
put_u16 value = (value / 2 ^ 8 % 2 ^ 8) ∷ (value % 2 ^ 8) ∷ []

unfoldable pub put_u32 : ℕ → List ℕ
put_u32 value =
    (value / 2 ^ 24 % 2 ^ 8)
    ∷ (value / 2 ^ 16 % 2 ^ 8)
    ∷ (value / 2 ^ 8 % 2 ^ 8)
    ∷ (value % 2 ^ 8)
    ∷ []

unfoldable pub join_u16 : ℕ → ℕ → ℕ
join_u16 b0 b1 = bit_or (b0 * 2 ^ 8) b1 % 2 ^ 16

unfoldable pub join_u32 : ℕ → ℕ → ℕ → ℕ → ℕ
join_u32 b0 b1 b2 b3 =
    bit_or (bit_or (bit_or (b0 * 2 ^ 24 % 2 ^ 32) (b1 * 2 ^ 16 % 2 ^ 32)) (b2 * 2 ^ 8 % 2 ^ 32)) b3

-- The reads do not check the buffer's size: past its end they are undefined.
unfoldable pub get_u16 : List ℕ → Outcome ℕ
get_u16 (b0 ∷ b1 ∷ rest) = ok (join_u16 b0 b1)
get_u16 (b0 ∷ []) = fault
get_u16 [] = fault

unfoldable pub get_u32 : List ℕ → Outcome ℕ
get_u32 (b0 ∷ b1 ∷ b2 ∷ b3 ∷ rest) = ok (join_u32 b0 b1 b2 b3)
get_u32 (b0 ∷ b1 ∷ b2 ∷ []) = fault
get_u32 (b0 ∷ b1 ∷ []) = fault
get_u32 (b0 ∷ []) = fault
get_u32 [] = fault

pub join_u16-add : (b0 b1 : ℕ) → IsByte b0 → IsByte b1 → join_u16 b0 b1 ≡ b0 * 256 + b1
unfolding join_u16
join_u16-add b0 b1 h0 h1 = omega (arith, bit_or-shift 8 b0 b1 (omega arith))

pub join_u16-lt : (b0 b1 : ℕ) → join_u16 b0 b1 < 2 ^ 16
unfolding join_u16
join_u16-lt b0 b1 = omega arith

-- The shifted bytes do not meet, so that `|` adds them.
pub join_u32-add :
    (b0 b1 b2 b3 : ℕ)
    → IsByte b0
    → IsByte b1
    → IsByte b2
    → IsByte b3
    → join_u32 b0 b1 b2 b3 ≡ ((b0 * 256 + b1) * 256 + b2) * 256 + b3
unfolding join_u32
join_u32-add b0 b1 b2 b3 h0 h1 h2 h3 = rw (top, middle, low) (omega arith)
  where
    top : bit_or (b0 * 2 ^ 24 % 2 ^ 32) (b1 * 2 ^ 16 % 2 ^ 32) ≡ b0 * 2 ^ 24 + b1 * 2 ^ 16
    top = omega (
      arith,
      bit_or-add 24 b0 (b0 * 2 ^ 24 % 2 ^ 32) (b1 * 2 ^ 16 % 2 ^ 32) (omega arith) (omega arith),
    )

    middle :
        bit_or (b0 * 2 ^ 24 + b1 * 2 ^ 16) (b2 * 2 ^ 8 % 2 ^ 32)
        ≡ (b0 * 256 + b1) * 2 ^ 16 + b2 * 2 ^ 8
    middle = omega (
      arith,
      bit_or-add 16 (b0 * 256 + b1) (b0 * 2 ^ 24 + b1 * 2 ^ 16) (b2 * 2 ^ 8 % 2 ^ 32) (omega arith)
          (omega arith),
    )

    low :
        bit_or ((b0 * 256 + b1) * 2 ^ 16 + b2 * 2 ^ 8) b3
        ≡ (b0 * 256 + b1) * 2 ^ 16 + b2 * 2 ^ 8 + b3
    low =
        bit_or-add 8 ((b0 * 256 + b1) * 256 + b2) ((b0 * 256 + b1) * 2 ^ 16 + b2 * 2 ^ 8) b3
          (omega arith) (omega arith)

pub put_u16-IsByte : (value : ℕ) → All IsByte (put_u16 value)
unfolding put_u16
put_u16-IsByte value = omega arith

pub put_u32-IsByte : (value : ℕ) → All IsByte (put_u32 value)
unfolding put_u32
put_u32-IsByte value = omega arith

pub length-put_u16 : (value : ℕ) → length (put_u16 value) ≡ 2
unfolding put_u16
length-put_u16 value = refl

pub length-put_u32 : (value : ℕ) → length (put_u32 value) ≡ 4
unfolding put_u32
length-put_u32 value = refl

pub join_u16-put_u16 :
    (value : ℕ) → IsU16 value → join_u16 (value / 2 ^ 8 % 2 ^ 8) (value % 2 ^ 8) ≡ value
join_u16-put_u16 value h =
    omega (arith, join_u16-add (value / 2 ^ 8 % 2 ^ 8) (value % 2 ^ 8) (omega arith) (omega arith))

-- A uint16_t is read back from the two bytes that were written for it, whatever follows them.
pub get_u16-put_u16 :
    (value : ℕ) (rest : List ℕ) → IsU16 value → get_u16 (put_u16 value ++ rest) ≡ ok value
unfolding get_u16 put_u16
get_u16-put_u16 value rest h = rw (join_u16-put_u16 value h) refl

-- A uint32_t is read back from the four bytes that were written for it, whatever follows them.
pub get_u32-put_u32 :
    (value : ℕ) (rest : List ℕ) → IsU32 value → get_u32 (put_u32 value ++ rest) ≡ ok value
unfolding get_u32 put_u32
get_u32-put_u32 value rest h = ap ok (
    omega (
      arith,
      join_u32-add (value / 2 ^ 24 % 2 ^ 8) (value / 2 ^ 16 % 2 ^ 8) (value / 2 ^ 8 % 2 ^ 8)
          (value % 2 ^ 8) (omega arith) (omega arith) (omega arith) (omega arith),
    ))
