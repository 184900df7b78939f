-- ===== src/Protocol.antt =====
-- common/protocol.h: the constants of the wire protocol and the results of the codec's calls.
-- The functions of common/protocol.c stand in the modules below.
pub mod Bytes
pub mod Tlv
pub mod Crc
pub mod Frame
pub mod Walk
use embedded_project_pc.Common.{ℕ, ◌^◌, ◌<◌, List}

-- uint8_t and uint16_t are numbers with a bound.
abbrev pub IsByte : ℕ → Type 0
IsByte b = b < 256

abbrev pub IsU16 : ℕ → Type 0
IsU16 n = n < 2 ^ 16

abbrev pub IsU32 : ℕ → Type 0
IsU32 n = n < 2 ^ 32

-- The error codes of ProtoResult_t.
pub data ProtoError : Type 0 where
  buffer_too_small incomplete malformed not_found : ProtoError

-- What a call of the codec does. `ok` is PROTO_OK with the values written through the out
-- pointers, `err` an error code. `fault` is an access outside the buffer that the caller handed
-- over, which C leaves undefined. `hangs` means that a loop used up the fuel of the model.
pub data Outcome {ℓ} (A : Type ℓ) : Type ℓ where
  ok : A → Outcome A
  err : ProtoError → Outcome A
  fault : Outcome A
  hangs : Outcome A

infixl 5 ◌>>=◌
abbrev pub ◌>>=◌ {ℓ κ} : {A : Type ℓ} {B : Type κ} → Outcome A → (A → Outcome B) → Outcome B
ok a >>= f = f a
err e >>= f = err e
fault >>= f = fault
hangs >>= f = hangs

-- A C pointer with the length that goes with it. `bytes` is the memory from the pointer to the end
-- of the buffer, `len` the length that the code believes in.
pub record Span : Type 0 where
  pub bytes : List ℕ
  pub len : ℕ

-- PROTO_FRAME_START, PROTO_FRAME_ESCAPE, PROTO_FRAME_ESCAPE_XOR.
abbrev pub frame_start : ℕ
frame_start = 0x7e

abbrev pub frame_escape : ℕ
frame_escape = 0x7d

abbrev pub frame_escape_xor : ℕ
frame_escape_xor = 0x20

-- Every result of a call has the property.
abbrev pub Returns : {A : Type 0} → (A → Type 0) → Outcome A → Type 0
Returns P (ok a) = P a
Returns P (err e) = Unit {0}
Returns P fault = Unit {0}
Returns P hangs = Unit {0}
