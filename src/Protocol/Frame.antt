-- ===== src/Protocol/Frame.antt =====
-- common/protocol.c: stuff_write_byte, destuff_read_byte, Frame_Encode and Frame_Decode.
pub mod Stuffing
mod Reading
pub mod Encode
pub mod RoundTrip
pub mod Streaming
use embedded_project_pc.Common.{
  ℕ, zero, suc, ◌+◌, ◌%◌, ◌^◌, List, [], ◌∷◌, ◌++◌, Option, none, some, bit_xor, length, get_elem?,
  ltb, leb, ◌==◌, if◌then◌else◌, ◌||◌, true, false,
}
use embedded_project_pc.Protocol.{
  Outcome, ok, err, fault, buffer_too_small, ◌>>=◌, frame_start, frame_escape, frame_escape_xor,
}
use embedded_project_pc.Protocol.Bytes.{put_u16, join_u16}
use embedded_project_pc.Protocol.Crc.{crc16_update}

-- `out[(*outIdx)++] = b`. `out` holds the bytes written so far, so that `*outIdx` is its length. A
-- store at or past the capacity is outside the buffer.
pub store : ℕ → List ℕ → ℕ → Outcome (List ℕ)
store cap out b = if ltb (length out) cap then ok (out ++ b ∷ []) else fault

-- `err buffer_too_small` is the return value 0. The sums are cut to uint16_t, as in the source.
pub stuff_write_byte : ℕ → List ℕ → ℕ → Outcome (List ℕ)
unfolding store
stuff_write_byte cap out b =
    if b == frame_start || b == frame_escape
    then (if ltb cap ((length out + 2) % 2 ^ 16)
        then err buffer_too_small
        else store cap out frame_escape >>= λ out'.
            store cap out' (bit_xor b frame_escape_xor % 2 ^ 8))
    else (if ltb cap ((length out + 1) % 2 ^ 16) then err buffer_too_small else store cap out b)

-- A `for` loop that stuffs one byte after the other and returns at the first that does not fit.
pub stuff_write_bytes : ℕ → List ℕ → List ℕ → Outcome (List ℕ)
stuff_write_bytes cap out [] = ok out
stuff_write_bytes cap out (b ∷ bs) = do
  out' ← stuff_write_byte cap out b
  stuff_write_bytes cap out' bs

-- The value is `outBuf` up to `*outWritten`.
unfoldable pub frame_encode : List ℕ → ℕ → Outcome (List ℕ)
frame_encode payload cap =
    let len_bytes = put_u16 (length payload) in
    let crc = crc16_update (crc16_update 0xffff len_bytes) payload in
    let crc_bytes = put_u16 crc in
    if ltb cap 1 then err buffer_too_small else do
      started ← store cap [] frame_start
      with_len ← stuff_write_bytes cap started len_bytes
      with_payload ← stuff_write_bytes cap with_len payload
      stuff_write_bytes cap with_payload crc_bytes

-- `in[idx]` is read by `get_elem?`, which is `none` outside the list: the guards come first, and
-- `none` is the return value 0. The new index is the second part of the result.
pub destuff_read_byte : List ℕ → ℕ → Option (ℕ × ℕ)
destuff_read_byte inp idx = elim (get_elem? inp idx) [
  | none ↦ none
  | some b ↦
      if b == frame_escape
      then (elim (get_elem? inp (idx + 1)) [
        | none ↦ none
        | some e ↦ some (bit_xor e frame_escape_xor % 2 ^ 8, (idx + 2) % 2 ^ 16)
      ])
      else some (b, (idx + 1) % 2 ^ 16)
]

-- The `for` loops of Frame_Decode: the next `n` de-stuffed bytes.
pub destuff_read_bytes : List ℕ → ℕ → ℕ → Option (List ℕ × ℕ)
destuff_read_bytes inp idx zero = some ([], idx)
destuff_read_bytes inp idx (suc n) = elim (destuff_read_byte inp idx) [
  | none ↦ none
  | some (b, idx') ↦ elim (destuff_read_bytes inp idx' n) [
    | none ↦ none
    | some (bs, end) ↦ some (b ∷ bs, end)
  ]
]

-- The loop over `startIdx`: the index of the first START byte, or the length if there is none. The
-- list is what the loop has not passed yet.
pub find_start : List ℕ → ℕ → ℕ
find_start [] start_idx = start_idx
find_start (b ∷ rest) start_idx =
    if b == frame_start then start_idx else find_start rest (start_idx + 1)

-- The returns of Frame_Decode, with the out values that each one sets.
pub data Decoded : Type 0 where
  frame : (payload : List ℕ) (consumed : ℕ) → Decoded
  corrupt : (consumed : ℕ) → Decoded
  incomplete : Decoded
  too_large : Decoded

pub check_crc : List ℕ → List ℕ → ℕ → List ℕ → Decoded
check_crc len_bytes payload end (c0 ∷ c1 ∷ []) =
    if crc16_update (crc16_update 0xffff len_bytes) payload == join_u16 c0 c1
    then frame payload end
    else corrupt end
check_crc len_bytes payload end _ = incomplete

pub decode_crc : List ℕ → List ℕ → List ℕ → ℕ → Decoded
decode_crc inp len_bytes payload idx = elim (destuff_read_bytes inp idx 2) [
  | none ↦ incomplete
  | some (crc_bytes, end) ↦ check_crc len_bytes payload end crc_bytes
]

pub decode_payload : List ℕ → ℕ → List ℕ → ℕ → Decoded
decode_payload inp cap (l0 ∷ l1 ∷ []) idx =
    if ltb cap (join_u16 l0 l1)
    then too_large
    else (elim (destuff_read_bytes inp idx (join_u16 l0 l1)) [
      | none ↦ incomplete
      | some (payload, end) ↦ decode_crc inp (l0 ∷ l1 ∷ []) payload end
    ])
decode_payload inp cap _ idx = incomplete

pub decode_header : List ℕ → ℕ → ℕ → Decoded
decode_header inp cap idx = elim (destuff_read_bytes inp idx 2) [
  | none ↦ incomplete
  | some (len_bytes, idx') ↦ decode_payload inp cap len_bytes idx'
]

-- `inp` is `inBuf` up to `inLen`.
unfoldable pub frame_decode : List ℕ → ℕ → Decoded
frame_decode inp cap =
    let start_idx = find_start inp 0 in
    if ltb start_idx (length inp)
    then decode_header inp cap ((start_idx + 1) % 2 ^ 16)
    else incomplete
