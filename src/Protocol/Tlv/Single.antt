-- ===== src/Protocol/Tlv/Single.antt =====
-- common/protocol.c: one TLV written by Protocol_EncodeTLV and read by Protocol_DecodeTLV.
use embedded_project_pc.Common.{
  ℕ, ◌+◌, ◌≤◌, ◌<◌, ◌≡◌, List, ◌∷◌, ◌++◌, length, leb, if◌then◌else◌, arith,
}
use embedded_project_pc.Protocol.{IsU16, ok, err, fault, buffer_too_small}
use embedded_project_pc.Protocol.Bytes.{put_u16, join_u16-put_u16}
use embedded_project_pc.Protocol.Tlv.{encode_tlv, decode_tlv, decode_tlv_header}

-- The longest value whose TLV has a length that is a uint16_t.
abbrev pub max_value : ℕ
max_value = 65532

-- The layout of protocol.h, section 3.1.
unfoldable pub tlv_bytes : ℕ → List ℕ → List ℕ
tlv_bytes tag value = tag ∷ (put_u16 (length value) ++ value)

pub length-tlv_bytes : (tag : ℕ) (value : List ℕ) → length (tlv_bytes tag value) ≡ 3 + length value
unfolding tlv_bytes put_u16
length-tlv_bytes tag value = omega arith

-- A value of at most 65532 bytes is written in the layout of the specification if the capacity is
-- at least its length and 3, and otherwise the call returns PROTO_ERR_BUFFER_TOO_SMALL; nothing is
-- written past the buffer.
pub encode_tlv-tlv_bytes :
    (tag : ℕ) (value : List ℕ) (cap : ℕ)
    → length value ≤ max_value
    → encode_tlv tag value cap
      ≡ (if leb (3 + length value) cap then ok (tlv_bytes tag value) else err buffer_too_small)
unfolding encode_tlv tlv_bytes
encode_tlv-tlv_bytes tag value cap h = ground arith

-- For the three longest values of a uint16_t the capacity test wraps around: the call passes it
-- with 2 bytes of room and stores past the buffer, whatever capacity a uint16_t can express.
pub encode_tlv_overrun :
    (tag : ℕ) (value : List ℕ) (cap : ℕ)
    → max_value < length value
    → IsU16 (length value)
    → 2 ≤ cap
    → IsU16 cap
    → encode_tlv tag value cap ≡ fault
unfolding encode_tlv
encode_tlv_overrun tag value cap h hv h2 hc = ground arith

-- A TLV at the front of a buffer is decoded, wherever its length fits the bytes at hand.
pub decode_tlv-tlv_bytes :
    (tag : ℕ) (value rest : List ℕ) (n : ℕ)
    → length value ≤ max_value
    → 3 + length value ≤ n
    → decode_tlv (record { bytes = tlv_bytes tag value ++ rest; len = n })
      ≡ ok (record {
        tag = tag;
        value = record { bytes = value ++ rest; len = length value };
        consumed = 3 + length value;
      })
unfolding decode_tlv decode_tlv_header tlv_bytes put_u16
decode_tlv-tlv_bytes tag value rest n h hn = ground (arith, join_u16-put_u16 (length value))

-- What Protocol_EncodeTLV wrote is read back by Protocol_DecodeTLV, before any further bytes: the
-- tag, a pointer to the value with its length, and the number of bytes written as consumed.
pub decode_tlv-encode_tlv :
    (tag : ℕ) (value written rest : List ℕ) (cap n : ℕ)
    → length value ≤ max_value
    → encode_tlv tag value cap ≡ ok written
    → length written ≤ n
    → decode_tlv (record { bytes = written ++ rest; len = n })
      ≡ ok (record {
        tag = tag;
        value = record { bytes = value ++ rest; len = length value };
        consumed = length written;
      })
decode_tlv-encode_tlv tag value written rest cap n h e hn =
    let w : tlv_bytes tag value ≡ written = ground (arith, encode_tlv-tlv_bytes tag value cap h) in
    ground (arith, w, length-tlv_bytes tag value, decode_tlv-tlv_bytes tag value rest n h)
