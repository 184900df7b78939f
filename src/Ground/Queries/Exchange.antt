-- ===== src/Ground/Queries/Exchange.antt =====
-- gs_queries.cpp and comm_gs.cpp: each end receives the message that the other one sends.
use embedded_project_pc.Common.{
  ℕ, ◌+◌, ◌^◌, ◌%◌, ◌≤◌, ◌≡◌, refl, List, [], ◌++◌, append-nil, length, take, drop, take-append,
  arith,
}
use embedded_project_pc.Protocol.{ok}
use embedded_project_pc.Protocol.Bytes.{put_u32, get_u32-put_u32}
use embedded_project_pc.Protocol.Tlv.{Tlv, decode_tlv}
use embedded_project_pc.Protocol.Tlv.Single.{
  tlv_bytes, length-tlv_bytes, encode_tlv-tlv_bytes, decode_tlv-tlv_bytes, max_value,
}
use embedded_project_pc.Ground.Replies.{wrap_message, gs_send_raw, gs_recv_request}
use embedded_project_pc.Ground.Queries.{gs_send, gs_recv_message}

drop_prefix : (n : ℕ) (xs : List ℕ) → drop 4 (put_u32 n ++ xs) ≡ xs
unfolding put_u32
drop_prefix n xs = refl

length_prefix : (n : ℕ) (xs : List ℕ) → length (put_u32 n ++ xs) ≡ 4 + length xs
unfolding put_u32
length_prefix n xs = omega arith

wrap_message-tlv_bytes :
    (tag : ℕ) (payload : List ℕ) → wrap_message tag payload ≡ tlv_bytes tag payload
unfolding wrap_message tlv_bytes
wrap_message-tlv_bytes tag payload = refl

-- The received message: what is behind its value is nothing.
abbrev pub message_of : ℕ → List ℕ → Tlv
message_of tag value = record {
  tag = tag;
  value = record { bytes = value ++ []; len = length value };
  consumed = 3 + length value;
}

-- One message whose value has at most 65532 bytes, behind its prefix.
pub message_received :
    (tag : ℕ) (value : List ℕ)
    → length value ≤ max_value
    → decode_tlv (record {
      bytes = take (3 + length value) (tlv_bytes tag value);
      len = (3 + length value) % 2 ^ 16;
    })
      ≡ ok (message_of tag value)
message_received tag value h = ground (
  arith,
  length-tlv_bytes tag value,
  append-nil (tlv_bytes tag value),
  take-append (tlv_bytes tag value) [],
  decode_tlv-tlv_bytes tag value [] (3 + length value),
)

pub gs_recv_message-gs_send_raw :
    (tag : ℕ) (payload : List ℕ)
    → length payload ≤ max_value
    → gs_recv_message (gs_send_raw (wrap_message tag payload)) ≡ ok (message_of tag payload)
unfolding gs_recv_message gs_send_raw
gs_recv_message-gs_send_raw tag payload h =
    let bytes = tlv_bytes tag payload in
    ground (
      arith,
      wrap_message-tlv_bytes tag payload,
      length-tlv_bytes tag payload,
      length_prefix (3 + length payload) bytes,
      drop_prefix (3 + length payload) bytes,
      get_u32-put_u32 (3 + length payload) bytes,
      message_received tag payload,
    )

pub gs_send-sent :
    (tag : ℕ) (value : List ℕ)
    → length value ≤ 125
    → gs_send tag value ≡ ok (put_u32 (3 + length value) ++ tlv_bytes tag value)
unfolding gs_send
gs_send-sent tag value h =
    ground (arith, encode_tlv-tlv_bytes tag value 128 (omega arith), length-tlv_bytes tag value)

pub gs_recv_request-sent :
    (tag : ℕ) (value : List ℕ)
    → length value ≤ 125
    → gs_recv_request 512 (put_u32 (3 + length value) ++ tlv_bytes tag value)
      ≡ ok (message_of tag value)
unfolding gs_recv_request
gs_recv_request-sent tag value h =
    let bytes = tlv_bytes tag value in
    ground (
      arith,
      length-tlv_bytes tag value,
      length_prefix (3 + length value) bytes,
      drop_prefix (3 + length value) bytes,
      get_u32-put_u32 (3 + length value) bytes,
      message_received tag value,
    )
