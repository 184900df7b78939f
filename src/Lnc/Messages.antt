-- ===== src/Lnc/Messages.antt =====
-- lnc_link_client.cpp: its messages are those of the bridge.
use embedded_project_pc.Common.{
  ℕ, ◌^◌, ◌≤◌, ◌<◌, ◌≡◌, refl, List, ◌++◌, append_assoc, length, length-append, drop, take-append,
  drop-append, arith,
}
use embedded_project_pc.Protocol.{ok}
use embedded_project_pc.Protocol.Bytes.{put_u32, get_u32-put_u32}
use embedded_project_pc.Protocol.Tlv.Single.{tlv_bytes, encode_tlv-tlv_bytes}
use embedded_project_pc.Bridge.Server.Stream.{message_bytes}
use embedded_project_pc.Lnc.{lnc_take, lnc_recv, lnc_send}

-- A request with a value of at most 29 bytes goes out as one message of the bridge's TCP link, which
-- holds the value as a TLV.
pub lnc_send-message_bytes :
    (tag : ℕ) (value : List ℕ)
    → length value ≤ 29
    → lnc_send tag value ≡ ok (message_bytes (tlv_bytes tag value))
unfolding lnc_send message_bytes
lnc_send-message_bytes tag value h = ground (arith, encode_tlv-tlv_bytes tag value 32 (omega arith))

drop-prefix : (n : ℕ) (xs : List ℕ) → drop 4 (put_u32 n ++ xs) ≡ xs
unfolding put_u32
drop-prefix n xs = refl

-- A message that the bridge sends, of at most as many bytes as the buffer holds, is received as it
-- is, and what follows it stays in the socket.
pub lnc_recv-message_bytes :
    (cap : ℕ) (payload rest : List ℕ)
    → length payload ≤ cap
    → cap < 2 ^ 16
    → lnc_recv cap (message_bytes payload ++ rest) ≡ (payload, rest)
unfolding lnc_recv lnc_take message_bytes
lnc_recv-message_bytes cap payload rest fits small = ground (
  arith,
  append_assoc (put_u32 (length payload)) payload rest,
  get_u32-put_u32 (length payload) (payload ++ rest) (omega arith),
  drop-prefix (length payload) (payload ++ rest),
  length-append payload rest,
  take-append payload rest,
  drop-append payload rest,
)
