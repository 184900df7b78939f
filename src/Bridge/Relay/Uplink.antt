-- ===== src/Bridge/Relay/Uplink.antt =====
-- lnc_bridge/main.cpp, from the LNC to the core: whole frames come through, corrupt ones are
-- dropped, and a full buffer without a whole frame stops the link.
use embedded_project_pc.Common.{
  ℕ, ◌+◌, ◌^◌, ◌≤◌, ◌<◌, ◌≡◌, ◌≢◌, ap, sym, ◌∙◌, List, [], ◌++◌, append-nil, append_assoc, some,
  All, length, length-append, length-eq-zero, length-drop, drop, drop-append, lt→ltb, arith,
  take_longer,
}
use embedded_project_pc.Protocol.{IsByte, IsU16, frame_start}
use embedded_project_pc.Protocol.Bytes.{put_u32, length-put_u32}
use embedded_project_pc.Protocol.Crc.{crc16}
use embedded_project_pc.Protocol.Frame.{
  Decoded, frame, corrupt, incomplete, too_large, frame_decode,
}
use embedded_project_pc.Protocol.Frame.Encode.{frame_bytes, frame_body, length-frame_bytes}
use embedded_project_pc.Protocol.Frame.RoundTrip.{
  frame_decode-frame_bytes, frame_decode-sent, sent, sent_not_empty,
}
use embedded_project_pc.Bridge.Server.{Server, SendCalls, send, accept}
use embedded_project_pc.Bridge.Server.Stream.{message_bytes}
use embedded_project_pc.Bridge.Relay.{Relay, World, forward, uplink, round, uart_buf_size}

-- With a client and two calls of send() that take all of their bytes, a payload goes out with its
-- length in front.
send-message_bytes :
    (calls : SendCalls) (payload : List ℕ) (s : Server) (fd : ℕ)
    → s.client_fd ≡ some fd
    → calls.prefix_sent ≡ some 4
    → calls.payload_sent ≡ some (length payload)
    → send calls payload s ≡ (s, message_bytes payload)
unfolding send message_bytes
send-message_bytes calls payload s fd c p q = ground (
  arith,
  c,
  p,
  q,
  take_longer 4 (put_u32 (length payload)) (omega (arith, length-put_u32 (length payload))),
  take_longer (length payload) payload (omega arith),
)

-- The bytes behind noise and a run of bytes.
drop-noise :
    (noise run post : List ℕ) → drop (length noise + length run) (noise ++ (run ++ post)) ≡ post
drop-noise noise run post =
    ap (λ (k : ℕ). drop k (noise ++ (run ++ post))) (sym (length-append noise run))
    ∙ ap (drop (length (noise ++ run))) (sym (append_assoc noise run post))
    ∙ drop-append (noise ++ run) post

-- The uplink on a buffer that is not empty.
uplink-forward :
    (calls : SendCalls) (s : Server) (buf : List ℕ)
    → 0 < length buf
    → uplink calls s buf ≡ forward calls s buf (frame_decode buf uart_buf_size)
unfolding uplink
uplink-forward calls s buf h = rw (lt→ltb 0 (length buf) h)

-- A client is connected, and the two calls of send() take all of their bytes: the 4 of the prefix
-- and those of the payload. Noise without a START byte and a whole frame behind it are in the receive
-- buffer, within its 256 bytes. Then the payload goes to the core as one message of the TCP link,
-- with its length in front, the bytes behind the frame stay in the buffer, and the server stays as it
-- is.
pub uplink_frame :
    (calls : SendCalls) (s : Server) (fd : ℕ) (noise payload post : List ℕ)
    → s.client_fd ≡ some fd
    → calls.prefix_sent ≡ some 4
    → calls.payload_sent ≡ some (length payload)
    → All (λ b. b ≢ frame_start) noise
    → All IsByte payload
    → length noise + length (frame_bytes payload) ≤ uart_buf_size
    → uplink calls s (noise ++ (frame_bytes payload ++ post))
      ≡ record { server = s; uart_buf = post; to_core = message_bytes payload }
unfolding forward
uplink_frame calls s fd noise payload post c p q no_start bytes room =
    let buf = noise ++ (frame_bytes payload ++ post) in
    let size = length-frame_bytes payload in
    ground (
      arith,
      uplink-forward calls s buf,
      length-append noise (frame_bytes payload ++ post),
      length-append (frame_bytes payload) post,
      size,
      frame_decode-frame_bytes noise payload post uart_buf_size no_start bytes (omega (arith, size))
          (omega arith) (omega arith),
      send-message_bytes calls payload s fd c p q,
      drop-noise noise (frame_bytes payload) post,
    )

-- A frame whose checksum is not that of its length and payload is dropped: nothing reaches the core,
-- and the bytes behind the frame stay in the buffer.
pub uplink_corrupt :
    (calls : SendCalls) (s : Server) (noise payload post : List ℕ) (crc : ℕ)
    → All (λ b. b ≢ frame_start) noise
    → All IsByte payload
    → IsU16 crc
    → crc ≢ crc16 (frame_body payload)
    → length payload ≤ uart_buf_size
    → length noise + length (sent payload crc) < 2 ^ 16
    → uplink calls s (noise ++ (sent payload crc ++ post))
      ≡ record { server = s; uart_buf = post; to_core = [] }
unfolding forward
uplink_corrupt calls s noise payload post crc no_start bytes hc ne fits room = ground (
  arith,
  uplink-forward calls s (noise ++ (sent payload crc ++ post)),
  length-append noise (sent payload crc ++ post),
  length-append (sent payload crc) post,
  sent_not_empty payload crc,
  frame_decode-sent noise payload post crc uart_buf_size no_start bytes fits (omega arith) hc room,
  drop-noise noise (sent payload crc) post,
)

forward_bound :
    (calls : SendCalls) (s : Server) (buf : List ℕ) (d : Decoded)
    → length (forward calls s buf d).uart_buf ≤ length buf
unfolding forward
forward_bound calls s buf (frame payload consumed) = omega (arith, length-drop consumed buf)
forward_bound calls s buf (corrupt consumed) = omega (arith, length-drop consumed buf)
forward_bound calls s buf incomplete = omega arith
forward_bound calls s buf too_large = omega arith

-- The receive buffer never holds more than it has room for.
pub uplink_bound :
    (calls : SendCalls) (s : Server) (buf : List ℕ)
    → length buf ≤ uart_buf_size
    → length (uplink calls s buf).uart_buf ≤ uart_buf_size
unfolding uplink
uplink_bound calls s buf h =
    ground (arith, forward_bound calls s buf (frame_decode buf uart_buf_size))

-- Once the receive buffer is full and Frame_Decode finds no whole frame in it, no round reads or
-- discards a byte any more, whatever happens on the links: the uplink is dead.
pub round_wedged :
    (w : World) (r : Relay)
    → length r.uart_buf ≡ uart_buf_size
    → length r.uart_buf + length w.uart_bytes ≤ uart_buf_size
    → frame_decode r.uart_buf uart_buf_size ≡ incomplete
    → ((round w r).0.uart_buf ≡ r.uart_buf) × ((round w r).1 ≡ [])
unfolding round forward
round_wedged w r full room e =
    let no_bytes : w.uart_bytes ≡ [] = length-eq-zero w.uart_bytes (omega arith) in
    let same : r.uart_buf ++ w.uart_bytes ≡ r.uart_buf =
      ap (λ (l : List ℕ). r.uart_buf ++ l) no_bytes ∙ append-nil r.uart_buf in
    rw same (ground (arith, e, uplink-forward w.sends (accept w.incoming r.server).0 r.uart_buf))
