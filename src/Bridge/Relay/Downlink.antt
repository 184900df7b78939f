-- ===== src/Bridge/Relay/Downlink.antt =====
-- lnc_bridge/main.cpp, from the core to the LNC: every payload that TryRecv returns is framed.
use embedded_project_pc.Common.{
  ℕ, ◌+◌, ◌^◌, ◌≤◌, ◌<◌, ◌≡◌, ◌≢◌, List, [], ◌++◌, All, length, length-append, ltb, if◌then◌else◌,
  arith,
}
use embedded_project_pc.Protocol.{IsByte, IsU16, ok, frame_start}
use embedded_project_pc.Protocol.Frame.{
  Decoded, frame, corrupt, incomplete, too_large, frame_decode,
}
use embedded_project_pc.Protocol.Frame.Encode.{frame_bytes, frame_encode_fits, length-frame_bytes}
use embedded_project_pc.Protocol.Frame.RoundTrip.{frame_decode-frame_bytes}
use embedded_project_pc.Bridge.Server.{Server, SendCalls, accept}
use embedded_project_pc.Bridge.Server.Wedge.{
  IsSound, Obeys, try_recv-Keeps, send-IsSound, accept-IsSound,
}
use embedded_project_pc.Bridge.Relay.Uplink.{uplink_bound}
use embedded_project_pc.Bridge.Relay.{
  Relay, World, forward, uplink, downlink, round, uart_buf_size, framed_size,
}

-- The 600 bytes of main.cpp are enough for every payload that its buffer holds: the frame of the
-- payload goes out, and an empty payload sends nothing.
pub downlink-frame_bytes :
    (payload : List ℕ)
    → length payload ≤ uart_buf_size
    → downlink payload ≡ ok (if ltb 0 (length payload) then frame_bytes payload else [])
unfolding downlink
downlink-frame_bytes payload h = ground (arith, frame_encode_fits payload framed_size (omega arith))

-- What the relay sends for a payload of 1 to 256 bytes is decoded by a receiver on the line, the
-- same codec, to that payload, behind noise without a START byte and before further bytes. The
-- receiver's buffer has room for the payload, its capacity is a uint16_t, and the noise is shorter
-- than 65536 - 600 bytes.
pub downlink_received :
    (noise payload post : List ℕ) (capacity : ℕ)
    → 0 < length payload
    → length payload ≤ uart_buf_size
    → All (λ b. b ≢ frame_start) noise
    → All IsByte payload
    → length payload ≤ capacity
    → IsU16 capacity
    → length noise + 600 < 2 ^ 16
    → (framed : List ℕ) × (downlink payload ≡ ok framed)
      × (frame_decode (noise ++ (framed ++ post)) capacity
          ≡ frame payload (length noise + length framed))
downlink_received noise payload post capacity pos h no_start bytes fits hcap room = (
  frame_bytes payload,
  ground (arith, downlink-frame_bytes payload h),
  frame_decode-frame_bytes noise payload post capacity no_start bytes fits hcap
      (omega (arith, length-frame_bytes payload)),
)

-- A relay whose buffers are within their arrays.
pub record IsRunning (r : Relay) : Type 0 where
  pub sound : IsSound r.server
  pub uart_fits : length r.uart_buf ≤ uart_buf_size

-- Within their contracts: recv() and Transport_Recv hand over no more than they are given room for.
pub record Permits (w : World) (r : Relay) : Type 0 where
  pub uart_room : length r.uart_buf + length w.uart_bytes ≤ uart_buf_size
  pub client_room :
      Obeys
        (uplink w.sends (accept w.incoming r.server).0 (r.uart_buf ++ w.uart_bytes)).server
        w.client

forward-IsSound :
    (calls : SendCalls) (s : Server) (buf : List ℕ) (d : Decoded)
    → IsSound s
    → IsSound (forward calls s buf d).server
unfolding forward
forward-IsSound calls s buf (frame payload consumed) v = send-IsSound calls payload s v
forward-IsSound calls s buf (corrupt consumed) v = v
forward-IsSound calls s buf incomplete v = v
forward-IsSound calls s buf too_large v = v

uplink-IsSound :
    (calls : SendCalls) (s : Server) (buf : List ℕ)
    → IsSound s
    → IsSound (uplink calls s buf).server
unfolding uplink
uplink-IsSound calls s buf v =
    ground (arith, forward-IsSound calls s buf (frame_decode buf uart_buf_size) v)

-- Every round keeps both receive buffers within their arrays, and the result of Frame_Encode, which
-- the loop does not look at, is PROTO_OK in every round.
pub round-IsRunning :
    (w : World) (r : Relay)
    → IsRunning r
    → Permits w r
    → IsRunning (round w r).0 × ((framed : List ℕ) × ((round w r).2 ≡ ok framed))
unfolding round
round-IsRunning w r v p =
    let accepted = (accept w.incoming r.server).0 in
    let buf = r.uart_buf ++ w.uart_bytes in
    let up = uplink w.sends accepted buf in
    let (sound, short) =
      try_recv-Keeps uart_buf_size w.client up.server (omega arith)
        (uplink-IsSound w.sends accepted buf (accept-IsSound w.incoming r.server v.sound))
        p.client_room in
    (
      record {
        sound = sound;
        uart_fits =
            uplink_bound w.sends accepted buf
              (omega (arith, p.uart_room, length-append r.uart_buf w.uart_bytes));
      },
      (_, downlink-frame_bytes _ short),
    )
