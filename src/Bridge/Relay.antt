-- ===== src/Bridge/Relay.antt =====
-- pc_side/lnc_bridge/main.cpp: one round of the main loop, between the serial link and the server.
pub mod Uplink
pub mod Downlink
use embedded_project_pc.Common.{ℕ, List, [], ◌++◌, Option, length, drop, ltb, if◌then◌else◌}
use embedded_project_pc.Protocol.{Outcome, ok}
use embedded_project_pc.Protocol.Frame.{
  Decoded, frame, corrupt, incomplete, too_large, frame_decode, frame_encode,
}
use embedded_project_pc.Bridge.Server.{Server, SendCalls, RecvCall, accept, send, try_recv}

-- sizeof(uartRxBuf), sizeof(payload) and sizeof(tcpPayload); sizeof(framed).
abbrev pub uart_buf_size : ℕ
uart_buf_size = 256

abbrev pub framed_size : ℕ
framed_size = 600

-- `uart_buf` is uartRxBuf up to uartRxLen.
pub record Relay : Type 0 where
  pub server : Server
  pub uart_buf : List ℕ

-- What the world does in one round: accept(), the bytes that Transport_Recv hands over (at most the
-- room that it is given), the calls of send(), and recv() on the client's socket.
pub record World : Type 0 where
  pub incoming : Option ℕ
  pub uart_bytes : List ℕ
  pub sends : SendCalls
  pub client : RecvCall

-- The server, what is left in uartRxBuf, and the bytes for the core.
pub record Uplinked : Type 0 where
  pub server : Server
  pub uart_buf : List ℕ
  pub to_core : List ℕ

-- The branches on the answer of Frame_Decode.
pub forward : SendCalls → Server → List ℕ → Decoded → Uplinked
forward calls s buf (frame payload consumed) =
    let sent = send calls payload s in
    record { server = sent.0; uart_buf = drop consumed buf; to_core = sent.1 }
forward calls s buf (corrupt consumed) = record {
  server = s;
  uart_buf = drop consumed buf;
  to_core = [];
}
forward calls s buf too_large = record { server = s; uart_buf = []; to_core = [] }
forward calls s buf incomplete = record { server = s; uart_buf = buf; to_core = [] }

unfoldable pub uplink : SendCalls → Server → List ℕ → Uplinked
unfolding forward
uplink calls s buf =
    if ltb 0 (length buf)
    then forward calls s buf (frame_decode buf uart_buf_size)
    else record { server = s; uart_buf = buf; to_core = [] }

-- The bytes for the LNC. The source does not look at the result of Frame_Encode: anything but `ok`
-- would hand an unset length to Transport_Send.
unfoldable pub downlink : List ℕ → Outcome (List ℕ)
downlink payload = if ltb 0 (length payload) then frame_encode payload framed_size else ok []

-- The relay after one round, the bytes for the core and those for the LNC.
unfoldable pub round : World → Relay → Relay × List ℕ × Outcome (List ℕ)
unfolding uplink downlink
round w r =
    let accepted = (accept w.incoming r.server).0 in
    let up = uplink w.sends accepted (r.uart_buf ++ w.uart_bytes) in
    let down = try_recv uart_buf_size w.client up.server in
    (record { server = down.0; uart_buf = up.uart_buf }, up.to_core, downlink down.1)
