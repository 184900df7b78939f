-- ===== src/Tests/Bridges.antt =====
-- The bridge at concrete inputs.
use embedded_project_pc.Common.{
  ℕ, zero, suc, ◌+◌, ◌<◌, ◌≡◌, ◌≢◌, refl, List, [], ◌∷◌, ◌++◌, none, some, false, All, length,
  arith,
}
use embedded_project_pc.Protocol.{IsByte, ok, frame_start}
use embedded_project_pc.Protocol.Bytes.{put_u16, put_u32, get_u32, join_u32}
use embedded_project_pc.Protocol.Crc.{crc16, crc16_update, crc16_byte}
use embedded_project_pc.Protocol.Frame.{frame, frame_decode}
use embedded_project_pc.Protocol.Frame.Stuffing.{stuffed, stuffed_byte}
use embedded_project_pc.Protocol.Frame.Encode.{frame_body, frame_bytes, length-frame_bytes}
use embedded_project_pc.Protocol.Frame.RoundTrip.{sent}
use embedded_project_pc.Protocol.Frame.Streaming.{frame_decode_noise}
use embedded_project_pc.Bridge.Server.{Server, SendCalls, arrived, shut_down, nothing, try_recv}
use embedded_project_pc.Bridge.Server.Stream.{message_bytes, stream}
use embedded_project_pc.Bridge.Server.Polls.{poll_all, Holds, poll_all_delivers}
use embedded_project_pc.Bridge.Server.Wedge.{IsSound, Keeps, try_recv_wedged, try_recv-Keeps}
use embedded_project_pc.Bridge.Relay.{Relay, World, uplink, downlink, round}
use embedded_project_pc.Bridge.Relay.Uplink.{uplink_frame, uplink_corrupt, round_wedged}
use embedded_project_pc.Bridge.Relay.Downlink.{downlink_received, IsRunning, round-IsRunning}
use embedded_project_pc.Tests.Zeros.{zeros, length-zeros}

-- A server with a client and two bytes of a message's prefix.
abbrev server : Server
server = record {
  listen_fd = some 3;
  client_fd = some 4;
  recv_buf = 0 ∷ 0 ∷ [];
  stale = zeros 510;
  overran = false;
}

-- The rest of the message, and the first byte of the next.
abbrev chunk : List ℕ
chunk = 0 ∷ 2 ∷ 8 ∷ 9 ∷ 0 ∷ []

abbrev messages : List (List ℕ)
messages = (8 ∷ 9 ∷ []) ∷ (7 ∷ []) ∷ []

abbrev pending : List ℕ
pending = 0 ∷ 2 ∷ 8 ∷ 9 ∷ 0 ∷ 0 ∷ 0 ∷ 1 ∷ 7 ∷ []

server-IsSound : IsSound server
server-IsSound = record { in_bounds = refl; sized = omega (arith, length-zeros 510) }

server-Holds : Holds server pending messages
unfolding stream message_bytes put_u32
server-Holds = record {
  sound = server-IsSound;
  connected = (4, refl);
  bytes = refl;
  payloads = ((omega arith, omega arith), ((omega arith, omega arith), tt));
}

abbrev eleven : List ℕ
eleven = 1 ∷ 2 ∷ 1 ∷ 1 ∷ 1 ∷ 1 ∷ 1 ∷ 1 ∷ 1 ∷ 1 ∷ 1 ∷ []

poll_all_delivers_example : poll_all eleven server pending ≡ messages
poll_all_delivers_example =
    poll_all_delivers eleven server pending messages server-Holds eleven_positive (omega arith)
  where
    eleven_positive : All (λ k. 0 < k) eleven
    eleven_positive = ground arith

-- A full buffer that begins with a declared length of 65536.
abbrev full : Server
full = record {
  listen_fd = some 3;
  client_fd = some 4;
  recv_buf = 0 ∷ 1 ∷ 0 ∷ 0 ∷ zeros 508;
  stale = [];
  overran = false;
}

try_recv_wedged_example : try_recv 256 shut_down full ≡ (full, [])
unfolding get_u32 join_u32
try_recv_wedged_example =
    try_recv_wedged 256 shut_down full 65536 (omega (arith, length-zeros 508)) refl
      (omega arith, omega arith)

try_recv-Keeps_example : Keeps 256 (try_recv 256 (arrived chunk) server)
try_recv-Keeps_example =
    try_recv-Keeps 256 (arrived chunk) server (omega arith) server-IsSound (omega arith)

abbrev payload : List ℕ
payload = 0x7e ∷ 1 ∷ []

abbrev noise : List ℕ
noise = 5 ∷ []

payload-IsByte : All IsByte payload
payload-IsByte = (omega arith, (omega arith, tt))

noise_no_start : All (λ b. b ≢ frame_start) noise
noise_no_start = ((λ e. omega arith), tt)

abbrev sends : SendCalls
sends = record { prefix_sent = some 4; payload_sent = some 2 }

uplink_frame_example :
    uplink sends server (noise ++ (frame_bytes payload ++ 6 ∷ []))
    ≡ record { server = server; uart_buf = 6 ∷ []; to_core = message_bytes payload }
uplink_frame_example =
    uplink_frame sends server 4 noise payload (6 ∷ []) refl refl refl noise_no_start payload-IsByte
      (omega (arith, length-frame_bytes payload))

uplink_corrupt_example :
    uplink sends server (noise ++ (sent payload 7 ++ 6 ∷ []))
    ≡ record { server = server; uart_buf = 6 ∷ []; to_core = [] }
unfolding sent frame_body stuffed stuffed_byte put_u16 crc16 crc16_update crc16_byte
uplink_corrupt_example =
    uplink_corrupt sends server noise payload (6 ∷ []) 7 noise_no_start payload-IsByte (omega arith)
      (λ e. omega arith) (omega arith) (omega arith)

zeros_no_start : (n : ℕ) → All (λ b. b ≢ frame_start) (zeros n)
unfolding zeros
zeros_no_start zero = tt
zeros_no_start (suc n) = ((λ e. omega arith), zeros_no_start n)

-- Noise fills the buffer.
abbrev stuck : Relay
stuck = record { server = server; uart_buf = zeros 256 }

abbrev quiet : World
quiet = record { incoming = none; uart_bytes = []; sends = sends; client = nothing }

round_wedged_example : ((round quiet stuck).0.uart_buf ≡ zeros 256) × ((round quiet stuck).1 ≡ [])
round_wedged_example =
    round_wedged quiet stuck (length-zeros 256) (omega (arith, length-zeros 256))
      (frame_decode_noise (zeros 256) 256 (zeros_no_start 256))

downlink_received_example :
    (framed : List ℕ) × (downlink payload ≡ ok framed)
    × (frame_decode (noise ++ (framed ++ [])) 256 ≡ frame payload (length noise + length framed))
downlink_received_example =
    downlink_received noise payload [] 256 (omega arith) (omega arith) noise_no_start payload-IsByte
      (omega arith) (omega arith) (omega arith)

abbrev relay : Relay
relay = record { server = server; uart_buf = noise }

round-IsRunning_example :
    IsRunning (round quiet relay).0 × ((framed : List ℕ) × ((round quiet relay).2 ≡ ok framed))
round-IsRunning_example =
    round-IsRunning quiet relay (record { sound = server-IsSound; uart_fits = omega arith })
      (record { uart_room = omega arith; client_room = tt })
