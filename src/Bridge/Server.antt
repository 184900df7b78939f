-- ===== src/Bridge/Server.antt =====
-- pc_side/lnc_bridge/bridge_server.cpp: the TCP server with one non-blocking client. What the
-- system calls return is an argument of each function.
pub mod Stream
pub mod Polls
pub mod Wedge
use embedded_project_pc.Common.{
  ℕ, zero, suc, ◌+◌, ◌-◌, ◌%◌, ◌^◌, List, [], ◌∷◌, ◌++◌, Option, none, some, Bool, true, false,
  ◌&&◌, ◌||◌, length, take, drop, ltb, leb, if◌then◌else◌,
}
use embedded_project_pc.Protocol.{Outcome, ok, err, fault, hangs}
use embedded_project_pc.Protocol.Bytes.{put_u32, get_u32}

-- BRIDGE_RECV_BUF_SIZE
abbrev pub recv_buf_size : ℕ
recv_buf_size = 512

-- The globals of the file; a descriptor of -1 is `none`. `recv_buf` is g_recvBuf up to g_recvLen,
-- and `stale` the rest of the array, which holds what earlier calls left there. `overran` is no
-- global: it is set, and stays set, once memcpy() or memmove() has gone past the end of the array.
pub record Server : Type 0 where
  pub listen_fd : Option ℕ
  pub client_fd : Option ℕ
  pub recv_buf : List ℕ
  pub stale : List ℕ
  pub overran : Bool

-- What socket(), inet_pton(), bind() and listen() return in BridgeServer_Init.
pub record InitCalls : Type 0 where
  pub socket : Option ℕ
  pub host_is_valid : Bool
  pub binds : Bool
  pub listens : Bool

pub opened : InitCalls → Server → ℕ → Server × Bool
opened calls s fd =
    if calls.host_is_valid && calls.binds && calls.listens
    then (
      record {
        listen_fd = some fd;
        client_fd = none;
        recv_buf = [];
        stale = s.recv_buf ++ s.stale;
        overran = s.overran;
      },
      true,
    )
    else (record s { listen_fd = none }, false)

unfoldable pub init : InitCalls → Server → Server × Bool
unfolding opened
init calls s = elim calls.socket [
  | none ↦ (record s { listen_fd = none }, false)
  | some fd ↦ opened calls s fd
]

pub accept_client : Server → Option ℕ → Server × Bool
accept_client s none = (s, false)
accept_client s (some fd) =
    (record s { client_fd = some fd; recv_buf = []; stale = s.recv_buf ++ s.stale }, true)

-- The number is what accept() returns, `none` where it is negative.
unfoldable pub accept : Option ℕ → Server → Server × Bool
unfolding accept_client
accept incoming s = elim s.client_fd [
  | some fd ↦ (s, true)
  | none ↦ elim s.listen_fd [ none ↦ (s, false) | some fd ↦ accept_client s incoming ]
]

-- What the two calls of send() return: how many bytes they took, `none` where it is negative.
pub record SendCalls : Type 0 where
  pub prefix_sent : Option ℕ
  pub payload_sent : Option ℕ

-- The bytes are those that send() took. The source does not look at their number: on the
-- non-blocking socket it may be less than what the call was given.
pub send_to : SendCalls → List ℕ → Server → Server × List ℕ
send_to calls payload s = elim calls.prefix_sent [
  | none ↦ (record s { client_fd = none }, [])
  | some n ↦ elim calls.payload_sent [
    | none ↦ (record s { client_fd = none }, take n (put_u32 (length payload)))
    | some k ↦ (s, take n (put_u32 (length payload)) ++ take k payload)
  ]
]

unfoldable pub send : SendCalls → List ℕ → Server → Server × List ℕ
unfolding send_to
send calls payload s = elim s.client_fd [ none ↦ (s, []) | some fd ↦ send_to calls payload s ]

-- What recv() does: it hands over some bytes, at least one and at most the room that it is given,
-- reports the peer's shutdown (0), or has nothing (a negative number).
pub data RecvCall : Type 0 where
  arrived : List ℕ → RecvCall
  shut_down : RecvCall
  nothing : RecvCall

-- The rest of BridgeServer_TryRecv, once the prefix is there. memcpy() and memmove() work on the
-- whole array, whatever part of it is in use, and memmove() leaves what lies behind the place that
-- it moves bytes to. The lengths are a uint32_t and a uint16_t.
pub take_frame : ℕ → ℕ → Server → Server × List ℕ
take_frame max_len payload_len s =
    let frame_len = (4 + payload_len) % 2 ^ 32 in
    let copy_len = if ltb payload_len max_len then payload_len else max_len in
    let remaining = (length s.recv_buf + 2 ^ 32 - frame_len) % 2 ^ 16 in
    let array = s.recv_buf ++ s.stale in
    let past_end =
      ltb (length array) (4 + copy_len) || ltb (length array) (frame_len + remaining) in
    if ltb (length s.recv_buf) frame_len then (s, []) else (
      record s {
        recv_buf = take remaining (drop frame_len array);
        stale = drop remaining array;
        overran = if past_end then true else s.overran;
      },
      take copy_len (drop 4 array),
    )

-- The test for the prefix, and the frame behind it.
pub next_frame : ℕ → Server → Server × List ℕ
next_frame max_len s = if ltb (length s.recv_buf) 4 then (s, []) else (elim (get_u32 s.recv_buf) [
  | ok payload_len ↦ take_frame max_len payload_len s
  | err e ↦ (s, [])
  | fault ↦ (s, [])
  | hangs ↦ (s, [])
])

-- recv() writes behind the bytes that are there, over what was stale.
pub received : ℕ → RecvCall → Server → Server × List ℕ
received max_len (arrived chunk) s =
    next_frame max_len
      (record s { recv_buf = s.recv_buf ++ chunk; stale = drop (length chunk) s.stale })
received max_len shut_down s =
    (record s { client_fd = none; recv_buf = []; stale = s.recv_buf ++ s.stale }, [])
received max_len nothing s = next_frame max_len s

-- The second part is `outBuf` up to the returned length, so that [] is the return value 0.
unfoldable pub try_recv : ℕ → RecvCall → Server → Server × List ℕ
try_recv max_len call s = elim s.client_fd [
  | none ↦ (s, [])
  | some fd ↦
      if ltb (length s.recv_buf) recv_buf_size
      then received max_len call s
      else next_frame max_len s
]

unfoldable pub is_connected : Server → Bool
is_connected s = elim s.client_fd [ none ↦ false | some fd ↦ true ]

unfoldable pub close_server : Server → Server
close_server s = record {
  listen_fd = none;
  client_fd = none;
  recv_buf = [];
  stale = s.recv_buf ++ s.stale;
  overran = s.overran;
}
