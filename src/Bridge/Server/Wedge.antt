-- ===== src/Bridge/Server/Wedge.antt =====
-- bridge_server.cpp, BridgeServer_TryRecv: the bounds of the receive buffer, and the message that
-- never fits it.
use embedded_project_pc.Common.{
  ℕ, ◌+◌, ◌%◌, ◌^◌, ◌≤◌, ◌<◌, ◌≡◌, List, [], ◌++◌, Option, none, some, length, length-append,
  length-drop, length-take, drop, ltb, ◌-◌, if◌then◌else◌, false, arith, inl, inr, Bool-cases,
}
use embedded_project_pc.Protocol.{Outcome, ok, err, fault, hangs}
use embedded_project_pc.Protocol.Bytes.{get_u32}
use embedded_project_pc.Bridge.Server.{
  Server, RecvCall, arrived, shut_down, nothing, recv_buf_size, take_frame, next_frame, received,
  try_recv, InitCalls, init, opened, accept, accept_client, SendCalls, send, send_to,
}

-- The declared length with its prefix is more than the buffer holds, and the sum does not wrap
-- around a uint32_t.
abbrev pub IsOversized : ℕ → Type 0
IsOversized payload_len = (recv_buf_size < 4 + payload_len) × (4 + payload_len < 2 ^ 32)

-- Once the buffer is full and begins with a declared length of more than 508, for which the length
-- plus 4 does not wrap around a uint32_t, TryRecv returns 0 and changes nothing, whatever recv()
-- would do, hence for ever: not even the client's shutdown is noticed, since recv() is no longer
-- called.
pub try_recv_wedged :
    (max_len : ℕ) (call : RecvCall) (s : Server) (payload_len : ℕ)
    → length s.recv_buf ≡ recv_buf_size
    → get_u32 s.recv_buf ≡ ok payload_len
    → IsOversized payload_len
    → try_recv max_len call s ≡ (s, [])
unfolding try_recv next_frame take_frame
try_recv_wedged max_len call s payload_len full e big = ground (arith, full, e)

-- A server whose buffer and its stale rest have the size of the array, and whose copies have never
-- gone past its end.
pub record IsSound (s : Server) : Type 0 where
  pub in_bounds : s.overran ≡ false
  pub sized : length s.recv_buf + length s.stale ≡ recv_buf_size

-- recv() never hands over more than the room that it is given.
abbrev pub Obeys : Server → RecvCall → Type 0
Obeys s (arrived chunk) = length s.recv_buf + length chunk ≤ recv_buf_size
Obeys s shut_down = Unit {0}
Obeys s nothing = Unit {0}

-- A result keeps the buffer sound and returns at most what the caller's buffer holds.
abbrev pub Keeps : ℕ → Server × List ℕ → Type 0
Keeps max_len (s, out) = IsSound s × (length out ≤ max_len)

take_frame-Keeps :
    (max_len payload_len : ℕ) (s : Server)
    → 4 + max_len ≤ recv_buf_size
    → IsSound s
    → Keeps max_len (take_frame max_len payload_len s)
unfolding take_frame
take_frame-Keeps max_len payload_len s fits v =
    let frame_len = (4 + payload_len) % 2 ^ 32 in
    let remaining = (length s.recv_buf + 2 ^ 32 - frame_len) % 2 ^ 16 in
    let array = s.recv_buf ++ s.stale in
    let copy_len = if ltb payload_len max_len then payload_len else max_len in
    ground (
      arith,
      v.in_bounds,
      v.sized,
      length-drop frame_len array,
      length-take remaining (drop frame_len array),
      length-drop remaining array,
      length-append s.recv_buf s.stale,
      length-take copy_len (drop 4 array),
    )

next_frame-Keeps :
    (max_len : ℕ) (s : Server)
    → 4 + max_len ≤ recv_buf_size
    → IsSound s
    → Keeps max_len (next_frame max_len s)
unfolding next_frame
next_frame-Keeps max_len s fits v = elim (Bool-cases (ltb (length s.recv_buf) 4)) [
  | inl short ↦ rw short (v, omega arith)
  | inr long ↦ rw long (by_prefix (get_u32 s.recv_buf))
]
  where
    by_prefix :
        (o : Outcome ℕ)
        → Keeps max_len (elim o [
          | ok payload_len ↦ take_frame max_len payload_len s
          | err e ↦ (s, [])
          | fault ↦ (s, [])
          | hangs ↦ (s, [])
        ])
    by_prefix (ok payload_len) = take_frame-Keeps max_len payload_len s fits v
    by_prefix (err e) = (v, omega arith)
    by_prefix fault = (v, omega arith)
    by_prefix hangs = (v, omega arith)

received-Keeps :
    (max_len : ℕ) (call : RecvCall) (s : Server)
    → 4 + max_len ≤ recv_buf_size
    → IsSound s
    → Obeys s call
    → Keeps max_len (received max_len call s)
unfolding received
received-Keeps max_len (arrived chunk) s fits v o =
    next_frame-Keeps max_len
      (record s { recv_buf = s.recv_buf ++ chunk; stale = drop (length chunk) s.stale }) fits
      (record {
        in_bounds = v.in_bounds;
        sized =
            omega
              (arith, v.sized, length-append s.recv_buf chunk, length-drop (length chunk) s.stale);
      })
received-Keeps max_len shut_down s fits v o = (
  record {
    in_bounds = v.in_bounds;
    sized = omega (arith, v.sized, length-append s.recv_buf s.stale);
  },
  omega arith,
)
received-Keeps max_len nothing s fits v o = next_frame-Keeps max_len s fits v

-- The server's buffer is within its 512-byte array, the caller's buffer has at most 508 bytes
-- (main.cpp gives 256), and recv() hands over no more than the room that it is given. Then, whatever
-- length the bytes declare, a wrapped one included, TryRecv copies and moves bytes only within the
-- array: no call goes past its end, the bytes in use and the stale rest still make up its 512 bytes,
-- and at most `max_len` bytes are returned.
pub try_recv-Keeps :
    (max_len : ℕ) (call : RecvCall) (s : Server)
    → 4 + max_len ≤ recv_buf_size
    → IsSound s
    → Obeys s call
    → Keeps max_len (try_recv max_len call s)
unfolding try_recv
try_recv-Keeps max_len call s fits v o = by_client s.client_fd
  where
    by_client :
        (c : Option ℕ)
        → Keeps max_len (elim c [
          | none ↦ (s, [])
          | some fd ↦
              if ltb (length s.recv_buf) recv_buf_size
              then received max_len call s
              else next_frame max_len s
        ])
    by_client none = (v, omega arith)
    by_client (some fd) = elim (Bool-cases (ltb (length s.recv_buf) recv_buf_size)) [
      | inl room ↦ rw room (received-Keeps max_len call s fits v o)
      | inr full ↦ rw full (next_frame-Keeps max_len s fits v)
    ]

pub send-IsSound :
    (calls : SendCalls) (payload : List ℕ) (s : Server)
    → IsSound s
    → IsSound (send calls payload s).0
unfolding send send_to
send-IsSound calls payload s v = ground arith

pub accept-IsSound : (incoming : Option ℕ) (s : Server) → IsSound s → IsSound (accept incoming s).0
unfolding accept accept_client
accept-IsSound incoming s v = ground (arith, length-append s.recv_buf s.stale)

pub init-IsSound : (calls : InitCalls) (s : Server) → IsSound s → IsSound (init calls s).0
unfolding init opened
init-IsSound calls s v = ground (arith, length-append s.recv_buf s.stale)
