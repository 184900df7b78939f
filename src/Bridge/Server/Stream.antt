-- ===== src/Bridge/Server/Stream.antt =====
-- bridge_server.cpp, BridgeServer_TryRecv: however TCP cuts the client's byte stream, the messages
-- come out whole and in order.
use embedded_project_pc.Common.{
  ℕ, ◌+◌, ◌^◌, ◌≤◌, ◌<◌, ◌≡◌, ◌≢◌, refl, ap, List, [], ◌∷◌, ◌++◌, append_assoc, Option, some,
  length, length-append, take, drop, take-append, drop-append, ltb, arith, Bool-cases, ◌⊎◌, ltb→lt,
  ltb_false→le, append-split, inl, inr, ◌∙◌,
}
use embedded_project_pc.Protocol.{ok}
use embedded_project_pc.Protocol.Bytes.{put_u32, get_u32, get_u32-put_u32, length-put_u32}
use embedded_project_pc.Bridge.Server.{
  Server, RecvCall, arrived, shut_down, nothing, recv_buf_size, take_frame, next_frame, received,
  try_recv,
}

-- A message on the TCP link: a 4-byte length in front of the payload.
unfoldable pub message_bytes : List ℕ → List ℕ
message_bytes payload = put_u32 (length payload) ++ payload

unfoldable pub stream : List (List ℕ) → List ℕ
stream [] = []
stream (m ∷ ms) = message_bytes m ++ stream ms

pub length-message_bytes : (m : List ℕ) → length (message_bytes m) ≡ 4 + length m
unfolding message_bytes
length-message_bytes m =
    omega (arith, length-append (put_u32 (length m)) m, length-put_u32 (length m))

message_bytes-append :
    (m rest : List ℕ) → message_bytes m ++ rest ≡ put_u32 (length m) ++ (m ++ rest)
unfolding message_bytes
message_bytes-append m rest = append_assoc (put_u32 (length m)) m rest

-- As long as the message is not there in full, nothing is taken.
next_frame_part :
    (max_len : ℕ) (s : Server) (m unread rest : List ℕ)
    → 4 + length m < 2 ^ 32
    → s.recv_buf ++ unread ≡ message_bytes m ++ rest
    → length s.recv_buf < 4 + length m
    → next_frame max_len s ≡ (s, [])
unfolding next_frame take_frame
next_frame_part max_len s m unread rest h e few = elim (Bool-cases (ltb (length s.recv_buf) 4)) [
  | inl short ↦ rw short
  | inr long ↦
      let (mid, p, q) =
        append-split s.recv_buf unread (put_u32 (length m)) (m ++ rest)
          (e ∙ message_bytes-append m rest)
          (omega (arith, length-put_u32 (length m), ltb_false→le (length s.recv_buf) 4 long)) in
      let len : get_u32 s.recv_buf ≡ ok (length m) =
        ap get_u32 p ∙ get_u32-put_u32 (length m) mid (omega arith) in
      ground (arith, long, len)
]

payload_behind_prefix :
    (m mid stale : List ℕ) → take (length m) (drop 4 ((message_bytes m ++ mid) ++ stale)) ≡ m
unfolding message_bytes put_u32
payload_behind_prefix m mid stale = rw (append_assoc m mid stale, take-append m (mid ++ stale))

-- The bytes behind the message, as memmove() moves them to the front.
moved_bytes :
    (n : ℕ) (head mid stale : List ℕ)
    → length head ≡ n
    → take (length mid) (drop n ((head ++ mid) ++ stale)) ≡ mid
moved_bytes n head mid stale e = rw (← e) (
    ap (take (length mid))
      (ap (drop (length head)) (append_assoc head mid stale) ∙ drop-append head (mid ++ stale))
    ∙ take-append mid stale)

-- Once it is there in full, it is taken whole, and the bytes behind it stay.
next_frame_whole :
    (max_len : ℕ) (s : Server) (m mid : List ℕ)
    → 4 + length m < 2 ^ 32
    → length m ≤ max_len
    → length s.recv_buf ≤ recv_buf_size
    → s.recv_buf ≡ message_bytes m ++ mid
    → next_frame max_len s
      ≡ (record s { recv_buf = mid; stale = drop (length mid) (s.recv_buf ++ s.stale) }, m)
unfolding next_frame take_frame
next_frame_whole max_len s m mid h fits room e =
    let len : get_u32 s.recv_buf ≡ ok (length m) =
      ap get_u32 e
      ∙ ap get_u32 (message_bytes-append m mid)
      ∙ get_u32-put_u32 (length m) (m ++ mid) (omega arith) in
    let left : take (length mid) (drop (4 + length m) (s.recv_buf ++ s.stale)) ≡ mid =
      ap (λ (l : List ℕ). take (length mid) (drop (4 + length m) (l ++ s.stale))) e
      ∙ moved_bytes (4 + length m) (message_bytes m) mid s.stale (length-message_bytes m) in
    let payload : take (length m) (drop 4 (s.recv_buf ++ s.stale)) ≡ m =
      ap (λ (l : List ℕ). take (length m) (drop 4 (l ++ s.stale))) e
      ∙ payload_behind_prefix m mid s.stale in
    ground (
      arith,
      len,
      left,
      payload,
      ap length e,
      length-append s.recv_buf s.stale,
      length-append (message_bytes m) mid,
      length-message_bytes m,
    )

-- The bytes that are there after a call of recv().
abbrev pub after_recv : RecvCall → List ℕ → List ℕ
after_recv (arrived chunk) buf = buf ++ chunk
after_recv shut_down buf = []
after_recv nothing buf = buf

-- What one call of BridgeServer_TryRecv does to a stream whose next message is `m`: it returns the
-- message if all of it is there, and otherwise 0; what is left of the stream is never lost.
abbrev pub Delivers : Option ℕ → List ℕ → List ℕ → List ℕ → List ℕ → Server × List ℕ → Type 0
Delivers fd m buf unread rest (s, out) =
    ((4 + length m ≤ length buf) × (out ≡ m) × (s.recv_buf ++ unread ≡ rest) × (s.client_fd ≡ fd))
    ⊎ ((length buf < 4 + length m) × (out ≡ []) × (s.recv_buf ≡ buf) × (s.client_fd ≡ fd))

next_frame-Delivers :
    (max_len : ℕ) (s : Server) (m unread rest : List ℕ)
    → 4 + length m < 2 ^ 32
    → length m ≤ max_len
    → length s.recv_buf ≤ recv_buf_size
    → s.recv_buf ++ unread ≡ message_bytes m ++ rest
    → Delivers s.client_fd m s.recv_buf unread rest (next_frame max_len s)
next_frame-Delivers max_len s m unread rest h fits room e =
    elim (Bool-cases (ltb (length s.recv_buf) (4 + length m))) [
      | inl few ↦
          let few' = ltb→lt (length s.recv_buf) (4 + length m) few in
          rw (next_frame_part max_len s m unread rest h e few') (inr (few', refl, refl, refl))
      | inr full ↦
          let full' = ltb_false→le (length s.recv_buf) (4 + length m) full in
          let (mid, p, q) =
            append-split s.recv_buf unread (message_bytes m) rest e
              (omega (arith, length-message_bytes m)) in
          rw (next_frame_whole max_len s m mid h fits room p) (inl (full', refl, q, refl))
    ]

try_recv_live :
    (max_len : ℕ) (call : RecvCall) (s : Server) (fd : ℕ)
    → s.client_fd ≡ some fd
    → length s.recv_buf < recv_buf_size
    → try_recv max_len call s ≡ received max_len call s
unfolding try_recv
try_recv_live max_len call s fd c room = ground arith

try_recv_full :
    (max_len : ℕ) (call : RecvCall) (s : Server) (fd : ℕ)
    → s.client_fd ≡ some fd
    → recv_buf_size ≤ length s.recv_buf
    → try_recv max_len call s ≡ next_frame max_len s
unfolding try_recv
try_recv_full max_len call s fd c full = ground arith

-- The server has a client and a next message of at most `max_len` bytes in its stream, and recv()
-- hands over bytes, if the array has room for them, or nothing. Then TryRecv returns the message exactly if
-- all of it has arrived, and the rest of the stream stays in order; otherwise it returns 0 and keeps
-- what is there.
pub try_recv-Delivers :
    (max_len : ℕ) (call : RecvCall) (s : Server) (fd : ℕ) (m unread rest : List ℕ)
    → s.client_fd ≡ some fd
    → call ≢ shut_down
    → (length s.recv_buf < recv_buf_size) ⊎ (call ≡ nothing)
    → 4 + length m < 2 ^ 32
    → length m ≤ max_len
    → length (after_recv call s.recv_buf) ≤ recv_buf_size
    → after_recv call s.recv_buf ++ unread ≡ message_bytes m ++ rest
    → Delivers s.client_fd m (after_recv call s.recv_buf) unread rest (try_recv max_len call s)
unfolding received
try_recv-Delivers max_len shut_down s fd m unread rest c live room h fits sized e =
    absurd (live refl)
try_recv-Delivers max_len (arrived chunk) s fd m unread rest c live (inl room) h fits sized e =
    rw (try_recv_live max_len (arrived chunk) s fd c room) (
      next_frame-Delivers max_len
        (record s { recv_buf = s.recv_buf ++ chunk; stale = drop (length chunk) s.stale }) m unread
        rest h fits sized e)
try_recv-Delivers max_len (arrived chunk) s fd m unread rest c live (inr never) h fits sized e =
    absurd (cc never)
try_recv-Delivers max_len nothing s fd m unread rest c live room h fits sized e =
    elim (Bool-cases (ltb (length s.recv_buf) recv_buf_size)) [
      | inl small ↦
          rw (try_recv_live max_len nothing s fd c (ltb→lt (length s.recv_buf) recv_buf_size small))
            (next_frame-Delivers max_len s m unread rest h fits sized e)
      | inr full ↦
          rw
            (try_recv_full max_len nothing s fd c
              (ltb_false→le (length s.recv_buf) recv_buf_size full))
            (next_frame-Delivers max_len s m unread rest h fits sized e)
    ]
