-- ===== src/Protocol/Frame/RoundTrip.antt =====
-- common/protocol.c, Frame_Decode on what Frame_Encode wrote, behind noise and before more bytes.
use embedded_project_pc.Common.{
  ℕ, ◌+◌, ◌^◌, ◌≤◌, ◌<◌, ◌≡◌, ◌≢◌, refl, ap, List, [], ◌∷◌, ◌++◌, append_assoc, length,
  length-append, All, ◌==◌, if◌then◌else◌, arith, some,
}
use embedded_project_pc.Protocol.{IsByte, IsU16, ok, frame_start}
use embedded_project_pc.Protocol.Bytes.{put_u16, put_u16-IsByte, join_u16-put_u16}
use embedded_project_pc.Protocol.Crc.{crc16, crc16_update-append, crc16_update-IsU16}
use embedded_project_pc.Protocol.Frame.{
  frame_encode, frame_decode, find_start, decode_header, decode_payload, decode_crc, check_crc,
  frame, corrupt, destuff_read_bytes,
}
use embedded_project_pc.Protocol.Frame.Stuffing.{stuffed, stuffed-append, max_cap}
use embedded_project_pc.Protocol.Frame.Reading.{read-stuffed}
use embedded_project_pc.Protocol.Frame.Encode.{frame_body, frame_bytes, frame_encode-frame_bytes}

-- Noise without a START byte is passed over.
pub find_start-noise :
    (noise rest : List ℕ) (n : ℕ)
    → All (λ b. b ≢ frame_start) noise
    → find_start (noise ++ frame_start ∷ rest) n ≡ n + length noise
unfolding find_start
find_start-noise [] rest n h = omega arith
find_start-noise (b ∷ noise) rest n (h, hs) = ground (arith, find_start-noise noise rest (n + 1) hs)

-- The three runs of bytes behind START are read one after the other.
module _ (pre xs ys zs post : List ℕ) (hx : All IsByte xs) (hy : All IsByte ys) (hz : All IsByte zs)
    (room : length pre + length (stuffed ((xs ++ ys) ++ zs)) < 2 ^ 16) where
  abbrev input : List ℕ
  input = pre ++ (stuffed ((xs ++ ys) ++ zs) ++ post)

  abbrev after_first : ℕ
  after_first = length pre + length (stuffed xs)

  abbrev after_second : ℕ
  after_second = after_first + length (stuffed ys)

  abbrev after_third : ℕ
  after_third = length pre + length (stuffed ((xs ++ ys) ++ zs))

  ends : after_third ≡ after_second + length (stuffed zs)
  ends = omega (
    arith,
    ap length (stuffed-append (xs ++ ys) zs),
    ap length (stuffed-append xs ys),
    length-append (stuffed (xs ++ ys)) (stuffed zs),
    length-append (stuffed xs) (stuffed ys),
  )

  read_first : destuff_read_bytes input (length pre) (length xs) ≡ some (xs, after_first)
  read_first =
      let split : input ≡ pre ++ (stuffed xs ++ (stuffed ys ++ (stuffed zs ++ post))) =
        simp (stuffed-append, append_assoc) in
      rw split (read-stuffed pre xs (stuffed ys ++ (stuffed zs ++ post)) hx (omega (arith, ends)))

  read_second : destuff_read_bytes input after_first (length ys) ≡ some (ys, after_second)
  read_second =
      let split : input ≡ (pre ++ stuffed xs) ++ (stuffed ys ++ (stuffed zs ++ post)) =
        simp (stuffed-append, append_assoc) in
      rw (split, ← length-append pre (stuffed xs))
        (read-stuffed (pre ++ stuffed xs) ys (stuffed zs ++ post) hy
          (omega (arith, ends, length-append pre (stuffed xs))))

  read_third : destuff_read_bytes input after_second (length zs) ≡ some (zs, after_third)
  read_third =
      let split : input ≡ ((pre ++ stuffed xs) ++ stuffed ys) ++ (stuffed zs ++ post) =
        simp (stuffed-append, append_assoc) in
      let len : length ((pre ++ stuffed xs) ++ stuffed ys) ≡ after_second =
        omega
          (arith, length-append (pre ++ stuffed xs) (stuffed ys), length-append pre (stuffed xs)) in
      rw (split, ends, ← len)
        (read-stuffed ((pre ++ stuffed xs) ++ stuffed ys) zs post hz (omega (arith, ends, len)))

-- What a sender puts on the line for a payload and a checksum.
unfoldable pub sent : List ℕ → ℕ → List ℕ
unfolding frame_body
sent payload crc = frame_start ∷ stuffed (frame_body payload ++ put_u16 crc)

pub sent_not_empty : (payload : List ℕ) (crc : ℕ) → 0 < length (sent payload crc)
unfolding sent
sent_not_empty payload crc = omega arith

module _ (noise payload post : List ℕ) (crc capacity : ℕ)
    (no_start : All (λ b. b ≢ frame_start) noise) (bytes : All IsByte payload)
    (fits : length payload ≤ capacity) (capacity_u16 : IsU16 capacity) (crc_u16 : IsU16 crc)
    (room : length noise + length (sent payload crc) < 2 ^ 16) where
  abbrev front : List ℕ
  front = noise ++ frame_start ∷ []

  abbrev line : List ℕ
  line = front ++ (stuffed (frame_body payload ++ put_u16 crc) ++ post)

  decode_header-sent : decode_header line capacity (length front) ≡ (
      if crc16 (frame_body payload) == crc
      then frame payload (length noise + length (sent payload crc))
      else corrupt (length noise + length (sent payload crc)))
  unfolding decode_header decode_payload decode_crc check_crc frame_body put_u16 sent crc16
  decode_header-sent =
      let len = put_u16 (length payload) in
      let sum = put_u16 crc in
      let ok_len = put_u16-IsByte (length payload) in
      let ok_sum = put_u16-IsByte crc in
      let fit : length front + length (stuffed ((len ++ payload) ++ sum)) < 2 ^ 16 =
        omega (arith, length-append noise (frame_start ∷ []), room) in
      ground (
        arith,
        read_first front len payload sum post ok_len bytes ok_sum fit,
        read_second front len payload sum post ok_len bytes ok_sum fit,
        read_third front len payload sum post ok_len bytes ok_sum fit,
        join_u16-put_u16 (length payload),
        join_u16-put_u16 crc,
        crc16_update-append 0xffff len payload,
        length-append noise (frame_start ∷ []),
      )

  -- A frame of a payload of bytes and a checksum, behind noise without a START byte and before more
  -- bytes, is found and taken apart, where the payload fits the receiver's capacity, capacity and
  -- checksum are uint16_t, and noise and frame have fewer than 65536 bytes. If the checksum is that
  -- of LENGTH and payload, the payload comes back, and otherwise the frame is reported as corrupt; in
  -- both cases noise and frame are consumed, and nothing behind them.
  pub frame_decode-sent : frame_decode (noise ++ (sent payload crc ++ post)) capacity ≡ (
      if crc16 (frame_body payload) == crc
      then frame payload (length noise + length (sent payload crc))
      else corrupt (length noise + length (sent payload crc)))
  unfolding frame_decode sent
  frame_decode-sent =
      let tail = stuffed (frame_body payload ++ put_u16 crc) ++ post in
      ground (
        arith,
        decode_header-sent,
        find_start-noise noise tail 0 no_start,
        append_assoc noise (frame_start ∷ []) tail,
        length-append noise (frame_start ∷ []),
        length-append noise (frame_start ∷ tail),
      )

pub frame_bytes-sent :
    (payload : List ℕ) → frame_bytes payload ≡ sent payload (crc16 (frame_body payload))
unfolding frame_bytes sent
frame_bytes-sent payload = refl

pub crc16-IsU16 : (bytes : List ℕ) → IsU16 (crc16 bytes)
unfolding crc16
crc16-IsU16 bytes = crc16_update-IsU16 0xffff bytes (omega arith)

-- The frame of the specification decodes to its payload.
pub frame_decode-frame_bytes :
    (noise payload post : List ℕ) (capacity : ℕ)
    → All (λ b. b ≢ frame_start) noise
    → All IsByte payload
    → length payload ≤ capacity
    → IsU16 capacity
    → length noise + length (frame_bytes payload) < 2 ^ 16
    → frame_decode (noise ++ (frame_bytes payload ++ post)) capacity
      ≡ frame payload (length noise + length (frame_bytes payload))
frame_decode-frame_bytes noise payload post capacity no_start bytes fits hcap room =
    let crc = crc16 (frame_body payload) in
    let is_sent = frame_bytes-sent payload in
    rw is_sent (
      ground (
        arith,
        is_sent,
        frame_decode-sent noise payload post crc capacity no_start bytes fits hcap
            (crc16-IsU16 (frame_body payload)) (rw is_sent at room),
      ))

-- A payload that Frame_Encode accepts comes back from Frame_Decode unchanged, behind noise without
-- a START byte and before any further bytes; noise and frame are consumed. The buffer's length is
-- a uint16_t, and the receiver's capacity is large enough.
pub frame_decode-frame_encode :
    (noise payload post written : List ℕ) (cap capacity : ℕ)
    → cap ≤ max_cap
    → frame_encode payload cap ≡ ok written
    → All (λ b. b ≢ frame_start) noise
    → All IsByte payload
    → length payload ≤ capacity
    → IsU16 capacity
    → length noise + length written < 2 ^ 16
    → frame_decode (noise ++ (written ++ post)) capacity
      ≡ frame payload (length noise + length written)
frame_decode-frame_encode noise payload post written cap capacity hc e no_start bytes fits hcap
      room =
    let w : frame_bytes payload ≡ written =
      ground (arith, frame_encode-frame_bytes payload cap hc) in
    rw (← w) (
      frame_decode-frame_bytes noise payload post capacity no_start bytes fits hcap
        (omega (arith, ap length w)))
