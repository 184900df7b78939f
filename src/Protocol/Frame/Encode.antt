-- ===== src/Protocol/Frame/Encode.antt =====
-- common/protocol.c, Frame_Encode: what it writes, when it succeeds, and what the stream looks like.
use embedded_project_pc.Common.{
  ℕ, ◌+◌, ◌*◌, ◌≤◌, ◌≡◌, ◌≢◌, refl, List, [], ◌∷◌, ◌++◌, append_assoc, length, length-append, All,
  leb, if◌then◌else◌, arith,
}
use embedded_project_pc.Protocol.{ok, err, buffer_too_small, ◌>>=◌, frame_start}
use embedded_project_pc.Protocol.Bytes.{put_u16, length-put_u16}
use embedded_project_pc.Protocol.Crc.{crc16_update, crc16, crc16_update-append}
use embedded_project_pc.Protocol.Frame.{store, stuff_write_bytes, frame_encode}
use embedded_project_pc.Protocol.Frame.Stuffing.{
  stuffed, max_cap, stuff_write_bytes-stuffed, length-stuffed, stuffed_no_start, stuffed-append,
}

-- The frame of protocol.h, section 3.2: START, then LENGTH, payload and the CRC of both, stuffed.
unfoldable pub frame_body : List ℕ → List ℕ
frame_body payload = put_u16 (length payload) ++ payload

unfoldable pub frame_bytes : List ℕ → List ℕ
unfolding frame_body
frame_bytes payload =
    frame_start ∷ stuffed (frame_body payload ++ put_u16 (crc16 (frame_body payload)))

stuff_three :
    (cap : ℕ) (out xs ys zs : List ℕ)
    → cap ≤ max_cap
    → length out ≤ cap
    → (do
      a ← stuff_write_bytes cap out xs
      b ← stuff_write_bytes cap a ys
      stuff_write_bytes cap b zs)
      ≡ (if leb (length out + length (stuffed ((xs ++ ys) ++ zs))) cap
          then ok (out ++ stuffed ((xs ++ ys) ++ zs))
          else err buffer_too_small)
stuff_three cap out xs ys zs hc ho = ground (
  arith,
  stuffed-append (xs ++ ys) zs,
  stuffed-append xs ys,
  length-append (stuffed xs ++ stuffed ys) (stuffed zs),
  length-append (stuffed xs) (stuffed ys),
  append_assoc out (stuffed xs) (stuffed ys),
  append_assoc out (stuffed xs ++ stuffed ys) (stuffed zs),
  length-append out (stuffed xs),
  length-append (out ++ stuffed xs) (stuffed ys),
  stuff_write_bytes-stuffed cap out xs,
  stuff_write_bytes-stuffed cap (out ++ stuffed xs) ys,
  stuff_write_bytes-stuffed cap ((out ++ stuffed xs) ++ stuffed ys) zs,
)

-- For every output capacity up to 65533, Frame_Encode writes the frame of the specification if it
-- fits the capacity, and otherwise returns PROTO_ERR_BUFFER_TOO_SMALL; it never writes past the
-- buffer.
pub frame_encode-frame_bytes :
    (payload : List ℕ) (cap : ℕ)
    → cap ≤ max_cap
    → frame_encode payload cap ≡ (
        if leb (length (frame_bytes payload)) cap
        then ok (frame_bytes payload)
        else err buffer_too_small)
unfolding frame_encode store frame_bytes frame_body crc16
frame_encode-frame_bytes payload cap hc =
    rw (crc16_update-append 0xffff (put_u16 (length payload)) payload) (
      ground (
        arith,
        stuff_three cap (frame_start ∷ []) (put_u16 (length payload)) payload
            (put_u16 (crc16_update 0xffff (put_u16 (length payload) ++ payload))),
      ))

length-frame_body : (payload : List ℕ) → length (frame_body payload) ≡ length payload + 2
unfolding frame_body
length-frame_body payload =
    omega (arith, length-append (put_u16 (length payload)) payload, length-put_u16 (length payload))

-- A frame takes 5 bytes more than its payload at least, and 9 more than twice the payload at most.
pub length-frame_bytes :
    (payload : List ℕ)
    → (length payload + 5 ≤ length (frame_bytes payload))
      × (length (frame_bytes payload) ≤ 2 * length payload + 9)
unfolding frame_bytes
length-frame_bytes payload = omega (
  arith,
  length-stuffed (frame_body payload ++ put_u16 (crc16 (frame_body payload))),
  length-append (frame_body payload) (put_u16 (crc16 (frame_body payload))),
  length-frame_body payload,
  length-put_u16 (crc16 (frame_body payload)),
)

-- If the buffer has room for 9 bytes more than twice the payload, encoding succeeds.
pub frame_encode_fits :
    (payload : List ℕ) (cap : ℕ)
    → cap ≤ max_cap
    → 2 * length payload + 9 ≤ cap
    → frame_encode payload cap ≡ ok (frame_bytes payload)
frame_encode_fits payload cap hc hn =
    ground (arith, frame_encode-frame_bytes payload cap hc, length-frame_bytes payload)

-- The START byte opens a frame and occurs nowhere else in it.
pub frame_bytes_start :
    (payload : List ℕ)
    → (rest : List ℕ) × (frame_bytes payload ≡ frame_start ∷ rest) × All (λ b. b ≢ frame_start) rest
unfolding frame_bytes
frame_bytes_start payload = (_, refl, stuffed_no_start _)
