-- ===== src/Tests/Frames.antt =====
-- Frames at concrete inputs.
use embedded_project_pc.Common.{
  ℕ, ◌+◌, ◌≡◌, ◌≢◌, refl, List, [], ◌∷◌, ◌++◌, All, length, arith, ◌==◌, leb, if◌then◌else◌,
}
use embedded_project_pc.Protocol.{IsByte, ok, err, buffer_too_small, frame_start}
use embedded_project_pc.Protocol.Frame.Stuffing.{stuffed, stuffed_byte}
use embedded_project_pc.Protocol.Bytes.{put_u16}
use embedded_project_pc.Protocol.Crc.{crc16, crc16_update, crc16_byte}
use embedded_project_pc.Protocol.Frame.{frame, corrupt, incomplete, frame_encode, frame_decode}
use embedded_project_pc.Protocol.Frame.Encode.{
  frame_body, frame_bytes, length-frame_bytes, frame_encode-frame_bytes, frame_encode_fits,
  frame_bytes_start,
}
use embedded_project_pc.Protocol.Frame.RoundTrip.{
  sent, frame_decode-sent, frame_decode-frame_encode,
}
use embedded_project_pc.Protocol.Frame.Streaming.{frame_decode_partial}

-- A payload with a START byte, and noise without one.
abbrev payload : List ℕ
payload = 0x7e ∷ 1 ∷ []

abbrev noise : List ℕ
noise = 5 ∷ []

payload-IsByte : All IsByte payload
payload-IsByte = (omega arith, (omega arith, tt))

noise_no_start : All (λ b. b ≢ frame_start) noise
noise_no_start = ((λ e. omega arith), tt)

frame_encode-frame_bytes_example : frame_encode payload 4 ≡ (
    if leb (length (frame_bytes payload)) 4 then ok (frame_bytes payload) else err buffer_too_small)
frame_encode-frame_bytes_example = frame_encode-frame_bytes payload 4 (omega arith)

frame_bytes_start_example :
    (rest : List ℕ) × (frame_bytes payload ≡ frame_start ∷ rest) × All (λ b. b ≢ frame_start) rest
frame_bytes_start_example = frame_bytes_start payload

abbrev frame_len : ℕ
frame_len = length (frame_bytes payload)

abbrev line : List ℕ
line = noise ++ (frame_bytes payload ++ [])

frame_decode-sent_example : frame_decode (noise ++ (sent payload 7 ++ [])) 16 ≡ (
    if crc16 (frame_body payload) == 7
    then frame payload (length noise + length (sent payload 7))
    else corrupt (length noise + length (sent payload 7)))
unfolding sent frame_body stuffed stuffed_byte put_u16
frame_decode-sent_example =
    frame_decode-sent noise payload [] 7 16 noise_no_start payload-IsByte (omega arith)
      (omega arith) (omega arith) (omega arith)

frame_decode-frame_encode_example :
    frame_decode (noise ++ (frame_bytes payload ++ [])) 16
    ≡ frame payload (length noise + frame_len)
frame_decode-frame_encode_example =
    frame_decode-frame_encode noise payload [] (frame_bytes payload) 13 16 (omega arith)
      (frame_encode_fits payload 13 (omega arith) (omega arith)) noise_no_start payload-IsByte
      (omega arith) (omega arith) (omega (arith, length-frame_bytes payload))

decoded : frame_decode line 16 ≢ incomplete
decoded e = cc (frame_decode-frame_encode_example)

-- A frame whose LENGTH is more than the caller's buffer holds.
abbrev long_frame : List ℕ
long_frame = frame_start ∷ 0 ∷ 9 ∷ []

frame_decode_partial_example : frame_decode (5 ∷ 0x7e ∷ 0 ∷ []) 16 ≡ incomplete
unfolding frame_bytes frame_body stuffed stuffed_byte put_u16 crc16 crc16_update crc16_byte
frame_decode_partial_example =
    frame_decode_partial noise payload (5 ∷ 0x7e ∷ 0 ∷ []) (0x7d ∷ 0x5e ∷ 1 ∷ 209 ∷ 215 ∷ []) 2 16
      noise_no_start payload-IsByte (omega arith) (omega arith)
      (omega (arith, length-frame_bytes payload)) refl
