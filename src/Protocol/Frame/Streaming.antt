-- ===== src/Protocol/Frame/Streaming.antt =====
-- common/protocol.c, Frame_Decode on a buffer that grows: an answer other than "incomplete" is
-- final, and a frame that has not arrived in full is incomplete.
use embedded_project_pc.Common.{
  ℕ, suc, ◌+◌, ◌%◌, ◌^◌, ◌≤◌, ◌<◌, ◌≡◌, ◌≢◌, refl, sym, ap, List, [], ◌∷◌, ◌++◌, append-nil, ◌⊎◌,
  length, length-append, All, ltb, arith, ◌∙◌, Option-cases, inl, inr, Bool-cases, ltb→lt,
  ltb_false→le,
}
use embedded_project_pc.Protocol.{IsByte, IsU16, frame_start}
use embedded_project_pc.Protocol.Bytes.{join_u16}
use embedded_project_pc.Protocol.Frame.{
  frame_decode, find_start, decode_header, decode_payload, decode_crc, check_crc, Decoded, frame,
  corrupt, incomplete, too_large, destuff_read_bytes,
}
use embedded_project_pc.Protocol.Frame.Reading.{read_bytes-append, read_bytes_bound}
use embedded_project_pc.Protocol.Frame.Encode.{frame_bytes}
use embedded_project_pc.Protocol.Frame.RoundTrip.{frame_decode-frame_bytes}

decode_crc-append :
    (inp more len_bytes payload : List ℕ) (idx : ℕ)
    → decode_crc inp len_bytes payload idx ≢ incomplete
    → decode_crc (inp ++ more) len_bytes payload idx ≡ decode_crc inp len_bytes payload idx
unfolding decode_crc
decode_crc-append inp more len_bytes payload idx h =
    elim (Option-cases (destuff_read_bytes inp idx 2)) [
      | inl p ↦ absurd (ground (arith, p))
      | inr (r, p) ↦ ground (arith, p, read_bytes-append inp more idx 2 r p)
    ]

decode_payload-append :
    (inp more : List ℕ) (cap : ℕ) (len_bytes : List ℕ) (idx : ℕ)
    → decode_payload inp cap len_bytes idx ≢ incomplete
    → decode_payload (inp ++ more) cap len_bytes idx ≡ decode_payload inp cap len_bytes idx
unfolding decode_payload
decode_payload-append inp more cap [] idx h = refl
decode_payload-append inp more cap (l0 ∷ []) idx h = refl
decode_payload-append inp more cap (l0 ∷ l1 ∷ l2 ∷ ls) idx h = refl
decode_payload-append inp more cap (l0 ∷ l1 ∷ []) idx h =
    elim (Option-cases (destuff_read_bytes inp idx (join_u16 l0 l1))) [
      | inl p ↦ ground (arith, p)
      | inr ((payload, end), p) ↦ ground (
        arith,
        p,
        read_bytes-append inp more idx (join_u16 l0 l1) (payload, end) p,
        decode_crc-append inp more (l0 ∷ l1 ∷ []) payload end,
      )
    ]

decode_header-append :
    (inp more : List ℕ) (cap idx : ℕ)
    → decode_header inp cap idx ≢ incomplete
    → decode_header (inp ++ more) cap idx ≡ decode_header inp cap idx
unfolding decode_header
decode_header-append inp more cap idx h = elim (Option-cases (destuff_read_bytes inp idx 2)) [
  | inl p ↦ absurd (ground (arith, p))
  | inr ((len_bytes, idx'), p) ↦ ground (
    arith,
    p,
    read_bytes-append inp more idx 2 (len_bytes, idx') p,
    decode_payload-append inp more cap len_bytes idx',
  )
]

find_start_bound : (inp : List ℕ) (n : ℕ) → find_start inp n ≤ n + length inp
unfolding find_start
find_start_bound [] n = omega arith
find_start_bound (b ∷ rest) n = ground (arith, find_start_bound rest (n + 1))

find_start-append :
    (inp more : List ℕ) (n : ℕ)
    → find_start inp n < n + length inp
    → find_start (inp ++ more) n ≡ find_start inp n
unfolding find_start
find_start-append [] more n h = absurd (omega arith)
find_start-append (b ∷ rest) more n h = ground (arith, find_start-append rest more (n + 1))

-- An answer other than "incomplete" is final: whatever bytes arrive behind the buffer, Frame_Decode
-- gives the same payload and consumes the same bytes.
pub frame_decode-append :
    (inp more : List ℕ) (cap : ℕ)
    → frame_decode inp cap ≢ incomplete
    → frame_decode (inp ++ more) cap ≡ frame_decode inp cap
unfolding frame_decode
frame_decode-append inp more cap h = ground (
  arith,
  length-append inp more,
  find_start-append inp more 0,
  decode_header-append inp more cap ((find_start inp 0 + 1) % 2 ^ 16),
)

-- What an answer may hold for an output capacity and a buffer of `n` bytes.
abbrev pub Within : ℕ → ℕ → Decoded → Type 0
Within cap n (frame payload consumed) =
    (length payload ≤ cap) × (length payload + 5 ≤ consumed) × (consumed ≤ n)
Within cap n (corrupt consumed) = (5 ≤ consumed) × (consumed ≤ n)
Within cap n incomplete = Unit {0}
Within cap n too_large = Unit {0}

check_crc-Within :
    (len_bytes payload crc_bytes : List ℕ) (end cap n : ℕ)
    → length payload ≤ cap
    → length payload + 5 ≤ end
    → end ≤ n
    → Within cap n (check_crc len_bytes payload end crc_bytes)
unfolding check_crc
check_crc-Within len_bytes payload [] end cap n hc he hn = tt
check_crc-Within len_bytes payload (c0 ∷ []) end cap n hc he hn = tt
check_crc-Within len_bytes payload (c0 ∷ c1 ∷ []) end cap n hc he hn = ground arith
check_crc-Within len_bytes payload (c0 ∷ c1 ∷ c2 ∷ cs) end cap n hc he hn = tt

decode_crc-Within :
    (inp len_bytes payload : List ℕ) (idx cap : ℕ)
    → IsU16 (length inp)
    → length payload ≤ cap
    → length payload + 3 ≤ idx
    → idx ≤ length inp
    → Within cap (length inp) (decode_crc inp len_bytes payload idx)
unfolding decode_crc
decode_crc-Within inp len_bytes payload idx cap hn hc hi hl =
    elim (Option-cases (destuff_read_bytes inp idx 2)) [
      | inl p ↦ rw (p, decode_crc) tt
      | inr ((crc_bytes, end), p) ↦
          rw (p, decode_crc)
            (let b = read_bytes_bound inp idx 2 crc_bytes end hn hl p in
              check_crc-Within len_bytes payload crc_bytes end cap (length inp) hc (omega arith)
                b.2)
    ]

decode_payload-Within :
    (inp : List ℕ) (cap : ℕ) (len_bytes : List ℕ) (idx : ℕ)
    → IsU16 (length inp)
    → 3 ≤ idx
    → idx ≤ length inp
    → Within cap (length inp) (decode_payload inp cap len_bytes idx)
unfolding decode_payload
decode_payload-Within inp cap [] idx hn hi hl = tt
decode_payload-Within inp cap (l0 ∷ []) idx hn hi hl = tt
decode_payload-Within inp cap (l0 ∷ l1 ∷ l2 ∷ ls) idx hn hi hl = tt
decode_payload-Within inp cap (l0 ∷ l1 ∷ []) idx hn hi hl =
    elim (Bool-cases (ltb cap (join_u16 l0 l1))) [
      | inl big ↦ rw big tt
      | inr small ↦ rw small (elim (Option-cases (destuff_read_bytes inp idx (join_u16 l0 l1))) [
        | inl p ↦ rw p tt
        | inr ((payload, end), p) ↦ rw p (
            let b = read_bytes_bound inp idx (join_u16 l0 l1) payload end hn hl p in
            decode_crc-Within inp (l0 ∷ l1 ∷ []) payload end cap hn
              (omega (arith, ltb_false→le cap (join_u16 l0 l1) small)) (omega arith) b.2)
      ])
    ]

decode_header-Within :
    (inp : List ℕ) (cap idx : ℕ)
    → IsU16 (length inp)
    → 1 ≤ idx
    → idx ≤ length inp
    → Within cap (length inp) (decode_header inp cap idx)
unfolding decode_header
decode_header-Within inp cap idx hn hi hl = elim (Option-cases (destuff_read_bytes inp idx 2)) [
  | inl p ↦ rw (p, decode_header) tt
  | inr ((len_bytes, idx'), p) ↦
      rw (p, decode_header)
        (let b = read_bytes_bound inp idx 2 len_bytes idx' hn hl p in
          decode_payload-Within inp cap len_bytes idx' hn (omega arith) b.2)
]

-- On every input of at most 65535 bytes, well formed or not: a decoded payload fits the caller's
-- buffer, and a frame, good or corrupt, takes between 5 bytes (and the payload's length) and the
-- whole input, so that a caller who discards the consumed bytes makes progress.
pub frame_decode-Within :
    (inp : List ℕ) (cap : ℕ) → IsU16 (length inp) → Within cap (length inp) (frame_decode inp cap)
unfolding frame_decode
frame_decode-Within inp cap hn = elim (Bool-cases (ltb (find_start inp 0) (length inp))) [
  | inl found ↦ rw found (
      decode_header-Within inp cap ((find_start inp 0 + 1) % 2 ^ 16) hn
        (omega (arith, ltb→lt (find_start inp 0) (length inp) found))
        (omega (arith, ltb→lt (find_start inp 0) (length inp) found)))
  | inr none_found ↦ rw none_found tt
]

incomplete-cases : (d : Decoded) → (d ≡ incomplete) ⊎ (d ≢ incomplete)
incomplete-cases incomplete = inl refl
incomplete-cases (frame payload consumed) = inr (λ e. cc)
incomplete-cases (corrupt consumed) = inr (λ e. cc)
incomplete-cases too_large = inr (λ e. cc)

-- A frame whose payload fits the receiver's capacity, and which has arrived only in part, is
-- incomplete: no proper beginning of such a frame, behind noise without a START byte, is taken for a
-- frame, for a corrupt one or for one that is too large. The capacity is a uint16_t, and noise and
-- whole frame have fewer than 65536 bytes.
pub frame_decode_partial :
    (noise payload front back : List ℕ) (x capacity : ℕ)
    → All (λ b. b ≢ frame_start) noise
    → All IsByte payload
    → length payload ≤ capacity
    → IsU16 capacity
    → length noise + length (frame_bytes payload) < 2 ^ 16
    → noise ++ frame_bytes payload ≡ front ++ x ∷ back
    → frame_decode front capacity ≡ incomplete
frame_decode_partial noise payload front back x capacity no_start bytes fits hcap room e =
    elim (incomplete-cases (frame_decode front capacity)) [
      | inl done ↦ done
      | inr answered ↦
          let sizes : length noise + length (frame_bytes payload)
              ≡ length front + suc (length back) =
            omega (
              arith,
              ap length e,
              length-append noise (frame_bytes payload),
              length-append front (x ∷ back),
            ) in
          let whole : frame_decode (front ++ x ∷ back) capacity
              ≡ frame payload (length noise + length (frame_bytes payload)) =
            rw (append-nil, e) at
              (frame_decode-frame_bytes noise payload [] capacity no_start bytes fits hcap room) in
          let early : frame_decode front capacity
              ≡ frame payload (length noise + length (frame_bytes payload)) =
            sym (frame_decode-append front (x ∷ back) capacity answered) ∙ whole in
          let inside = rw early at (frame_decode-Within front capacity (omega (arith, sizes))) in
          absurd (omega (arith, inside, sizes))
    ]

find_start_none :
    (noise : List ℕ) (n : ℕ)
    → All (λ b. b ≢ frame_start) noise
    → find_start noise n ≡ n + length noise
unfolding find_start
find_start_none [] n h = omega arith
find_start_none (b ∷ noise) n (h, hs) = ground (arith, find_start_none noise (n + 1) hs)

-- Without a START byte nothing is consumed: the answer is "incomplete", however much noise there is.
pub frame_decode_noise :
    (noise : List ℕ) (cap : ℕ)
    → All (λ b. b ≢ frame_start) noise
    → frame_decode noise cap ≡ incomplete
unfolding frame_decode
frame_decode_noise noise cap h = ground (arith, find_start_none noise 0 h)
