-- ===== src/Protocol/Frame/Stuffing.antt =====
-- What the stuffing loop of Frame_Encode writes, as a function of the bytes alone.
use embedded_project_pc.Common.{
  ℕ, ◌+◌, ◌*◌, ◌%◌, ◌^◌, ◌≤◌, ◌≡◌, ◌≢◌, refl, List, [], ◌∷◌, ◌++◌, append_assoc, append-nil,
  bit_xor, length, length-append, All, All-append, leb, ◌==◌, if◌then◌else◌, ◌||◌, arith,
}
use embedded_project_pc.Protocol.{
  ok, err, buffer_too_small, frame_start, frame_escape, frame_escape_xor,
}
use embedded_project_pc.Protocol.Frame.{stuff_write_byte, stuff_write_bytes}

unfoldable pub stuffed_byte : ℕ → List ℕ
stuffed_byte b =
    if b == frame_start || b == frame_escape
    then frame_escape ∷ (bit_xor b frame_escape_xor % 2 ^ 8) ∷ []
    else b ∷ []

unfoldable pub stuffed : List ℕ → List ℕ
unfolding stuffed_byte
stuffed [] = []
stuffed (b ∷ bs) = stuffed_byte b ++ stuffed bs

-- The largest capacity at which the sums of the capacity tests stay within a uint16_t.
abbrev pub max_cap : ℕ
max_cap = 65533

pub stuff_write_byte-stuffed :
    (cap : ℕ) (out : List ℕ) (b : ℕ)
    → cap ≤ max_cap
    → length out ≤ cap
    → stuff_write_byte cap out b ≡ (
        if leb (length out + length (stuffed_byte b)) cap
        then ok (out ++ stuffed_byte b)
        else err buffer_too_small)
unfolding stuff_write_byte stuffed_byte
stuff_write_byte-stuffed cap out b hc ho = ground (
  arith,
  length-append out (frame_escape ∷ []),
  append_assoc out (frame_escape ∷ []) ((bit_xor b frame_escape_xor % 2 ^ 8) ∷ []),
)

pub stuff_write_bytes-stuffed :
    (cap : ℕ) (out bs : List ℕ)
    → cap ≤ max_cap
    → length out ≤ cap
    → stuff_write_bytes cap out bs ≡ (
        if leb (length out + length (stuffed bs)) cap
        then ok (out ++ stuffed bs)
        else err buffer_too_small)
unfolding stuff_write_bytes stuffed
stuff_write_bytes-stuffed cap out [] hc ho = ground (arith, append-nil out)
stuff_write_bytes-stuffed cap out (b ∷ bs) hc ho = ground (
  arith,
  stuff_write_byte-stuffed cap out b hc ho,
  stuff_write_bytes-stuffed cap (out ++ stuffed_byte b) bs hc,
  length-append out (stuffed_byte b),
  length-append (stuffed_byte b) (stuffed bs),
  append_assoc out (stuffed_byte b) (stuffed bs),
)

pub stuffed_byte-length : (b : ℕ) → (1 ≤ length (stuffed_byte b)) × (length (stuffed_byte b) ≤ 2)
unfolding stuffed_byte
stuffed_byte-length b = ground arith

-- Every byte takes one or two bytes on the wire.
pub length-stuffed :
    (bs : List ℕ) → (length bs ≤ length (stuffed bs)) × (length (stuffed bs) ≤ 2 * length bs)
unfolding stuffed
length-stuffed [] = omega arith
length-stuffed (b ∷ bs) =
    omega
      (arith, length-append (stuffed_byte b) (stuffed bs), stuffed_byte-length b, length-stuffed bs)

escaped :
    (b k : ℕ) → b ≡ k → bit_xor b frame_escape_xor % 2 ^ 8 ≡ bit_xor k frame_escape_xor % 2 ^ 8
escaped b k e = rw e

stuffed_byte_no_start : (b : ℕ) → All (λ x. x ≢ frame_start) (stuffed_byte b)
unfolding stuffed_byte
stuffed_byte_no_start b = ground (arith, escaped b frame_start, escaped b frame_escape)

pub stuffed_no_start : (bs : List ℕ) → All (λ x. x ≢ frame_start) (stuffed bs)
unfolding stuffed
stuffed_no_start [] = tt
stuffed_no_start (b ∷ bs) =
    All-append _ (stuffed_byte b) (stuffed bs) (stuffed_byte_no_start b) (stuffed_no_start bs)

pub stuffed-append : (xs ys : List ℕ) → stuffed (xs ++ ys) ≡ stuffed xs ++ stuffed ys
unfolding stuffed
stuffed-append [] ys = refl
stuffed-append (x ∷ xs) ys =
    rw (stuffed-append xs ys, append_assoc (stuffed_byte x) (stuffed xs) (stuffed ys))
