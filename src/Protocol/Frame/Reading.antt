-- ===== src/Protocol/Frame/Reading.antt =====
-- Reading back what the stuffing loop wrote, and how a read behaves when more bytes arrive.
use embedded_project_pc.Common.{
  ℕ, zero, suc, ◌+◌, ◌%◌, ◌^◌, ◌≤◌, ◌<◌, ◌≡◌, refl, List, [], ◌∷◌, ◌++◌, append_assoc, bit_xor,
  length, length-append, All, arith, Option-cases, inl, inr, some, get_elem?, get_elem?-append,
  get_elem?-append_some, get_elem?-lt,
}
use embedded_project_pc.Protocol.{IsByte, IsU16, frame_start, frame_escape, frame_escape_xor}
use embedded_project_pc.Protocol.Frame.{destuff_read_byte, destuff_read_bytes}
use embedded_project_pc.Protocol.Frame.Stuffing.{stuffed_byte, stuffed}

-- One stuffed byte is read back, wherever it stands in the buffer.
get_elem?-second :
    (pre : List ℕ) (a b : ℕ) (post : List ℕ)
    → get_elem? (pre ++ a ∷ b ∷ post) (length pre + 1) ≡ some b
get_elem?-second [] a b post = refl
get_elem?-second (x ∷ pre) a b post =
    let e : suc (length pre) + 1 ≡ suc (length pre + 1) = omega arith in
    rw e (get_elem?-second pre a b post)

-- The two bytes that are escaped come back from their escaped form.
escape_twice :
    (b k : ℕ)
    → b ≡ k
    → bit_xor (bit_xor b frame_escape_xor % 2 ^ 8) frame_escape_xor % 2 ^ 8
      ≡ bit_xor (bit_xor k frame_escape_xor % 2 ^ 8) frame_escape_xor % 2 ^ 8
escape_twice b k e = rw e

read-stuffed_byte :
    (pre : List ℕ) (b : ℕ) (post : List ℕ)
    → IsByte b
    → length pre + length (stuffed_byte b) < 2 ^ 16
    → destuff_read_byte (pre ++ (stuffed_byte b ++ post)) (length pre)
      ≡ some (b, length pre + length (stuffed_byte b))
unfolding destuff_read_byte stuffed_byte
read-stuffed_byte pre b post hb hn = ground (
  arith,
  escape_twice b frame_start,
  escape_twice b frame_escape,
  get_elem?-append pre b post,
  get_elem?-append pre frame_escape ((bit_xor b frame_escape_xor % 2 ^ 8) ∷ post),
  get_elem?-second pre frame_escape (bit_xor b frame_escape_xor % 2 ^ 8) post,
)

pub read-stuffed :
    (pre bs post : List ℕ)
    → All IsByte bs
    → length pre + length (stuffed bs) < 2 ^ 16
    → destuff_read_bytes (pre ++ (stuffed bs ++ post)) (length pre) (length bs)
      ≡ some (bs, length pre + length (stuffed bs))
unfolding destuff_read_bytes stuffed
read-stuffed pre [] post hb hn = ground arith
read-stuffed pre (b ∷ bs) post hb hn = ground (
  arith,
  append_assoc (stuffed_byte b) (stuffed bs) post,
  append_assoc pre (stuffed_byte b) (stuffed bs ++ post),
  length-append pre (stuffed_byte b),
  length-append (stuffed_byte b) (stuffed bs),
  read-stuffed_byte pre b (stuffed bs ++ post),
  read-stuffed (pre ++ stuffed_byte b) bs post,
)

-- A read that succeeds goes forward and stays inside the buffer.
read_byte_bound :
    (inp : List ℕ) (idx b end : ℕ)
    → IsU16 (length inp)
    → destuff_read_byte inp idx ≡ some (b, end)
    → (idx < end) × (end ≤ length inp)
unfolding destuff_read_byte
read_byte_bound inp idx b end hn e = elim (Option-cases (get_elem? inp idx)) [
  | inl p ↦ absurd (ground (arith, p))
  | inr (x, p) ↦ elim (Option-cases (get_elem? inp (idx + 1))) [
    | inl q ↦ ground (arith, p, q, get_elem?-lt inp idx x)
    | inr (y, q) ↦ ground (arith, p, q, get_elem?-lt inp idx x, get_elem?-lt inp (idx + 1) y)
  ]
]

pub read_bytes_bound :
    (inp : List ℕ) (idx n : ℕ) (bs : List ℕ) (end : ℕ)
    → IsU16 (length inp)
    → idx ≤ length inp
    → destuff_read_bytes inp idx n ≡ some (bs, end)
    → (length bs ≡ n) × (idx + n ≤ end) × (end ≤ length inp)
unfolding destuff_read_bytes
read_bytes_bound inp idx zero bs end hn h e = ground arith
read_bytes_bound inp idx (suc n) bs end hn h e = elim (Option-cases (destuff_read_byte inp idx)) [
  | inl p ↦ absurd (ground (arith, p))
  | inr ((b, idx'), p) ↦ elim (Option-cases (destuff_read_bytes inp idx' n)) [
    | inl q ↦ absurd (ground (arith, p, q))
    | inr ((bs', end'), q) ↦
        ground
          (arith, p, q, read_byte_bound inp idx b idx' hn, read_bytes_bound inp idx' n bs' end' hn)
  ]
]

-- A read that succeeds gives the same when more bytes arrive behind the buffer.
read_byte-append :
    (inp more : List ℕ) (idx : ℕ) (r : ℕ × ℕ)
    → destuff_read_byte inp idx ≡ some r
    → destuff_read_byte (inp ++ more) idx ≡ some r
unfolding destuff_read_byte
read_byte-append inp more idx r e = elim (Option-cases (get_elem? inp idx)) [
  | inl p ↦ absurd (ground (arith, p))
  | inr (x, p) ↦ elim (Option-cases (get_elem? inp (idx + 1))) [
    | inl q ↦ ground (arith, p, q, get_elem?-append_some inp more idx x)
    | inr (y, q) ↦ ground (
      arith,
      p,
      q,
      get_elem?-append_some inp more idx x,
      get_elem?-append_some inp more (idx + 1) y,
    )
  ]
]

pub read_bytes-append :
    (inp more : List ℕ) (idx n : ℕ) (r : List ℕ × ℕ)
    → destuff_read_bytes inp idx n ≡ some r
    → destuff_read_bytes (inp ++ more) idx n ≡ some r
unfolding destuff_read_bytes
read_bytes-append inp more idx zero r e = e
read_bytes-append inp more idx (suc n) r e = elim (Option-cases (destuff_read_byte inp idx)) [
  | inl p ↦ absurd (ground (arith, p))
  | inr ((b, idx'), p) ↦ elim (Option-cases (destuff_read_bytes inp idx' n)) [
    | inl q ↦ absurd (ground (arith, p, q))
    | inr ((bs, end), q) ↦ ground (
      arith,
      p,
      q,
      read_byte-append inp more idx (b, idx'),
      read_bytes-append inp more idx' n (bs, end),
    )
  ]
]
