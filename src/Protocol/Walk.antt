-- ===== src/Protocol/Walk.antt =====
-- The walk over all fields of a message's value, which ground_station/gs_queries.cpp and
-- central_computer/management_command.cpp write out in each of their loops.
pub mod Whole
pub mod Stuck
use embedded_project_pc.Common.{
  ℕ, zero, suc, ◌+◌, ◌%◌, ◌^◌, List, [], ◌∷◌, ◌++◌, length, drop, leb, if◌then◌else◌,
}
use embedded_project_pc.Protocol.{Outcome, ok, fault, hangs, ◌>>=◌, Span}
use embedded_project_pc.Protocol.Bytes.{join_u16}

module _ {S : Type 0} (visit : ℕ → Span → S → Outcome S) where
  -- The loop's body at the tag and the length; `next` is the next round. The header is read without
  -- a look at the buffer's end, and the field's value is not held against it.
  abbrev pub visit_at : (ℕ → S → Outcome S) → ℕ → S → List ℕ → Outcome S
  visit_at next offset s (tag ∷ hi ∷ lo ∷ rest) = do
    s' ← visit tag (record { bytes = rest; len = join_u16 hi lo }) s
    next ((offset + 3 + join_u16 hi lo) % 2 ^ 16) s'
  visit_at next offset s (tag ∷ hi ∷ []) = fault
  visit_at next offset s (tag ∷ []) = fault
  visit_at next offset s [] = fault

  -- `while ((uint16_t)(offset + 3) <= valueLen)`, with the number of rounds left as fuel.
  unfoldable pub walk_loop : ℕ → Span → ℕ → S → Outcome S
  walk_loop zero value offset s = hangs
  walk_loop (suc rounds) value offset s =
      let body =
        visit_at (λ offset' s'. walk_loop rounds value offset' s') offset s
          (drop offset value.bytes) in
      if leb ((offset + 3) % 2 ^ 16) value.len then body else ok s

  -- Each round that goes on takes three bytes at least, unless an offset wraps around.
  unfoldable pub walk : Span → S → Outcome S
  unfolding walk_loop
  walk value s = walk_loop (suc value.len) value 0 s
