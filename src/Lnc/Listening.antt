-- ===== src/Lnc/Listening.antt =====
-- lnc_link_client.cpp: what CcCore_LncRecvMessage makes of a stream of messages.
use embedded_project_pc.Common.{
  ℕ, zero, suc, ◌+◌, ◌≤◌, ◌<◌, ◌≡◌, refl, ap, ◌∙◌, List, [], ◌∷◌, length, length-take, length-drop,
  arith,
}
use embedded_project_pc.Protocol.{Outcome}
use embedded_project_pc.Protocol.Bytes.{get_u32, join_u32}
use embedded_project_pc.Protocol.Tlv.{decode_tlv}
use embedded_project_pc.Lnc.{
  lnc_take, lnc_recv, Reception, handle_message, handle_payload, lnc_recv_loop,
}

-- A received message takes its prefix and its bytes off the stream.
pub lnc_recv_shorter :
    (cap : ℕ) (bytes payload rest : List ℕ)
    → lnc_recv cap bytes ≡ (payload, rest)
    → 0 < length payload
    → length rest + 4 + length payload ≤ length bytes
unfolding lnc_recv lnc_take get_u32
lnc_recv_shorter cap (a ∷ b ∷ c ∷ d ∷ bytes) payload rest e h =
    let len = join_u32 a b c d in ground (arith, e, length-take len bytes, length-drop len bytes)
lnc_recv_shorter cap [] payload rest e h = ground arith
lnc_recv_shorter cap (a ∷ []) payload rest e h = ground arith
lnc_recv_shorter cap (a ∷ b ∷ []) payload rest e h = ground arith
lnc_recv_shorter cap (a ∷ b ∷ c ∷ []) payload rest e h = ground arith

-- Two next rounds that agree on shorter streams give the same round.
handle_payload_cong :
    (f g : List ℕ → Outcome Reception) (received : List ℕ × List ℕ)
    → ((payload rest : List ℕ) → received ≡ (payload, rest) → 0 < length payload → f rest ≡ g rest)
    → handle_payload f received ≡ handle_payload g received
unfolding handle_payload
handle_payload_cong f g ([], rest) h = refl
handle_payload_cong f g (x ∷ payload, rest) h =
    ap
      (λ r.
        handle_message r rest
          (decode_tlv (record { bytes = x ∷ payload; len = length (x ∷ payload) })))
      (h (x ∷ payload) rest refl (omega arith))

-- More rounds than the stream has bytes change nothing.
pub lnc_recv_loop-rounds :
    (rounds more cap : ℕ) (bytes : List ℕ)
    → length bytes < rounds
    → lnc_recv_loop (rounds + more) cap bytes ≡ lnc_recv_loop rounds cap bytes
unfolding lnc_recv_loop
lnc_recv_loop-rounds zero more cap bytes h = absurd (omega arith)
lnc_recv_loop-rounds (suc rounds) more cap bytes h =
    let one : suc rounds + more ≡ suc (rounds + more) = omega arith in
    ap (λ k. lnc_recv_loop k cap bytes) one
    ∙ handle_payload_cong (λ rest. lnc_recv_loop (rounds + more) cap rest)
        (λ rest. lnc_recv_loop rounds cap rest) (lnc_recv cap bytes)
        (λ payload rest e h0.
          lnc_recv_loop-rounds rounds more cap rest
            (omega (arith, lnc_recv_shorter cap bytes payload rest e h0)))
