-- ===== src/Lnc.antt =====
-- central_computer/lnc_link_client.cpp: CcCore_LncRecv, CcCore_LncSend and CcCore_LncRecvMessage, the
-- central computer's end of the bridge's TCP link.
pub mod Messages
pub mod Listening
pub mod Ending
pub mod Reports
pub mod Replying
use embedded_project_pc.Common.{
  ℕ, zero, suc, ◌+◌, ◌==◌, ◌||◌, List, [], ◌∷◌, ◌++◌, Option, none, some, length, take, drop, ltb,
  if◌then◌else◌,
}
use embedded_project_pc.Protocol.{Outcome, ok, err, fault, hangs, ◌>>=◌, Span}
use embedded_project_pc.Protocol.Bytes.{put_u32, get_u32}
use embedded_project_pc.Protocol.Tlv.{Tlv, encode_tlv, decode_tlv}
use embedded_project_pc.Log.{Stored, print_keep_alive, print_event_report}
use embedded_project_pc.Fleet.Telemetry.{tag_keep_alive, tag_event_report}

-- `bytes` is all that the socket delivers before it is closed. The result is the payload, which is
-- empty for the return value 0, and the bytes that are left: a message that is too long stays there
-- behind its prefix, and one that does not come whole is used up.
lnc_take : ℕ → ℕ → List ℕ → List ℕ × List ℕ
lnc_take max_len len rest =
    if ltb max_len len
    then ([], rest)
    else (if ltb (length rest) len then ([], []) else (take len rest, drop len rest))

unfoldable pub lnc_recv : ℕ → List ℕ → List ℕ × List ℕ
unfolding lnc_take
lnc_recv max_len bytes = elim (get_u32 bytes) [
  | ok len ↦ lnc_take max_len len (drop 4 bytes)
  | err e ↦ ([], [])
  | fault ↦ ([], [])
  | hangs ↦ ([], [])
]

-- The bytes of the two calls of send(); the message has a buffer of 32 bytes. The source does not
-- look at the result of Protocol_EncodeTLV.
unfoldable pub lnc_send : ℕ → List ℕ → Outcome (List ℕ)
lnc_send tag value = do message ← encode_tlv tag value 32; ok (put_u32 (length message) ++ message)

-- What the receive loop stored on its way, its out values, and the bytes that are left; `none` is the
-- return value false.
pub record Reception : Type 0 where
  pub stored : List Stored
  pub reply : Option Tlv
  pub rest : List ℕ

-- A round that goes on after a report.
unfoldable pub keep_listening : Outcome (List Stored) → Outcome Reception → Outcome Reception
keep_listening printed following = do
  stored ← printed
  r ← following
  ok (record r { stored = stored ++ r.stored })

-- The loop's body behind the decoding; `following` is the next round.
unfoldable pub handle_message : Outcome Reception → List ℕ → Outcome Tlv → Outcome Reception
handle_message following rest (ok t) =
    if t.tag == tag_keep_alive
    then keep_listening (print_keep_alive t.value) following
    else (if t.tag == tag_event_report
        then keep_listening (print_event_report t.value) following
        else ok (record { stored = []; reply = some t; rest = rest }))
handle_message following rest (err e) = following
handle_message following rest fault = fault
handle_message following rest hangs = hangs

-- A message without bytes counts as the end of the connection.
unfoldable pub handle_payload : (List ℕ → Outcome Reception) → List ℕ × List ℕ → Outcome Reception
unfolding handle_message
handle_payload next ([], rest) = ok (record { stored = []; reply = none; rest = rest })
handle_payload next (x ∷ payload, rest) =
    handle_message (next rest) rest
      (decode_tlv (record { bytes = x ∷ payload; len = length (x ∷ payload) }))

-- The loop of CcCore_LncRecvMessage, with the number of rounds left as fuel. A message that cannot be
-- decoded is passed over, and so are keep-alives and event reports, once they are stored.
unfoldable pub lnc_recv_loop : ℕ → ℕ → List ℕ → Outcome Reception
unfolding handle_payload
lnc_recv_loop zero cap bytes = hangs
lnc_recv_loop (suc rounds) cap bytes =
    handle_payload (λ rest. lnc_recv_loop rounds cap rest) (lnc_recv cap bytes)

-- Each round that goes on takes five bytes at least.
unfoldable pub lnc_recv_message : ℕ → List ℕ → Outcome Reception
unfolding lnc_recv_loop
lnc_recv_message cap bytes = lnc_recv_loop (suc (length bytes)) cap bytes
