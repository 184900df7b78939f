-- ===== src/Lnc/Replying.antt =====
-- lnc_link_client.cpp: CcCore_LncRecvMessage never gives a report to its caller.
use embedded_project_pc.Common.{ℕ, zero, suc, ◌≢◌, List, [], ◌∷◌, Option, none, some, length, arith}
use embedded_project_pc.Protocol.{Outcome, ok, err, fault, hangs, Returns}
use embedded_project_pc.Protocol.Tlv.{Tlv, decode_tlv}
use embedded_project_pc.Log.{Stored, print_keep_alive, print_event_report}
use embedded_project_pc.Fleet.Telemetry.{tag_keep_alive, tag_event_report}
use embedded_project_pc.Lnc.{
  lnc_recv, Reception, keep_listening, handle_message, handle_payload, lnc_recv_loop,
  lnc_recv_message,
}

abbrev pub IsNoReport : Option Tlv → Type 0
IsNoReport none = Unit
IsNoReport (some t) = (t.tag ≢ tag_keep_alive) × (t.tag ≢ tag_event_report)

abbrev pub AvoidsReports : Reception → Type 0
AvoidsReports r = IsNoReport r.reply

keep_listening-AvoidsReports :
    (printed : Outcome (List Stored)) (following : Outcome Reception)
    → Returns AvoidsReports following
    → Returns AvoidsReports (keep_listening printed following)
unfolding keep_listening
keep_listening-AvoidsReports (ok s) (ok r) h = h
keep_listening-AvoidsReports (ok s) (err e) h = h
keep_listening-AvoidsReports (ok s) fault h = h
keep_listening-AvoidsReports (ok s) hangs h = h
keep_listening-AvoidsReports (err e) following h = _
keep_listening-AvoidsReports fault following h = _
keep_listening-AvoidsReports hangs following h = _

handle_message-AvoidsReports :
    (following : Outcome Reception) (rest : List ℕ) (decoded : Outcome Tlv)
    → Returns AvoidsReports following
    → Returns AvoidsReports (handle_message following rest decoded)
unfolding handle_message
handle_message-AvoidsReports following rest (ok t) h = ground (
  arith,
  keep_listening-AvoidsReports (print_keep_alive t.value) following h,
  keep_listening-AvoidsReports (print_event_report t.value) following h,
)
handle_message-AvoidsReports following rest (err e) h = h
handle_message-AvoidsReports following rest fault h = _
handle_message-AvoidsReports following rest hangs h = _

handle_payload-AvoidsReports :
    (next : List ℕ → Outcome Reception) (received : List ℕ × List ℕ)
    → ((rest : List ℕ) → Returns AvoidsReports (next rest))
    → Returns AvoidsReports (handle_payload next received)
unfolding handle_payload
handle_payload-AvoidsReports next ([], rest) h = _
handle_payload-AvoidsReports next (x ∷ payload, rest) h =
    handle_message-AvoidsReports (next rest) rest
      (decode_tlv (record { bytes = x ∷ payload; len = length (x ∷ payload) })) (h rest)

lnc_recv_loop-AvoidsReports :
    (rounds cap : ℕ) (bytes : List ℕ) → Returns AvoidsReports (lnc_recv_loop rounds cap bytes)
unfolding lnc_recv_loop
lnc_recv_loop-AvoidsReports zero cap bytes = _
lnc_recv_loop-AvoidsReports (suc rounds) cap bytes =
    handle_payload-AvoidsReports (λ rest. lnc_recv_loop rounds cap rest) (lnc_recv cap bytes)
      (λ rest. lnc_recv_loop-AvoidsReports rounds cap rest)

pub lnc_recv_message-AvoidsReports :
    (cap : ℕ) (bytes : List ℕ) → Returns AvoidsReports (lnc_recv_message cap bytes)
unfolding lnc_recv_message
lnc_recv_message-AvoidsReports cap bytes =
    lnc_recv_loop-AvoidsReports (suc (length bytes)) cap bytes
