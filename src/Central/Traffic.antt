-- ===== src/Central/Traffic.antt =====
-- central_computer/main.cpp: what the streaming loop makes of a connection's traffic.
use embedded_project_pc.Common.{
  ℕ, zero, suc, ◌+◌, ◌≤◌, ◌<◌, ◌≡◌, ◌≢◌, refl, ap, ◌∙◌, List, [], ◌∷◌, ◌++◌, append-nil, none,
  length, length-append, All, arith,
}
use embedded_project_pc.Protocol.{ok}
use embedded_project_pc.Protocol.Bytes.{get_u32}
use embedded_project_pc.Protocol.Tlv.Single.{tlv_bytes}
use embedded_project_pc.Bridge.Server.Stream.{message_bytes, length-message_bytes}
use embedded_project_pc.Log.{Stored}
use embedded_project_pc.Fleet.Telemetry.{tag_keep_alive, tag_event_report}
use embedded_project_pc.Lnc.{
  lnc_recv, lnc_recv_message, lnc_recv_loop, handle_payload, keep_listening,
}
use embedded_project_pc.Lnc.Reports.{
  Report, IsReport, reports_bytes, all_stored, lnc_recv_message-reports, lnc_recv_message-reply,
}
use embedded_project_pc.Management.Commands.{reply_bytes}
use embedded_project_pc.Central.{on_stream, stream_loop, stream_reports}

-- A message that nobody waits for, with the reports in front of it.
pub record Stray : Type 0 where
  pub reports : List Report
  pub tag : ℕ
  pub value : List ℕ

pub record IsStray (s : Stray) : Type 0 where
  pub reports_printed : All (IsReport 256) s.reports
  pub not_keep_alive : s.tag ≢ tag_keep_alive
  pub not_event_report : s.tag ≢ tag_event_report
  pub fits : 3 + length s.value ≤ 256

-- The traffic of a connection until it is closed.
abbrev pub traffic : List Stray → List Report → List ℕ
traffic [] reports = reports_bytes reports ++ []
traffic (s ∷ strays) reports = reply_bytes s.reports s.tag s.value (traffic strays reports)

abbrev pub traffic_stored : List Stray → List Report → List Stored
traffic_stored [] reports = all_stored reports
traffic_stored (s ∷ strays) reports = all_stored s.reports ++ traffic_stored strays reports

abbrev pub stray_tags : List Stray → List ℕ
stray_tags [] = []
stray_tags (s ∷ strays) = s.tag ∷ stray_tags strays

closed :
    (reports : List Report)
    → All (IsReport 256) reports
    → lnc_recv_message 256 (reports_bytes reports ++ [])
      ≡ ok (record { stored = all_stored reports; reply = none; rest = [] })
unfolding lnc_recv_message lnc_recv_loop handle_payload lnc_recv keep_listening get_u32
closed reports rs =
    lnc_recv_message-reports 256 reports [] rs (omega arith)
    ∙ ap (λ l. ok (record { stored = l; reply = none; rest = [] }))
        (append-nil (all_stored reports))

stream_loop-traffic :
    (rounds : ℕ) (strays : List Stray) (reports : List Report)
    → All IsStray strays
    → All (IsReport 256) reports
    → length strays < rounds
    → stream_loop rounds (traffic strays reports)
      ≡ ok (record { stored = traffic_stored strays reports; unhandled = stray_tags strays })
unfolding stream_loop on_stream
stream_loop-traffic zero strays reports ss rs h = absurd (omega arith)
stream_loop-traffic (suc rounds) [] reports ss rs h = rw (closed reports rs) refl
stream_loop-traffic (suc rounds) (s ∷ strays) reports (i, ss) rs h = ground (
  arith,
  lnc_recv_message-reply 256 s.reports s.tag s.value (traffic strays reports) i.reports_printed
      (omega arith) i.not_keep_alive i.not_event_report i.fits,
  i.not_event_report,
  stream_loop-traffic rounds strays reports ss rs,
)

length-traffic :
    (strays : List Stray) (reports : List Report) → length strays ≤ length (traffic strays reports)
length-traffic [] reports = omega arith
length-traffic (s ∷ strays) reports =
    let m = tlv_bytes s.tag s.value in
    omega (
      arith,
      length-append (reports_bytes s.reports) (message_bytes m ++ traffic strays reports),
      length-append (message_bytes m) (traffic strays reports),
      length-message_bytes m,
      length-traffic strays reports,
    )

-- The streaming loop ends when the connection is closed. By then it has stored every report of the
-- traffic once, in order, wherever it stands, and has called every other message unhandled. Each
-- message fits the buffer of 256 bytes, and each report can be printed.
pub stream_reports-traffic :
    (strays : List Stray) (reports : List Report)
    → All IsStray strays
    → All (IsReport 256) reports
    → stream_reports (traffic strays reports)
      ≡ ok (record { stored = traffic_stored strays reports; unhandled = stray_tags strays })
unfolding stream_reports
stream_reports-traffic strays reports ss rs =
    stream_loop-traffic (suc (length (traffic strays reports))) strays reports ss rs
      (omega (arith, length-traffic strays reports))
