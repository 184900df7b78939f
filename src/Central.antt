-- ===== src/Central.antt =====
-- central_computer/main.cpp: the synchronisation of the clock and the streaming loop of one connection.
pub mod Streaming
pub mod Traffic
pub mod InStep
pub mod Serving
use embedded_project_pc.Common.{
  ℕ, zero, suc, ◌+◌, ◌%◌, ◌^◌, ◌==◌, ◌&&◌, List, [], ◌∷◌, ◌++◌, Option, none, some, Bool, true,
  false, length, leb, if◌then◌else◌,
}
use embedded_project_pc.Protocol.{Outcome, ok, err, fault, hangs, ◌>>=◌}
use embedded_project_pc.Protocol.Tlv.{Tlv}
use embedded_project_pc.Fleet.Telemetry.{tag_event_report}
use embedded_project_pc.Ground.Replies.{status_success}
use embedded_project_pc.Log.{Stored, print_event_report}
use embedded_project_pc.Lnc.{Reception, lnc_recv_message}
use embedded_project_pc.Management.{Call, get_time, set_rtc}

-- What the three calls sent and stored, whether the clock is in step, and the bytes that are left.
pub record Sync : Type 0 where
  pub sent : List ℕ
  pub stored : List Stored
  pub synced : Bool
  pub rest : List ℕ

-- The end of the chain of calls.
unfoldable pub confirm : ℕ → Call → Sync
confirm new_time c = record {
  sent = c.sent;
  stored = c.stored;
  synced = elim c.result [
    | none ↦ false
    | some confirmed ↦ leb new_time confirmed && leb confirmed ((new_time + 2) % 2 ^ 32)
  ];
  rest = c.rest;
}

-- `if (ok)`: the call that comes next, if the one before gave a result.
unfoldable pub then_call : Call → Bool → (List ℕ → Outcome Sync) → Outcome Sync
then_call c false next =
    ok (record { sent = c.sent; stored = c.stored; synced = false; rest = c.rest })
then_call c true next = do
  s ← next c.rest
  ok (record s { sent = c.sent ++ s.sent; stored = c.stored ++ s.stored })

unfoldable pub sync_time : ℕ → List ℕ → Outcome Sync
unfolding confirm then_call
sync_time new_time bytes = do
  initial ← get_time bytes
  then_call initial (elim initial.result [ none ↦ false | some time ↦ true ])
      (λ rest. do
        set ← set_rtc new_time rest
        then_call set (elim set.result [ none ↦ false | some status ↦ status == status_success ])
            (λ rest'. do confirmed ← get_time rest'; ok (confirm new_time confirmed)))

-- What the streaming loop stored, and the tags that it called unhandled.
pub record Streamed : Type 0 where
  pub stored : List Stored
  pub unhandled : List ℕ

-- The loop's body behind the receiving; `next` is the next round.
unfoldable pub on_stream :
    (List ℕ → Outcome Streamed) → List Stored → List ℕ → Option Tlv → Outcome Streamed
on_stream next stored rest none = ok (record { stored = stored; unhandled = [] })
on_stream next stored rest (some t) =
    if t.tag == tag_event_report
    then (do
      printed ← print_event_report t.value
      s ← next rest
      ok (record s { stored = stored ++ (printed ++ s.stored) }))
    else (do
      s ← next rest
      ok (record { stored = stored ++ s.stored; unhandled = t.tag ∷ s.unhandled }))

-- The loop, with the number of rounds left as fuel, until the link drops.
unfoldable pub stream_loop : ℕ → List ℕ → Outcome Streamed
unfolding on_stream
stream_loop zero bytes = hangs
stream_loop (suc rounds) bytes = do
  r ← lnc_recv_message 256 bytes
  on_stream (λ rest. stream_loop rounds rest) r.stored r.rest r.reply

-- Each round that goes on takes a message off the stream.
unfoldable pub stream_reports : List ℕ → Outcome Streamed
unfolding stream_loop
stream_reports bytes = stream_loop (suc (length bytes)) bytes
