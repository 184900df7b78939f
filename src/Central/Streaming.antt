-- ===== src/Central/Streaming.antt =====
-- central_computer/main.cpp: the streaming loop's branch for event reports never runs.
use embedded_project_pc.Common.{
  ℕ, zero, suc, ◌≡◌, refl, ap, ◌∙◌, List, [], ◌∷◌, ◌++◌, Option, none, some, arith,
}
use embedded_project_pc.Protocol.{Outcome, ok, err, fault, hangs, Returns, ◌>>=◌}
use embedded_project_pc.Protocol.Tlv.{Tlv}
use embedded_project_pc.Log.{Stored}
use embedded_project_pc.Lnc.{Reception, lnc_recv_message}
use embedded_project_pc.Lnc.Replying.{IsNoReport, AvoidsReports, lnc_recv_message-AvoidsReports}
use embedded_project_pc.Central.{Streamed, on_stream, stream_loop}

-- The reference: a loop that calls every reply unhandled.
unfoldable pub on_plain :
    (List ℕ → Outcome Streamed) → List Stored → List ℕ → Option Tlv → Outcome Streamed
on_plain next stored rest none = ok (record { stored = stored; unhandled = [] })
on_plain next stored rest (some t) = do
  s ← next rest
  ok (record { stored = stored ++ s.stored; unhandled = t.tag ∷ s.unhandled })

unfoldable pub plain_loop : ℕ → List ℕ → Outcome Streamed
unfolding on_plain
plain_loop zero bytes = hangs
plain_loop (suc rounds) bytes = do
  r ← lnc_recv_message 256 bytes
  on_plain (λ rest. plain_loop rounds rest) r.stored r.rest r.reply

on_stream-on_plain :
    (next : List ℕ → Outcome Streamed) (stored : List Stored) (rest : List ℕ) (reply : Option Tlv)
    → IsNoReport reply
    → on_stream next stored rest reply ≡ on_plain next stored rest reply
unfolding on_stream on_plain
on_stream-on_plain next stored rest none h = refl
on_stream-on_plain next stored rest (some t) (ka, er) = ground (arith, er)

on_plain_cong :
    (f g : List ℕ → Outcome Streamed) (stored : List Stored) (rest : List ℕ) (reply : Option Tlv)
    → f rest ≡ g rest
    → on_plain f stored rest reply ≡ on_plain g stored rest reply
unfolding on_plain
on_plain_cong f g stored rest none e = refl
on_plain_cong f g stored rest (some t) e =
    ap
      (λ o. o >>= λ s. ok (record { stored = stored ++ s.stored; unhandled = t.tag ∷ s.unhandled }))
      e

bind_cong :
    (m : Outcome Reception) (f g : Reception → Outcome Streamed)
    → Returns AvoidsReports m
    → ((r : Reception) → AvoidsReports r → f r ≡ g r)
    → (m >>= f) ≡ (m >>= g)
bind_cong (ok r) f g a h = h r a
bind_cong (err e) f g a h = refl
bind_cong fault f g a h = refl
bind_cong hangs f g a h = refl

-- For every stream of bytes, and after any number of rounds, the streaming loop has done the same as
-- the loop without the branch for event reports: CcCore_LncRecvMessage has stored them already.
pub stream_loop-plain_loop :
    (rounds : ℕ) (bytes : List ℕ) → stream_loop rounds bytes ≡ plain_loop rounds bytes
unfolding stream_loop plain_loop
stream_loop-plain_loop zero bytes = refl
stream_loop-plain_loop (suc rounds) bytes =
    bind_cong (lnc_recv_message 256 bytes)
      (λ r. on_stream (λ rest. stream_loop rounds rest) r.stored r.rest r.reply)
      (λ r. on_plain (λ rest. plain_loop rounds rest) r.stored r.rest r.reply)
      (lnc_recv_message-AvoidsReports 256 bytes)
      (λ r a.
        on_stream-on_plain (λ rest. stream_loop rounds rest) r.stored r.rest r.reply a
        ∙ on_plain_cong (λ rest. stream_loop rounds rest) (λ rest. plain_loop rounds rest) r.stored
            r.rest r.reply (stream_loop-plain_loop rounds r.rest))
