-- ===== src/Fleet/Telemetry/Polling.antt =====
-- central_computer.cpp, PollLatestTelemetry: a queue of whole reports, and what ends it.
use embedded_project_pc.Common.{
  ℕ, zero, suc, ◌-◌, ◌^◌, ◌≤◌, ◌<◌, ◌≡◌, refl, ap, ◌∙◌, List, [], ◌∷◌, ◌++◌, none, some, ◌⊎◌, false,
  if◌then◌else◌, length, take, map, All, arith,
}
use embedded_project_pc.Protocol.{ok, ◌>>=◌}
use embedded_project_pc.Protocol.Bytes.{put_u32, length-put_u32}
use embedded_project_pc.Fleet.Link.{Link, disconnect}
use embedded_project_pc.Fleet.Telemetry.{
  Attempt, on_payload, poll_once, poll_loop, poll_latest_telemetry,
}
use embedded_project_pc.Fleet.Telemetry.Queue.{
  Report, IsReport, whole, shows_all, prefix_length, poll_loop-whole,
}

-- What can end a poll: nothing more is there, the peer has closed the connection, only a part of a
-- prefix is there, a declared length is 0 or more than the buffer's 256 bytes, or a message of `len`
-- bytes does not come whole.
pub data Ending : Type 0 where
  drained : Ending
  closed : Ending
  cut_prefix : List ℕ → Ending
  out_of_range : ℕ → Ending
  cut_off : ℕ → List ℕ → Ending

abbrev pub IsEnding : Ending → Type 0
IsEnding drained = Unit {0}
IsEnding closed = Unit {0}
IsEnding (cut_prefix bytes) = (0 < length bytes) × (length bytes < 4)
IsEnding (out_of_range len) = ((len ≡ 0) ⊎ (256 < len)) × (len < 2 ^ 32)
IsEnding (cut_off len payload) = (length payload < len) × (len ≤ 256)

abbrev pub ending_attempt : Ending → Attempt
ending_attempt drained = record { prefix = none; payload = [] }
ending_attempt closed = record { prefix = some []; payload = [] }
ending_attempt (cut_prefix bytes) = record { prefix = some bytes; payload = [] }
ending_attempt (out_of_range len) = record { prefix = some (put_u32 len); payload = [] }
ending_attempt (cut_off len payload) = record { prefix = some (put_u32 len); payload = payload }

-- What it does to the link.
abbrev pub leaves : Link → Ending → Link
leaves l drained = l
leaves l closed = disconnect l
leaves l (cut_prefix bytes) = l
leaves l (out_of_range len) = l
leaves l (cut_off len payload) = disconnect l

poll_once-ending :
    (l : Link) (e : Ending) → IsEnding e → poll_once l (ending_attempt e) ≡ ok (leaves l e, false)
unfolding poll_once on_payload
poll_once-ending l drained h = refl
poll_once-ending l closed h = refl
poll_once-ending l (cut_prefix bytes) h = ground (arith, h)
poll_once-ending l (out_of_range len) h =
    ground (arith, length-put_u32 len, prefix_length len h.1, h.0)
poll_once-ending l (cut_off len payload) h =
    ground (arith, length-put_u32 len, prefix_length len (omega (arith, h)))

poll_loop-ending :
    (l : Link) (e : Ending) (more : List Attempt) (rounds : ℕ)
    → IsEnding e
    → 0 < rounds
    → poll_loop l (take rounds (ending_attempt e ∷ more)) ≡ ok (leaves l e)
unfolding poll_loop
poll_loop-ending l e more zero h pos = absurd (omega arith)
poll_loop-ending l e more (suc rounds) h pos =
    ap (λ o. o >>= λ (l', goes_on). if goes_on then poll_loop l' (take rounds more) else ok l')
      (poll_once-ending l e h)

poll_connected :
    (l : Link) (fd : ℕ) (attempts : List Attempt)
    → l.fd ≡ some fd
    → poll_latest_telemetry l attempts ≡ poll_loop l (take 5 attempts)
unfolding poll_latest_telemetry
poll_connected l fd attempts connected = ground (arith, connected)

-- The link is connected, and whole keep-alives and event reports, with members in the range of their
-- types, wait in the socket: fewer than 5 of them in `reports`, and 5 in `five`. A poll of the former
-- caches them one after the other (of a keep-alive the time and the four readings, of an event report
-- with a measurement these and the mode, of one without nothing), and then stops: where nothing more
-- is there, or one to three bytes of a prefix, or a declared length of 0 or of more than 256, the
-- link stays; where the peer has closed the connection, or the payload of a next message of at most
-- 256 bytes does not come whole, the link is disconnected and shows no telemetry any more. A poll of
-- the latter caches all five and reads nothing behind them.
pub poll_latest_telemetry-reports :
    (l : Link) (fd : ℕ) (reports five : List Report) (e : Ending) (more : List Attempt)
    → l.fd ≡ some fd
    → All IsReport reports
    → length reports < 5
    → IsEnding e
    → All IsReport five
    → length five ≡ 5
    → (poll_latest_telemetry l (map whole reports ++ (ending_attempt e ∷ more))
        ≡ ok (leaves (shows_all l reports) e))
      × (poll_latest_telemetry l (map whole five ++ more) ≡ ok (shows_all l five))
unfolding poll_loop
poll_latest_telemetry-reports l fd reports five e more connected hs few he hs' full =
    let ends =
      poll_loop-whole l reports (ending_attempt e ∷ more) 5 hs (omega arith)
      ∙ poll_loop-ending (shows_all l reports) e more (5 - length reports) he (omega arith) in
    let none_left : 5 - length five ≡ 0 = omega arith in
    let all_five : poll_loop l (take 5 (map whole five ++ more)) ≡ ok (shows_all l five) =
      poll_loop-whole l five more 5 hs' (omega arith)
      ∙ ap (λ (k : ℕ). poll_loop (shows_all l five) (take k more)) none_left in
    (
      poll_connected l fd (map whole reports ++ (ending_attempt e ∷ more)) connected ∙ ends,
      poll_connected l fd (map whole five ++ more) connected ∙ all_five,
    )
