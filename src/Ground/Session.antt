-- ===== src/Ground/Session.antt =====
-- central_computer/comm_gs.cpp: CC_GsLink_Run on one client: the handshake and its requests;
-- ground_station/main.cpp: the other end of the handshake.
pub mod Served
use embedded_project_pc.Common.{
  ℕ, zero, suc, ◌+◌, ◌/◌, ◌%◌, ◌^◌, ◌==◌, ◌||◌, List, [], ◌∷◌, ◌++◌, Option, none, some, Bool, true,
  false, not, length, take, drop, ltb, if◌then◌else◌,
}
use embedded_project_pc.Common.Text.{Text, same}
use embedded_project_pc.Protocol.{Outcome, ok, err, fault, hangs, ◌>>=◌}
use embedded_project_pc.Protocol.Bytes.{put_u32, get_u32}
use embedded_project_pc.Ground.Records.{Measurement, Event}
use embedded_project_pc.Ground.Requests.{RangeRequest}
use embedded_project_pc.Ground.Replies.{gs_link_dispatch}

-- GS_HANDSHAKE_GREETING, "GS_HELLO"
abbrev pub handshake_greeting : Text
handshake_greeting = 71 ∷ 83 ∷ 95 ∷ 72 ∷ 69 ∷ 76 ∷ 76 ∷ 79 ∷ []

-- GS_HANDSHAKE_REPLY, "CC_HELLO_ACK"
abbrev pub handshake_reply : Text
handshake_reply = 67 ∷ 67 ∷ 95 ∷ 72 ∷ 69 ∷ 76 ∷ 76 ∷ 79 ∷ 95 ∷ 65 ∷ 67 ∷ 75 ∷ []

-- What strcmp sees of a buffer that was filled with zeros: the bytes up to the first zero.
unfoldable pub c_string : Text → Text
c_string [] = []
c_string (c ∷ text) = let more = c_string text in if c == 0 then [] else c ∷ more

-- The text that is received into a buffer of 64 bytes, and the bytes that are left; `none` where the
-- prefix or the text does not come whole, or the text does not fit.
unfoldable pub recv_text : List ℕ → Outcome (Option (Text × List ℕ))
recv_text bytes =
    if ltb (length bytes) 4
    then ok none
    else get_u32 bytes >>= λ len.
        if not (ltb len 64) || ltb (length bytes) (4 + len)
        then ok none
        else ok (some (take len (drop 4 bytes), drop len (drop 4 bytes)))

-- The ground station's greeting; its prefix is written out byte by byte.
unfoldable pub greeting_message : List ℕ
greeting_message =
    let len = length handshake_greeting in
    0 ∷ 0 ∷ (len / 2 ^ 8) % 2 ^ 8 ∷ len % 2 ^ 8 ∷ handshake_greeting

-- Its end of the handshake, on what comes back: whether it goes on to the queries.
unfoldable pub handshake_matches : Option (Text × List ℕ) → Bool
handshake_matches none = false
handshake_matches (some (reply, rest)) = same (c_string reply) handshake_reply

module _ (measurements : RangeRequest → List Measurement) (events : RangeRequest → List Event) where
  -- `while (CC_GsLink_Dispatch(clientFd))`, with the number of rounds left as fuel: the bytes sent. A
  -- dispatch that returns true has taken a prefix and its message off the socket.
  unfoldable pub serve_requests : ℕ → List ℕ → Outcome (List ℕ)
  serve_requests zero bytes = hangs
  serve_requests (suc rounds) bytes = gs_link_dispatch measurements events bytes >>= λ answer.
      elim answer [
        | none ↦ ok []
        | some sent ↦ get_u32 bytes >>= λ len.
            serve_requests rounds (drop len (drop 4 bytes)) >>= λ more. ok (sent ++ more)
      ]

  -- One client: the reply to any greeting that is received, and then the requests if it was the right
  -- one.
  unfoldable pub greet : Option (Text × List ℕ) → Outcome (List ℕ)
  unfolding serve_requests
  greet none = ok []
  greet (some (greeting, rest)) =
      let reply = put_u32 (length handshake_reply) ++ handshake_reply in
      if same (c_string greeting) handshake_greeting
      then (serve_requests (suc (length rest)) rest >>= λ sent. ok (reply ++ sent))
      else ok reply

  unfoldable pub serve_client : List ℕ → Outcome (List ℕ)
  unfolding greet
  serve_client bytes = do received ← recv_text bytes; greet received
