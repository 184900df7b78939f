-- ===== src/Central/InStep.antt =====
-- central_computer/main.cpp: the synchronisation of the clock, answered by the LNC.
use embedded_project_pc.Common.{
  ℕ, ◌+◌, ◌%◌, ◌^◌, ◌&&◌, ◌≡◌, ◌≢◌, refl, List, [], ◌∷◌, ◌++◌, false, leb, All, arith,
}
use embedded_project_pc.Protocol.{IsU32, ok}
use embedded_project_pc.Protocol.Bytes.{put_u32}
use embedded_project_pc.Protocol.Tlv.Single.{tlv_bytes}
use embedded_project_pc.Bridge.Server.Stream.{message_bytes}
use embedded_project_pc.Ground.Replies.{status_success}
use embedded_project_pc.Lnc.Reports.{Report, IsReport, all_stored}
use embedded_project_pc.Management.{
  tag_get_time_req, tag_get_time_resp, tag_set_rtc_req, tag_config_ack,
}
use embedded_project_pc.Management.Commands.{reply_bytes, get_time-reply, set_rtc-reply}
use embedded_project_pc.Central.{confirm, then_call, sync_time}

-- The three requests.
abbrev pub time_request : List ℕ
time_request = message_bytes (tlv_bytes tag_get_time_req [])

abbrev pub set_request : ℕ → List ℕ
set_request new_time = message_bytes (tlv_bytes tag_set_rtc_req (put_u32 new_time))

-- The LNC answers the first request with its time, sets its clock and confirms it: the clock counts as
-- in step just if the confirmed time is from the new one to two seconds behind it, in the arithmetic
-- of uint32_t. The three requests go out in order, and the reports that come between the answers are
-- stored.
pub sync_time-answers :
    (initial new_time confirmed : ℕ) (reports1 reports2 reports3 : List Report) (rest : List ℕ)
    → All (IsReport 256) reports1
    → All (IsReport 256) reports2
    → All (IsReport 256) reports3
    → IsU32 initial
    → IsU32 confirmed
    → sync_time new_time (
        reply_bytes reports1 tag_get_time_resp (put_u32 initial) (
          reply_bytes reports2 tag_config_ack
            (status_success ∷ [])
            (reply_bytes reports3 tag_get_time_resp (put_u32 confirmed) rest)))
      ≡ ok (record {
        sent = time_request ++ (set_request new_time ++ time_request);
        stored = all_stored reports1 ++ (all_stored reports2 ++ all_stored reports3);
        synced = leb new_time confirmed && leb confirmed ((new_time + 2) % 2 ^ 32);
        rest = rest;
      })
unfolding sync_time confirm then_call
sync_time-answers initial new_time confirmed reports1 reports2 reports3 rest h1 h2 h3 hi hc =
    let tail3 = reply_bytes reports3 tag_get_time_resp (put_u32 confirmed) rest in
    let tail2 = reply_bytes reports2 tag_config_ack (status_success ∷ []) tail3 in
    rw
      (
        get_time-reply initial tail2 reports1 h1 hi,
        set_rtc-reply new_time status_success tail3 reports2 h2,
        get_time-reply confirmed rest reports3 h3 hc,
      )
      refl

-- Where the LNC refuses the new time, the clock is not in step, the third request is not sent, and
-- what follows the refusal stays in the socket.
pub sync_time-refused :
    (initial new_time status : ℕ) (reports1 reports2 : List Report) (rest : List ℕ)
    → All (IsReport 256) reports1
    → All (IsReport 256) reports2
    → IsU32 initial
    → status ≢ status_success
    → sync_time new_time (
        reply_bytes reports1 tag_get_time_resp
          (put_u32 initial)
          (reply_bytes reports2 tag_config_ack (status ∷ []) rest))
      ≡ ok (record {
        sent = time_request ++ set_request new_time;
        stored = all_stored reports1 ++ all_stored reports2;
        synced = false;
        rest = rest;
      })
unfolding sync_time then_call
sync_time-refused initial new_time status reports1 reports2 rest h1 h2 hi hs =
    let tail2 = reply_bytes reports2 tag_config_ack (status ∷ []) rest in
    ground (
      arith,
      get_time-reply initial tail2 reports1 h1 hi,
      set_rtc-reply new_time status rest reports2 h2,
    )
