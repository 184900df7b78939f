-- ===== src/Management/Commands.antt =====
-- management_command.cpp: CcCore_GetTime, CcCore_SetRtc and CcCore_SetBatteryWarningMin, answered.
use embedded_project_pc.Common.{
  ℕ, ◌≤◌, ◌≡◌, ◌≢◌, refl, List, [], ◌∷◌, ◌++◌, some, length, All, arith,
}
use embedded_project_pc.Protocol.{IsU32, Outcome, ok}
use embedded_project_pc.Protocol.Bytes.{put_u16, put_u32, get_u32, length-put_u32}
use embedded_project_pc.Protocol.Tlv.{encode_tlv}
use embedded_project_pc.Protocol.Tlv.Single.{tlv_bytes}
use embedded_project_pc.Bridge.Server.Stream.{message_bytes}
use embedded_project_pc.Ground.Records.{get_u8}
use embedded_project_pc.Ground.Records.ReadBack.{u32_alone, get_u32-ReadsFront}
use embedded_project_pc.Fleet.Telemetry.{tag_keep_alive, tag_event_report}
use embedded_project_pc.Lnc.Messages.{lnc_send-message_bytes}
use embedded_project_pc.Lnc.Reports.{
  Report, IsReport, reports_bytes, all_stored, lnc_recv_message-reply,
}
use embedded_project_pc.Management.{
  reply_value, command, get_time, set_rtc, set_battery_warning_min, tag_get_time_req,
  tag_get_time_resp, tag_set_rtc_req, tag_config_ack, tag_set_battery_warning_min,
  field_battery_min,
}

-- A reply, with the reports that come before it, and what follows.
abbrev pub reply_bytes : List Report → ℕ → List ℕ → List ℕ → List ℕ
reply_bytes reports tag value rest =
    reports_bytes reports ++ (message_bytes (tlv_bytes tag value) ++ rest)

command-reply :
    (req_tag resp_tag min_len : ℕ) (get : List ℕ → Outcome ℕ) (value reply rest : List ℕ)
    (reports : List Report) (x : ℕ)
    → All (IsReport 256) reports
    → length value ≤ 29
    → length reply ≤ 253
    → min_len ≤ length reply
    → resp_tag ≢ tag_keep_alive
    → resp_tag ≢ tag_event_report
    → get (reply ++ []) ≡ ok x
    → command req_tag resp_tag min_len get value (reply_bytes reports resp_tag reply rest)
      ≡ ok (record {
        sent = message_bytes (tlv_bytes req_tag value);
        stored = all_stored reports;
        result = some x;
        rest = rest;
      })
unfolding command reply_value
command-reply req_tag resp_tag min_len get value reply rest reports x rs hv hr hm ka er e = ground (
  arith,
  lnc_send-message_bytes req_tag value hv,
  lnc_recv_message-reply 256 reports resp_tag reply rest rs (omega arith) ka er (omega arith),
  e,
)

-- GET_TIME_RESP with a time gives that time.
pub get_time-reply :
    (time : ℕ) (rest : List ℕ) (reports : List Report)
    → All (IsReport 256) reports
    → IsU32 time
    → get_time (reply_bytes reports tag_get_time_resp (put_u32 time) rest)
      ≡ ok (record {
        sent = message_bytes (tlv_bytes tag_get_time_req []);
        stored = all_stored reports;
        result = some time;
        rest = rest;
      })
unfolding get_time
get_time-reply time rest reports rs ht =
    command-reply tag_get_time_req tag_get_time_resp 4 get_u32 [] (put_u32 time) rest reports time
      rs (omega arith) (omega (arith, length-put_u32 time)) (omega (arith, length-put_u32 time))
      (ground arith) (ground arith) (get_u32-ReadsFront (put_u32 time) [] time (u32_alone time ht))

-- CONFIG_ACK with a status gives that status.
pub set_rtc-reply :
    (new_time status : ℕ) (rest : List ℕ) (reports : List Report)
    → All (IsReport 256) reports
    → set_rtc new_time (reply_bytes reports tag_config_ack (status ∷ []) rest)
      ≡ ok (record {
        sent = message_bytes (tlv_bytes tag_set_rtc_req (put_u32 new_time));
        stored = all_stored reports;
        result = some status;
        rest = rest;
      })
unfolding set_rtc get_u8
set_rtc-reply new_time status rest reports rs =
    command-reply tag_set_rtc_req tag_config_ack 1 get_u8 (put_u32 new_time) (status ∷ []) rest
      reports status rs (omega (arith, length-put_u32 new_time)) (omega arith) (omega arith)
      (ground arith) (ground arith) refl

-- CcCore_SetBatteryWarningMin sends the new minimum as a field, and returns the status of the
-- CONFIG_ACK that answers it, behind any reports, which it stores.
pub set_battery_warning_min-reply :
    (new_min_mv status : ℕ) (rest : List ℕ) (reports : List Report)
    → All (IsReport 256) reports
    → set_battery_warning_min new_min_mv (reply_bytes reports tag_config_ack (status ∷ []) rest)
      ≡ ok (record {
        sent = message_bytes (
            tlv_bytes tag_set_battery_warning_min
              (tlv_bytes field_battery_min (put_u16 new_min_mv)));
        stored = all_stored reports;
        result = some status;
        rest = rest;
      })
unfolding set_battery_warning_min get_u8 encode_tlv tlv_bytes put_u16
set_battery_warning_min-reply new_min_mv status rest reports rs =
    command-reply tag_set_battery_warning_min tag_config_ack 1 get_u8
      (tlv_bytes field_battery_min (put_u16 new_min_mv)) (status ∷ []) rest reports status rs
      (omega arith) (omega arith) (omega arith) (ground arith) (ground arith) refl
