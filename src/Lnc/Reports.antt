-- ===== src/Lnc/Reports.antt =====
-- lnc_link_client.cpp: CcCore_LncRecvMessage stores the reports in front of a reply, and gives the reply.
use embedded_project_pc.Common.{
  ℕ, suc, ◌+◌, ◌^◌, ◌==◌, ◌≤◌, ◌<◌, ◌≡◌, ◌≢◌, refl, sym, ap, ◌∙◌, ◌⊎◌, List, [], ◌∷◌, ◌++◌,
  append_assoc, append-nil, map, some, length, length-append, All, if◌then◌else◌, arith,
}
use embedded_project_pc.Protocol.{Outcome, ok, err, fault, hangs, Span}
use embedded_project_pc.Protocol.Tlv.{Tlv, decode_tlv}
use embedded_project_pc.Protocol.Tlv.Single.{tlv_bytes, length-tlv_bytes, decode_tlv-tlv_bytes}
use embedded_project_pc.Bridge.Server.Stream.{message_bytes, length-message_bytes, stream}
use embedded_project_pc.Log.{Stored, print_keep_alive, print_event_report}
use embedded_project_pc.Fleet.Telemetry.{tag_keep_alive, tag_event_report}
use embedded_project_pc.Lnc.{
  lnc_recv, Reception, keep_listening, handle_message, handle_payload, lnc_recv_loop,
  lnc_recv_message,
}
use embedded_project_pc.Lnc.Messages.{lnc_recv-message_bytes}
use embedded_project_pc.Lnc.Listening.{lnc_recv_loop-rounds}

-- A message of the link as a TLV, and how it is decoded.
abbrev pub tlv_of : ℕ → List ℕ → Tlv
tlv_of tag value = record {
  tag = tag;
  value = record { bytes = value ++ []; len = length value };
  consumed = 3 + length value;
}

message_decoded :
    (tag : ℕ) (value : List ℕ) (cap : ℕ)
    → 3 + length value ≤ cap
    → cap < 2 ^ 16
    → decode_tlv (record { bytes = tlv_bytes tag value; len = length (tlv_bytes tag value) })
      ≡ ok (tlv_of tag value)
message_decoded tag value cap fits small = ground (
  arith,
  append-nil (tlv_bytes tag value),
  length-tlv_bytes tag value,
  decode_tlv-tlv_bytes tag value [] (3 + length value),
)

-- One round, at a message that fits the buffer.
pub lnc_recv_message-message_bytes :
    (cap tag : ℕ) (value rest : List ℕ)
    → 3 + length value ≤ cap
    → cap < 2 ^ 16
    → lnc_recv_message cap (message_bytes (tlv_bytes tag value) ++ rest)
      ≡ handle_message (lnc_recv_message cap rest) rest (ok (tlv_of tag value))
unfolding lnc_recv_message lnc_recv_loop handle_payload tlv_bytes
lnc_recv_message-message_bytes cap tag value rest fits small =
    let bytes = message_bytes (tlv_bytes tag value) ++ rest in
    let long : length bytes ≡ suc (length rest) + (6 + length value) = omega (
      arith,
      length-append (message_bytes (tlv_bytes tag value)) rest,
      length-message_bytes (tlv_bytes tag value),
      length-tlv_bytes tag value,
    ) in
    let taken : lnc_recv cap bytes ≡ (tlv_bytes tag value, rest) =
      lnc_recv-message_bytes cap (tlv_bytes tag value) rest
        (omega (arith, fits, length-tlv_bytes tag value)) small in
    let next = lnc_recv_loop (length bytes) cap rest in
    let enough : next ≡ lnc_recv_loop (suc (length rest)) cap rest =
      ap (λ k. lnc_recv_loop k cap rest) long
      ∙ lnc_recv_loop-rounds (suc (length rest)) (6 + length value) cap rest (omega arith) in
    ap (handle_payload (λ rest'. lnc_recv_loop (length bytes) cap rest')) taken
    ∙ ap (handle_message next rest) (message_decoded tag value cap fits small)
    ∙ ap (λ r. handle_message r rest (ok (tlv_of tag value))) enough

-- A report: a message for the buffer of `cap` bytes with the tag of one, which is printed and leads
-- to the calls `stored` of the store.
pub record Report : Type 0 where
  pub tag : ℕ
  pub value : List ℕ
  pub stored : List Stored

abbrev pub print_report : ℕ → Span → Outcome (List Stored)
print_report tag value =
    if tag == tag_keep_alive then print_keep_alive value else print_event_report value

pub record IsReport (cap : ℕ) (r : Report) : Type 0 where
  pub tag_of_report : (r.tag ≡ tag_keep_alive) ⊎ (r.tag ≡ tag_event_report)
  pub fits : 3 + length r.value ≤ cap
  pub printed :
      print_report r.tag (record { bytes = r.value ++ []; len = length r.value }) ≡ ok r.stored

abbrev pub reports_bytes : List Report → List ℕ
reports_bytes reports = stream (map (λ (r : Report). tlv_bytes r.tag r.value) reports)

abbrev pub all_stored : List Report → List Stored
all_stored [] = []
all_stored (r ∷ reports) = r.stored ++ all_stored reports

keep_listening-append :
    (s t : List Stored) (following : Outcome Reception)
    → keep_listening (ok s) (keep_listening (ok t) following)
      ≡ keep_listening (ok (s ++ t)) following
unfolding keep_listening
keep_listening-append s t (ok r) = ground (arith, append_assoc s t r.stored)
keep_listening-append s t (err e) = refl
keep_listening-append s t fault = refl
keep_listening-append s t hangs = refl

keep_listening-nil : (following : Outcome Reception) → keep_listening (ok []) following ≡ following
unfolding keep_listening
keep_listening-nil (ok r) = refl
keep_listening-nil (err e) = refl
keep_listening-nil fault = refl
keep_listening-nil hangs = refl

handle_message-IsReport :
    (cap : ℕ) (r : Report) (rest : List ℕ) (following : Outcome Reception)
    → IsReport cap r
    → handle_message following rest (ok (tlv_of r.tag r.value))
      ≡ keep_listening (ok r.stored) following
unfolding handle_message
handle_message-IsReport cap r rest following h = ground (arith, h.tag_of_report, h.printed)

-- Any number of reports in front of what follows is stored, and nothing else changes.
pub lnc_recv_message-reports :
    (cap : ℕ) (reports : List Report) (rest : List ℕ)
    → All (IsReport cap) reports
    → cap < 2 ^ 16
    → lnc_recv_message cap (reports_bytes reports ++ rest)
      ≡ keep_listening (ok (all_stored reports)) (lnc_recv_message cap rest)
unfolding stream
lnc_recv_message-reports cap [] rest rs small = sym (keep_listening-nil (lnc_recv_message cap rest))
lnc_recv_message-reports cap (r ∷ reports) rest (h, hs) small =
    let bytes = message_bytes (tlv_bytes r.tag r.value) in
    let following = reports_bytes reports ++ rest in
    ap (lnc_recv_message cap) (append_assoc bytes (reports_bytes reports) rest)
    ∙ lnc_recv_message-message_bytes cap r.tag r.value following h.fits small
    ∙ handle_message-IsReport cap r following (lnc_recv_message cap following) h
    ∙ ap (keep_listening (ok r.stored)) (lnc_recv_message-reports cap reports rest hs small)
    ∙ keep_listening-append r.stored (all_stored reports) (lnc_recv_message cap rest)

-- Reports in front of a reply are stored in their order, each once, and the reply comes out with its
-- tag and its value; what follows it stays in the socket. Each message fits the caller's buffer, of
-- fewer than 65536 bytes, and each report can be printed.
pub lnc_recv_message-reply :
    (cap : ℕ) (reports : List Report) (tag : ℕ) (value rest : List ℕ)
    → All (IsReport cap) reports
    → cap < 2 ^ 16
    → tag ≢ tag_keep_alive
    → tag ≢ tag_event_report
    → 3 + length value ≤ cap
    → lnc_recv_message cap (reports_bytes reports ++ (message_bytes (tlv_bytes tag value) ++ rest))
      ≡ ok (record { stored = all_stored reports; reply = some (tlv_of tag value); rest = rest })
unfolding handle_message keep_listening
lnc_recv_message-reply cap reports tag value rest rs small keep event fits =
    lnc_recv_message-reports cap reports (message_bytes (tlv_bytes tag value) ++ rest) rs small
    ∙ ap (keep_listening (ok (all_stored reports)))
        (lnc_recv_message-message_bytes cap tag value rest fits small)
    ∙ ground (arith, append-nil (all_stored reports))
