-- ===== src/Ground/Session/Served.antt =====
-- comm_gs.cpp: a ground station that greets is served with the answers to all its requests.
use embedded_project_pc.Common.{
  ℕ, zero, suc, ◌+◌, ◌≤◌, ◌<◌, ◌≡◌, refl, sym, ap, ◌∙◌, List, [], ◌∷◌, ◌++◌, append_assoc,
  append-nil, true, false, some, length, length-append, take, drop, take-append, drop-append, All,
  arith,
}
use embedded_project_pc.Common.Text.{same}
use embedded_project_pc.Protocol.{ok, ◌>>=◌}
use embedded_project_pc.Protocol.Bytes.{put_u32, get_u32, join_u32, get_u32-put_u32, length-put_u32}
use embedded_project_pc.Protocol.Tlv.Single.{tlv_bytes, length-tlv_bytes}
use embedded_project_pc.Protocol.Tlv.Fields.{fields_bytes}
use embedded_project_pc.Ground.Records.{Measurement, Event}
use embedded_project_pc.Ground.Requests.{RangeRequest, request_fields}
use embedded_project_pc.Ground.Replies.{
  dispatch, dispatch_received, gs_recv_request, gs_link_dispatch,
}
use embedded_project_pc.Ground.Queries.Exchange.{message_of, message_received}
use embedded_project_pc.Ground.Queries.EndToEnd.{request_bytes, length-request_fields}
use embedded_project_pc.Ground.Session.{
  handshake_greeting, handshake_matches, handshake_reply, greeting_message, recv_text, c_string,
  serve_requests, greet, serve_client,
}

-- A request that the ground station sends, and the bytes that the central computer answers with.
pub record Request : Type 0 where
  pub tag : ℕ
  pub submarine_id : List ℕ
  pub start : ℕ
  pub end : ℕ
  pub answer : List ℕ

abbrev pub bytes_of : Request → List ℕ
bytes_of r = request_bytes r.tag r.submarine_id r.start r.end

abbrev pub requests_bytes : List Request → List ℕ
requests_bytes [] = []
requests_bytes (r ∷ rs) = bytes_of r ++ requests_bytes rs

abbrev pub answers : List Request → List ℕ
answers [] = []
answers (r ∷ rs) = r.answer ++ answers rs

abbrev value_of : Request → List ℕ
value_of r = fields_bytes (request_fields r.submarine_id r.start r.end)

drop_prefix : (n : ℕ) (xs : List ℕ) → drop 4 (put_u32 n ++ xs) ≡ xs
unfolding put_u32
drop_prefix n xs = refl

-- A message in front of other bytes: its prefix, itself, and what is behind it.
abbrev framed : ℕ → List ℕ → List ℕ → List ℕ
framed tag value rest = (put_u32 (3 + length value) ++ tlv_bytes tag value) ++ rest

framed_assoc :
    (tag : ℕ) (value rest : List ℕ)
    → framed tag value rest ≡ put_u32 (3 + length value) ++ (tlv_bytes tag value ++ rest)
framed_assoc tag value rest = append_assoc (put_u32 (3 + length value)) (tlv_bytes tag value) rest

prefix_of :
    (tag : ℕ) (value rest : List ℕ)
    → length value ≤ 125
    → get_u32 (framed tag value rest) ≡ ok (3 + length value)
prefix_of tag value rest h =
    ap get_u32 (framed_assoc tag value rest)
    ∙ get_u32-put_u32 (3 + length value) (tlv_bytes tag value ++ rest) (omega arith)

behind_prefix :
    (tag : ℕ) (value rest : List ℕ) → drop 4 (framed tag value rest) ≡ tlv_bytes tag value ++ rest
behind_prefix tag value rest =
    ap (drop 4) (framed_assoc tag value rest)
    ∙ drop_prefix (3 + length value) (tlv_bytes tag value ++ rest)

behind_message :
    (tag : ℕ) (value rest : List ℕ)
    → drop (3 + length value) (drop 4 (framed tag value rest)) ≡ rest
behind_message tag value rest = ground (
  arith,
  behind_prefix tag value rest,
  length-tlv_bytes tag value,
  drop-append (tlv_bytes tag value) rest,
)

length-framed :
    (tag : ℕ) (value rest : List ℕ)
    → length (framed tag value rest) ≡ 7 + length value + length rest
length-framed tag value rest = omega (
  arith,
  length-append (put_u32 (3 + length value) ++ tlv_bytes tag value) rest,
  length-append (put_u32 (3 + length value)) (tlv_bytes tag value),
  length-put_u32 (3 + length value),
  length-tlv_bytes tag value,
)

gs_recv_request-framed :
    (tag : ℕ) (value rest : List ℕ)
    → length value ≤ 125
    → gs_recv_request 512 (framed tag value rest) ≡ ok (message_of tag value)
unfolding gs_recv_request
gs_recv_request-framed tag value rest h =
    let whole : take (3 + length value) (tlv_bytes tag value ++ rest) ≡ tlv_bytes tag value =
      ap (λ k. take k (tlv_bytes tag value ++ rest)) (sym (length-tlv_bytes tag value))
      ∙ take-append (tlv_bytes tag value) rest in
    let same_whole : take (3 + length value) (tlv_bytes tag value) ≡ tlv_bytes tag value =
      ap (take (3 + length value)) (sym (append-nil (tlv_bytes tag value)))
      ∙ ap (λ k. take k (tlv_bytes tag value ++ [])) (sym (length-tlv_bytes tag value))
      ∙ take-append (tlv_bytes tag value) [] in
    ground (
      arith,
      length-framed tag value rest,
      prefix_of tag value rest h,
      behind_prefix tag value rest,
      whole,
      same_whole,
      message_received tag value (omega arith),
    )

module _ (measurements : RangeRequest → List Measurement) (events : RangeRequest → List Event) where
  -- The handlers answer the request with these bytes.
  pub record IsAnswered (r : Request) : Type 0 where
    pub short_id : length r.submarine_id ≤ 63
    pub answered : dispatch measurements events (message_of r.tag (value_of r)) ≡ ok r.answer

  small_value : (r : Request) → IsAnswered r → length (value_of r) ≤ 125
  small_value r h = omega (arith, length-request_fields r.submarine_id r.start r.end, h.short_id)

  serve_requests-answers :
      (rounds : ℕ) (rs : List Request)
      → All IsAnswered rs
      → length rs < rounds
      → serve_requests measurements events rounds (requests_bytes rs) ≡ ok (answers rs)
  unfolding serve_requests gs_link_dispatch dispatch_received gs_recv_request
  serve_requests-answers zero rs hs k = absurd (omega arith)
  serve_requests-answers (suc rounds) [] hs k = refl
  serve_requests-answers (suc rounds) (r ∷ rs) (h, hs) k =
      let rest = requests_bytes rs in
      let value = value_of r in
      let dispatched : gs_link_dispatch measurements events (bytes_of r ++ rest)
          ≡ ok (some r.answer) =
        ap (dispatch_received measurements events)
          (gs_recv_request-framed r.tag value rest (small_value r h))
        ∙ ap (λ o. o >>= λ sent. ok (some sent)) h.answered in
      rw
        (
          dispatched,
          prefix_of r.tag value rest (small_value r h),
          behind_message r.tag value rest,
          serve_requests-answers rounds rs hs (omega arith),
        )
        refl

  length-requests_bytes : (rs : List Request) → length rs ≤ length (requests_bytes rs)
  length-requests_bytes [] = omega arith
  length-requests_bytes (r ∷ rs) =
      omega (arith, length-framed r.tag (value_of r) (requests_bytes rs), length-requests_bytes rs)

  greeting_received :
      (rest : List ℕ) → recv_text (greeting_message ++ rest) ≡ ok (some (handshake_greeting, rest))
  unfolding recv_text greeting_message get_u32 join_u32
  greeting_received rest = ground arith

  -- A ground station that sends its greeting and then any requests is sent the reply to the greeting,
  -- and then the answers to all its requests in their order, until it disconnects. Each request is
  -- for an id of at most 63 bytes, and is one that the handlers answer.
  pub serve_client-answers :
      (rs : List Request)
      → All IsAnswered rs
      → serve_client measurements events (greeting_message ++ requests_bytes rs)
        ≡ ok ((put_u32 (length handshake_reply) ++ handshake_reply) ++ answers rs)
  unfolding serve_client greet c_string same
  serve_client-answers rs hs =
      rw
        (
          greeting_received (requests_bytes rs),
          serve_requests-answers (suc (length (requests_bytes rs))) rs hs
              (omega (arith, length-requests_bytes rs)),
        )
        refl

  -- Any other greeting that fits the buffer is sent the reply all the same, and nothing more.
  pub serve_client-stranger :
      (greeting rest : List ℕ)
      → length greeting < 64
      → same (c_string greeting) handshake_greeting ≡ false
      → serve_client measurements events ((put_u32 (length greeting) ++ greeting) ++ rest)
        ≡ ok (put_u32 (length handshake_reply) ++ handshake_reply)
  unfolding serve_client greet recv_text
  serve_client-stranger greeting rest h other =
      let n = length greeting in
      let assoc = append_assoc (put_u32 n) greeting rest in
      ground (
        arith,
        other,
        assoc,
        get_u32-put_u32 n (greeting ++ rest) (omega arith),
        drop_prefix n (greeting ++ rest),
        length-append (put_u32 n) (greeting ++ rest),
        length-append greeting rest,
        length-put_u32 n,
        take-append greeting rest,
        drop-append greeting rest,
      )

-- The reply to the greeting is what the ground station waits for, and it goes on with its queries.
pub handshake_matches-reply :
    (rest : List ℕ)
    → (recv_text ((put_u32 (length handshake_reply) ++ handshake_reply) ++ rest) >>= λ r.
        ok (handshake_matches r))
      ≡ ok true
unfolding recv_text handshake_matches c_string same put_u32 get_u32 join_u32
handshake_matches-reply rest = ground arith
