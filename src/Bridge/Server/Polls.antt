-- ===== src/Bridge/Server/Polls.antt =====
-- bridge_server.cpp: BridgeServer_TryRecv called again and again, as main.cpp does, while the
-- kernel hands over the client's bytes in pieces of any size.
use Prim.Native.Nat.{min}
use embedded_project_pc.Common.{
  ℕ, zero, suc, ◌+◌, ◌-◌, ◌≤◌, ◌<◌, ◌≡◌, ◌≢◌, refl, ap, List, [], ◌∷◌, ◌++◌, append_assoc,
  append-nil, some, length, length-append, append-eq-nil, length-take, length-drop, take, drop,
  take-append-drop, ltb, arith, All, Bool-cases, ltb_false→le, ltb→lt, inl, inr, ◌∙◌, sym, ◌⊎◌,
}
use embedded_project_pc.Bridge.Server.{
  Server, RecvCall, arrived, shut_down, nothing, recv_buf_size, try_recv, received, next_frame,
}
use embedded_project_pc.Bridge.Server.Wedge.{IsSound, Obeys, try_recv-Keeps}
use embedded_project_pc.Bridge.Server.Stream.{
  stream, message_bytes, length-message_bytes, after_recv, Delivers, try_recv-Delivers,
}

-- The buffer of main.cpp.
abbrev pub max_payload : ℕ
max_payload = 256

offer : List ℕ → RecvCall
offer [] = nothing
offer (b ∷ bs) = arrived (b ∷ bs)

-- At most `k` bytes, and no more than recv() is asked for.
granted : ℕ → Server → ℕ
granted k s = min k (recv_buf_size - length s.recv_buf)

pub poll : ℕ → Server → List ℕ → Server × List ℕ
unfolding granted
poll k s pending = try_recv max_payload (offer (take (granted k s) pending)) s

-- A return value of 0 is no message.
keep : List ℕ → List (List ℕ) → List (List ℕ)
keep [] ms = ms
keep (b ∷ m) ms = (b ∷ m) ∷ ms

-- The messages returned by the polls, one for each number.
pub poll_all : List ℕ → Server → List ℕ → List (List ℕ)
poll_all [] s pending = []
poll_all (k ∷ ks) s pending =
    let (s', out) = poll k s pending in keep out (poll_all ks s' (drop (granted k s) pending))

-- A payload that the buffers of the bridge hold: 1 to 256 bytes.
abbrev pub IsPayload : List ℕ → Type 0
IsPayload m = (0 < length m) × (length m ≤ max_payload)

-- A client is connected, the server's buffer is within its array, and the bytes in it with those
-- that are still to come are the stream of the messages, all of them payloads of 1 to 256 bytes.
pub record Holds (s : Server) (pending : List ℕ) (ms : List (List ℕ)) : Type 0 where
  pub sound : IsSound s
  pub connected : (fd : ℕ) × (s.client_fd ≡ some fd)
  pub bytes : s.recv_buf ++ pending ≡ stream ms
  pub payloads : All IsPayload ms

after_recv-offer : (chunk buf : List ℕ) → after_recv (offer chunk) buf ≡ buf ++ chunk
unfolding offer
after_recv-offer [] buf = sym (append-nil buf)
after_recv-offer (b ∷ chunk) buf = refl

offer_live : (chunk : List ℕ) → offer chunk ≢ shut_down
unfolding offer
offer_live [] = λ e. cc
offer_live (b ∷ chunk) = λ e. cc

offer_room :
    (k : ℕ) (s : Server) (pending : List ℕ)
    → (length s.recv_buf < recv_buf_size) ⊎ (offer (take (granted k s) pending) ≡ nothing)
unfolding offer granted
offer_room k s pending = elim (Bool-cases (ltb (length s.recv_buf) recv_buf_size)) [
  | inl room ↦ inl (ltb→lt (length s.recv_buf) recv_buf_size room)
  | inr full ↦
      let nothing_asked : min k (recv_buf_size - length s.recv_buf) ≡ 0 =
        omega (arith, ltb_false→le (length s.recv_buf) recv_buf_size full) in
      inr (rw nothing_asked)
]

offer-Obeys :
    (chunk : List ℕ) (s : Server)
    → length s.recv_buf + length chunk ≤ recv_buf_size
    → Obeys s (offer chunk)
unfolding offer
offer-Obeys [] s h = tt
offer-Obeys (b ∷ chunk) s h = h

granted_fits :
    (k : ℕ) (s : Server) (pending : List ℕ)
    → IsSound s
    → length s.recv_buf + length (take (granted k s) pending) ≤ recv_buf_size
unfolding granted
granted_fits k s pending v = omega (arith, v.sized, length-take (granted k s) pending)

poll-IsSound : (k : ℕ) (s : Server) (pending : List ℕ) → IsSound s → IsSound (poll k s pending).0
unfolding poll
poll-IsSound k s pending v =
    (try_recv-Keeps max_payload (offer (take (granted k s) pending)) s (omega arith) v
      (offer-Obeys (take (granted k s) pending) s (granted_fits k s pending v))).0

-- One poll of a stream with a next message.
poll-Delivers :
    (k : ℕ) (s : Server) (pending m : List ℕ) (ms : List (List ℕ))
    → Holds s pending (m ∷ ms)
    → Delivers s.client_fd m
        (s.recv_buf ++ take (granted k s) pending)
        (drop (granted k s) pending)
        (stream ms)
        (poll k s pending)
unfolding poll stream
poll-Delivers k s pending m ms h =
    let chunk = take (granted k s) pending in
    let unread = drop (granted k s) pending in
    let split : after_recv (offer chunk) s.recv_buf ++ unread ≡ message_bytes m ++ stream ms =
      ap (λ (l : List ℕ). l ++ unread) (after_recv-offer chunk s.recv_buf)
      ∙ append_assoc s.recv_buf chunk unread
      ∙ ap (λ (l : List ℕ). s.recv_buf ++ l) (take-append-drop (granted k s) pending)
      ∙ h.bytes in
    let sized : length (after_recv (offer chunk) s.recv_buf) ≤ recv_buf_size =
      rw (after_recv-offer chunk s.recv_buf)
        (omega (arith, granted_fits k s pending h.sound, length-append s.recv_buf chunk)) in
    rw (after_recv-offer chunk s.recv_buf) at (
      try_recv-Delivers max_payload (offer chunk) s h.connected.0 m unread (stream ms) h.connected.1
        (offer_live chunk) (offer_room k s pending) (omega (arith, h.payloads.0))
        (omega (arith, h.payloads.0)) sized split)

-- A client that sends nothing gets nothing.
nothing_left : (n : ℕ) → take {A = ℕ} n [] ≡ []
nothing_left zero = refl
nothing_left (suc n) = refl

poll_idle :
    (k : ℕ) (s : Server) (pending : List ℕ) → Holds s pending [] → poll k s pending ≡ (s, [])
unfolding poll stream try_recv received next_frame offer
poll_idle k s pending h =
    let (no_buf, no_pending) = append-eq-nil s.recv_buf pending h.bytes in
    let no_chunk : take (granted k s) pending ≡ [] =
      ap (take (granted k s)) no_pending ∙ nothing_left (granted k s) in
    rw no_chunk (ground (arith, no_buf, h.connected.1))

-- Where a poll leaves a message incomplete, it took a byte at least.
poll_progress :
    (k : ℕ) (s : Server) (pending m : List ℕ) (ms : List (List ℕ))
    → Holds s pending (m ∷ ms)
    → 0 < k
    → length (s.recv_buf ++ take (granted k s) pending) < 4 + length m
    → length (drop (granted k s) pending) < length pending
unfolding granted stream
poll_progress k s pending m ms h pos few = omega (
  arith,
  length-append s.recv_buf (take (granted k s) pending),
  length-append s.recv_buf pending,
  length-append (message_bytes m) (stream ms),
  length-message_bytes m,
  length-take (granted k s) pending,
  length-drop (granted k s) pending,
  ap length h.bytes,
  h.payloads.0,
)

drop_idle :
    (k : ℕ) (s : Server) (pending : List ℕ)
    → Holds s pending []
    → Holds s (drop (granted k s) pending) []
unfolding stream
drop_idle k s pending h =
    let (no_buf, no_pending) = append-eq-nil s.recv_buf pending h.bytes in
    record {
      sound = h.sound;
      connected = h.connected;
      bytes =
          ap (λ (l : List ℕ). l ++ drop (granted k s) pending) no_buf
          ∙ ap (drop (granted k s)) no_pending
          ∙ nothing_dropped (granted k s);
      payloads = tt;
    }
  where
    nothing_dropped : (n : ℕ) → drop {A = ℕ} n [] ≡ []
    nothing_dropped zero = refl
    nothing_dropped (suc n) = refl

keep_message : (m : List ℕ) (ms : List (List ℕ)) → 0 < length m → keep m ms ≡ m ∷ ms
unfolding keep
keep_message [] ms h = absurd (omega arith)
keep_message (b ∷ m) ms h = refl

-- What is left of a stream after the polls, next to the messages that they returned.
abbrev Leaves : List ℕ → List ℕ → List (List ℕ) → List (List ℕ) → Type 0
Leaves ks pending ms out =
    (rest : List (List ℕ)) × (ms ≡ out ++ rest)
    × (All (λ k. 0 < k) ks → length pending + length ms ≤ length ks → rest ≡ [])

poll_all-Leaves :
    (ks : List ℕ) (s : Server) (pending : List ℕ) (ms : List (List ℕ))
    → Holds s pending ms
    → Leaves ks pending ms (poll_all ks s pending)
unfolding poll_all keep
poll_all-Leaves [] s pending [] h = ([], refl, λ _ _. refl)
poll_all-Leaves [] s pending (m ∷ ms) h = (m ∷ ms, refl, λ _ few. absurd (omega arith))
poll_all-Leaves (k ∷ ks) s pending [] h =
    let (rest, e, _) =
      poll_all-Leaves ks s (drop (granted k s) pending) [] (drop_idle k s pending h) in
    rw (poll_idle k s pending h) (rest, e, λ _ _. (append-eq-nil _ rest (sym e)).1)
poll_all-Leaves (k ∷ ks) s pending (m ∷ ms) h =
    let unread = drop (granted k s) pending in
    let s' = (poll k s pending).0 in
    elim (poll-Delivers k s pending m ms h) [
      | inl (full, got, left, fd) ↦
          let (rest, e, ends) = poll_all-Leaves ks s' unread ms (record {
            sound = poll-IsSound k s pending h.sound;
            connected = (h.connected.0, fd ∙ h.connected.1);
            bytes = left;
            payloads = h.payloads.1;
          }) in
          let kept : keep (poll k s pending).1 (poll_all ks s' unread) ≡ m ∷ poll_all ks s' unread =
            ap (λ (o : List ℕ). keep o (poll_all ks s' unread)) got
            ∙ keep_message m _ h.payloads.0.0 in
          (
            rest,
            ap (λ (l : List (List ℕ)). m ∷ l) e ∙ ap (λ (l : List (List ℕ)). l ++ rest) (sym kept),
            λ pos few. ends pos.1 (omega (arith, length-drop (granted k s) pending)),
          )
      | inr (few, none_yet, kept_bytes, fd) ↦
          let (rest, e, ends) = poll_all-Leaves ks s' unread (m ∷ ms) (record {
            sound = poll-IsSound k s pending h.sound;
            connected = (h.connected.0, fd ∙ h.connected.1);
            bytes =
                ap (λ (l : List ℕ). l ++ unread) kept_bytes
                ∙ append_assoc s.recv_buf (take (granted k s) pending) unread
                ∙ ap (λ (l : List ℕ). s.recv_buf ++ l) (take-append-drop (granted k s) pending)
                ∙ h.bytes;
            payloads = h.payloads;
          }) in
          (
            rest,
            e ∙ ap (λ (o : List ℕ). keep o (poll_all ks s' unread) ++ rest) (sym none_yet),
            λ pos n. ends pos.1 (omega (arith, poll_progress k s pending m ms h pos.0 few)),
          )
    ]

-- However the kernel cuts the client's byte stream of payloads of 1 to 256 bytes into pieces, the
-- polls return its messages whole, in order, without loss or addition: what they returned is the
-- front part of the messages.
pub poll_all-prefix :
    (ks : List ℕ) (s : Server) (pending : List ℕ) (ms : List (List ℕ))
    → Holds s pending ms
    → (rest : List (List ℕ)) × (ms ≡ poll_all ks s pending ++ rest)
poll_all-prefix ks s pending ms h =
    let (rest, e, _) = poll_all-Leaves ks s pending ms h in (rest, e)

-- A client is connected, the server's buffer is within its 512-byte array, and the bytes in it with
-- those that are still to come are the stream of some messages, each with a payload of 1 to 256
-- bytes. Each poll's recv() may take a byte at least, and hands over as many as are there, up to that
-- number and the room in the array; the client does not shut the link down. Then as many polls as
-- there are bytes to come and messages outstanding return all these messages, whole and in order.
pub poll_all_delivers :
    (ks : List ℕ) (s : Server) (pending : List ℕ) (ms : List (List ℕ))
    → Holds s pending ms
    → All (λ k. 0 < k) ks
    → length pending + length ms ≤ length ks
    → poll_all ks s pending ≡ ms
poll_all_delivers ks s pending ms h pos enough =
    let (rest, e, ends) = poll_all-Leaves ks s pending ms h in
    sym (
      e
      ∙ ap (λ (l : List (List ℕ)). poll_all ks s pending ++ l) (ends pos enough)
      ∙ append-nil (poll_all ks s pending))
