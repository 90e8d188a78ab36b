-- ===== src/Peer/Conservation.antt =====
-- Each request number that was given out is, after any run, in exactly one place.
use Prim.Native.String.{String}
use dh_kit.Kit.{
  ◌∙◌, ℕ, zero, suc, ◌+◌, ◌≤◌, ◌≡◌, refl, true, Option, none, some, List, [], ◌∷◌, ◌++◌, Bytes,
  length, ltb, leb, if◌then◌else◌, ◌&&◌, not, arith, Result, ok, err, Bool-cases, inl, inr,
  Option-cases,
}
use dh_kit.Json.{Json, Fields, num, obj}
use dh_kit.Codec.{decode_rpc_body}
use dh_kit.Peer.State.{
  Effect, Session, Reader, Peer, find_pending, handle_protocol_error, malformed_message,
  undecodable, new_peer, truncated_frame,
}
use dh_kit.Peer.Incoming.{
  Wire, Throwable, Outcome, returned, threw, handle_message, handle_incoming, receive_body,
  answer_request, finish_notification, notification_message, request_message,
}
use dh_kit.Peer.Reader.{
  Front, no_header, bad_header, partial_frame, whole_frame, front, drain_frames,
}
use dh_kit.Peer.Ops.{
  Input, expire, fail_write, unread, end_input, close_peer, fail_input, send_request,
  send_notification, receive_data, step, run, start, on_request, on_notification, on_after_response,
  request, notify, close, data_received, input_error, input_end, timer_fired, write_failed,
  request_handled, notification_handled,
}
use dh_kit.Peer.Accounting.{
  count_pending, count_out, count_settled, count_stranded, count_out-append, count_pending-append,
  Accounts, fail_all_pending-Accounts, handle_protocol_error-Accounts, take_out-Accounts,
  quiet-Accounts, handle_response-Accounts, write_message-quiet, handle_request-Accounts,
  handle_notification-Accounts,
}

then-Accounts :
    (i : ℕ) (s t u : Session) (es fs : List Effect)
    → Accounts i s (t, es)
    → Accounts i t (u, fs)
    → Accounts i s (u, es ++ fs)
then-Accounts i s t u es fs a b = record {
  same_next = b.same_next ∙ a.same_next;
  balanced = omega (arith, count_out-append i es fs, a.balanced, b.balanced);
}

module _ (wire : Wire) (i : ℕ) where
  answer_request-quiet :
      (s : Session) (id : Json) (m : String) (o : Outcome) (stream : Option String)
      (after : Option Throwable)
      → count_out i (answer_request wire s id m o stream after) ≡ 0
  unfolding answer_request
  answer_request-quiet s id m (returned r) stream after = ground (arith, count_out-append i)
  answer_request-quiet s id m (threw e) stream after = ground arith

  handle_message-Accounts : (f : Fields) (s : Session) → Accounts i s (handle_message wire f s)
  unfolding handle_message
  handle_message-Accounts f s = ground (
    arith,
    handle_response-Accounts i f s,
    handle_request-Accounts wire i f s,
    handle_notification-Accounts wire i f s,
  )

  handle_incoming-Accounts : (m : Json) (s : Session) → Accounts i s (handle_incoming wire m s)
  unfolding handle_incoming
  handle_incoming-Accounts (obj f) s =
      ground
        (arith, handle_message-Accounts f s, handle_protocol_error-Accounts i malformed_message s)
  handle_incoming-Accounts m s = handle_protocol_error-Accounts i malformed_message s

  receive_body-Accounts : (body : Bytes) (s : Session) → Accounts i s (receive_body wire body s)
  unfolding receive_body
  receive_body-Accounts body s =
      go (decode_rpc_body wire.serializer wire.codec body wire.max_frame_bytes) refl
    where
      go :
          (r : Result _ Json)
          → decode_rpc_body wire.serializer wire.codec body wire.max_frame_bytes ≡ r
          → Accounts i s (receive_body wire body s)
      go (ok m) e = rw (e, receive_body) (handle_incoming-Accounts m s)
      go (err x) e = rw (e, receive_body) (handle_protocol_error-Accounts i undecodable s)

  drain_frames-Accounts :
      (fuel : ℕ) (reader : Reader) (s : Session)
      → let (reader', s', es) = drain_frames wire fuel reader s in Accounts i s (s', es)
  unfolding drain_frames
  drain_frames-Accounts zero reader s = quiet-Accounts i s [] refl
  drain_frames-Accounts (suc fuel) reader s =
      go (λ r t. drain_frames-Accounts fuel r t) (front wire.max_frame_bytes reader.read_buffer)
        refl
    where
      go :
          ((r : Reader) (t : Session)
            → let (reader', s', es) = drain_frames wire fuel r t in Accounts i t (s', es))
          → (f : Front) → front wire.max_frame_bytes reader.read_buffer ≡ f
          → let (reader', s', es) = drain_frames wire (suc fuel) reader s in Accounts i s (s', es)
      go ih no_header e = rw (e, drain_frames) (quiet-Accounts i s [] refl)
      go ih (bad_header m) e = rw (e, drain_frames) (handle_protocol_error-Accounts i m s)
      go ih (partial_frame n) e = rw (e, drain_frames) (quiet-Accounts i s [] refl)
      go ih (whole_frame body rest) e =
          rw (e, drain_frames)
            (then-Accounts i s _ _ _ _ (receive_body-Accounts body s)
              (ih _ (receive_body wire body s).0))

  expire-Accounts : (id : ℕ) (s : Session) → Accounts i s (expire id s)
  expire-Accounts id s = elim (Option-cases (find_pending id s.pending)) [
    | inl missing ↦ unfold expire in rw (missing, expire) (quiet-Accounts i s [] refl)
    | inr (r, found) ↦
        unfold expire in rw (found, expire) (take_out-Accounts i id s r _ found (omega arith))
  ]

  fail_write-Accounts : (id : ℕ) (d : String) (s : Session) → Accounts i s (fail_write id d s)
  fail_write-Accounts id d s = elim (Option-cases (find_pending id s.pending)) [
    | inl missing ↦ unfold fail_write in rw (missing, fail_write) (quiet-Accounts i s [] refl)
    | inr (r, found) ↦
        unfold fail_write in
        rw (found, fail_write) (take_out-Accounts i id s r _ found (omega arith))
  ]

  end_input-Accounts : (p : Peer) → Accounts i p.session ((end_input p).0.session, (end_input p).1)
  unfolding end_input
  end_input-Accounts p = elim (Bool-cases (unread p.reader)) [
    | inl rest ↦ rw rest (
        then-Accounts i p.session _ _ _ _
          (handle_protocol_error-Accounts i truncated_frame p.session)
          (fail_all_pending-Accounts i _ (handle_protocol_error truncated_frame p.session).0))
    | inr done ↦ rw done (fail_all_pending-Accounts i _ p.session)
  ]

  close_peer-Accounts : (s : Session) → Accounts i s (close_peer s)
  unfolding close_peer
  close_peer-Accounts s = elim (Bool-cases s.closed) [
    | inl shut ↦ simp shut (quiet-Accounts i s [] refl)
    | inr live ↦ simp live (record {
      same_next = (fail_all_pending-Accounts i _ (record s { closed = true })).same_next;
      balanced = (fail_all_pending-Accounts i _ (record s { closed = true })).balanced;
    })
  ]

  fail_input-Accounts : (d : String) (s : Session) → Accounts i s (fail_input d s)
  unfolding fail_input
  fail_input-Accounts d s =
      then-Accounts i s _ _ _ _ (fail_all_pending-Accounts i _ s) (quiet-Accounts i _ _ refl)

  send_notification-Accounts :
      (m : String) (o : Option Json) (s : Session) → Accounts i s (send_notification wire m o s)
  unfolding send_notification
  send_notification-Accounts m o s =
      ground (arith, write_message-quiet wire i (notification_message m o))

  finish_notification-Accounts :
      (o : Option Throwable) (s : Session) → Accounts i s (finish_notification o s)
  unfolding finish_notification
  finish_notification-Accounts none s = quiet-Accounts i s [] refl
  finish_notification-Accounts (some e) s = handle_protocol_error-Accounts i _ s

-- 1 if the number was given out between two values of the counter.
abbrev pub issued : ℕ → ℕ → ℕ → ℕ
issued i before after = if leb before i && ltb i after then 1 else 0

pub record Balance (i : ℕ) (s : Session) (r : Session × List Effect) : Type 0 where
  pub grows : s.next_request_id ≤ r.0.next_request_id
  pub balance :
      count_pending i r.0.pending + count_out i r.1
      ≡ count_pending i s.pending + issued i s.next_request_id r.0.next_request_id

Accounts-Balance :
    (i : ℕ) (s : Session) (r : Session × List Effect) → Accounts i s r → Balance i s r
Accounts-Balance i s r a = record { grows = omega arith; balance = ground arith }

send_request-Balance :
    (wire : Wire) (i : ℕ) (m : String) (o : Option Json) (ms : ℕ) (s : Session)
    → Balance i s (send_request wire m o ms s)
unfolding send_request
send_request-Balance wire i m o ms s = elim (Bool-cases s.closed) [
  | inl shut ↦ simp shut (record { grows = omega arith; balance = ground arith })
  | inr live ↦ simp live (record {
    grows = omega arith;
    balance = ground (
      arith,
      write_message-quiet wire i (request_message (num s.next_request_id) m o),
      count_pending-append i s.pending
          (record { id = s.next_request_id; method = m; timeout_ms = ms } ∷ []),
    );
  })
]

module _ (wire : Wire) (i : ℕ) where
  receive_data-Accounts :
      (chunk : Bytes) (p : Peer)
      → Accounts i p.session ((receive_data wire chunk p).0.session, (receive_data wire chunk p).1)
  unfolding receive_data
  receive_data-Accounts chunk p = elim (Bool-cases (p.session.started && not p.session.closed)) [
    | inl open_ ↦ simp open_ (
        drain_frames-Accounts wire i (suc (length (p.reader.read_buffer ++ chunk)))
          (record p.reader { read_buffer = p.reader.read_buffer ++ chunk }) p.session)
    | inr shut ↦ simp shut (quiet-Accounts i p.session [] refl)
  ]

  same : (s : Session) (r : Session × List Effect) → Accounts i s r → Balance i s r
  same s r a = Accounts-Balance i s r a

  step-Balance :
      (input : Input) (p : Peer)
      → Balance i p.session ((step wire input p).0.session, (step wire input p).1)
  unfolding step
  step-Balance start p = record { grows = omega arith; balance = ground arith }
  step-Balance (on_request m) p = record { grows = omega arith; balance = ground arith }
  step-Balance (on_notification m) p = record { grows = omega arith; balance = ground arith }
  step-Balance (on_after_response m) p = record { grows = omega arith; balance = ground arith }
  step-Balance (request m o ms) p = send_request-Balance wire i m o ms p.session
  step-Balance (notify m o) p = same _ _ (send_notification-Accounts wire i m o p.session)
  step-Balance close p = same _ _ (close_peer-Accounts wire i p.session)
  step-Balance (data_received chunk) p = same _ _ (receive_data-Accounts chunk p)
  step-Balance (input_error d) p = elim (Bool-cases p.session.started) [
    | inl on ↦ simp on (same _ _ (fail_input-Accounts wire i d p.session))
    | inr off ↦ simp off (same _ _ (quiet-Accounts i p.session [] refl))
  ]
  step-Balance input_end p = elim (Bool-cases p.session.started) [
    | inl on ↦ simp on (same _ _ (end_input-Accounts wire i p))
    | inr off ↦ simp off (same _ _ (quiet-Accounts i p.session [] refl))
  ]
  step-Balance (timer_fired id) p = same _ _ (expire-Accounts wire i id p.session)
  step-Balance (write_failed id d) p = same _ _ (fail_write-Accounts wire i id d p.session)
  step-Balance (request_handled id m o stream after) p =
      same _ _
        (quiet-Accounts i p.session _ (answer_request-quiet wire i p.session id m o stream after))
  step-Balance (notification_handled o) p =
      same _ _ (finish_notification-Accounts wire i o p.session)

  pub run-Balance :
      (inputs : List Input) (p : Peer)
      → Balance i p.session ((run wire inputs p).0.session, (run wire inputs p).1)
  unfolding run
  run-Balance [] p = record { grows = omega arith; balance = ground arith }
  run-Balance (input ∷ inputs) p =
      let (p', before) = step wire input p in
      let a = step-Balance input p in
      let b = run-Balance inputs p' in
      record {
        grows = omega arith;
        balance = ground (arith, count_out-append i before (run wire inputs p').1);
      }

-- After any inputs to a new peer, a number from 1 on and below the counter is in exactly one of three
-- places, once: in `pending`, among the settled promises, or among the stranded ones. Any other number
-- is in none.
pub run-accounts :
    (wire : Wire) (inputs : List Input) (i : ℕ)
    → let (p, effects) = run wire inputs new_peer in
      count_pending i p.session.pending + (count_settled i effects + count_stranded i effects)
      ≡ (if leb 1 i && ltb i p.session.next_request_id then 1 else 0)
unfolding new_peer
run-accounts wire inputs i = (run-Balance wire i inputs new_peer).balance ∙ omega arith
