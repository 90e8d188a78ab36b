-- ===== src/Peer/Ops.antt =====
-- The operations of the peer and the events of its streams and timers. A run is a sequence of such
-- inputs; each is handled to its end before the next. So a handler that calls the peer while the frames
-- of its chunk are still being taken out is not covered: its calls come after the chunk here. After an
-- effect `stranded` a run goes on, where the source has an unhandled rejection.
use Prim.Native.String.{String}
use dh_kit.Kit.{
  ℕ, suc, ◌+◌, Bool, true, Option, none, some, List, [], ◌∷◌, ◌++◌, Bytes, length, is_empty,
  if◌then◌else◌, not, ◌&&◌,
}
use dh_kit.Json.{Json, num}
use dh_kit.Peer.State.{
  closed_kind, timeout_kind, protocol_kind, input_failed, truncated_frame, input_ended,
  peer_is_closed, peer_was_closed, timed_out, write_failed_for, Effect, rejected, refused,
  protocol_error, Session, Reader, Peer, plain_error, find_pending, delete_pending,
  fail_all_pending, handle_protocol_error,
}
use dh_kit.Peer.Incoming.{
  Wire, Throwable, Outcome, request_message, notification_message, write_message, answer_request,
  finish_notification,
}
use dh_kit.Peer.Reader.{drain_frames}

pub data Input : Type 0 where
  start : Input
  on_request on_notification on_after_response : String → Input
  -- `request(method, params, timeoutMs)`, `notify(method, params)` and `close()`.
  request : String → Option Json → ℕ → Input
  notify : String → Option Json → Input
  close : Input
  -- Events of the input stream, of a request's timer, and of the write of a request's frame.
  data_received : Bytes → Input
  input_error : String → Input
  input_end : Input
  timer_fired : ℕ → Input
  write_failed : ℕ → String → Input
  -- A handler of a request or a notification has ended.
  request_handled : Json → String → Outcome → Option String → Option Throwable → Input
  notification_handled : Option Throwable → Input

-- `setTimeout`'s callback and the `catch` of the write: both need the entry to be there still. A
-- settled request's timer is cleared.
unfoldable pub expire : ℕ → Session → Session × List Effect
expire id s = elim (find_pending id s.pending) [
  | none ↦ (s, [])
  | some r ↦ (
    record s { pending = delete_pending id s.pending },
    rejected id (plain_error timeout_kind (some r.method) (timed_out r.method r.timeout_ms)) ∷ [],
  )
]

unfoldable pub fail_write : ℕ → String → Session → Session × List Effect
fail_write id detail s = elim (find_pending id s.pending) [
  | none ↦ (s, [])
  | some r ↦ (
    record s { pending = delete_pending id s.pending },
    rejected id (plain_error closed_kind (some r.method) (write_failed_for r.method detail)) ∷ [],
  )
]

abbrev pub unread : Reader → Bool
unread reader = elim reader.expected_frame_length [
  | some size ↦ true
  | none ↦ not (is_empty reader.read_buffer)
]

abbrev pub close_input : Reader → Session × List Effect → Peer × List Effect
close_input reader (s, before) =
    let (s', after) = fail_all_pending (plain_error closed_kind none input_ended) s in
    (record { reader = reader; session = s' }, before ++ after)

-- The input stream ends: what is left of a frame is an error, and every request is rejected.
unfoldable pub end_input : Peer → Peer × List Effect
end_input p =
    if unread p.reader
    then close_input (record { read_buffer = []; expected_frame_length = none })
        (handle_protocol_error truncated_frame p.session)
    else close_input p.reader (p.session, [])

abbrev pub with_session : Peer → Session × List Effect → Peer × List Effect
with_session p (s, effects) = (record p { session = s }, effects)

unfoldable pub close_peer : Session → Session × List Effect
close_peer s =
    if s.closed
    then (s, [])
    else fail_all_pending (plain_error closed_kind none peer_was_closed)
        (record s { closed = true })

unfoldable pub fail_input : String → Session → Session × List Effect
fail_input detail s =
    let (s', effects) = fail_all_pending (plain_error protocol_kind none (input_failed detail)) s in
    (s', effects ++ (protocol_error (input_failed detail) ∷ []))

module _ (wire : Wire) where
  -- The entry stands in `pending` before the frame is written. A frame that cannot be built or
  -- written comes back as `write_failed`.
  unfoldable pub send_request : String → Option Json → ℕ → Session → Session × List Effect
  send_request method params timeout_ms s =
      if s.closed
      then (s, refused (plain_error closed_kind (some method) peer_is_closed) ∷ [])
      else let id = s.next_request_id in
        (
          record s {
            next_request_id = id + 1;
            pending =
                s.pending ++ (record { id = id; method = method; timeout_ms = timeout_ms } ∷ []);
          },
          write_message wire (request_message (num id) method params),
        )

  unfoldable pub send_notification : String → Option Json → Session → Session × List Effect
  send_notification method params s =
      if s.closed
      then (s, refused (plain_error closed_kind (some method) peer_is_closed) ∷ [])
      else (s, write_message wire (notification_message method params))

  abbrev pub read_buffered : Bytes → Peer → Peer × List Effect
  read_buffered buffer p =
      let (reader, s, effects) =
        drain_frames wire (suc (length buffer)) (record p.reader { read_buffer = buffer })
          p.session in
      (record { reader = reader; session = s }, effects)

  -- The listener is there once the peer is started, and a closed peer reads nothing.
  unfoldable pub receive_data : Bytes → Peer → Peer × List Effect
  receive_data chunk p =
      if p.session.started && not p.session.closed
      then read_buffered (p.reader.read_buffer ++ chunk) p
      else (p, [])

  unfoldable pub step : Input → Peer → Peer × List Effect
  step start p = with_session p (record p.session { started = true }, [])
  step (on_request m) p =
      with_session p (record p.session { request_handlers = m ∷ p.session.request_handlers }, [])
  step (on_notification m) p =
      with_session p
        (record p.session { notification_handlers = m ∷ p.session.notification_handlers }, [])
  step (on_after_response m) p =
      with_session p
        (record p.session { after_response_handlers = m ∷ p.session.after_response_handlers }, [])
  step (request method params timeout_ms) p =
      with_session p (send_request method params timeout_ms p.session)
  step (notify method params) p = with_session p (send_notification method params p.session)
  step close p = with_session p (close_peer p.session)
  step (data_received chunk) p = receive_data chunk p
  step (input_error detail) p =
      if p.session.started then with_session p (fail_input detail p.session) else (p, [])
  step input_end p = if p.session.started then end_input p else (p, [])
  step (timer_fired id) p = with_session p (expire id p.session)
  step (write_failed id detail) p = with_session p (fail_write id detail p.session)
  step (request_handled id method outcome stream after) p =
      (p, answer_request wire p.session id method outcome stream after)
  step (notification_handled outcome) p = with_session p (finish_notification outcome p.session)

  unfoldable pub run : List Input → Peer → Peer × List Effect
  run [] p = (p, [])
  run (input ∷ inputs) p =
      let (p', before) = step input p in let (p'', after) = run inputs p' in (p'', before ++ after)
