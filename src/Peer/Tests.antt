-- ===== src/Peer/Tests.antt =====
-- Tests and concrete runs of the peer, over a serializer of two messages.
use mathlib.Core.Path.{subst}
use dh_kit.Kit.{
  take, drop, bytes_eq, ◌+◌, if◌then◌else◌, ℕ, ◌≡◌, refl, true, Option, none, some, List, [], ◌∷◌,
  ◌++◌, Bytes, arith, Result, ok, All,
}
use dh_kit.Json.{Json, Fields, null, num, str, obj, end, field, has}
use dh_kit.Codec.{
  json_rpc_codec, encode_rpc_body, encode_rpc_frame, decode_rpc_body, frame_header,
  content_type_for_codec, decimal, validate_bridge_max_frame_bytes, is_valid_bridge_max_frame_bytes,
}
use dh_kit.Peer.State.{
  Peer, new_peer, wrote, called, resolved, stranded, find_pending, delete_pending,
}
use dh_kit.Peer.Incoming.{
  Wire, returned, other_value, request_message, success_message, write_message, handle_response,
  answer_request,
}
use dh_kit.Peer.Ops.{
  Input, start, close, request, timer_fired, expire, run, step, send_request, receive_data,
}
use dh_kit.Peer.Reader.{front, whole_frame}
use dh_kit.Peer.Front.{front-frame}
use dh_kit.Peer.Stream.{receive_all, feed}
use dh_kit.Peer.Chunks.{feed_any_chunks}
use dh_kit.Peer.Accounting.{count_pending, count_settled, count_stranded}
use dh_kit.Peer.Conservation.{run-accounts}
use dh_kit.Peer.Exchange.{Decodes, FrameOf, send_request-called, answer_request-resolved}
use dh_kit.Peer.Lifecycle.{IsShut, IsClosingRejection, close-final, null_error-strands}

-- A request is written as the byte 1, any other message as the byte 2.
abbrev toy_encode : Json → Option Bytes
toy_encode (obj fields) = if has "method" fields then some (1 ∷ []) else some (2 ∷ [])
toy_encode _ = none

abbrev ping : Json
ping = request_message (num 1) "ping" none

abbrev pong : Json
pong = success_message (num 1) (some (str "pong"))

abbrev toy_decode : Bytes → Option Json
toy_decode body =
    if bytes_eq body (1 ∷ []) then some ping else if bytes_eq body (2 ∷ []) then some pong else none

abbrev toy_wire : Wire
toy_wire = record {
  serializer = record {
    json_encode = toy_encode;
    json_decode = toy_decode;
    msgpack_encode = λ m. none;
    msgpack_decode = λ limits body. none;
  };
  codec = json_rpc_codec;
  max_frame_bytes = 65536;
  text_of = λ o. "undefined";
  error_text = λ e. "failed";
}

abbrev framed : Bytes → Bytes
framed body = frame_header json_rpc_codec 1 ++ body

ping-FrameOf : FrameOf toy_wire ping (framed (1 ∷ []))
unfolding encode_rpc_frame encode_rpc_body validate_bridge_max_frame_bytes
    is_valid_bridge_max_frame_bytes
ping-FrameOf = refl

pong-FrameOf : FrameOf toy_wire pong (framed (2 ∷ []))
unfolding encode_rpc_frame encode_rpc_body validate_bridge_max_frame_bytes
    is_valid_bridge_max_frame_bytes
pong-FrameOf = refl

ok-eq : {E A : Type 0} {a b : A} → ◌≡◌ {A = Result E A} (ok a) (ok b) → a ≡ b
ok-eq e = cc

ping-Decodes : Decodes toy_wire ping
unfolding encode_rpc_body decode_rpc_body validate_bridge_max_frame_bytes
    is_valid_bridge_max_frame_bytes
ping-Decodes body e =
    subst (λ b. decode_rpc_body toy_wire.serializer json_rpc_codec b 65536 ≡ ok ping) (ok-eq e) refl

pong-Decodes : Decodes toy_wire pong
unfolding encode_rpc_body decode_rpc_body validate_bridge_max_frame_bytes
    is_valid_bridge_max_frame_bytes
pong-Decodes body e =
    subst (λ b. decode_rpc_body toy_wire.serializer json_rpc_codec b 65536 ≡ ok pong) (ok-eq e) refl

abbrev requests : List Input
requests = start ∷ request "ping" none 100 ∷ request "ping" none 100 ∷ timer_fired 1 ∷ []

-- Two requests, the first of which times out.
run-accounts_example :
    let (p, effects) = run toy_wire requests new_peer in
    count_pending 2 p.session.pending + (count_settled 2 effects + count_stranded 2 effects) ≡ 1
unfolding new_peer run step send_request write_message expire find_pending delete_pending
run-accounts_example = run-accounts toy_wire requests 2

abbrev listening : Peer
listening = record new_peer {
  session = record new_peer.session { started = true; request_handlers = "ping" ∷ [] };
}

abbrev stream : Bytes
stream = framed (1 ∷ []) ++ framed (1 ∷ [])

-- Two frames, cut inside the first header and inside the second.
feed_any_chunks_example :
    let chunks = take 20 stream ∷ take 100 (drop 20 stream) ∷ drop 120 stream ∷ [] in
    let (p', effects) = feed toy_wire chunks listening in
    let (s, expected) = receive_all toy_wire ((1 ∷ []) ∷ (1 ∷ []) ∷ []) listening.session in
    (p'.reader.read_buffer ≡ []) × (p'.session ≡ s) × (effects ≡ expected)
unfolding new_peer frame_header content_type_for_codec decimal
feed_any_chunks_example =
    feed_any_chunks toy_wire (take 20 stream ∷ take 100 (drop 20 stream) ∷ drop 120 stream ∷ [])
      ((1 ∷ []) ∷ (1 ∷ []) ∷ []) listening (omega arith) (omega arith, (omega arith, tt)) refl refl
      refl refl

send_request-called_example :
    ((send_request toy_wire "ping" none 100 new_peer.session).1 ≡ wrote (framed (1 ∷ [])) ∷ [])
    × ((receive_data toy_wire (framed (1 ∷ [])) listening).0.session ≡ listening.session)
    × ((receive_data toy_wire (framed (1 ∷ [])) listening).1 ≡ called (num 1) "ping" none ∷ [])
unfolding new_peer
send_request-called_example =
    send_request-called toy_wire "ping" none 100 new_peer.session listening (framed (1 ∷ []))
      ping-FrameOf ping-Decodes refl refl refl refl refl

abbrev calling : Peer
calling = record new_peer { session = record new_peer.session { started = true } }

answer_request-resolved_example :
    let waiting = record calling {
      session = (send_request toy_wire "ping" none 100 calling.session).0;
    } in
    (answer_request toy_wire listening.session
        (num 1)
        "ping"
        (returned (some (str "pong")))
        none
        none
      ≡ wrote (framed (2 ∷ [])) ∷ [])
    × ((receive_data toy_wire (framed (2 ∷ [])) waiting).1 ≡ resolved 1 (some (str "pong")) ∷ [])
    × ((receive_data toy_wire (framed (2 ∷ [])) waiting).0.session.pending ≡ [])
unfolding new_peer find_pending
answer_request-resolved_example =
    answer_request-resolved toy_wire "ping" none 100 calling listening.session (str "pong")
      (framed (1 ∷ [])) (framed (2 ∷ [])) ping-FrameOf pong-FrameOf pong-Decodes refl refl refl refl

-- A peer that waits for the answers to two requests.
abbrev waiting_peer : Peer
waiting_peer =
    (run toy_wire (start ∷ request "ping" none 100 ∷ request "pong" none 100 ∷ []) new_peer).0

close-final_example :
    let (p', effects) = step toy_wire close waiting_peer in
    let later = (run toy_wire (request "ping" none 100 ∷ []) p').0.session in
    All IsClosingRejection effects
    × ((i : ℕ) → count_settled i effects ≡ count_pending i waiting_peer.session.pending)
    × IsShut later
    × (later.next_request_id ≡ waiting_peer.session.next_request_id)
unfolding new_peer run step send_request
close-final_example = close-final toy_wire waiting_peer (request "ping" none 100 ∷ []) refl

abbrev null_answer : Fields
null_answer = field "jsonrpc" (str "2.0") (field "id" (num 1) (field "error" null end))

null_error-strands_example :
    let (s, effects) = handle_response null_answer waiting_peer.session in
    (effects ≡ stranded 1 ∷ [])
    × (count_settled 1 (run toy_wire (timer_fired 1 ∷ []) (record waiting_peer { session = s })).1
        ≡ 0)
unfolding new_peer run step send_request find_pending
null_error-strands_example =
    null_error-strands toy_wire null_answer waiting_peer 1
      (record { id = 1; method = "ping"; timeout_ms = 100 }) (timer_fired 1 ∷ []) refl refl refl
      refl (omega arith)

-- Where the handler of a request has returned, its answer is written, and the after-response handler
-- then throws, the one request is answered twice: by its result, and by an error.
answered_twice :
    answer_request toy_wire
      (record new_peer.session { after_response_handlers = "ping" ∷ [] })
      (num 1)
      "ping"
      (returned (some (str "pong")))
      none
      (some other_value)
    ≡ wrote (framed (2 ∷ [])) ∷ wrote (framed (2 ∷ [])) ∷ []
unfolding answer_request write_message encode_rpc_frame encode_rpc_body
    validate_bridge_max_frame_bytes is_valid_bridge_max_frame_bytes
answered_twice = refl

front-frame_example :
    front 65536 (framed (1 ∷ []) ++ (7 ∷ 8 ∷ [])) ≡ whole_frame (1 ∷ []) (7 ∷ 8 ∷ [])
front-frame_example =
    front-frame json_rpc_codec 65536 (omega arith) (1 ∷ []) (omega arith) (7 ∷ 8 ∷ [])
