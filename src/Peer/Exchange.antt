-- ===== src/Peer/Exchange.antt =====
-- Two peers over one wire: a request is written by one, called at the other, and its answer settles it.
use Prim.Native.String.{String}
use dh_kit.Kit.{
  sym, ◌∙◌, ap, ℕ, ◌+◌, ◌≤◌, ◌≡◌, refl, true, false, Option, none, some, List, [], ◌∷◌, ◌++◌,
  append-nil, Bytes, length, arith, Result, ok, err,
}
use dh_kit.Json.{Json, num}
use dh_kit.Codec.{
  CodecError, max_safe_integer, encode_rpc_body, encode_rpc_frame, decode_rpc_body,
  validate_bridge_max_frame_bytes, is_valid_bridge_max_frame_bytes,
}
use dh_kit.Peer.State.{
  PendingRequest, resolved, wrote, called, Session, Peer, names_method, find_pending,
  delete_pending,
}
use dh_kit.Peer.Incoming.{
  Wire, returned, request_message, success_message, is_json_rpc_message, is_request, is_response,
  method_in, write_result, handle_response, settle, handle_request, handle_message, handle_incoming,
  receive_body, write_message, answer_request,
}
use dh_kit.Peer.Front.{frame}
use dh_kit.Peer.Ops.{send_request, receive_data}
use dh_kit.Peer.Chunks.{feed_any_chunks}

-- What is assumed of the serializer for one message: what it encodes to decodes to it.
abbrev pub Decodes : Wire → Json → Type 0
Decodes wire m =
    (body : Bytes)
    → encode_rpc_body wire.serializer wire.codec m ≡ ok body
    → decode_rpc_body wire.serializer wire.codec body wire.max_frame_bytes ≡ ok m

-- A frame that was built: its body fits, and the limit is valid.
record Built (wire : Wire) (m : Json) (f : Bytes) : Type 0 where
  body : Bytes
  encoded : encode_rpc_body wire.serializer wire.codec m ≡ ok body
  frame_eq : f ≡ frame wire.codec body
  fits : length body ≤ wire.max_frame_bytes
  safe : wire.max_frame_bytes ≤ max_safe_integer

abbrev pub FrameOf : Wire → Json → Bytes → Type 0
FrameOf wire m f = encode_rpc_frame wire.serializer wire.codec m wire.max_frame_bytes ≡ ok f

built : (wire : Wire) (m : Json) (f : Bytes) → FrameOf wire m f → Built wire m f
unfolding encode_rpc_frame validate_bridge_max_frame_bytes is_valid_bridge_max_frame_bytes
built wire m f e = go (encode_rpc_body wire.serializer wire.codec m) refl
  where
    go :
        (r : Result CodecError Bytes)
        → encode_rpc_body wire.serializer wire.codec m ≡ r
        → Built wire m f
    go (ok body) h =
        let e' = rw (h, encode_rpc_frame) at e in
        record {
          body = body;
          encoded = h;
          frame_eq = ground arith;
          fits = ground arith;
          safe = ground arith;
        }
    go (err x) h = let e' = rw (h, encode_rpc_frame) at e in ground arith

-- A frame that one side builds of a message makes the other side handle that message.
receive-frame :
    (wire : Wire) (m : Json) (f : Bytes) (p : Peer)
    → Decodes wire m
    → FrameOf wire m f
    → p.reader.read_buffer ≡ []
    → p.session.started ≡ true
    → p.session.closed ≡ false
    → let (p', effects) = receive_data wire f p in
      let (s, expected) = handle_incoming wire m p.session in
      (p'.reader.read_buffer ≡ []) × (p'.session ≡ s) × (effects ≡ expected)
unfolding receive_body
receive-frame wire m f p decodes e empty on live =
    let b = built wire m f e in
    let (still, kept, same) =
      feed_any_chunks wire (f ∷ []) (b.body ∷ []) p b.safe (b.fits, tt) empty on live
        (ap (λ l. l ++ []) b.frame_eq) in
    let handled : receive_body wire b.body p.session ≡ handle_incoming wire m p.session =
      rw (decodes b.body b.encoded, receive_body) refl in
    (
      still,
      kept ∙ ap (λ r. r.0) handled,
      sym (append-nil _) ∙ same ∙ append-nil _ ∙ ap (λ r. r.1) handled,
    )

handle_incoming-request :
    (wire : Wire) (id : ℕ) (method : String) (params : Option Json) (s : Session)
    → names_method s.request_handlers method ≡ true
    → handle_incoming wire (request_message (num id) method params) s
      ≡ (s, called (num id) method params ∷ [])
unfolding handle_incoming is_json_rpc_message handle_message is_response is_request handle_request
handle_incoming-request wire id method none s known = rw (known, handle_request, method_in)
handle_incoming-request wire id method (some v) s known = rw (known, handle_request, method_in)

handle_incoming-success :
    (wire : Wire) (id : ℕ) (value : Json) (s : Session) (r : PendingRequest)
    → find_pending id s.pending ≡ some r
    → handle_incoming wire (success_message (num id) (some value)) s
      ≡ (record s { pending = delete_pending r.id s.pending }, resolved r.id (some value) ∷ [])
unfolding handle_incoming is_json_rpc_message handle_message is_response is_request handle_response
    settle
handle_incoming-success wire id value s r found = rw (found, handle_response)

written_frame :
    (wire : Wire) (m : Json) (f : Bytes) → FrameOf wire m f → write_message wire m ≡ wrote f ∷ []
unfolding write_message
written_frame wire m f e = rw (e, write_message)

sent_request :
    (wire : Wire) (method : String) (params : Option Json) (timeout_ms : ℕ) (s : Session)
    (f : Bytes)
    → FrameOf wire (request_message (num s.next_request_id) method params) f
    → s.closed ≡ false
    → send_request wire method params timeout_ms s ≡ (
      record s {
        next_request_id = s.next_request_id + 1;
        pending =
            s.pending
            ++ (record { id = s.next_request_id; method = method; timeout_ms = timeout_ms } ∷ []);
      },
      wrote f ∷ [],
    )
unfolding send_request
sent_request wire method params ms s f e open_ =
    simp open_ (rw (written_frame wire (request_message (num s.next_request_id) method params) f e))

-- An open peer's request is written as one frame, and a started and open peer that has a handler for
-- the method, and holds no bytes of another frame, calls it with the request's number and parameters,
-- in an unchanged session. Assumed: the frame is built, and the serializer decodes what it encoded.
pub send_request-called :
    (wire : Wire) (method : String) (params : Option Json) (timeout_ms : ℕ) (caller : Session)
    (callee : Peer) (f : Bytes)
    → FrameOf wire (request_message (num caller.next_request_id) method params) f
    → Decodes wire (request_message (num caller.next_request_id) method params)
    → caller.closed ≡ false
    → callee.reader.read_buffer ≡ []
    → callee.session.started ≡ true
    → callee.session.closed ≡ false
    → names_method callee.session.request_handlers method ≡ true
    → ((send_request wire method params timeout_ms caller).1 ≡ wrote f ∷ [])
      × ((receive_data wire f callee).0.session ≡ callee.session)
      × ((receive_data wire f callee).1 ≡ called (num caller.next_request_id) method params ∷ [])
send_request-called wire method params ms caller callee f e d open_ empty on live known =
    let m = request_message (num caller.next_request_id) method params in
    let (still, kept, same) = receive-frame wire m f callee d e empty on live in
    let handled =
      handle_incoming-request wire caller.next_request_id method params callee.session known in
    (
      ap (λ r. r.1) (sent_request wire method params ms caller f e open_),
      kept ∙ ap (λ r. r.0) handled,
      same ∙ ap (λ r. r.1) handled,
    )

find_pending-last :
    (id : ℕ) (rs : List PendingRequest) (r : PendingRequest)
    → find_pending id rs ≡ none
    → r.id ≡ id
    → (find_pending id (rs ++ (r ∷ [])) ≡ some r) × (delete_pending id (rs ++ (r ∷ [])) ≡ rs)
unfolding find_pending delete_pending
find_pending-last id [] r fresh e = ground arith
find_pending-last id (q ∷ rs) r fresh e = ground (arith, find_pending-last id rs r)

-- The answer with a value settles exactly the request that was sent: its promise is resolved with
-- the value, and the caller waits for what it waited for before. Assumed: the caller is started and
-- open, holds no bytes of another frame, and has no request waiting under the new number; both frames
-- are built, and the serializer decodes the answer's.
pub answer_request-resolved :
    (wire : Wire) (method : String) (params : Option Json) (timeout_ms : ℕ) (caller : Peer)
    (callee : Session) (value : Json) (f g : Bytes)
    → FrameOf wire (request_message (num caller.session.next_request_id) method params) f
    → FrameOf wire (success_message (num caller.session.next_request_id) (some value)) g
    → Decodes wire (success_message (num caller.session.next_request_id) (some value))
    → find_pending caller.session.next_request_id caller.session.pending ≡ none
    → caller.reader.read_buffer ≡ []
    → caller.session.started ≡ true
    → caller.session.closed ≡ false
    → let id = caller.session.next_request_id in
      let waiting = record caller {
        session = (send_request wire method params timeout_ms caller.session).0;
      } in
      (answer_request wire callee (num id) method (returned (some value)) none none ≡ wrote g ∷ [])
      × ((receive_data wire g waiting).1 ≡ resolved id (some value) ∷ [])
      × ((receive_data wire g waiting).0.session.pending ≡ caller.session.pending)
unfolding answer_request
answer_request-resolved wire method params ms caller callee value f g ef eg d fresh empty on live =
    let id = caller.session.next_request_id in
    let m = success_message (num id) (some value) in
    let sent = sent_request wire method params ms caller.session f ef live in
    let s = (send_request wire method params ms caller.session).0 in
    let r : PendingRequest = record { id = id; method = method; timeout_ms = ms } in
    let (found, deleted) = find_pending-last id caller.session.pending r fresh refl in
    let (still, kept, same) =
      receive-frame wire m g (record caller { session = s }) d eg empty
        (ap (λ x. x.0.started) sent ∙ on) (ap (λ x. x.0.closed) sent ∙ live) in
    let handled =
      handle_incoming-success wire id value s r
        (ap (λ x. find_pending id x.0.pending) sent ∙ found) in
    (
      rw (eg, answer_request, write_result),
      same ∙ ap (λ x. x.1) handled,
      ap (λ x. x.pending) kept
          ∙ ap (λ x. x.0.pending) handled
          ∙ ap (λ x. delete_pending id x.0.pending) sent
          ∙ deleted,
    )
