-- ===== src/Peer/Incoming.antt =====
-- `handleIncoming` and the handlers behind it, `writeMessage`, and the answer to a request.
use Prim.Native.String
use Prim.Native.String.{String}
use text.Mathlib.Text.{◌==◌ as str_eq}
use dh_kit.Kit.{
  ℕ, Bool, false, not, Option, none, some, List, [], ◌∷◌, Bytes, if◌then◌else◌, ◌&&◌, ◌||◌, ok, err,
}
use dh_kit.Json.{Json, Fields, null, num, other_num, str, obj, end, field, get, has, opt_field}
use dh_kit.Codec.{BridgeRpcCodec, Serializer, CodecError, encode_rpc_frame, decode_rpc_body}
use dh_kit.Peer.State.{
  rpc_kind, malformed_message, undecodable, handler_failed, remote_message, PendingRequest, Effect,
  resolved, rejected, stranded, wrote, write_rejected, called, notified, Session, names_method,
  find_pending, delete_pending, handle_protocol_error,
}

-- The messages as the values that are encoded.
abbrev pub request_message : Json → String → Option Json → Json
request_message id method params = obj (
    field "jsonrpc" (str "2.0")
      (field "id" id (field "method" (str method) (opt_field "params" params end))))

abbrev pub notification_message : String → Option Json → Json
notification_message method params =
    obj (field "jsonrpc" (str "2.0") (field "method" (str method) (opt_field "params" params end)))

abbrev pub success_message : Json → Option Json → Json
success_message id result =
    obj (field "jsonrpc" (str "2.0") (field "id" id (opt_field "result" result end)))

pub record ErrorPayload : Type 0 where
  pub code : Json
  pub message : String
  pub payload_data : Option Json

abbrev pub failure_message : Json → ErrorPayload → Json
failure_message id e = obj (
    field "jsonrpc" (str "2.0") (
      field "id" id (
        field "error"
          (obj (
            field "code" e.code
              (field "message" (str e.message) (opt_field "data" e.payload_data end))))
          end)))

abbrev pub text_is : String → Option Json → Bool
text_is text (some (str s)) = str_eq s text
text_is text _ = false

-- `isJsonRpcMessage`, on the fields of a value that is an object.
unfoldable pub is_json_rpc_message : Fields → Bool
is_json_rpc_message fields = text_is "2.0" (get "jsonrpc" fields)

unfoldable pub is_request : Fields → Bool
is_request fields = has "id" fields && has "method" fields

unfoldable pub is_response : Fields → Bool
is_response fields =
    has "id" fields && ((has "result" fields || has "error" fields) && not (has "method" fields))

abbrev pub field_of : String → Json → Option Json
field_of key (obj fields) = get key fields
field_of key _ = none

-- `error in response`: reading a property of `null` throws.
pub settle_error : PendingRequest → Json → Effect
settle_error r null = stranded r.id
settle_error r error = rejected r.id (record {
  kind = rpc_kind;
  method = some r.method;
  rpc_code = field_of "code" error;
  rpc_data = field_of "data" error;
  message = remote_message (field_of "message" error);
})

unfoldable pub settle : PendingRequest → Fields → Effect
unfolding settle_error
settle r fields = elim (get "error" fields) [
  | some error ↦ settle_error r error
  | none ↦ resolved r.id (get "result" fields)
]

-- `pending.get(response.id)`: the keys are numbers.
abbrev pub pending_for : Option Json → List PendingRequest → Option PendingRequest
pending_for (some (num id)) pending = find_pending id pending
pending_for _ pending = none

unfoldable pub handle_response : Fields → Session → Session × List Effect
unfolding settle
handle_response fields s = elim (pending_for (get "id" fields) s.pending) [
  | none ↦ (s, [])
  | some r ↦ (record s { pending = delete_pending r.id s.pending }, settle r fields ∷ [])
]

abbrev pub method_in : List String → Option Json → Option String
method_in methods (some (str m)) = if names_method methods m then some m else none
method_in methods _ = none

-- What a handler may throw: a `JsonRpcResponseError`, another `Error`, any other value.
pub data Throwable : Type 0 where
  response_error : ErrorPayload → Throwable
  error : String → Throwable
  other_value : Throwable

pub data Outcome : Type 0 where
  returned : Option Json → Outcome
  threw : Throwable → Outcome

abbrev pub general_payload : String → ErrorPayload
general_payload message = record {
  code = other_num "-32000";
  message = message;
  payload_data = none;
}

abbrev pub payload_of : Throwable → ErrorPayload
payload_of (response_error payload) = payload
payload_of (error message) = general_payload message
payload_of other_value = general_payload "JSON-RPC request failed."

abbrev pub notification_text : Throwable → String
notification_text (response_error payload) = payload.message
notification_text (error message) = message
notification_text other_value = "JSON-RPC notification handler failed."

-- The peer's codec and limit, and what it takes from outside: the serializer, a value's text in a
-- template string, and the message of an exception of the codec.
pub record Wire : Type 0 where
  pub serializer : Serializer Json
  pub codec : BridgeRpcCodec
  pub max_frame_bytes : ℕ
  pub text_of : Option Json → String
  pub error_text : CodecError → String

module _ (wire : Wire) where
  open wire use {serializer, codec, max_frame_bytes, text_of, error_text}

  unfoldable pub write_message : Json → List Effect
  write_message message = elim (encode_rpc_frame serializer codec message max_frame_bytes) [
    | ok frame ↦ wrote frame ∷ []
    | err e ↦ write_rejected e ∷ []
  ]

  abbrev pub method_not_found : Option Json → ErrorPayload
  method_not_found method = record {
    code = other_num "-32601";
    message = String.◌++◌ "method not found: " (text_of method);
    payload_data = none;
  }

  -- `handleRequest` up to the call of the handler.
  unfoldable pub handle_request : Fields → Session → Session × List Effect
  unfolding write_message
  handle_request fields s = elim (get "id" fields) [
    | none ↦ (s, [])
    | some id ↦ elim (method_in s.request_handlers (get "method" fields)) [
      | some method ↦ (s, called id method (get "params" fields) ∷ [])
      | none ↦ (s, write_message (failure_message id (method_not_found (get "method" fields))))
    ]
  ]

  unfoldable pub handle_notification : Fields → Session → Session × List Effect
  handle_notification fields s = elim (method_in s.notification_handlers (get "method" fields)) [
    | some method ↦ (s, notified method (get "params" fields) ∷ [])
    | none ↦ (s, [])
  ]

  unfoldable pub handle_message : Fields → Session → Session × List Effect
  handle_message fields s =
      if is_response fields
      then handle_response fields s
      else if is_request fields
      then handle_request fields s
      else handle_notification fields s

  unfoldable pub handle_incoming : Json → Session → Session × List Effect
  handle_incoming (obj fields) s =
      if is_json_rpc_message fields
      then handle_message fields s
      else handle_protocol_error malformed_message s
  handle_incoming _ s = handle_protocol_error malformed_message s

  -- The body of a complete frame: it is decoded and handled.
  unfoldable pub receive_body : Bytes → Session → Session × List Effect
  receive_body body s = elim (decode_rpc_body serializer codec body max_frame_bytes) [
    | ok message ↦ handle_incoming message s
    | err e ↦ handle_protocol_error undecodable s
  ]

  abbrev pub write_failure : Json → Throwable → List Effect
  write_failure id e = write_message (failure_message id (payload_of e))

  -- The after-response handler runs where one is registered; `after` is what it throws.
  abbrev pub after_response : Session → Json → String → Option Throwable → List Effect
  after_response s id method none = []
  after_response s id method (some e) =
      if names_method s.after_response_handlers method then write_failure id e else []

  -- The first message: encoded, and taken by the stream unless `stream` is its error.
  abbrev pub write_result :
      Session → Json → String → Json → Option String → Option Throwable → List Effect
  write_result s id method message stream after =
      elim (encode_rpc_frame serializer codec message max_frame_bytes) [
        | err e ↦ write_rejected e ∷ write_failure id (error (error_text e))
        | ok frame ↦ wrote frame ∷ elim stream [
          | some failure ↦ write_failure id (error failure)
          | none ↦ after_response s id method after
        ]
      ]

  -- The rest of `handleRequest`, once the handler has ended.
  unfoldable pub answer_request :
      Session → Json → String → Outcome → Option String → Option Throwable → List Effect
  unfolding write_message
  answer_request s id method (threw e) stream after = write_failure id e
  answer_request s id method (returned result) stream after =
      write_result s id method (success_message id result) stream after

-- The end of a notification handler: an exception is a protocol error.
unfoldable pub finish_notification : Option Throwable → Session → Session × List Effect
finish_notification none s = (s, [])
finish_notification (some e) s = handle_protocol_error (handler_failed (notification_text e)) s
