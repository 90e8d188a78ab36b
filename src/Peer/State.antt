-- ===== src/Peer/State.antt =====
-- The state of `WorkerJsonRpcPeer` and what it does to the outside: the errors that it hands out,
-- the promises that it settles, and the frames that it writes.
use Prim.Native.String.{String}
use text.Mathlib.Text.{◌==◌ as str_eq}
use dh_kit.Kit.{ℕ, Bool, false, Option, none, some, List, [], ◌∷◌, Bytes, ◌==◌, if◌then◌else◌, ◌||◌}
use dh_kit.Json.{Json}
use dh_kit.Codec.{CodecError}

pub data ErrorKind : Type 0 where
  closed_kind timeout_kind protocol_kind rpc_kind : ErrorKind

-- The program's message texts, with what is interpolated into them.
pub data PeerMessage : Type 0 where
  input_failed : String → PeerMessage
  truncated_frame input_ended peer_is_closed peer_was_closed malformed_message : PeerMessage
  timed_out : String → ℕ → PeerMessage
  write_failed_for : String → String → PeerMessage
  malformed_length missing_length undecodable : PeerMessage
  oversized_frame : ℕ → ℕ → PeerMessage
  handler_failed : String → PeerMessage
  remote_message : Option Json → PeerMessage

pub record PeerError : Type 0 where
  pub kind : ErrorKind
  pub method : Option String
  pub rpc_code : Option Json
  pub rpc_data : Option Json
  pub message : PeerMessage

abbrev pub plain_error : ErrorKind → Option String → PeerMessage → PeerError
plain_error kind method message = record {
  kind = kind;
  method = method;
  rpc_code = none;
  rpc_data = none;
  message = message;
}

-- An entry of `pending`: its key, the method, and the delay of its timer.
pub record PendingRequest : Type 0 where
  pub id : ℕ
  pub method : String
  pub timeout_ms : ℕ

pub data Effect : Type 0 where
  -- The promise of the request with this number is settled.
  resolved : ℕ → Option Json → Effect
  rejected : ℕ → PeerError → Effect
  -- `request` or `notify` on a closed peer: a rejected promise, no number is used.
  refused : PeerError → Effect
  -- The entry of this request is deleted and an exception then skips both `reject` and `resolve`.
  stranded : ℕ → Effect
  wrote : Bytes → Effect
  write_rejected : CodecError → Effect
  protocol_error : PeerMessage → Effect
  -- A registered handler is called: the request's id, the method, the parameters.
  called : Json → String → Option Json → Effect
  notified : String → Option Json → Effect

-- All fields but the reader's.
pub record Session : Type 0 where
  pub next_request_id : ℕ
  pub started : Bool
  pub closed : Bool
  pub pending : List PendingRequest
  pub request_handlers : List String
  pub notification_handlers : List String
  pub after_response_handlers : List String

-- `readBuffer` and `expectedFrameLength`.
pub record Reader : Type 0 where
  pub read_buffer : Bytes
  pub expected_frame_length : Option ℕ

pub record Peer : Type 0 where
  pub reader : Reader
  pub session : Session

-- `new WorkerJsonRpcPeer(...)`, with the frame limit already validated.
unfoldable pub new_peer : Peer
new_peer = record {
  reader = record { read_buffer = []; expected_frame_length = none };
  session = record {
    next_request_id = 1;
    started = false;
    closed = false;
    pending = [];
    request_handlers = [];
    notification_handlers = [];
    after_response_handlers = [];
  };
}

abbrev pub names_method : List String → String → Bool
names_method [] method = false
names_method (m ∷ ms) method = str_eq m method || names_method ms method

-- `pending.get` and `pending.delete`. A key stands once, so deleting takes out the first entry.
unfoldable pub find_pending : ℕ → List PendingRequest → Option PendingRequest
find_pending id [] = none
find_pending id (r ∷ rs) = if r.id == id then some r else find_pending id rs

unfoldable pub delete_pending : ℕ → List PendingRequest → List PendingRequest
delete_pending id [] = []
delete_pending id (r ∷ rs) = if r.id == id then rs else r ∷ delete_pending id rs

-- `failAllPending`: one rejection for each entry, in the order of insertion.
unfoldable pub reject_all : PeerError → List PendingRequest → List Effect
reject_all error [] = []
reject_all error (r ∷ rs) = rejected r.id error ∷ reject_all error rs

unfoldable pub fail_all_pending : PeerError → Session → Session × List Effect
unfolding reject_all
fail_all_pending error s = (record s { pending = [] }, reject_all error s.pending)

-- `handleProtocolError`: the observer is told first.
unfoldable pub handle_protocol_error : PeerMessage → Session → Session × List Effect
unfolding fail_all_pending
handle_protocol_error message s =
    let (s', effects) = fail_all_pending (plain_error protocol_kind none message) s in
    (s', protocol_error message ∷ effects)
