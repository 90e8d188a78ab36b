-- ===== src/Peer/Reader.antt =====
-- `drainFrames`: the complete frames at the front of the buffer are taken off and handled, one after
-- the other. Each takes at least four bytes, so fuel above the buffer's length suffices.
use dh_kit.Kit.{
  ℕ, zero, suc, ◌+◌, none, some, ◌%◌, List, [], ◌∷◌, ◌++◌, Bytes, length, take, drop, ltb,
  if◌then◌else◌,
}
use dh_kit.Codec.{BridgeFrameHeaders, find_frame_header_end, parse_frame_headers}
use dh_kit.Peer.State.{
  malformed_length, missing_length, oversized_frame, PeerMessage, Effect, Session, Reader,
  handle_protocol_error,
}
use dh_kit.Peer.Incoming.{Wire, receive_body}

-- What stands at the front of the buffer.
pub data Front : Type 0 where
  no_header : Front
  bad_header : PeerMessage → Front
  partial_frame : ℕ → Front
  whole_frame : Bytes → Bytes → Front

unfoldable pub front_sized : ℕ → Bytes → ℕ → ℕ → Front
front_sized max_frame_bytes buffer body_start content_length =
    if ltb max_frame_bytes content_length
    then bad_header (oversized_frame content_length max_frame_bytes)
    else if ltb (length buffer) (body_start + content_length)
    then partial_frame (body_start + content_length)
    else whole_frame (take content_length (drop body_start buffer))
        (drop (body_start + content_length) buffer)

unfoldable pub front_headed : ℕ → Bytes → ℕ → BridgeFrameHeaders → Front
front_headed max_frame_bytes buffer body_start headers =
    if headers.malformed_content_length
    then bad_header malformed_length
    else elim headers.content_length [
      | none ↦ bad_header missing_length
      | some content_length ↦ front_sized max_frame_bytes buffer body_start content_length
    ]

-- A buffer is turned to text by `toString("ascii")`, which drops the highest bit of each byte.
unfoldable pub ascii : Bytes → Bytes
ascii [] = []
ascii (b ∷ s) = (b % 128) ∷ ascii s

unfoldable pub front : ℕ → Bytes → Front
front max_frame_bytes buffer = elim (find_frame_header_end buffer) [
  | none ↦ no_header
  | some header_end ↦
      front_headed max_frame_bytes buffer (header_end + 4)
        (parse_frame_headers (ascii (take header_end buffer)))
]

abbrev pub then_effects :
    List Effect → Reader × Session × List Effect → Reader × Session × List Effect
then_effects before (reader, session, effects) = (reader, session, before ++ effects)

module _ (wire : Wire) where
  unfoldable pub drain_frames : ℕ → Reader → Session → Reader × Session × List Effect
  drain_frames zero reader s = (reader, s, [])
  drain_frames (suc fuel) reader s = elim (front wire.max_frame_bytes reader.read_buffer) [
    | no_header ↦ (reader, s, [])
    | bad_header message ↦
        let (s', effects) = handle_protocol_error message s in
        (record reader { read_buffer = [] }, s', effects)
    | partial_frame size ↦ (record reader { expected_frame_length = some size }, s, [])
    | whole_frame body rest ↦
        let (s', effects) = receive_body wire body s in
        then_effects effects
          (drain_frames fuel (record { read_buffer = rest; expected_frame_length = none }) s')
  ]
