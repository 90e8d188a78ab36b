-- ===== src/Codec.antt =====
-- packages/opencode-app/src/bridge/stdio-codec.ts: the `Content-Length` frames that carry RPC
-- messages between the Rust host and the TypeScript worker. A buffer is a list of bytes.
mod Tests
pub mod Decimal
pub mod Lines
pub mod Frame
use dh_kit.Kit.{
  ℕ, zero, suc, ◌+◌, ◌-◌, ◌*◌, ◌/◌, ◌%◌, Bool, true, false, not, ◌&&◌, ◌||◌, Option, none, some,
  List, [], ◌∷◌, ◌++◌, map, ltb, leb, ◌==◌, if◌then◌else◌, length, Bytes, codes, bytes_eq, is_empty,
  trim, to_lower, Result, ok, err, ◌>>=◌, ◌>>◌, guard, some_or,
}
use mathlib.Core.Option

pub data BridgeRpcCodec : Type 0 where
  json_rpc_codec msgpack_rpc_codec : BridgeRpcCodec

abbrev pub default_bridge_max_frame_bytes : ℕ
default_bridge_max_frame_bytes = 16 * 1024 * 1024

abbrev pub min_bridge_max_frame_bytes : ℕ
min_bridge_max_frame_bytes = 64 * 1024

-- `Number.MAX_SAFE_INTEGER`
abbrev pub max_safe_integer : ℕ
max_safe_integer = 9007199254740991

abbrev pub json_rpc_content_type : Bytes
json_rpc_content_type = codes "application/vscode-jsonrpc; charset=utf-8"

abbrev pub msgpack_rpc_content_type : Bytes
msgpack_rpc_content_type = codes "application/x-msgpack; bridge=dh-jsonrpc; version=1"

pub data CodecError : Type 0 where
  bad_max_frame_bytes : ℕ → CodecError
  frame_too_large : ℕ → ℕ → CodecError
  encode_failed decode_failed : CodecError

pub record BridgeFrameHeaders : Type 0 where
  pub content_length : Option ℕ
  pub content_type : Option Bytes
  pub malformed_content_length : Bool

unfoldable pub is_valid_bridge_max_frame_bytes : ℕ → Bool
is_valid_bridge_max_frame_bytes value =
    leb value max_safe_integer
    && (leb min_bridge_max_frame_bytes value && leb value default_bridge_max_frame_bytes)

unfoldable pub validate_bridge_max_frame_bytes : ℕ → Result CodecError ℕ
unfolding is_valid_bridge_max_frame_bytes
validate_bridge_max_frame_bytes value =
    if is_valid_bridge_max_frame_bytes value then ok value else err (bad_max_frame_bytes value)

pub data BridgeCodecModeOverride : Type 0 where
  auto_mode json_mode msgpack_mode : BridgeCodecModeOverride

-- `none` is a value that is no string.
abbrev pub normalize_bridge_codec_mode_override : Option Bytes → BridgeCodecModeOverride
normalize_bridge_codec_mode_override none = auto_mode
normalize_bridge_codec_mode_override (some value) =
    let normalized = map to_lower (trim value) in
    if bytes_eq normalized (codes "json")
    then json_mode
    else if bytes_eq normalized (codes "msgpack")
    then msgpack_mode
    else auto_mode

abbrev pub starts_blank_line : Bytes → Bool
starts_blank_line (a ∷ b ∷ c ∷ d ∷ _) = a == 13 && (b == 10 && (c == 13 && d == 10))
starts_blank_line _ = false

-- The first index at which the four bytes CR LF CR LF stand.
unfoldable pub find_frame_header_end : Bytes → Option ℕ
find_frame_header_end [] = none
find_frame_header_end (a ∷ buffer) =
    if starts_blank_line (a ∷ buffer) then some 0 else Option.map suc (find_frame_header_end buffer)

abbrev pub cons_head : ℕ → List Bytes → List Bytes
cons_head a [] = (a ∷ []) ∷ []
cons_head a (line ∷ lines) = (a ∷ line) ∷ lines

-- `split("\r\n")`; the first argument is a byte that is read and not yet placed.
pub split_lines : Option ℕ → Bytes → List Bytes
split_lines none [] = [] ∷ []
split_lines (some a) [] = (a ∷ []) ∷ []
split_lines none (b ∷ s) = split_lines (some b) s
split_lines (some a) (b ∷ s) = elim (a == 13 && b == 10) [
  | true ↦ [] ∷ split_lines none s
  | false ↦ cons_head a (split_lines (some b) s)
]

-- `split(":")` and `join(":")`.
pub split_on : ℕ → Bytes → List Bytes
split_on c [] = [] ∷ []
split_on c (a ∷ s) = let rest = split_on c s in if a == c then [] ∷ rest else cons_head a rest

pub join_from : ℕ → Bytes → List Bytes → Bytes
join_from c piece [] = piece
join_from c piece (next ∷ pieces) = piece ++ (c ∷ join_from c next pieces)

abbrev pub is_digit : ℕ → Bool
is_digit c = leb 48 c && leb c 57

pub all_digits : Bytes → Bool
all_digits [] = true
all_digits (c ∷ s) = is_digit c && all_digits s

-- `/^[0-9]+$/`
abbrev pub is_digits : Bytes → Bool
is_digits s = not (is_empty s) && all_digits s

-- `Number(value)` of a row of decimal digits.
pub number_from : ℕ → Bytes → ℕ
number_from acc [] = acc
number_from acc (c ∷ s) = number_from (acc * 10 + (c - 48)) s

abbrev pub is_some {ℓ} : {A : Type ℓ} → Option A → Bool
is_some none = false
is_some (some _) = true

abbrev pub malformed : BridgeFrameHeaders → BridgeFrameHeaders
malformed h = record h { content_length = none; malformed_content_length = true }

pub header_length : BridgeFrameHeaders → Bytes → BridgeFrameHeaders
header_length h value =
    if is_some h.content_length || not (is_digits value)
    then malformed h
    else if leb (number_from 0 value) max_safe_integer
    then record h { content_length = some (number_from 0 value) }
    else malformed h

pub header_named : BridgeFrameHeaders → Bytes → Bytes → BridgeFrameHeaders
header_named h name value =
    if bytes_eq name (codes "content-length")
    then header_length h value
    else if bytes_eq name (codes "content-type")
    then record h { content_type = some value }
    else h

pub header_field : BridgeFrameHeaders → List Bytes → BridgeFrameHeaders
header_field h (name ∷ value ∷ rest) =
    if is_empty name
    then h
    else header_named h (map to_lower (trim name)) (trim (join_from 58 value rest))
header_field h _ = h

pub header_lines : BridgeFrameHeaders → List Bytes → BridgeFrameHeaders
header_lines h [] = h
header_lines h (line ∷ lines) = header_lines (header_field h (split_on 58 line)) lines

abbrev pub no_headers : BridgeFrameHeaders
no_headers = record { content_length = none; content_type = none; malformed_content_length = false }

unfoldable pub parse_frame_headers : Bytes → BridgeFrameHeaders
unfolding header_lines header_field header_named header_length split_lines split_on join_from
    all_digits number_from
parse_frame_headers header = header_lines no_headers (split_lines none header)

-- The decimal text of a number, as a template string writes it. A number below the fuel has fewer
-- digits than the fuel.
pub decimal_from : ℕ → ℕ → Bytes → Bytes
decimal_from zero n out = out
decimal_from (suc fuel) n out =
    let digit = (48 + n % 10) ∷ out in
    let more = decimal_from fuel (n / 10) digit in if ltb n 10 then digit else more

unfoldable pub decimal : ℕ → Bytes
unfolding decimal_from
decimal n = decimal_from (suc n) n []

pub record DecodeLimits : Type 0 where
  pub max_str_length : ℕ
  pub max_bin_length : ℕ
  pub max_array_length : ℕ
  pub max_map_length : ℕ

-- `JSON` over UTF-8 and `@msgpack/msgpack`; `none` is an exception.
pub record Serializer (V : Type 0) : Type 0 where
  pub json_encode : V → Option Bytes
  pub json_decode : Bytes → Option V
  pub msgpack_encode : V → Option Bytes
  pub msgpack_decode : DecodeLimits → Bytes → Option V

unfoldable pub content_type_for_codec : BridgeRpcCodec → Bytes
content_type_for_codec msgpack_rpc_codec = msgpack_rpc_content_type
content_type_for_codec json_rpc_codec = json_rpc_content_type

unfoldable pub frame_header : BridgeRpcCodec → ℕ → Bytes
frame_header codec size =
    codes "Content-Length: "
    ++ (decimal size
        ++ (13
            ∷ 10
            ∷ (codes "Content-Type: "
                ++ (content_type_for_codec codec ++ (13 ∷ 10 ∷ 13 ∷ 10 ∷ [])))))

module _ {V : Type 0} (serializer : Serializer V) where
  open serializer use {json_encode, json_decode, msgpack_encode, msgpack_decode}

  unfoldable pub encode_rpc_body : BridgeRpcCodec → V → Result CodecError Bytes
  encode_rpc_body json_rpc_codec value = some_or (json_encode value) encode_failed
  encode_rpc_body msgpack_rpc_codec value = some_or (msgpack_encode value) encode_failed

  decode_with : BridgeRpcCodec → Bytes → ℕ → Option V
  decode_with json_rpc_codec body max_frame_bytes = json_decode body
  decode_with msgpack_rpc_codec body max_frame_bytes =
      msgpack_decode
        (record {
          max_str_length = max_frame_bytes;
          max_bin_length = max_frame_bytes;
          max_array_length = 1000000;
          max_map_length = 100000;
        })
        body

  unfoldable pub decode_rpc_body : BridgeRpcCodec → Bytes → ℕ → Result CodecError V
  unfolding decode_with
  decode_rpc_body codec body max_frame_bytes =
      validate_bridge_max_frame_bytes max_frame_bytes
      >> some_or (decode_with codec body max_frame_bytes) decode_failed

  unfoldable pub encode_rpc_frame : BridgeRpcCodec → V → ℕ → Result CodecError Bytes
  encode_rpc_frame codec value max_frame_bytes = do
    validate_bridge_max_frame_bytes max_frame_bytes
    body ← encode_rpc_body codec value
    guard (leb (length body) max_frame_bytes) (frame_too_large (length body) max_frame_bytes)
    ok (frame_header codec (length body) ++ body)
