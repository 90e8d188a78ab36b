-- ===== src/Codec/Tests.antt =====
-- Runs of the frame codec on concrete headers.
use dh_kit.Kit.{◌++◌, ◌∷◌, ◌≡◌, refl, true, false, none, some, arith, codes, Bytes}
use dh_kit.Codec.{msgpack_rpc_codec, content_type_for_codec, parse_frame_headers}
use dh_kit.Codec.Frame.{header_text, parse-header_text}

parse-header_text_example : parse_frame_headers (header_text msgpack_rpc_codec 4096) ≡ record {
  content_length = some 4096;
  content_type = some (content_type_for_codec msgpack_rpc_codec);
  malformed_content_length = false;
}
parse-header_text_example = parse-header_text msgpack_rpc_codec 4096 (omega arith)

abbrev repeated : Bytes
repeated = codes "Content-Length: 5" ++ (13 ∷ 10 ∷ codes "content-length: 5")

-- A repeated length is malformed, also where both agree.
repeated_length :
    parse_frame_headers repeated
    ≡ record { content_length = none; content_type = none; malformed_content_length = true }
unfolding parse_frame_headers
repeated_length = refl
