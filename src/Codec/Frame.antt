-- ===== src/Codec/Frame.antt =====
-- Where a frame's header ends, and what `parseFrameHeaders` reads in the header that
-- `encodeRpcFrame` writes.
use mathlib.Core.Option
use dh_kit.Kit.{
  ◌⊎◌, ℕ, suc, ◌+◌, ◌≤◌, ◌<◌, ◌≡◌, ◌≢◌, refl, ap, ◌∙◌, inl, inr, true, false, none, some, [], ◌∷◌,
  ◌++◌, append_assoc, le→leb, Bool-cases, All, All-append, Bytes, codes, arith, length,
  length-append, take, take-append_length,
}
use dh_kit.Codec.{
  BridgeRpcCodec, json_rpc_codec, msgpack_rpc_codec, BridgeFrameHeaders, starts_blank_line,
  find_frame_header_end, split_on, join_from, header_length, header_named, header_field,
  header_lines, no_headers, parse_frame_headers, decimal, frame_header, content_type_for_codec,
  max_safe_integer,
}
use dh_kit.Codec.Decimal.{
  IsDigit, number_from-decimal, decimal-All, decimal-nonempty, all_digits_lem,
}
use dh_kit.Codec.Lines.{
  Lacks, IsSolid, split_lines-append, split_lines-single, split_on-single, trim_solid,
}

find-cons :
    (a : ℕ) (s : Bytes) {k : ℕ}
    → a ≢ 13
    → find_frame_header_end s ≡ some k
    → find_frame_header_end (a ∷ s) ≡ some (suc k)
unfolding find_frame_header_end
find-cons a s h e = ground arith

find-append :
    (s t : Bytes) {k : ℕ}
    → Lacks 13 s
    → find_frame_header_end t ≡ some k
    → find_frame_header_end (s ++ t) ≡ some (length s + k)
find-append [] t h e = rw e (ap some (omega arith))
find-append (a ∷ s) t {k} h e =
    find-cons a (s ++ t) h.0 (find-append s t h.1 e) ∙ ap some (omega arith)

-- The blank line lies inside the buffer.
pub find-bound : (s : Bytes) {k : ℕ} → find_frame_header_end s ≡ some k → k + 4 ≤ length s
unfolding find_frame_header_end
find-bound [] e = cc
find-bound (a ∷ s) {k} e = elim (Bool-cases (starts_blank_line (a ∷ s))) [
  | inl here ↦ found a s here (rw here at e)
  | inr later ↦
      let (j, at, same) = (Option.map-eq-some_iff _ _).0 (rw later at e) in
      rw (← same) (omega (arith, find-bound s at))
]
  where
    found :
        (b : ℕ) (t : Bytes) {j : ℕ}
        → starts_blank_line (b ∷ t) ≡ true
        → some 0 ≡ some j
        → j + 4 ≤ length (b ∷ t)
    found b t h q = ground arith

starts-append : (s t : Bytes) → 4 ≤ length s → starts_blank_line (s ++ t) ≡ starts_blank_line s
starts-append [] t h = absurd (omega arith)
starts-append (a ∷ []) t h = absurd (omega arith)
starts-append (a ∷ b ∷ []) t h = absurd (omega arith)
starts-append (a ∷ b ∷ c ∷ []) t h = absurd (omega arith)
starts-append (a ∷ b ∷ c ∷ d ∷ s) t h = refl

-- What has been found stays where it is when more bytes arrive.
pub find-more :
    (s t : Bytes) {k : ℕ}
    → find_frame_header_end s ≡ some k
    → find_frame_header_end (s ++ t) ≡ some k
unfolding find_frame_header_end
find-more [] t e = cc
find-more (a ∷ s) t {k} e =
    let same = starts-append (a ∷ s) t (omega (arith, find-bound (a ∷ s) e)) in
    elim (Bool-cases (starts_blank_line (a ∷ s))) [
      | inl here ↦ rw (same, here) (rw here at e)
      | inr later ↦
          let (j, at, eq) = (Option.map-eq-some_iff _ _).0 (rw later at e) in
          rw (same, later) (rw (find-more s t at) (ap some eq))
    ]

-- A frame's header without the blank line at its end.
abbrev pub length_line : ℕ → Bytes
length_line n = codes "Content-Length: " ++ decimal n

abbrev pub type_line : BridgeRpcCodec → Bytes
type_line codec = codes "Content-Type: " ++ content_type_for_codec codec

abbrev pub header_text : BridgeRpcCodec → ℕ → Bytes
header_text codec n = length_line n ++ (13 ∷ 10 ∷ type_line codec)

abbrev pub blank_line : Bytes
blank_line = 13 ∷ 10 ∷ 13 ∷ 10 ∷ []

pub frame_header-eq :
    (codec : BridgeRpcCodec) (n : ℕ) → frame_header codec n ≡ header_text codec n ++ blank_line
unfolding frame_header
frame_header-eq codec n = simp append_assoc

digits-Lacks : (c : ℕ) (s : Bytes) → (c < 48) ⊎ (57 < c) → All IsDigit s → Lacks c s
digits-Lacks c [] h d = tt
digits-Lacks c (a ∷ s) h ((low, high), d) = (ground arith, digits-Lacks c s h d)

digits-IsSolid : (s : Bytes) → All IsDigit s → IsSolid s
digits-IsSolid [] d = tt
digits-IsSolid (a ∷ s) ((low, high), d) = (ground arith, digits-IsSolid s d)

length_line-Lacks : (n : ℕ) → Lacks 13 (length_line n)
length_line-Lacks n =
    All-append (λ a. a ≢ 13) (codes "Content-Length: ") (decimal n) (omega arith)
      (digits-Lacks 13 (decimal n) (omega arith) (decimal-All n))

type_line-Lacks : (codec : BridgeRpcCodec) → Lacks 13 (10 ∷ type_line codec)
unfolding content_type_for_codec
type_line-Lacks json_rpc_codec = omega arith
type_line-Lacks msgpack_rpc_codec = omega arith

find-separator :
    (s : Bytes) {k : ℕ}
    → find_frame_header_end (10 ∷ 67 ∷ s) ≡ some k
    → find_frame_header_end (13 ∷ 10 ∷ 67 ∷ s) ≡ some (suc k)
unfolding find_frame_header_end
find-separator [] e = ground arith
find-separator (a ∷ s) e = rw e

-- The header of a written frame ends where its blank line begins, whatever follows.
pub find-frame_header :
    (codec : BridgeRpcCodec) (n : ℕ) (rest : Bytes)
    → find_frame_header_end (frame_header codec n ++ rest) ≡ some (length (header_text codec n))
unfolding find_frame_header_end
find-frame_header codec n rest =
    let typed =
      find-append (10 ∷ type_line codec) (blank_line ++ rest) (type_line-Lacks codec) refl in
    let all =
      find-append (length_line n) (13 ∷ 10 ∷ (type_line codec ++ (blank_line ++ rest)))
        (length_line-Lacks n)
        (find-separator
          (codes "ontent-Type: " ++ (content_type_for_codec codec ++ (blank_line ++ rest)))
          typed) in
    let split : frame_header codec n ++ rest
        ≡ length_line n ++ (13 ∷ 10 ∷ (type_line codec ++ (blank_line ++ rest))) =
      rw frame_header-eq (simp append_assoc) in
    rw split
      (all ∙ ap some (omega (arith, length-append (length_line n) (13 ∷ 10 ∷ type_line codec))))

pub frame_header-append :
    (codec : BridgeRpcCodec) (n : ℕ) (rest : Bytes)
    → frame_header codec n ++ rest ≡ header_text codec n ++ (blank_line ++ rest)
frame_header-append codec n rest =
    ap (λ l. l ++ rest) (frame_header-eq codec n)
    ∙ append_assoc (header_text codec n) blank_line rest

pub take-frame_header :
    (codec : BridgeRpcCodec) (n : ℕ) (rest : Bytes)
    → take (length (header_text codec n)) (frame_header codec n ++ rest) ≡ header_text codec n
take-frame_header codec n rest =
    ap (take (length (header_text codec n))) (frame_header-append codec n rest)
    ∙ take-append_length (header_text codec n) (blank_line ++ rest)

header_length-decimal :
    (h : BridgeFrameHeaders) (n : ℕ)
    → h.content_length ≡ none
    → n ≤ max_safe_integer
    → header_length h (decimal n) ≡ record h { content_length = some n }
unfolding header_length
header_length-decimal h n e small = rw (
  e,
  decimal-nonempty n,
  all_digits_lem (decimal n) (decimal-All n),
  number_from-decimal n,
  le→leb n max_safe_integer small,
)

value_of_length_line :
    (h : BridgeFrameHeaders) (n : ℕ)
    → h.content_length ≡ none
    → n ≤ max_safe_integer
    → header_field h (split_on 58 (length_line n)) ≡ record h { content_length = some n }
unfolding header_field header_named join_from split_on
value_of_length_line h n e small =
    let piece =
      split_on-single 58 (decimal n) (digits-Lacks 58 (decimal n) (omega arith) (decimal-All n)) in
    let value = trim_solid (decimal n) (digits-IsSolid (decimal n) (decimal-All n)) in
    rw piece (rw value (header_length-decimal h n e small))

value_of_type_line :
    (h : BridgeFrameHeaders) (codec : BridgeRpcCodec)
    → header_field h (split_on 58 (type_line codec))
      ≡ record h { content_type = some (content_type_for_codec codec) }
unfolding header_field header_named header_length join_from split_on content_type_for_codec
value_of_type_line h json_rpc_codec = refl
value_of_type_line h msgpack_rpc_codec = refl

-- The reader finds in the header that the writer builds the body's length and the codec's type.
pub parse-header_text :
    (codec : BridgeRpcCodec) (n : ℕ)
    → n ≤ max_safe_integer
    → parse_frame_headers (header_text codec n) ≡ record {
      content_length = some n;
      content_type = some (content_type_for_codec codec);
      malformed_content_length = false;
    }
unfolding parse_frame_headers
parse-header_text codec n small =
    let head =
      split_lines-append 67 (codes "ontent-Length: " ++ decimal n) (type_line codec)
        (length_line-Lacks n) in
    let lines =
      head
      ∙ ap (λ l. length_line n ∷ l)
          (split_lines-single 67 (codes "ontent-Type: " ++ content_type_for_codec codec)
            (type_line-Lacks codec).1) in
    ap (header_lines no_headers) lines
    ∙ ap (λ h. header_field h (split_on 58 (type_line codec)))
        (value_of_length_line no_headers n refl small)
    ∙ value_of_type_line _ codec
