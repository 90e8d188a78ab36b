-- ===== src/Peer/Front.antt =====
-- What `drainFrames` finds at the front of a buffer that holds a written frame, or a part of one.
use mathlib.Core.Path.{subst}
use native.Mathlib.Nat.{mod-eq_of_lt}
use dh_kit.Kit.{
  some-eq, sym, ◌∙◌, ap, ℕ, ◌+◌, ◌≤◌, ◌<◌, ◌≡◌, refl, false, some, [], ◌∷◌, ◌++◌, append_assoc,
  Bytes, codes, length, length-append, take, drop, take-append_length, drop-append_length,
  take-append_le, ltb, lt→ltb, arith, Option-cases, inl, inr, ◌⊎◌, All, All-append,
}
use dh_kit.Codec.{
  BridgeRpcCodec, json_rpc_codec, msgpack_rpc_codec, find_frame_header_end, frame_header,
  max_safe_integer, decimal, content_type_for_codec,
}
use dh_kit.Codec.Decimal.{IsDigit, decimal-All}
use dh_kit.Codec.Frame.{
  find-more, find-bound, find-frame_header, take-frame_header, parse-header_text, header_text,
  length_line, type_line, blank_line, frame_header-eq,
}
use dh_kit.Peer.Reader.{
  front_headed, no_header, partial_frame, whole_frame, ascii, front, front_sized,
}

-- A frame as the peer of this codec writes it.
abbrev pub frame : BridgeRpcCodec → Bytes → Bytes
frame codec body = frame_header codec (length body) ++ body

abbrev IsAscii : Bytes → Type 0
IsAscii s = All (λ b. b < 128) s

ascii_lem : (s : Bytes) → IsAscii s → ascii s ≡ s
unfolding ascii
ascii_lem [] h = refl
ascii_lem (b ∷ s) h = rw (mod-eq_of_lt h.0, ascii_lem s h.1)

digits-IsAscii : (s : Bytes) → All IsDigit s → IsAscii s
digits-IsAscii [] h = tt
digits-IsAscii (b ∷ s) ((low, high), h) = (omega arith, digits-IsAscii s h)

type-IsAscii : (codec : BridgeRpcCodec) → IsAscii (13 ∷ 10 ∷ type_line codec)
unfolding content_type_for_codec
type-IsAscii json_rpc_codec = omega arith
type-IsAscii msgpack_rpc_codec = omega arith

ascii-header_text :
    (codec : BridgeRpcCodec) (n : ℕ) → ascii (header_text codec n) ≡ header_text codec n
ascii-header_text codec n = ascii_lem (header_text codec n) (
    All-append (λ b. b < 128) (length_line n) (13 ∷ 10 ∷ type_line codec)
      (All-append (λ b. b < 128) (codes "Content-Length: ") (decimal n) (omega arith)
        (digits-IsAscii (decimal n) (decimal-All n)))
      (type-IsAscii codec))

pub length-frame_header :
    (codec : BridgeRpcCodec) (n : ℕ)
    → length (frame_header codec n) ≡ length (header_text codec n) + 4
length-frame_header codec n =
    let h = header_text codec n in ap length (frame_header-eq codec n) ∙ length-append h blank_line

-- The header is read once it stands in the buffer whole.
front-header_text :
    (codec : BridgeRpcCodec) (limit n : ℕ) (s : Bytes)
    → n ≤ max_safe_integer
    → find_frame_header_end s ≡ some (length (header_text codec n))
    → take (length (header_text codec n)) s ≡ header_text codec n
    → front limit s ≡ front_sized limit s (length (header_text codec n) + 4) n
unfolding front front_headed
front-header_text codec limit n s safe found taken =
    rw (found, front)
      (rw taken (rw (ascii-header_text codec n) (rw (parse-header_text codec n safe))))

not-lt : (a b : ℕ) → b ≤ a → ltb a b ≡ false
not-lt a b h = ground arith

drop-append_two : (h body rest : Bytes) → drop (length h + length body) (h ++ (body ++ rest)) ≡ rest
drop-append_two h body rest =
    subst (λ n. drop n (h ++ (body ++ rest)) ≡ rest) (length-append h body)
      (subst (λ l. drop (length (h ++ body)) l ≡ rest) (append_assoc h body rest)
        (drop-append_length (h ++ body) rest))

front_sized-whole :
    (limit : ℕ) (h body rest : Bytes)
    → length body ≤ limit
    → front_sized limit (h ++ (body ++ rest)) (length h) (length body) ≡ whole_frame body rest
unfolding front_sized
front_sized-whole limit h body rest fits =
    let total = length-append h (body ++ rest) in
    let inner = length-append body rest in
    rw (not-lt limit (length body) fits) (
      rw (not-lt (length (h ++ (body ++ rest))) (length h + length body) (omega arith)) (
        rw (drop-append_length h (body ++ rest))
          (rw (take-append_length body rest) (rw (drop-append_two h body rest)))))

front_sized-part :
    (limit n m : ℕ) (s : Bytes)
    → n ≤ limit
    → length s < m + n
    → front_sized limit s m n ≡ partial_frame (m + n)
unfolding front_sized
front_sized-part limit n m s fits short =
    rw (not-lt limit n fits) (rw (lt→ltb (length s) (m + n) short))

module _ (codec : BridgeRpcCodec) (limit : ℕ) (safe : limit ≤ max_safe_integer) (body : Bytes)
    (fits : length body ≤ limit) where
  -- The reader finds, at the front of a buffer that starts with a frame whose body fits, exactly the
  -- body, and leaves exactly the bytes that follow. The limit is a safe integer.
  pub front-frame : (rest : Bytes) → front limit (frame codec body ++ rest) ≡ whole_frame body rest
  unfolding front_sized
  front-frame rest =
      let n = length body in
      rw (append_assoc (frame_header codec n) body rest) (
        front-header_text codec limit n (frame_header codec n ++ (body ++ rest)) (omega arith)
          (find-frame_header codec n (body ++ rest)) (take-frame_header codec n (body ++ rest))
        ∙ subst
            (λ m.
              front_sized limit (frame_header codec n ++ (body ++ rest)) m n
              ≡ whole_frame body rest)
            (length-frame_header codec n)
            (front_sized-whole limit (frame_header codec n) body rest fits))

  -- A part of a frame is waited for.
  pub front-part :
      (s t : Bytes)
      → s ++ t ≡ frame codec body
      → length s < length (frame codec body)
      → (front limit s ≡ no_header) ⊎ ((n : ℕ) × (front limit s ≡ partial_frame n))
  front-part s t whole short = elim (Option-cases (find_frame_header_end s)) [
    | inl missing ↦ inl (unfold front in rw (missing, front))
    | inr (k, found) ↦
        let n = length body in
        let at : k ≡ length (header_text codec n) = some-eq (
          sym (find-more s t found)
          ∙ ap find_frame_header_end whole
          ∙ find-frame_header codec n body) in
        let taken : take k s ≡ take k (frame codec body) =
          sym (take-append_le k s t (omega (arith, find-bound s found))) ∙ ap (take k) whole in
        let size = length-append (frame_header codec n) body in
        inr (
          length (header_text codec n) + 4 + n,
          front-header_text codec limit n s (omega arith) (rw found (ap some at)) (
                subst (λ j. take j s ≡ header_text codec n) at
                  (taken ∙ ap (λ j. take j (frame codec body)) at ∙ take-frame_header codec n body))
              ∙ front_sized-part limit n (length (header_text codec n) + 4) s (omega arith)
                  (omega (arith, length-frame_header codec n)),
        )
  ]
