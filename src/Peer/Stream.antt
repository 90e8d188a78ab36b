-- ===== src/Peer/Stream.antt =====
-- Frames that arrive in pieces: how the bytes are cut into chunks does not matter.
use dh_kit.Kit.{
  ap, ℕ, zero, suc, ◌≤◌, ◌<◌, ◌≡◌, refl, Option, none, List, [], ◌∷◌, ◌++◌, append_assoc, Bytes,
  length, arith, inl, inr, ◌⊎◌, All,
}
use dh_kit.Codec.{BridgeRpcCodec, max_safe_integer}
use dh_kit.Peer.State.{Effect, Session, Reader, Peer}
use dh_kit.Peer.Incoming.{Wire, receive_body}
use dh_kit.Peer.Reader.{no_header, partial_frame, front, drain_frames}
use dh_kit.Peer.Front.{frame, front-frame}
use dh_kit.Peer.Ops.{receive_data}

abbrev pub frames : BridgeRpcCodec → List Bytes → Bytes
frames codec [] = []
frames codec (body ∷ bodies) = frame codec body ++ frames codec bodies

-- The bodies handled one after the other, with no framing.
abbrev pub receive_all : Wire → List Bytes → Session → Session × List Effect
receive_all wire [] s = (s, [])
receive_all wire (body ∷ bodies) s =
    let (s', before) = receive_body wire body s in
    let (s'', after) = receive_all wire bodies s' in (s'', before ++ after)

-- The chunks that the stream hands over, one after the other.
abbrev pub feed : Wire → List Bytes → Peer → Peer × List Effect
feed wire [] p = (p, [])
feed wire (chunk ∷ chunks) p =
    let (p', before) = receive_data wire chunk p in
    let (p'', after) = feed wire chunks p' in (p'', before ++ after)

abbrev pub concat : List Bytes → Bytes
concat [] = []
concat (chunk ∷ chunks) = chunk ++ concat chunks

-- A buffer in which no frame is complete.
abbrev pub Waits : ℕ → Bytes → Type 0
Waits limit s = (front limit s ≡ no_header) ⊎ ((n : ℕ) × (front limit s ≡ partial_frame n))

module _ (wire : Wire) (safe : wire.max_frame_bytes ≤ max_safe_integer) where
  -- What a drain leaves: the rest of the buffer, and what the bodies did to the session.
  abbrev pub Drained : Reader × Session × List Effect → Bytes → Session × List Effect → Type 0
  Drained r q (s, es) = (r.0.read_buffer ≡ q) × (r.1 ≡ s) × (r.2 ≡ es)

  drain-Waits :
      (fuel : ℕ) (reader : Reader) (s : Session)
      → Waits wire.max_frame_bytes reader.read_buffer
      → Drained (drain_frames wire (suc fuel) reader s) reader.read_buffer (s, [])
  unfolding drain_frames
  drain-Waits fuel reader s (inl e) = rw (e, drain_frames) (refl, refl, refl)
  drain-Waits fuel reader s (inr (n, e)) = rw (e, drain_frames) (refl, refl, refl)

  pub drain-frames :
      (bodies : List Bytes) (q : Bytes) (fuel : ℕ) (expected : Option ℕ) (s : Session)
      → All (λ body. length body ≤ wire.max_frame_bytes) bodies
      → Waits wire.max_frame_bytes q
      → length bodies < fuel
      → Drained
          (drain_frames wire fuel
            (record {
              read_buffer = frames wire.codec bodies ++ q;
              expected_frame_length = expected;
            })
            s)
          q
          (receive_all wire bodies s)
  unfolding drain_frames
  drain-frames [] q zero expected s fits waits enough = elim enough [ ]
  drain-frames (body ∷ bodies) q zero expected s fits waits enough = elim enough [ ]
  drain-frames [] q (suc fuel) expected s fits waits enough =
      drain-Waits fuel (record { read_buffer = q; expected_frame_length = expected }) s waits
  drain-frames (body ∷ bodies) q (suc fuel) expected s fits waits enough =
      let rest = frames wire.codec bodies ++ q in
      let buffer : frames wire.codec (body ∷ bodies) ++ q ≡ frame wire.codec body ++ rest =
        append_assoc (frame wire.codec body) (frames wire.codec bodies) q in
      let seen = front-frame wire.codec wire.max_frame_bytes safe body fits.0 rest in
      let (s', before) = receive_body wire body s in
      let (left, kept, same) = drain-frames bodies q fuel none s' fits.1 waits (omega arith) in
      rw buffer (rw (seen, drain_frames) (left, kept, ap (λ es. before ++ es) same))
