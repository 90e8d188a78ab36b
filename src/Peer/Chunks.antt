-- ===== src/Peer/Chunks.antt =====
-- The chunks in which the input stream hands over a row of frames do not matter: the peer ends as if
-- each frame had come alone.
use mathlib.Core.Path.{subst}
use dh_kit.Kit.{
  sym, ◌∙◌, ap, ℕ, suc, ◌≤◌, ◌≡◌, refl, true, false, List, [], ◌∷◌, ◌++◌, append_assoc, append-nil,
  Bytes, length, length-append, drop, arith, inl, inr, All, dec_lt, Result, ok, err,
}
use dh_kit.Json.{Json, Fields, obj}
use dh_kit.Codec.{
  BridgeRpcCodec, CodecError, max_safe_integer, frame_header, find_frame_header_end,
  decode_rpc_body,
}
use dh_kit.Peer.State.{
  Effect, Session, Peer, PeerMessage, malformed_message, undecodable, handle_protocol_error,
  fail_all_pending,
}
use dh_kit.Peer.Incoming.{
  Wire, receive_body, handle_incoming, handle_message, handle_response, handle_request,
  handle_notification,
}
use dh_kit.Peer.Reader.{whole_frame, front, drain_frames}
use dh_kit.Peer.Front.{frame, length-frame_header, front-frame, front-part}
use dh_kit.Peer.Ops.{receive_data}
use dh_kit.Peer.Stream.{frames, receive_all, feed, concat, Waits, Drained, drain-frames}

-- Two ways to cut one text: the shorter first part is the beginning of the longer one.
cut-short : (x y f g : Bytes) → x ++ y ≡ f ++ g → length x ≤ length f → x ++ drop (length x) f ≡ f
cut-short [] y f g e h = refl
cut-short (a ∷ x) y [] g e h = absurd (omega arith)
cut-short (a ∷ x) y (b ∷ f) g e h =
    let tails : x ++ y ≡ f ++ g = cc in
    let heads : a ≡ b = cc in cc (heads, cut-short x y f g tails (omega arith))

cut-long :
    (x y f g : Bytes)
    → x ++ y ≡ f ++ g
    → length f ≤ length x
    → (x ≡ f ++ drop (length f) x) × (drop (length f) x ++ y ≡ g)
cut-long x y [] g e h = (refl, e)
cut-long [] y (b ∷ f) g e h = absurd (omega arith)
cut-long (a ∷ x) y (b ∷ f) g e h =
    let tails : x ++ y ≡ f ++ g = cc in
    let heads : a ≡ b = cc in let (same, rest) = cut-long x y f g tails (omega arith) in (cc, rest)

-- Bytes that begin a row of frames are some whole frames and a part of the next.
record Split (codec : BridgeRpcCodec) (limit : ℕ) (bodies : List Bytes) (x y : Bytes) : Type 0 where
  finished : List Bytes
  todo : List Bytes
  part : Bytes
  bodies_eq : bodies ≡ finished ++ todo
  read_eq : x ≡ frames codec finished ++ part
  rest_eq : part ++ y ≡ frames codec todo
  waits : Waits limit part

abbrev AllFit : ℕ → List Bytes → Type 0
AllFit limit bodies = All (λ body. length body ≤ limit) bodies

Split-frames :
    (codec : BridgeRpcCodec) (limit : ℕ) (safe : limit ≤ max_safe_integer) (bodies : List Bytes)
    (x y : Bytes)
    → AllFit limit bodies
    → x ++ y ≡ frames codec bodies
    → Split codec limit bodies x y
Split-frames codec limit safe [] [] y fits e = record {
  finished = [];
  todo = [];
  part = [];
  bodies_eq = refl;
  read_eq = refl;
  rest_eq = e;
  waits = inl (unfold front find_frame_header_end in refl);
}
Split-frames codec limit safe [] (a ∷ x) y fits e = cc
Split-frames codec limit safe (body ∷ bodies) x y fits e =
    elim (dec_lt (length x) (length (frame codec body))) [
      | yes short ↦ record {
        finished = [];
        todo = body ∷ bodies;
        part = x;
        bodies_eq = refl;
        read_eq = refl;
        rest_eq = e;
        waits =
            front-part codec limit safe body fits.0 x (drop (length x) (frame codec body))
              (cut-short x y (frame codec body) (frames codec bodies) e (omega arith)) short;
      }
      | no long ↦
          let (same, rest) =
            cut-long x y (frame codec body) (frames codec bodies) e (omega arith) in
          let more =
            Split-frames codec limit safe bodies (drop (length (frame codec body)) x) y fits.1
              rest in
          record {
            finished = body ∷ more.finished;
            todo = more.todo;
            part = more.part;
            bodies_eq = ap (λ l. body ∷ l) more.bodies_eq;
            read_eq =
                same
                ∙ ap (λ l. frame codec body ++ l) more.read_eq
                ∙ sym (append_assoc (frame codec body) (frames codec more.finished) more.part);
            rest_eq = more.rest_eq;
            waits = more.waits;
          }
    ]

AllFit-append_right : (limit : ℕ) (xs ys : List Bytes) → AllFit limit (xs ++ ys) → AllFit limit ys
AllFit-append_right limit [] ys h = h
AllFit-append_right limit (x ∷ xs) ys h = AllFit-append_right limit xs ys h.1

AllFit-append_left : (limit : ℕ) (xs ys : List Bytes) → AllFit limit (xs ++ ys) → AllFit limit xs
AllFit-append_left limit [] ys h = tt
AllFit-append_left limit (x ∷ xs) ys h = (h.0, AllFit-append_left limit xs ys h.1)

length-le-frames :
    (codec : BridgeRpcCodec) (bodies : List Bytes) → length bodies ≤ length (frames codec bodies)
length-le-frames codec [] = omega arith
length-le-frames codec (body ∷ bodies) = omega (
  arith,
  length-le-frames codec bodies,
  length-append (frame codec body) (frames codec bodies),
  length-append (frame_header codec (length body)) body,
  length-frame_header codec (length body),
)

receive_all-append :
    (wire : Wire) (xs ys : List Bytes) (s : Session)
    → let (s', before) = receive_all wire xs s in
      let (s'', after) = receive_all wire ys s' in
      receive_all wire (xs ++ ys) s ≡ (s'', before ++ after)
receive_all-append wire [] ys s = refl
receive_all-append wire (x ∷ xs) ys s =
    rw (receive_all-append wire xs ys (receive_body wire x s).0) (rw append_assoc)

-- Handling a message neither starts nor closes the peer.
abbrev SameFlags : Session → Session → Type 0
SameFlags s t = (t.started ≡ s.started) × (t.closed ≡ s.closed)

handle_message-flags :
    (wire : Wire) (f : Fields) (s : Session) → SameFlags s (handle_message wire f s).0
unfolding handle_message handle_response handle_request handle_notification
handle_message-flags wire f s = ground arith

protocol_error-flags : (m : PeerMessage) (s : Session) → SameFlags s (handle_protocol_error m s).0
unfolding handle_protocol_error fail_all_pending
protocol_error-flags m s = (refl, refl)

handle_incoming-flags :
    (wire : Wire) (m : Json) (s : Session) → SameFlags s (handle_incoming wire m s).0
unfolding handle_incoming
handle_incoming-flags wire (obj f) s =
    ground (arith, handle_message-flags wire f s, protocol_error-flags malformed_message s)
handle_incoming-flags wire m s = protocol_error-flags malformed_message s

receive_body-flags :
    (wire : Wire) (body : Bytes) (s : Session) → SameFlags s (receive_body wire body s).0
receive_body-flags wire body s =
    go (decode_rpc_body wire.serializer wire.codec body wire.max_frame_bytes) refl
  where
    go :
        (r : Result CodecError Json)
        → decode_rpc_body wire.serializer wire.codec body wire.max_frame_bytes ≡ r
        → SameFlags s (receive_body wire body s).0
    go (ok m) e = unfold receive_body in rw (e, receive_body) (handle_incoming-flags wire m s)
    go (err x) e = unfold receive_body in rw (e, receive_body) (protocol_error-flags undecodable s)

receive_all-flags :
    (wire : Wire) (bodies : List Bytes) (s : Session) → SameFlags s (receive_all wire bodies s).0
receive_all-flags wire [] s = (refl, refl)
receive_all-flags wire (body ∷ bodies) s = ground (
  arith,
  receive_body-flags wire body s,
  receive_all-flags wire bodies (receive_body wire body s).0,
)

module _ (wire : Wire) (safe : wire.max_frame_bytes ≤ max_safe_integer) where
  -- The read buffer is empty again, and session and effects are those of the bodies.
  abbrev pub Read : Peer × List Effect → Session × List Effect → Type 0
  Read (p, es) (s, fs) = (p.reader.read_buffer ≡ []) × (p.session ≡ s) × (es ≡ fs)

  Waits-empty :
      (bodies : List Bytes) (x : Bytes)
      → AllFit wire.max_frame_bytes bodies
      → Waits wire.max_frame_bytes x
      → x ++ [] ≡ frames wire.codec bodies
      → (x ≡ []) × (bodies ≡ [])
  Waits-empty [] x fits waits e = (sym (append-nil x) ∙ e, refl)
  Waits-empty (body ∷ bodies) x fits waits e =
      let seen =
        front-frame wire.codec wire.max_frame_bytes safe body fits.0 (frames wire.codec bodies) in
      let same : x ≡ frame wire.codec body ++ frames wire.codec bodies = sym (append-nil x) ∙ e in
      clash waits (ap (front wire.max_frame_bytes) same ∙ seen)
    where
      clash :
          Waits wire.max_frame_bytes x
          → front wire.max_frame_bytes x ≡ whole_frame body (frames wire.codec bodies)
          → (x ≡ []) × (body ∷ bodies ≡ [])
      clash (inl a) b = cc
      clash (inr (n, a)) b = cc

  receive_data-frames :
      (finished : List Bytes) (part chunk : Bytes) (p : Peer)
      → p.reader.read_buffer ++ chunk ≡ frames wire.codec finished ++ part
      → AllFit wire.max_frame_bytes finished
      → Waits wire.max_frame_bytes part
      → p.session.started ≡ true
      → p.session.closed ≡ false
      → let (p', es) = receive_data wire chunk p in
        let (s', fs) = receive_all wire finished p.session in
        (p'.reader.read_buffer ≡ part) × (p'.session ≡ s') × (es ≡ fs)
  unfolding receive_data
  receive_data-frames finished part chunk p e fits waits on live =
      let b = frames wire.codec finished ++ part in
      let drained =
        drain-frames wire safe finished part (suc (length b)) p.reader.expected_frame_length
          p.session fits waits
          (omega (
            arith,
            length-append (frames wire.codec finished) part,
            length-le-frames wire.codec finished,
          )) in
      simp (on, live)
        (subst
          (λ c.
            Drained wire safe
              (drain_frames wire (suc (length c)) (record p.reader { read_buffer = c }) p.session)
              part (receive_all wire finished p.session))
          (sym e) drained)

  feed-frames :
      (chunks bodies : List Bytes) (p : Peer)
      → AllFit wire.max_frame_bytes bodies
      → Waits wire.max_frame_bytes p.reader.read_buffer
      → p.reader.read_buffer ++ concat chunks ≡ frames wire.codec bodies
      → p.session.started ≡ true
      → p.session.closed ≡ false
      → Read (feed wire chunks p) (receive_all wire bodies p.session)
  feed-frames [] bodies p fits waits e on live =
      let (empty, none_left) = Waits-empty bodies p.reader.read_buffer fits waits e in
      rw none_left (empty, refl, refl)
  feed-frames (chunk ∷ chunks) bodies p fits waits e on live =
      let x = p.reader.read_buffer ++ chunk in
      let parts =
        Split-frames wire.codec wire.max_frame_bytes safe bodies x (concat chunks) fits
          (append_assoc p.reader.read_buffer chunk (concat chunks) ∙ e) in
      let fit = subst (AllFit wire.max_frame_bytes) parts.bodies_eq fits in
      let p' = (receive_data wire chunk p).0 in
      let now = receive_all wire parts.finished p.session in
      let (left, kept, done_) =
        receive_data-frames parts.finished parts.part chunk p parts.read_eq
          (AllFit-append_left wire.max_frame_bytes parts.finished parts.todo fit) parts.waits on
          live in
      let (still_on, still_live) = receive_all-flags wire parts.finished p.session in
      let (empty, last, more) =
        feed-frames chunks parts.todo p'
          (AllFit-append_right wire.max_frame_bytes parts.finished parts.todo fit)
          (subst (Waits wire.max_frame_bytes) (sym left) parts.waits)
          (ap (λ b. b ++ concat chunks) left ∙ parts.rest_eq)
          (ap (λ s. s.started) kept ∙ still_on ∙ on)
          (ap (λ s. s.closed) kept ∙ still_live ∙ live) in
      let after : (s : Session) → Session × List Effect = λ s. receive_all wire parts.todo s in
      let total : receive_all wire bodies p.session ≡ ((after now.0).0, now.1 ++ (after now.0).1) =
        ap (λ l. receive_all wire l p.session) parts.bodies_eq
        ∙ receive_all-append wire parts.finished parts.todo p.session in
      (
        empty,
        last ∙ ap (λ s. (after s).0) kept ∙ sym (ap (λ r. r.0) total),
        ap (λ es. es ++ (feed wire chunks p').1) done_
            ∙ ap (λ es. now.1 ++ es) (more ∙ ap (λ s. (after s).1) kept)
            ∙ sym (ap (λ r. r.1) total),
      )

-- A started and open peer with an empty buffer reads a row of frames whose bodies fit, cut into
-- chunks anywhere: it ends with an empty buffer, and with the session and the effects of the bodies
-- handled one after the other.
pub feed_any_chunks :
    (wire : Wire) (chunks bodies : List Bytes) (p : Peer)
    → wire.max_frame_bytes ≤ max_safe_integer
    → AllFit wire.max_frame_bytes bodies
    → p.reader.read_buffer ≡ []
    → p.session.started ≡ true
    → p.session.closed ≡ false
    → concat chunks ≡ frames wire.codec bodies
    → let (p', effects) = feed wire chunks p in
      let (s, expected) = receive_all wire bodies p.session in
      (p'.reader.read_buffer ≡ []) × (p'.session ≡ s) × (effects ≡ expected)
feed_any_chunks wire chunks bodies p safe fits empty on live e =
    feed-frames wire safe chunks bodies p fits
      (subst (Waits wire.max_frame_bytes) (sym empty)
        (inl (unfold front find_frame_header_end in refl)))
      (ap (λ b. b ++ concat chunks) empty ∙ e) on live
