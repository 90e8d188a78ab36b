-- ===== src/Peer/Lifecycle.antt =====
-- What holds of a closed peer for good, and what happens to a request at a malformed answer.
use dh_kit.Kit.{◌∙◌, ap, ℕ, ◌<◌, ◌≡◌, All, refl, true, false, none, some, List, [], ◌∷◌, arith}
use dh_kit.Json.{Fields, null, num, get}
use dh_kit.Peer.State.{
  PendingRequest, PeerError, Effect, rejected, closed_kind, peer_was_closed, plain_error, stranded,
  Session, Peer, find_pending, delete_pending, reject_all, fail_all_pending, handle_protocol_error,
}
use dh_kit.Peer.Incoming.{Wire, finish_notification, handle_response, settle}
use dh_kit.Peer.Ops.{
  Input, expire, fail_write, end_input, close_peer, fail_input, send_request, send_notification,
  receive_data, step, run, start, close,
}
use dh_kit.Peer.Accounting.{count_pending, count_settled, delete_pending-count, find_pending-id}
use dh_kit.Peer.Conservation.{run-Balance}

-- Closed, with nothing waiting.
abbrev pub IsShut : Session → Type 0
IsShut s = (s.closed ≡ true) × (s.pending ≡ [])

abbrev Unlinked : Session → Session → Type 0
Unlinked s t = IsShut t × (t.next_request_id ≡ s.next_request_id)

fail_all_pending-shut :
    (e : PeerError) (s : Session) → s.closed ≡ true → Unlinked s (fail_all_pending e s).0
unfolding fail_all_pending
fail_all_pending-shut e s h = ((h, refl), refl)

step-shut :
    (wire : Wire) (input : Input) (p : Peer)
    → IsShut p.session
    → Unlinked p.session (step wire input p).0.session
unfolding step send_request send_notification close_peer receive_data fail_input expire fail_write
    find_pending finish_notification handle_protocol_error fail_all_pending end_input
step-shut wire start p h = ground arith
step-shut wire input p h = ground arith

run-shut :
    (wire : Wire) (inputs : List Input) (p : Peer)
    → IsShut p.session
    → Unlinked p.session (run wire inputs p).0.session
unfolding run
run-shut wire [] p h = (h, refl)
run-shut wire (input ∷ inputs) p h =
    let a = step-shut wire input p h in
    let b = run-shut wire inputs (step wire input p).0 a.0 in (b.0, b.1 ∙ a.1)

reject_all-settled :
    (e : PeerError) (i : ℕ) (rs : List PendingRequest)
    → count_settled i (reject_all e rs) ≡ count_pending i rs
unfolding reject_all
reject_all-settled e i [] = refl
reject_all-settled e i (r ∷ rs) = omega (arith, reject_all-settled e i rs)

-- The effect is the rejection of one request's promise with `PEER_CLOSED`.
abbrev pub IsClosingRejection : Effect → Type 0
IsClosingRejection effect =
    (i : ℕ) × (effect ≡ rejected i (plain_error closed_kind none peer_was_closed))

reject_all-IsClosingRejection :
    (rs : List PendingRequest)
    → All IsClosingRejection (reject_all (plain_error closed_kind none peer_was_closed) rs)
unfolding reject_all
reject_all-IsClosingRejection [] = tt
reject_all-IsClosingRejection (r ∷ rs) = ((r.id, refl), reject_all-IsClosingRejection rs)

-- Closing an open peer has no effect but rejections with the error of a closed peer, one of each
-- waiting request for each time that it waits, and leaves none waiting; whatever inputs follow, the
-- peer stays closed, nothing waits, and no further number is given out.
pub close-final :
    (wire : Wire) (p : Peer) (inputs : List Input)
    → p.session.closed ≡ false
    → let (p', effects) = step wire close p in
      let later = (run wire inputs p').0.session in
      All IsClosingRejection effects
      × ((i : ℕ) → count_settled i effects ≡ count_pending i p.session.pending)
      × IsShut later
      × (later.next_request_id ≡ p.session.next_request_id)
unfolding step close_peer fail_all_pending
close-final wire p inputs live =
    let later = run-shut wire inputs (step wire close p).0 (simp live (refl, refl)) in
    (
      simp live (reject_all-IsClosingRejection p.session.pending),
      λ i. simp live (reject_all-settled _ i p.session.pending),
      later.0,
      later.1 ∙ simp live,
    )

-- A number that was given out and waits no more is settled by nothing that follows.
never_settled :
    (wire : Wire) (inputs : List Input) (q : Peer) (id : ℕ)
    → count_pending id q.session.pending ≡ 0
    → id < q.session.next_request_id
    → count_settled id (run wire inputs q).1 ≡ 0
never_settled wire inputs q id gone old =
    let b = (run-Balance wire id inputs q).balance in ground arith

-- A response whose `error` property is null strands the waiting request: its entry is deleted, and
-- no input that follows ever settles it. The number is one that was given out, and it waits once.
pub null_error-strands :
    (wire : Wire) (fields : Fields) (p : Peer) (id : ℕ) (r : PendingRequest) (inputs : List Input)
    → get "id" fields ≡ some (num id)
    → get "error" fields ≡ some null
    → find_pending id p.session.pending ≡ some r
    → count_pending id p.session.pending ≡ 1
    → id < p.session.next_request_id
    → let (s, effects) = handle_response fields p.session in
      (effects ≡ stranded id ∷ [])
      × (count_settled id (run wire inputs (record p { session = s })).1 ≡ 0)
unfolding handle_response settle
null_error-strands wire fields p id r inputs has_id has_error found once old =
    let same = find_pending-id id p.session.pending found in
    let (s, effects) = handle_response fields p.session in
    let out : handle_response fields p.session ≡ (
      record p.session { pending = delete_pending r.id p.session.pending },
      stranded r.id ∷ [],
    ) =
      simp (has_id, found, has_error, handle_response, settle) in
    let gone = delete_pending-count id id p.session.pending found in
    (
      ap (λ x. x.1) out ∙ ap (λ i. stranded i ∷ []) same,
      never_settled wire inputs (record p { session = s }) id
          (ap (λ x. count_pending id x.0.pending) out
            ∙ ap (λ i. count_pending id (delete_pending i p.session.pending)) same
            ∙ ground (arith, gone))
          (rw out old),
    )
