-- ===== src/Peer/Accounting.antt =====
-- What becomes of each request number: it is waiting in `pending`, settled, or stranded.
use mathlib.Core.Path.{subst}
use dh_kit.Kit.{
  sym, ℕ, ◌+◌, ◌≡◌, refl, Option, none, some, List, [], ◌∷◌, ◌++◌, ◌==◌, if◌then◌else◌, arith, inl,
  inr, Option-cases,
}
use dh_kit.Json.{Json, Fields, num, get}
use dh_kit.Peer.State.{
  PendingRequest, PeerError, PeerMessage, Effect, resolved, rejected, stranded, Session,
  find_pending, delete_pending, reject_all, fail_all_pending, handle_protocol_error,
}
use dh_kit.Peer.Incoming.{
  Wire, settle, pending_for, handle_response, write_message, handle_request, handle_notification,
}

abbrev pub hits : ℕ → ℕ → ℕ
hits i j = if j == i then 1 else 0

abbrev pub count_pending : ℕ → List PendingRequest → ℕ
count_pending i [] = 0
count_pending i (r ∷ rs) = hits i r.id + count_pending i rs

abbrev settles : ℕ → Effect → ℕ
settles i (resolved j _) = hits i j
settles i (rejected j _) = hits i j
settles i _ = 0

abbrev strands : ℕ → Effect → ℕ
strands i (stranded j) = hits i j
strands i _ = 0

-- How often the effects settle, or strand, the request with a number.
abbrev pub count_settled : ℕ → List Effect → ℕ
count_settled i [] = 0
count_settled i (e ∷ es) = settles i e + count_settled i es

abbrev pub count_stranded : ℕ → List Effect → ℕ
count_stranded i [] = 0
count_stranded i (e ∷ es) = strands i e + count_stranded i es

abbrev pub count_out : ℕ → List Effect → ℕ
count_out i es = count_settled i es + count_stranded i es

pub count_out-append :
    (i : ℕ) (es fs : List Effect) → count_out i (es ++ fs) ≡ count_out i es + count_out i fs
count_out-append i [] fs = omega arith
count_out-append i (e ∷ es) fs = omega (arith, count_out-append i es fs)

pub count_pending-append :
    (i : ℕ) (rs qs : List PendingRequest)
    → count_pending i (rs ++ qs) ≡ count_pending i rs + count_pending i qs
count_pending-append i [] qs = omega arith
count_pending-append i (r ∷ rs) qs = omega (arith, count_pending-append i rs qs)

-- A session operation uses no number, and each entry that it takes out it settles or strands.
pub record Accounts (i : ℕ) (s : Session) (r : Session × List Effect) : Type 0 where
  pub same_next : r.0.next_request_id ≡ s.next_request_id
  pub balanced : count_pending i r.0.pending + count_out i r.1 ≡ count_pending i s.pending

count-reject_all :
    (i : ℕ) (e : PeerError) (rs : List PendingRequest)
    → count_out i (reject_all e rs) ≡ count_pending i rs
unfolding reject_all
count-reject_all i e [] = refl
count-reject_all i e (r ∷ rs) = omega (arith, count-reject_all i e rs)

pub fail_all_pending-Accounts :
    (i : ℕ) (e : PeerError) (s : Session) → Accounts i s (fail_all_pending e s)
unfolding fail_all_pending
fail_all_pending-Accounts i e s = record {
  same_next = refl;
  balanced = omega (arith, count-reject_all i e s.pending);
}

pub handle_protocol_error-Accounts :
    (i : ℕ) (m : PeerMessage) (s : Session) → Accounts i s (handle_protocol_error m s)
unfolding handle_protocol_error
handle_protocol_error-Accounts i m s = record {
  same_next = refl;
  balanced = omega (arith, count-reject_all i _ s.pending);
}

pub find_pending-id :
    (id : ℕ) (rs : List PendingRequest) {r : PendingRequest}
    → find_pending id rs ≡ some r
    → r.id ≡ id
unfolding find_pending
find_pending-id id [] e = cc
find_pending-id id (q ∷ rs) {r} e = ground (arith, find_pending-id id rs {r = r})

pub delete_pending-count :
    (i id : ℕ) (rs : List PendingRequest) {r : PendingRequest}
    → find_pending id rs ≡ some r
    → count_pending i (delete_pending id rs) + hits i id ≡ count_pending i rs
unfolding find_pending delete_pending
delete_pending-count i id [] e = cc
delete_pending-count i id (q ∷ rs) {r} e = ground (arith, delete_pending-count i id rs {r = r})

settle_one : (i : ℕ) (r : PendingRequest) (f : Fields) → count_out i (settle r f ∷ []) ≡ hits i r.id
unfolding settle
settle_one i r f = ground arith

-- Taking out the entry that was found, with one effect for it.
pub take_out-Accounts :
    (i id : ℕ) (s : Session) (r : PendingRequest) (e : Effect)
    → find_pending id s.pending ≡ some r
    → count_out i (e ∷ []) ≡ hits i id
    → Accounts i s (record s { pending = delete_pending id s.pending }, e ∷ [])
take_out-Accounts i id s r e found one = record {
  same_next = refl;
  balanced = omega (arith, delete_pending-count i id s.pending found);
}

pub quiet-Accounts :
    (i : ℕ) (s : Session) (es : List Effect) → count_out i es ≡ 0 → Accounts i s (s, es)
quiet-Accounts i s es h = record { same_next = refl; balanced = omega arith }

pub pending_for-found :
    (o : Option Json) (rs : List PendingRequest) {r : PendingRequest}
    → pending_for o rs ≡ some r
    → find_pending r.id rs ≡ some r
pending_for-found (some (num id)) rs {r} e =
    subst (λ k. find_pending k rs ≡ some r) (sym (find_pending-id id rs e)) e
pending_for-found none rs e = cc
pending_for-found (some _) rs e = cc

pub handle_response-Accounts :
    (i : ℕ) (f : Fields) (s : Session) → Accounts i s (handle_response f s)
unfolding handle_response
handle_response-Accounts i f s = elim (Option-cases (pending_for (get "id" f) s.pending)) [
  | inl missing ↦ rw (missing, handle_response) (quiet-Accounts i s [] refl)
  | inr (r, found) ↦
      rw (found, handle_response)
        (take_out-Accounts i r.id s r (settle r f) (pending_for-found (get "id" f) s.pending found)
          (settle_one i r f))
]

module _ (wire : Wire) (i : ℕ) where
  pub write_message-quiet : (m : Json) → count_out i (write_message wire m) ≡ 0
  unfolding write_message
  write_message-quiet m = ground arith

  pub handle_request-Accounts : (f : Fields) (s : Session) → Accounts i s (handle_request wire f s)
  unfolding handle_request
  handle_request-Accounts f s = ground arith

  pub handle_notification-Accounts :
      (f : Fields) (s : Session) → Accounts i s (handle_notification wire f s)
  unfolding handle_notification
  handle_notification-Accounts f s = ground arith
