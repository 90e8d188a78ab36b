-- ===== src/FullWorkflow/Rows.antt =====
-- The repository rows of a session beside its state file.
use Prim.Native.String.{String}
use mathlib.Core.Path.{subst}
use dh_kit.Kit.{
  lookup-save, lookup, some-eq, ◌≡◌, refl, sym, inl, inr, true, Bool-cases, Option, none, some,
  Result, ok, err, if◌then◌else◌,
}
use dh_kit.FullWorkflow.Types.{
  FullWorkflowRoleId, FullWorkflowStage, FullWorkflowApprovalGateId, FullWorkflowState, approve,
  reject, blocked, EventType, full_gate_approved, full_gate_rejected, full_rerouted, full_closed,
  master_orchestrator, full_done, owner_for_stage, stage_eq, approval_gate,
}
use dh_kit.FullWorkflow.Store.{
  World, FullWorkflowError, Host, M, ◌>>=◌, throw, gate_cannot_advance, session_row, workflow_row,
  persist_parent_session, write_state, read_state, create_id, now_iso, record_audit, save_event,
}
use dh_kit.FullWorkflow.Ops.{
  save_file, save_all, reject_gate, approve_gate, reroute_state, block_state, close_state,
  reroute_full_workflow, block_full_workflow, close_full_workflow, record_decision,
  advance_full_workflow, run_stage_task,
}
use dh_kit.FullWorkflow.Preserve.{
  Request, start_workflow, advance, reroute, block, support, close, perform,
}

-- The file and both rows of the state's session hold the state.
pub record Stored (state : FullWorkflowState) (w : World) : Type 0 where
  pub file : lookup state.parent_session_id w.files ≡ some state
  pub session : lookup state.parent_session_id w.sessions ≡ some (session_row state)
  pub workflow : lookup state.parent_session_id w.workflows ≡ some (workflow_row state)

abbrev pub StoredIfOk : Result FullWorkflowError FullWorkflowState × World → Type 0
StoredIfOk (ok state, w) = Stored state w
StoredIfOk (err e, w) = Unit

save_all-Stored : (s : FullWorkflowState) (w : World) → StoredIfOk (save_all s w)
unfolding save_all persist_parent_session write_state
save_all-Stored s w = record {
  file = lookup-save s.parent_session_id s w.files;
  session = lookup-save s.parent_session_id (session_row s) w.sessions;
  workflow = lookup-save s.parent_session_id (workflow_row s) w.workflows;
}

-- What ends in a stored state is stored, whatever comes before it.
then-Stored :
    {A : Type 0} (m : M A) (f : A → M FullWorkflowState) (w : World)
    → ((a : A) (v : World) → StoredIfOk (f a v))
    → StoredIfOk ((m >>= f) w)
then-Stored {A} m f w k = go (m w)
  where
    go :
        (r : Result FullWorkflowError A × World)
        → StoredIfOk (elim r.0 [ ok a ↦ f a r.1 | err e ↦ (err e, r.1) ])
    go (ok a, v) = k a v
    go (err e, v) = tt

-- The calls that end with a stored session: all that move, block or close a workflow but a rejection.
abbrev pub Moves : Request → Type 0
Moves (advance id gate decision reason) = decision ≡ approve
Moves (reroute id finding stage) = Unit
Moves (block id reason) = Unit
Moves (close id) = Unit
Moves _ = ⊥

audited-Stored :
    (host : Host) (s : FullWorkflowState) (e : EventType) (role : FullWorkflowRoleId)
    (stage : FullWorkflowStage) (w : World)
    → StoredIfOk ((record_audit host s e role stage >>= save_all) w)
audited-Stored host s e role stage w =
    then-Stored (record_audit host s e role stage) save_all w save_all-Stored

approve-Stored :
    (host : Host) (s : FullWorkflowState) (stage : FullWorkflowStage) (timestamp : String)
    (w : World)
    → StoredIfOk (approve_gate host s stage timestamp w)
unfolding approve_gate
approve-Stored host s stage timestamp w =
    then-Stored (record_audit host _ full_gate_approved (owner_for_stage stage) stage)
      (λ audited. run_stage_task host audited stage >>= save_all) w
      λ a v. then-Stored (run_stage_task host a stage) save_all v save_all-Stored

advance-Stored :
    (host : Host) (id : String) (gate : FullWorkflowApprovalGateId) (reason : Option String)
    (w : World)
    → StoredIfOk (advance_full_workflow host id gate approve reason w)
unfolding advance_full_workflow record_decision now_iso
advance-Stored host id gate reason w =
    then-Stored (read_state id)
      (λ s.
        if stage_eq (approval_gate gate).from_stage s.current_stage
        then record_decision host gate approve reason s
        else throw gate_cannot_advance)
      w
      λ s v. elim (Bool-cases (stage_eq (approval_gate gate).from_stage s.current_stage)) [
        | inl fits ↦ rw fits (approve-Stored host _ (approval_gate gate).to_stage _ _)
        | inr differs ↦ rw differs tt
      ]

-- A call that approves a gate, reroutes, blocks or closes, and that returns a state, leaves this state
-- in the session's file and in its session and workflow rows.
pub perform-StoredIfOk :
    (host : Host) (call : Request) (w : World) → Moves call → StoredIfOk (perform host call w)
unfolding perform reroute_full_workflow reroute_state block_full_workflow block_state
    close_full_workflow close_state now_iso create_id
perform-StoredIfOk host (advance id gate decision reason) w moves =
    subst (λ d. StoredIfOk (advance_full_workflow host id gate d reason w)) (sym moves)
      (advance-Stored host id gate reason w)
perform-StoredIfOk host (reroute id finding stage) w moves =
    then-Stored (read_state id) (reroute_state host finding stage) w
      λ s v. audited-Stored host _ full_rerouted (owner_for_stage stage) stage _
perform-StoredIfOk host (block id reason) w moves =
    then-Stored (read_state id) (block_state host reason) w
      λ s v. audited-Stored host _ full_gate_rejected s.current_owner s.current_stage _
perform-StoredIfOk host (close id) w moves =
    then-Stored (read_state id) (close_state host) w
      λ s v. audited-Stored host _ full_closed master_orchestrator full_done _
perform-StoredIfOk host (start_workflow objective workers) w moves = absurd moves
perform-StoredIfOk host (support id role stage) w moves = absurd moves

read-found :
    (id : String) (w : World) {state : FullWorkflowState}
    → lookup id w.files ≡ some state
    → read_state id w ≡ (ok state, w)
unfolding read_state
read-found id w found = rw (found, read_state) refl

-- What a rejection of `final` did: the file holds it, blocked, and the rows are as they were.
abbrev pub Rejected : World → Result FullWorkflowError FullWorkflowState × World → Type 0
Rejected w (ok final, v) =
    (final.status ≡ blocked)
    × (lookup final.parent_session_id v.files ≡ some final)
    × (v.sessions ≡ w.sessions)
    × (v.workflows ≡ w.workflows)
Rejected w (err e, v) = ⊥

reject-Rejected :
    (host : Host) (gate : FullWorkflowApprovalGateId) (reason : Option String)
    (state : FullWorkflowState) (w : World)
    → Rejected w (record_decision host gate reject reason state w)
unfolding record_decision reject_gate record_audit save_event create_id now_iso save_file
    write_state
reject-Rejected host gate reason state w =
    (refl, lookup-save state.parent_session_id _ w.files, refl, refl)

-- A call after a read that finds the state.
pub bind-found :
    (P : Result FullWorkflowError FullWorkflowState × World → Type 0) (m : M FullWorkflowState)
    (f : FullWorkflowState → M FullWorkflowState) (w : World) {state : FullWorkflowState}
    {v : World}
    → m w ≡ (ok state, v)
    → P (f state v)
    → P ((m >>= f) w)
bind-found P m f w e h =
    subst (λ r. P (elim r.0 [ ok a ↦ f a r.1 | err e ↦ (err e, r.1) ])) (sym e) h

-- A rejection of the gate at the current stage of a stored session returns a state that is blocked and
-- is in the session's file, but the session and workflow rows stay as they were.
pub advance-Rejected :
    (host : Host) (id : String) (gate : FullWorkflowApprovalGateId) (reason : Option String)
    (w : World) {state : FullWorkflowState}
    → lookup id w.files ≡ some state
    → stage_eq (approval_gate gate).from_stage state.current_stage ≡ true
    → Rejected w (perform host (advance id gate reject reason) w)
unfolding perform advance_full_workflow
advance-Rejected host id gate reason w {state} found fits =
    bind-found (Rejected w) (read_state id)
      (λ s.
        if stage_eq (approval_gate gate).from_stage s.current_stage
        then record_decision host gate reject reason s
        else throw gate_cannot_advance)
      w (read-found id w found) (rw fits (reject-Rejected host gate reason state w))

-- The session that a call names; a start names none.
abbrev pub session_of : Request → Option String
session_of (start_workflow objective workers) = none
session_of (advance id gate decision reason) = some id
session_of (reroute id finding stage) = some id
session_of (block id reason) = some id
session_of (support id role stage) = some id
session_of (close id) = some id

pub read-named :
    (named id : String) (w : World) {state : FullWorkflowState}
    → some named ≡ some id
    → lookup id w.files ≡ some state
    → read_state named w ≡ (ok state, w)
read-named named id w {state} names found =
    subst (λ i. read_state i w ≡ (ok state, w)) (sym (some-eq names)) (read-found id w found)
