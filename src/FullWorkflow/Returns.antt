-- ===== src/FullWorkflow/Returns.antt =====
-- The calls that return, and what they then have stored.
use Prim.Native.String.{String}
use mathlib.Core.Path.{subst}
use dh_kit.Kit.{
  lookup-save, lookup, ◌≡◌, refl, sym, inl, inr, true, Bool-cases, some, Result, ok, err,
  if◌then◌else◌,
}
use dh_kit.FullWorkflow.Types.{
  status_at, is_done, solution_lead, fullstack_agent, code_reviewer, qa_agent, product_lead,
  full_product, full_solution, full_implementation, full_code_review, full_qa, full_intake,
  FullWorkflowRoleId, FullWorkflowStage, FullWorkflowState, approve, EventType, full_gate_approved,
  full_gate_rejected, full_rerouted, full_closed, master_orchestrator, full_done, owner_for_stage,
  stage_eq, approval_gate,
}
use dh_kit.FullWorkflow.Store.{
  World, FullWorkflowError, Host, ◌>>=◌, throw, gate_cannot_advance, session_row, workflow_row,
  persist_parent_session, write_state, read_state, create_id, now_iso, record_audit, save_event,
}
use dh_kit.FullWorkflow.Ops.{
  run_role_task, scout, run_subagent_task, save_all, approve_gate, reroute_state, block_state,
  close_state, reroute_full_workflow, block_full_workflow, close_full_workflow, record_decision,
  advance_full_workflow, run_stage_task,
}
use dh_kit.FullWorkflow.Preserve.{
  Request, start_workflow, advance, reroute, block, support, close, perform,
}
use dh_kit.FullWorkflow.Rows.{Stored, session_of, bind-found, read-named}

-- The call returned, and what it returned is stored.
abbrev pub StoredNow : Result FullWorkflowError FullWorkflowState × World → Type 0
StoredNow (ok state, w) = Stored state w
StoredNow (err e, w) = ⊥

save_all-StoredNow : (s : FullWorkflowState) (w : World) → StoredNow (save_all s w)
unfolding save_all persist_parent_session write_state
save_all-StoredNow s w = record {
  file = lookup-save s.parent_session_id s w.files;
  session = lookup-save s.parent_session_id (session_row s) w.sessions;
  workflow = lookup-save s.parent_session_id (workflow_row s) w.workflows;
}

-- The subagents always answer.
abbrev pub Answers : Host → Type 0
Answers host =
    (role : FullWorkflowRoleId) (stage : FullWorkflowStage) (objective : String)
    → (summary : String) × (host.subagent role stage objective ≡ some summary)

role_task-returns :
    (host : Host) (s : FullWorkflowState) (stage : FullWorkflowStage) (w : World)
    → Answers host
    → (t : FullWorkflowState) × ((v : World) × (run_role_task host s (owner_for_stage stage) stage w
          ≡ (ok t, v)))
unfolding run_role_task record_audit save_event create_id now_iso scout run_subagent_task
    owner_for_stage
role_task-returns host s full_product w answers =
    rw ((answers product_lead full_product s.objective).1, run_subagent_task) (_, (_, refl))
role_task-returns host s full_solution w answers =
    rw ((answers solution_lead full_solution s.objective).1, run_subagent_task) (_, (_, refl))
role_task-returns host s full_implementation w answers =
    rw ((answers fullstack_agent full_implementation s.objective).1, run_subagent_task)
      (_, (_, refl))
role_task-returns host s full_code_review w answers =
    rw ((answers code_reviewer full_code_review s.objective).1, run_subagent_task) (_, (_, refl))
role_task-returns host s full_qa w answers =
    rw ((answers qa_agent full_qa s.objective).1, run_subagent_task) (_, (_, refl))
role_task-returns host s full_intake w answers =
    rw ((answers master_orchestrator full_intake s.objective).1, run_subagent_task) (_, (_, refl))
role_task-returns host s full_done w answers =
    rw ((answers master_orchestrator full_done s.objective).1, run_subagent_task) (_, (_, refl))

stage_task-returns :
    (host : Host) (s : FullWorkflowState) (stage : FullWorkflowStage) (w : World)
    → Answers host
    → s.current_owner ≡ owner_for_stage stage
    → (t : FullWorkflowState) × ((v : World) × (run_stage_task host s stage w ≡ (ok t, v)))
unfolding run_stage_task
stage_task-returns host s stage w answers owner = elim (Bool-cases (is_done stage)) [
  | inl done ↦ rw done (s, (w, refl))
  | inr more ↦ rw more (
      subst
        (λ r.
          (t : FullWorkflowState) × ((v : World) × (run_role_task host s r stage w ≡ (ok t, v))))
        (sym owner) (role_task-returns host s stage w answers))
]

audit-returns :
    (host : Host) (s : FullWorkflowState) (e : EventType) (role : FullWorkflowRoleId)
    (stage : FullWorkflowStage) (w : World)
    → (t : FullWorkflowState) × ((v : World) × ((record_audit host s e role stage w ≡ (ok t, v))
          × (t.current_owner ≡ s.current_owner)))
unfolding record_audit save_event create_id now_iso
audit-returns host s e role stage w = (_, (_, (refl, refl)))

-- An audited state is written and returned.
audited-StoredNow :
    (host : Host) (s : FullWorkflowState) (e : EventType) (role : FullWorkflowRoleId)
    (stage : FullWorkflowStage) (w : World)
    → StoredNow ((record_audit host s e role stage >>= save_all) w)
audited-StoredNow host s e role stage w =
    let (t, (v, (found, owner))) = audit-returns host s e role stage w in
    bind-found StoredNow (record_audit host s e role stage) save_all w found
      (save_all-StoredNow t v)

approve-StoredNow :
    (host : Host) (s : FullWorkflowState) (stage : FullWorkflowStage) (timestamp : String)
    (w : World)
    → Answers host
    → StoredNow (approve_gate host s stage timestamp w)
unfolding approve_gate
approve-StoredNow host s stage timestamp w answers =
    let entered : FullWorkflowState = record s {
      current_stage = stage;
      current_owner = owner_for_stage stage;
      status = status_at stage;
      updated_at = timestamp;
    } in
    let (t, (v, (found, owner))) =
      audit-returns host entered full_gate_approved (owner_for_stage stage) stage w in
    let (u, (x, returned)) = stage_task-returns host t stage v answers owner in
    bind-found StoredNow
      (record_audit host entered full_gate_approved (owner_for_stage stage) stage)
      (λ audited. run_stage_task host audited stage >>= save_all) w found
      (bind-found StoredNow (run_stage_task host t stage) save_all v returned
        (save_all-StoredNow u x))

-- The calls below name a session and end with writing it; the gate must be the current stage's.
abbrev pub Proceeds : FullWorkflowState → Request → Type 0
Proceeds state (advance id gate decision reason) =
    (decision ≡ approve) × (stage_eq (approval_gate gate).from_stage state.current_stage ≡ true)
Proceeds state (reroute id finding stage) = Unit
Proceeds state (block id reason) = Unit
Proceeds state (close id) = Unit
Proceeds state _ = ⊥

-- Where the subagents always answer, an approval of the gate at the current stage, a reroute, a block
-- and a close of a stored session return a state, and this state is in the session's file and rows.
pub perform-StoredNow :
    (host : Host) (id : String) (call : Request) (w : World) {state : FullWorkflowState}
    → Answers host
    → session_of call ≡ some id
    → lookup id w.files ≡ some state
    → Proceeds state call
    → StoredNow (perform host call w)
unfolding perform advance_full_workflow record_decision reroute_full_workflow reroute_state
    block_full_workflow block_state close_full_workflow close_state now_iso create_id
perform-StoredNow host id (reroute given finding stage) w {state} answers names found goes =
    bind-found StoredNow (read_state given) (reroute_state host finding stage) w
      (read-named given id w names found)
      (audited-StoredNow host _ full_rerouted (owner_for_stage stage) stage _)
perform-StoredNow host id (block given reason) w {state} answers names found goes =
    bind-found StoredNow (read_state given) (block_state host reason) w
      (read-named given id w names found)
      (audited-StoredNow host _ full_gate_rejected state.current_owner state.current_stage _)
perform-StoredNow host id (close given) w {state} answers names found goes =
    bind-found StoredNow (read_state given) (close_state host) w (read-named given id w names found)
      (audited-StoredNow host _ full_closed master_orchestrator full_done _)
perform-StoredNow host id (advance given gate decision reason) w {state} answers names found
      (approves, fits) =
    subst (λ d. StoredNow (advance_full_workflow host given gate d reason w)) (sym approves)
      (bind-found StoredNow (read_state given)
        (λ s.
          if stage_eq (approval_gate gate).from_stage s.current_stage
          then record_decision host gate approve reason s
          else throw gate_cannot_advance)
        w (read-named given id w names found)
        (rw fits (approve-StoredNow host _ (approval_gate gate).to_stage _ _ answers)))
perform-StoredNow host id (start_workflow objective workers) w answers names found goes =
    absurd goes
perform-StoredNow host id (support given role stage) w answers names found goes = absurd goes
