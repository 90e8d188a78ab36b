-- ===== src/FullWorkflow/Store.antt =====
-- What the full workflow writes outside its state: the state file of each parent session, and the
-- rows of the sessions, workflow-state and runtime-event repositories. An operation is a function of
-- this world that returns or throws; what it wrote before it throws stays.
use Prim.Native.String.{String}
use dh_kit.Kit.{
  lookup, save, ℕ, ◌+◌, Bool, true, false, Option, none, some, List, [], ◌∷◌, ◌++◌, map, keep,
  Result, ok, err,
}
use dh_kit.FullWorkflow.Types.{
  FullWorkflowRoleId, FullWorkflowStage, FullWorkflowState, FullWorkflowChildSession,
  FullWorkflowAuditRecord, child_running, child_complete, EventType, Status, running, blocked,
  complete, next_stage,
}

pub data FullWorkflowError : Type 0 where
  objective_required : FullWorkflowError
  parent_not_found : String → FullWorkflowError
  gate_cannot_advance : FullWorkflowError
  subagent_failed context_failed : FullWorkflowError

pub data SessionStatus : Type 0 where
  session_in_progress session_blocked session_complete : SessionStatus

-- The fields of the session row that depend on the state; the lane is "full" and locked.
pub record SessionRow : Type 0 where
  pub current_stage : FullWorkflowStage
  pub status : SessionStatus
  pub created_at : String
  pub updated_at : String
  pub active_work_item_ids : List String

pub data StageStatus : Type 0 where
  stage_in_progress stage_blocked stage_passed : StageStatus

-- The row of the workflow state; `gateStatus` is "pending" and there is no previous stage.
pub record WorkflowRow : Type 0 where
  pub stage : FullWorkflowStage
  pub stage_status : StageStatus
  pub next_stage : Option FullWorkflowStage
  pub blockers : List String

-- `ticks` counts the calls of `createId` and `nowIso`.
pub record World : Type 0 where
  pub ticks : ℕ
  pub files : List (String × FullWorkflowState)
  pub sessions : List (String × SessionRow)
  pub workflows : List (String × WorkflowRow)
  pub events : List (String × FullWorkflowAuditRecord)

abbrev pub M : Type 0 → Type 0
M A = World → Result FullWorkflowError A × World

infixl 5 ◌>>=◌ ◌>>◌
abbrev pub ◌>>=◌ : {A B : Type 0} → M A → (A → M B) → M B
◌>>=◌ m f w = let (r, w') = m w in elim r [ ok a ↦ f a w' | err e ↦ (err e, w') ]

abbrev pub ◌>>◌ : {A B : Type 0} → M A → M B → M B
m >> k = m >>= λ _. k

abbrev pub pure : {A : Type 0} → A → M A
pure a w = (ok a, w)

abbrev pub throw : {A : Type 0} → FullWorkflowError → M A
throw e w = (err e, w)

-- What the host supplies: `String.prototype.trim`, the random ids and the clock, the subagent's
-- answer and the context planner's ledger id (`none` is an exception).
pub record Host : Type 0 where
  pub trim : String → String
  pub create_id : String → ℕ → String
  pub now_iso : ℕ → String
  pub subagent : FullWorkflowRoleId → FullWorkflowStage → String → Option String
  pub inspect_context : String → Option String

abbrev pub session_status : Status → SessionStatus
session_status complete = session_complete
session_status blocked = session_blocked
session_status running = session_in_progress

abbrev pub stage_status_of : Status → StageStatus
stage_status_of complete = stage_passed
stage_status_of blocked = stage_blocked
stage_status_of running = stage_in_progress

abbrev is_running : FullWorkflowChildSession → Bool
is_running child = elim child.status [ child_running ↦ true | child_complete ↦ false ]

unfoldable pub session_row : FullWorkflowState → SessionRow
session_row state = record {
  current_stage = state.current_stage;
  status = session_status state.status;
  created_at = state.created_at;
  updated_at = state.updated_at;
  active_work_item_ids = map (λ child. child.id) (keep is_running state.child_sessions);
}

unfoldable pub workflow_row : FullWorkflowState → WorkflowRow
workflow_row state = record {
  stage = state.current_stage;
  stage_status = stage_status_of state.status;
  next_stage = next_stage state.current_stage;
  blockers = map (λ issue. issue.finding) state.reroute_issues;
}

unfoldable pub persist_parent_session : FullWorkflowState → M (Unit {0})
persist_parent_session state w = (
  ok tt,
  record w {
    sessions = save state.parent_session_id (session_row state) w.sessions;
    workflows = save state.parent_session_id (workflow_row state) w.workflows;
  },
)

unfoldable pub write_state : FullWorkflowState → M (Unit {0})
write_state state w = (ok tt, record w { files = save state.parent_session_id state w.files })

unfoldable pub read_state : String → M FullWorkflowState
read_state parent_session_id w = elim (lookup parent_session_id w.files) [
  | none ↦ (err (parent_not_found parent_session_id), w)
  | some state ↦ (ok state, w)
]

module _ (host : Host) where
  unfoldable pub create_id : String → M String
  create_id prefix w = (ok (host.create_id prefix w.ticks), record w { ticks = w.ticks + 1 })

  unfoldable pub now_iso : M String
  now_iso w = (ok (host.now_iso w.ticks), record w { ticks = w.ticks + 1 })

  unfoldable pub save_event : String → FullWorkflowAuditRecord → M (Unit {0})
  save_event session_id event w =
      (ok tt, record w { events = w.events ++ ((session_id, event) ∷ []) })

  -- The record goes to the state's audit and to the runtime events.
  unfoldable pub record_audit :
      FullWorkflowState → EventType → FullWorkflowRoleId → FullWorkflowStage → M FullWorkflowState
  unfolding create_id now_iso save_event
  record_audit state event_type role stage = do
    id ← create_id "audit"
    created_at ← now_iso
    let event : FullWorkflowAuditRecord = record {
      id = id;
      event_type = event_type;
      role = role;
      stage = stage;
      created_at = created_at;
    }
    save_event state.parent_session_id event
    pure (record state { audit = state.audit ++ (event ∷ []) })
