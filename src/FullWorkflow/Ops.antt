-- ===== src/FullWorkflow/Ops.antt =====
-- The exported operations of full-workflow-runtime.ts.
use Prim.Native.String.{String}
use text.Mathlib.Text.{◌==◌ as str_eq}
use dh_kit.Kit.{ℕ, Option, none, some, List, [], ◌∷◌, ◌++◌, if◌then◌else◌, any, ok, err}
use dh_kit.FullWorkflow.Types.{
  FullWorkflowRoleId, master_orchestrator, product_lead, context_scout, FullWorkflowStage,
  full_intake, full_product, full_done, FullWorkflowApprovalGateId, FullWorkflowState,
  FullWorkflowChildSession, FullWorkflowArtifact, FullWorkflowApproval, FullWorkflowRerouteIssue,
  child_running, child_complete, Decision, approve, reject, full_started, full_role_started,
  full_role_finished, full_gate_approved, full_gate_rejected, full_rerouted, full_closed, running,
  blocked, complete, role_permission, stage_eq, approval_gate, owner_for_stage, status_at, is_done,
}
use dh_kit.FullWorkflow.Store.{
  Host, M, pure, throw, ◌>>=◌, ◌>>◌, objective_required, gate_cannot_advance, subagent_failed,
  context_failed, persist_parent_session, write_state, read_state, create_id, now_iso, record_audit,
}

-- `[...new Set([...refs, ref])]`, for references that stand once.
abbrev add_ref : List String → String → List String
add_ref refs ref = if any (λ r. str_eq r ref) refs then refs else refs ++ (ref ∷ [])

-- The last statements of an operation: the state is written and returned.
unfoldable pub save_file : FullWorkflowState → M FullWorkflowState
save_file state = do write_state state; pure state

unfoldable pub save_all : FullWorkflowState → M FullWorkflowState
save_all state = do persist_parent_session state; write_state state; pure state

-- The state that `startFullWorkflow` builds.
abbrev pub initial_state : String → String → ℕ → String → FullWorkflowState
initial_state parent_session_id objective workers timestamp = record {
  parent_session_id = parent_session_id;
  objective = objective;
  current_stage = full_product;
  current_owner = product_lead;
  status = running;
  child_sessions = [];
  approvals = [];
  artifacts = [];
  reroute_issues = [];
  evidence_ledger_refs = [];
  audit = [];
  max_read_only_workers = workers;
  created_at = timestamp;
  updated_at = timestamp;
}

-- A report is the state.
abbrev pub inspect_full_workflow : String → M FullWorkflowState
inspect_full_workflow parent_session_id = read_state parent_session_id

module _ (host : Host) where
  -- Only the context scout inspects the context.
  unfoldable pub scout : FullWorkflowRoleId → FullWorkflowState → M FullWorkflowState
  scout context_scout state w = elim (host.inspect_context state.objective) [
    | none ↦ (err context_failed, w)
    | some ref ↦
        (ok (record state { evidence_ledger_refs = add_ref state.evidence_ledger_refs ref }), w)
  ]
  scout _ state w = (ok state, w)

  unfoldable pub run_subagent_task : FullWorkflowRoleId → FullWorkflowStage → String → M String
  run_subagent_task role stage objective w = elim (host.subagent role stage objective) [
    | none ↦ (err subagent_failed, w)
    | some summary ↦ (ok summary, w)
  ]

  -- The child is shared with the list: once the task is done its entry, the last, is complete.
  unfoldable pub run_role_task :
      FullWorkflowState → FullWorkflowRoleId → FullWorkflowStage → M FullWorkflowState
  run_role_task state role stage = do
    child_id ← create_id host "child-session"
    let child : FullWorkflowChildSession = record {
      id = child_id;
      role = role;
      stage = stage;
      status = child_running;
      permission = role_permission role;
      summary = none;
    }
    let others = state.child_sessions
    started ←
        record_audit host (record state { child_sessions = others ++ (child ∷ []) })
          full_role_started role stage
    scouted ← scout role started
    summary ← run_subagent_task role stage scouted.objective
    artifact_id ← create_id host "artifact"
    created_at ← now_iso host
    let artifact : FullWorkflowArtifact = record {
      id = artifact_id;
      role = role;
      stage = stage;
      summary = summary;
      evidence_refs = scouted.evidence_ledger_refs;
      created_at = created_at;
    }
    finished ←
        record_audit host
          (record scouted {
            child_sessions =
                others ++ (record child { status = child_complete; summary = some summary } ∷ []);
            artifacts = scouted.artifacts ++ (artifact ∷ []);
          })
          full_role_finished role stage
    updated_at ← now_iso host
    pure (record finished { updated_at = updated_at })

  unfoldable pub start_full_workflow : String → ℕ → M FullWorkflowState
  start_full_workflow given_objective workers =
      let objective = host.trim given_objective in
      if str_eq objective "" then throw objective_required else do
        timestamp ← now_iso host
        parent_session_id ← create_id host "session"
        let state = initial_state parent_session_id objective workers timestamp
        persist_parent_session state
        audited ← record_audit host state full_started master_orchestrator full_intake
        final ← run_role_task audited product_lead full_product
        save_file final

  -- The rejection of a gate.
  unfoldable pub reject_gate : FullWorkflowState → String → M FullWorkflowState
  reject_gate state timestamp = do
    final ←
        record_audit host (record state { status = blocked; updated_at = timestamp })
          full_gate_rejected state.current_owner state.current_stage
    save_file final

  unfoldable pub run_stage_task : FullWorkflowState → FullWorkflowStage → M FullWorkflowState
  run_stage_task state stage =
      if is_done stage then pure state else run_role_task state state.current_owner stage

  unfoldable pub approve_gate : FullWorkflowState → FullWorkflowStage → String → M FullWorkflowState
  approve_gate state to_stage timestamp = do
    audited ←
        record_audit host
          (record state {
            current_stage = to_stage;
            current_owner = owner_for_stage to_stage;
            status = status_at to_stage;
            updated_at = timestamp;
          })
          full_gate_approved (owner_for_stage to_stage) to_stage
    final ← run_stage_task audited to_stage
    save_all final

  abbrev pub decide :
      Decision → FullWorkflowState → FullWorkflowStage → String → M FullWorkflowState
  decide approve state to_stage timestamp = approve_gate state to_stage timestamp
  decide reject state to_stage timestamp = reject_gate state timestamp

  unfoldable pub record_decision :
      FullWorkflowApprovalGateId
      → Decision
      → Option String
      → FullWorkflowState
      → M FullWorkflowState
  record_decision gate_id decision reason state = do
    timestamp ← now_iso host
    let approval : FullWorkflowApproval = record {
      gate_id = gate_id;
      decision = decision;
      reason = reason;
      created_at = timestamp;
    }
    decide decision (record state { approvals = state.approvals ++ (approval ∷ []) })
        (approval_gate gate_id).to_stage timestamp

  unfoldable pub advance_full_workflow :
      String → FullWorkflowApprovalGateId → Decision → Option String → M FullWorkflowState
  advance_full_workflow parent_session_id gate_id decision reason = do
    state ← read_state parent_session_id
    if stage_eq (approval_gate gate_id).from_stage state.current_stage
        then record_decision gate_id decision reason state
        else throw gate_cannot_advance

  -- Each of the operations below reads the state file and goes on with the state.
  -- The stages are a closed type, as the gates are, so the tests for an unknown one fall away.
  unfoldable pub reroute_state :
      String → FullWorkflowStage → FullWorkflowState → M FullWorkflowState
  reroute_state finding target_stage state = do
    timestamp ← now_iso host
    id ← create_id host "reroute"
    let issue : FullWorkflowRerouteIssue = record {
      id = id;
      finding = finding;
      target_stage = target_stage;
      created_at = timestamp;
    }
    final ←
        record_audit host
          (record state {
            reroute_issues = state.reroute_issues ++ (issue ∷ []);
            current_stage = target_stage;
            current_owner = owner_for_stage target_stage;
            status = status_at target_stage;
            updated_at = timestamp;
          })
          full_rerouted (owner_for_stage target_stage) target_stage
    save_all final

  unfoldable pub reroute_full_workflow : String → String → FullWorkflowStage → M FullWorkflowState
  reroute_full_workflow parent_session_id finding target_stage =
      read_state parent_session_id >>= reroute_state finding target_stage

  unfoldable pub block_state : String → FullWorkflowState → M FullWorkflowState
  block_state reason state = do
    timestamp ← now_iso host
    id ← create_id host "reroute"
    let issue : FullWorkflowRerouteIssue = record {
      id = id;
      finding = reason;
      target_stage = state.current_stage;
      created_at = timestamp;
    }
    final ←
        record_audit host
          (record state {
            status = blocked;
            reroute_issues = state.reroute_issues ++ (issue ∷ []);
            updated_at = timestamp;
          })
          full_gate_rejected state.current_owner state.current_stage
    save_all final

  unfoldable pub block_full_workflow : String → String → M FullWorkflowState
  block_full_workflow parent_session_id reason = read_state parent_session_id >>= block_state reason

  -- `role` is the context scout or the summarizer; with no stage given it is the current one.
  unfoldable pub support_state :
      FullWorkflowRoleId → Option FullWorkflowStage → FullWorkflowState → M FullWorkflowState
  support_state role stage state = do
    final ← run_role_task state role (elim stage [ none ↦ state.current_stage | some s ↦ s ])
    save_file final

  unfoldable pub run_full_workflow_support_role :
      String → FullWorkflowRoleId → Option FullWorkflowStage → M FullWorkflowState
  run_full_workflow_support_role parent_session_id role stage =
      read_state parent_session_id >>= support_state role stage

  unfoldable pub close_state : FullWorkflowState → M FullWorkflowState
  close_state state = do
    timestamp ← now_iso host
    final ←
        record_audit host
          (record state {
            current_stage = full_done;
            current_owner = master_orchestrator;
            status = complete;
            updated_at = timestamp;
          })
          full_closed master_orchestrator full_done
    save_all final

  unfoldable pub close_full_workflow : String → M FullWorkflowState
  close_full_workflow parent_session_id = read_state parent_session_id >>= close_state
