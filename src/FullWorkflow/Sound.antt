-- ===== src/FullWorkflow/Sound.antt =====
-- The well-formed states, and that every operation keeps all state files well-formed.
use dh_kit.Kit.{
  ◌≡◌, ◌≢◌, refl, sym, ap, ◌∙◌, List, [], ◌∷◌, arith, All, All-append, length, length-append,
}
use dh_kit.FullWorkflow.Types.{
  FullWorkflowRoleId, FullWorkflowStage, full_done, FullWorkflowState, FullWorkflowApproval,
  FullWorkflowChildSession, child_complete, running, blocked, complete, role_permission,
  owner_for_stage, status_at,
}
use dh_kit.FullWorkflow.Store.{World}
use dh_kit.FullWorkflow.Keep.{AllFiles}
use dh_kit.FullWorkflow.Role.{RoleDone}

abbrev pub IsFinished : FullWorkflowChildSession → Type 0
IsFinished child = (child.status ≡ child_complete) × (child.permission ≡ role_permission child.role)

-- The owner is the stage's, "complete" and "full_done" fit, every child has ended with its role's
-- permission, and each has left one artifact.
pub record IsSound (state : FullWorkflowState) : Type 0 where
  pub owned : state.current_owner ≡ owner_for_stage state.current_stage
  pub complete_done : state.status ≡ complete → state.current_stage ≡ full_done
  pub done_at_rest : state.current_stage ≡ full_done → state.status ≢ running
  pub children_finished : All IsFinished state.child_sessions
  pub outputs : length state.artifacts ≡ length state.child_sessions

abbrev pub AllSound : World → Type 0
AllSound w = AllFiles IsSound w

pub RoleDone-IsSound :
    (s : FullWorkflowState) (role : FullWorkflowRoleId) (t : FullWorkflowState)
    → IsSound s
    → RoleDone s role t
    → IsSound t
RoleDone-IsSound s role t sound d = record {
  owned = ground arith;
  complete_done = λ e. d.same_stage ∙ sound.complete_done (sym d.same_status ∙ e);
  done_at_rest = λ e f. sound.done_at_rest (sym d.same_stage ∙ e) (sym d.same_status ∙ f);
  children_finished = rw d.children (
      All-append IsFinished s.child_sessions (d.child ∷ []) sound.children_finished
        ((d.child_done, d.child_permission ∙ ap role_permission (sym d.child_role)), tt));
  outputs = omega (
    arith,
    ap length d.children,
    ap length d.outputs,
    length-append s.child_sessions (d.child ∷ []),
    length-append s.artifacts (d.artifact ∷ []),
  );
}

pub status_at-complete :
    (stage : FullWorkflowStage) → status_at stage ≡ complete → stage ≡ full_done
status_at-complete full_done e = refl
status_at-complete stage e = cc

status_at-running : (stage : FullWorkflowStage) → stage ≡ full_done → status_at stage ≢ running
status_at-running full_done e f = cc
status_at-running stage e f = cc

-- Entering a stage with its owner and its status.
pub enter-IsSound :
    (s t : FullWorkflowState) (stage : FullWorkflowStage)
    → IsSound s
    → t.current_stage ≡ stage
    → t.current_owner ≡ owner_for_stage stage
    → t.status ≡ status_at stage
    → t.child_sessions ≡ s.child_sessions
    → t.artifacts ≡ s.artifacts
    → IsSound t
enter-IsSound s t stage sound at owner st children artifacts = record {
  owned = owner ∙ ap owner_for_stage (sym at);
  complete_done = λ e. at ∙ status_at-complete stage (sym st ∙ e);
  done_at_rest = λ e f. status_at-running stage (sym at ∙ e) (sym st ∙ f);
  children_finished = rw children sound.children_finished;
  outputs = ap length artifacts ∙ sound.outputs ∙ ap length (sym children);
}

pub stay-IsSound :
    (s t : FullWorkflowState)
    → IsSound s
    → t.current_stage ≡ s.current_stage
    → t.current_owner ≡ s.current_owner
    → t.status ≡ blocked
    → t.child_sessions ≡ s.child_sessions
    → t.artifacts ≡ s.artifacts
    → IsSound t
stay-IsSound s t sound at owner st children artifacts = record {
  owned = owner ∙ sound.owned ∙ ap owner_for_stage (sym at);
  complete_done = λ e. cc;
  done_at_rest = λ e f. cc;
  children_finished = rw children sound.children_finished;
  outputs = ap length artifacts ∙ sound.outputs ∙ ap length (sym children);
}

pub with_approvals :
    (s : FullWorkflowState) (approvals : List FullWorkflowApproval)
    → IsSound s
    → IsSound (record s { approvals = approvals })
with_approvals s approvals sound = record {
  owned = sound.owned;
  complete_done = sound.complete_done;
  done_at_rest = sound.done_at_rest;
  children_finished = sound.children_finished;
  outputs = sound.outputs;
}
