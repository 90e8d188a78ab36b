-- ===== src/FullWorkflow/Role.antt =====
-- What `runRoleTask` does: it fails and leaves files and rows alone, or it adds one finished child and
-- one artifact.
use dh_kit.Kit.{◌≡◌, refl, inl, inr, some, Option-cases, [], ◌∷◌, ◌++◌, arith, Result, ok, err}
use dh_kit.FullWorkflow.Types.{
  FullWorkflowRoleId, context_scout, FullWorkflowStage, FullWorkflowState, FullWorkflowChildSession,
  FullWorkflowArtifact, child_complete, role_permission,
}
use dh_kit.FullWorkflow.Store.{World, Host, FullWorkflowError, create_id, now_iso, record_audit}
use dh_kit.FullWorkflow.Ops.{scout, run_subagent_task, run_role_task}

-- The fields that a role task leaves alone, and what it adds.
pub record RoleDone (state : FullWorkflowState) (role : FullWorkflowRoleId)
    (final : FullWorkflowState) : Type 0 where
  pub same_id : final.parent_session_id ≡ state.parent_session_id
  pub same_stage : final.current_stage ≡ state.current_stage
  pub same_owner : final.current_owner ≡ state.current_owner
  pub same_status : final.status ≡ state.status
  pub same_approvals : final.approvals ≡ state.approvals
  pub same_issues : final.reroute_issues ≡ state.reroute_issues
  pub child : FullWorkflowChildSession
  pub children : final.child_sessions ≡ state.child_sessions ++ (child ∷ [])
  pub child_done : child.status ≡ child_complete
  pub child_role : child.role ≡ role
  pub child_permission : child.permission ≡ role_permission role
  pub artifact : FullWorkflowArtifact
  pub outputs : final.artifacts ≡ state.artifacts ++ (artifact ∷ [])
  pub output_summary : some artifact.summary ≡ child.summary

-- What holds of the state that an operation returns, if it returns.
abbrev pub OnOk {ℓ} : {A : Type 0} → (A → Type ℓ) → Result FullWorkflowError A → Type ℓ
OnOk P (ok a) = P a
OnOk P (err e) = Unit

-- The files and the rows of a world.
pub record SameRows (w v : World) : Type 0 where
  pub same_files : v.files ≡ w.files
  pub same_sessions : v.sessions ≡ w.sessions
  pub same_workflows : v.workflows ≡ w.workflows

module _ (host : Host) where
  pub run_role_task-rows :
      (state : FullWorkflowState) (role : FullWorkflowRoleId) (stage : FullWorkflowStage)
      (w : World)
      → SameRows w (run_role_task host state role stage w).1
  unfolding run_role_task scout run_subagent_task record_audit create_id now_iso
  run_role_task-rows state context_scout stage w = ground arith
  run_role_task-rows state role stage w = ground arith

  pub run_role_task-RoleDone :
      (state : FullWorkflowState) (role : FullWorkflowRoleId) (stage : FullWorkflowStage)
      (w : World)
      → OnOk (RoleDone state role) (run_role_task host state role stage w).0
  run_role_task-RoleDone state context_scout stage w =
      elim (Option-cases (host.inspect_context state.objective)) [
        | inl missing ↦ unfold run_role_task scout record_audit create_id in rw (missing, scout) tt
        | inr (ref, found) ↦
            elim (Option-cases (host.subagent context_scout stage state.objective)) [
              | inl failed ↦
                  unfold run_role_task scout run_subagent_task record_audit in
                  rw (found, scout) (rw (failed, run_subagent_task) tt)
              | inr (summary, given) ↦
                  unfold run_role_task scout run_subagent_task record_audit in
                  rw (found, scout)
                    (rw (given, run_subagent_task)
                      (record {
                        same_id = refl;
                        same_stage = refl;
                        same_owner = refl;
                        same_status = refl;
                        same_approvals = refl;
                        same_issues = refl;
                        child = _;
                        children = refl;
                        child_done = refl;
                        child_role = refl;
                        child_permission = refl;
                        artifact = _;
                        outputs = refl;
                        output_summary = refl;
                      }))
            ]
      ]
  run_role_task-RoleDone state role stage w =
      elim (Option-cases (host.subagent role stage state.objective)) [
        | inl failed ↦
            unfold run_role_task scout run_subagent_task record_audit in
            rw (failed, run_subagent_task) tt
        | inr (summary, given) ↦
            unfold run_role_task scout run_subagent_task record_audit in
            rw (given, run_subagent_task)
              (record {
                same_id = refl;
                same_stage = refl;
                same_owner = refl;
                same_status = refl;
                same_approvals = refl;
                same_issues = refl;
                child = _;
                children = refl;
                child_done = refl;
                child_role = refl;
                child_permission = refl;
                artifact = _;
                outputs = refl;
                output_summary = refl;
              })
      ]
