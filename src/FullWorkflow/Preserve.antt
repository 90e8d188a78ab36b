-- ===== src/FullWorkflow/Preserve.antt =====
-- Every operation of the full workflow keeps all state files well-formed, whether it returns or throws.
use Prim.Native.String.{String}
use text.Mathlib.Text.{◌==◌ as str_eq}
use dh_kit.Kit.{
  ℕ, ◌≡◌, refl, inl, inr, Bool-cases, Option, List, [], ◌∷◌, Result, ok, err, if◌then◌else◌,
}
use dh_kit.FullWorkflow.Types.{
  FullWorkflowRoleId, FullWorkflowStage, full_done, FullWorkflowApprovalGateId, FullWorkflowState,
  EventType, full_gate_approved, full_gate_rejected, full_rerouted, full_closed, full_started,
  full_intake, full_product, product_lead, master_orchestrator, Decision, approve, reject, blocked,
  stage_eq, approval_gate, owner_for_stage, status_at, is_done,
}
use dh_kit.FullWorkflow.Store.{
  World, FullWorkflowError, Host, M, ◌>>=◌, throw, gate_cannot_advance, persist_parent_session,
  read_state, create_id, now_iso, record_audit,
}
use dh_kit.FullWorkflow.Keep.{Keeps, bind-Keeps, save_file-Keeps, save_all-Keeps, read_state-Keeps}
use dh_kit.FullWorkflow.Sound.{
  IsSound, AllSound, RoleDone-IsSound, enter-IsSound, stay-IsSound, with_approvals,
}
use dh_kit.FullWorkflow.Ops.{
  reroute_state, block_state, close_state, support_state, initial_state, save_file, save_all,
  run_role_task, start_full_workflow, reject_gate, run_stage_task, approve_gate, record_decision,
  advance_full_workflow, reroute_full_workflow, block_full_workflow, run_full_workflow_support_role,
  close_full_workflow,
}
use dh_kit.FullWorkflow.Role.{RoleDone, OnOk, run_role_task-rows, run_role_task-RoleDone}

fresh :
    (id objective : String) (workers : ℕ) (timestamp : String)
    → IsSound (initial_state id objective workers timestamp)
unfolding owner_for_stage
fresh id objective workers timestamp = record {
  owned = refl;
  complete_done = λ e. cc;
  done_at_rest = λ e f. cc;
  children_finished = tt;
  outputs = refl;
}

module _ (host : Host) where
  run_role_task-Keeps :
      (s : FullWorkflowState) (role : FullWorkflowRoleId) (stage : FullWorkflowStage) (w : World)
      → IsSound s
      → AllSound w
      → Keeps IsSound (run_role_task host s role stage w)
  run_role_task-Keeps s role stage w sound all = (
    imply (run_role_task host s role stage w).0 (run_role_task-RoleDone host s role stage w),
    rw (run_role_task-rows host s role stage w).same_files all,
  )
    where
      imply :
          (r : Result FullWorkflowError FullWorkflowState)
          → OnOk (RoleDone s role) r
          → OnOk IsSound r
      imply (ok t) d = RoleDone-IsSound s role t sound d
      imply (err e) d = tt

  record_audit-Keeps :
      (s : FullWorkflowState) (e : EventType) (role : FullWorkflowRoleId)
      (stage : FullWorkflowStage) (w : World)
      → IsSound s
      → AllSound w
      → Keeps IsSound (record_audit host s e role stage w)
  unfolding record_audit
  record_audit-Keeps s e role stage w sound all = (
    record {
      owned = sound.owned;
      complete_done = sound.complete_done;
      done_at_rest = sound.done_at_rest;
      children_finished = sound.children_finished;
      outputs = sound.outputs;
    },
    all,
  )

  -- An audit record and then more.
  audited-Keeps :
      (s : FullWorkflowState) (e : EventType) (role : FullWorkflowRoleId)
      (stage : FullWorkflowStage) (f : FullWorkflowState → M FullWorkflowState) (w : World)
      → IsSound s
      → AllSound w
      → ((t : FullWorkflowState) (v : World) → IsSound t → AllSound v → Keeps IsSound (f t v))
      → Keeps IsSound ((record_audit host s e role stage >>= f) w)
  audited-Keeps s e role stage f w sound all k =
      bind-Keeps IsSound (record_audit host s e role stage) f w
        (record_audit-Keeps s e role stage w sound all) k

  run_stage_task-Keeps :
      (s : FullWorkflowState) (stage : FullWorkflowStage) (w : World)
      → IsSound s
      → AllSound w
      → Keeps IsSound (run_stage_task host s stage w)
  unfolding run_stage_task
  run_stage_task-Keeps s stage w sound all = elim (Bool-cases (is_done stage)) [
    | inl yes_ ↦ rw yes_ (sound, all)
    | inr no_ ↦ rw no_ (run_role_task-Keeps s s.current_owner stage w sound all)
  ]

  reject_gate-Keeps :
      (s : FullWorkflowState) (timestamp : String) (w : World)
      → IsSound s
      → AllSound w
      → Keeps IsSound (reject_gate host s timestamp w)
  unfolding reject_gate
  reject_gate-Keeps s timestamp w sound all =
      audited-Keeps (record s { status = blocked; updated_at = timestamp }) full_gate_rejected
        s.current_owner s.current_stage save_file w
        (stay-IsSound s _ sound refl refl refl refl refl) all (save_file-Keeps IsSound)

  approve_gate-Keeps :
      (s : FullWorkflowState) (stage : FullWorkflowStage) (timestamp : String) (w : World)
      → IsSound s
      → AllSound w
      → Keeps IsSound (approve_gate host s stage timestamp w)
  unfolding approve_gate
  approve_gate-Keeps s stage timestamp w sound all =
      audited-Keeps
        (record s {
          current_stage = stage;
          current_owner = owner_for_stage stage;
          status = status_at stage;
          updated_at = timestamp;
        })
        full_gate_approved (owner_for_stage stage) stage
        (λ audited. run_stage_task host audited stage >>= save_all) w
        (enter-IsSound s _ stage sound refl refl refl refl refl) all
        (λ t v st al.
          bind-Keeps IsSound (run_stage_task host t stage) save_all v
            (run_stage_task-Keeps t stage v st al) (save_all-Keeps IsSound))

  record_decision-Keeps :
      (gate : FullWorkflowApprovalGateId) (d : Decision) (reason : Option String)
      (s : FullWorkflowState) (w : World)
      → IsSound s
      → AllSound w
      → Keeps IsSound (record_decision host gate d reason s w)
  unfolding record_decision now_iso
  record_decision-Keeps gate approve reason s w sound all =
      approve_gate-Keeps _ (approval_gate gate).to_stage _ _ (with_approvals s _ sound) all
  record_decision-Keeps gate reject reason s w sound all =
      reject_gate-Keeps _ _ _ (with_approvals s _ sound) all

  advance-Keeps :
      (id : String) (gate : FullWorkflowApprovalGateId) (d : Decision) (reason : Option String)
      (w : World)
      → AllSound w
      → Keeps IsSound (advance_full_workflow host id gate d reason w)
  unfolding advance_full_workflow
  advance-Keeps id gate d reason w all =
      bind-Keeps IsSound (read_state id)
        (λ s.
          if stage_eq (approval_gate gate).from_stage s.current_stage
          then record_decision host gate d reason s
          else throw gate_cannot_advance)
        w (read_state-Keeps IsSound id w all)
        λ s v sound al.
          elim (Bool-cases (stage_eq (approval_gate gate).from_stage s.current_stage)) [
            | inl fits ↦ rw fits (record_decision-Keeps gate d reason s v sound al)
            | inr differs ↦ rw differs (tt, al)
          ]

  reroute-Keeps :
      (id finding : String) (stage : FullWorkflowStage) (w : World)
      → AllSound w
      → Keeps IsSound (reroute_full_workflow host id finding stage w)
  unfolding reroute_full_workflow reroute_state now_iso create_id
  reroute-Keeps id finding stage w all =
      bind-Keeps IsSound (read_state id) (reroute_state host finding stage) w
        (read_state-Keeps IsSound id w all)
        λ s v sound al.
          audited-Keeps _ full_rerouted (owner_for_stage stage) stage save_all _
            (enter-IsSound s _ stage sound refl refl refl refl refl) al (save_all-Keeps IsSound)

  block-Keeps :
      (id reason : String) (w : World)
      → AllSound w
      → Keeps IsSound (block_full_workflow host id reason w)
  unfolding block_full_workflow block_state now_iso create_id
  block-Keeps id reason w all =
      bind-Keeps IsSound (read_state id) (block_state host reason) w
        (read_state-Keeps IsSound id w all)
        λ s v sound al.
          audited-Keeps _ full_gate_rejected s.current_owner s.current_stage save_all _
            (stay-IsSound s _ sound refl refl refl refl refl) al (save_all-Keeps IsSound)

  close-Keeps :
      (id : String) (w : World) → AllSound w → Keeps IsSound (close_full_workflow host id w)
  unfolding close_full_workflow close_state now_iso owner_for_stage
  close-Keeps id w all =
      bind-Keeps IsSound (read_state id) (close_state host) w (read_state-Keeps IsSound id w all)
        λ s v sound al.
          audited-Keeps _ full_closed master_orchestrator full_done save_all _
            (enter-IsSound s _ full_done sound refl refl refl refl refl) al (save_all-Keeps IsSound)

  support-Keeps :
      (id : String) (role : FullWorkflowRoleId) (stage : Option FullWorkflowStage) (w : World)
      → AllSound w
      → Keeps IsSound (run_full_workflow_support_role host id role stage w)
  unfolding run_full_workflow_support_role support_state
  support-Keeps id role stage w all =
      bind-Keeps IsSound (read_state id) (support_state host role stage) w
        (read_state-Keeps IsSound id w all)
        λ s v sound al.
          bind-Keeps IsSound (run_role_task host s role _) save_file v
            (run_role_task-Keeps s role _ v sound al) (save_file-Keeps IsSound)

  start-Keeps :
      (objective : String) (workers : ℕ) (w : World)
      → AllSound w
      → Keeps IsSound (start_full_workflow host objective workers w)
  unfolding start_full_workflow now_iso create_id persist_parent_session
  start-Keeps objective workers w all = elim (Bool-cases (str_eq (host.trim objective) "")) [
    | inl blank ↦ rw blank (tt, all)
    | inr given ↦ rw given (
        audited-Keeps _ full_started master_orchestrator full_intake
          (λ s. run_role_task host s product_lead full_product >>= save_file) _
          (fresh _ (host.trim objective) workers _) all
          (λ s v sound al.
            bind-Keeps IsSound (run_role_task host s product_lead full_product) save_file v
              (run_role_task-Keeps s product_lead full_product v sound al)
              (save_file-Keeps IsSound)))
  ]

-- A call of the module, as the command line makes them one after the other.
pub data Request : Type 0 where
  start_workflow : String → ℕ → Request
  advance : String → FullWorkflowApprovalGateId → Decision → Option String → Request
  reroute : String → String → FullWorkflowStage → Request
  block : String → String → Request
  support : String → FullWorkflowRoleId → Option FullWorkflowStage → Request
  close : String → Request

unfoldable pub perform : Host → Request → M FullWorkflowState
perform host (start_workflow objective workers) = start_full_workflow host objective workers
perform host (advance id gate decision reason) = advance_full_workflow host id gate decision reason
perform host (reroute id finding stage) = reroute_full_workflow host id finding stage
perform host (block id reason) = block_full_workflow host id reason
perform host (support id role stage) = run_full_workflow_support_role host id role stage
perform host (close id) = close_full_workflow host id

-- The world after a row of calls: one that throws leaves what it wrote.
unfoldable pub after : Host → List Request → World → World
after host [] w = w
after host (call ∷ calls) w = after host calls (perform host call w).1

-- A call keeps every state file well-formed, also when it throws, and the state that it returns is
-- well-formed.
pub perform-Keeps :
    (host : Host) (call : Request) (w : World) → AllSound w → Keeps IsSound (perform host call w)
unfolding perform
perform-Keeps host (start_workflow objective workers) w all =
    start-Keeps host objective workers w all
perform-Keeps host (advance id gate decision reason) w all =
    advance-Keeps host id gate decision reason w all
perform-Keeps host (reroute id finding stage) w all = reroute-Keeps host id finding stage w all
perform-Keeps host (block id reason) w all = block-Keeps host id reason w all
perform-Keeps host (support id role stage) w all = support-Keeps host id role stage w all
perform-Keeps host (close id) w all = close-Keeps host id w all

after-keeps :
    (host : Host) (calls : List Request) (w : World) → AllSound w → AllSound (after host calls w)
unfolding after
after-keeps host [] w all = all
after-keeps host (call ∷ calls) w all =
    after-keeps host calls (perform host call w).1 (perform-Keeps host call w all).1

-- After any calls on a world without state files, every state file is well-formed: the owner is the
-- stage's, the status "complete" is found only at "full_done", where "running" is not found, every
-- child has ended with the permission of its role, and there are as many artifacts as children.
pub after-AllSound :
    (host : Host) (calls : List Request) (w : World) → w.files ≡ [] → AllSound (after host calls w)
after-AllSound host calls w none_yet = after-keeps host calls w (rw none_yet tt)
