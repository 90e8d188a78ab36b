-- ===== src/FullWorkflow/Gates.antt =====
-- The gates: without a reroute and without a close, a stage is reached only by the approvals of all
-- the gates before it, in their order.
use Prim.Native.String.{String}
use text.Mathlib.Text.{◌==◌ as str_eq}
use dh_kit.Kit.{
  append-nil, some-eq, ==_iff, get_elem?, ℕ, ◌≡◌, refl, sym, ap, ◌∙◌, inl, inr, true, Bool-cases,
  Option, some, List, [], ◌∷◌, ◌++◌, arith, Result, ok, err, All, if◌then◌else◌,
}
use dh_kit.FullWorkflow.Types.{
  FullWorkflowRoleId, FullWorkflowStage, full_solution, full_implementation, full_code_review,
  full_qa, full_workflow_stages, stage_number, full_done, FullWorkflowApprovalGateId,
  product_to_solution, solution_to_fullstack, fullstack_to_code_review, code_review_to_qa,
  qa_to_done, FullWorkflowState, FullWorkflowApproval, EventType, full_gate_approved,
  full_gate_rejected, full_started, full_intake, full_product, product_lead, master_orchestrator,
  Decision, approve, reject, stage_eq, approval_gate, owner_for_stage, is_done,
}
use dh_kit.FullWorkflow.Store.{
  World, FullWorkflowError, Host, M, ◌>>=◌, throw, gate_cannot_advance, persist_parent_session,
  read_state, create_id, now_iso, record_audit,
}
use dh_kit.FullWorkflow.Keep.{
  AllFiles, Keeps, bind-Keeps, save_file-Keeps, save_all-Keeps, read_state-Keeps,
}
use dh_kit.FullWorkflow.Preserve.{
  Request, start_workflow, advance, reroute, block, support, close, perform, after,
}
use dh_kit.FullWorkflow.Ops.{
  block_state, support_state, save_file, save_all, run_role_task, start_full_workflow, reject_gate,
  run_stage_task, approve_gate, record_decision, advance_full_workflow, block_full_workflow,
  run_full_workflow_support_role,
}
use dh_kit.FullWorkflow.Role.{RoleDone, OnOk, run_role_task-rows, run_role_task-RoleDone}

-- The gates that were approved, in the order of the approvals.
abbrev pub approved : List FullWorkflowApproval → List FullWorkflowApprovalGateId
approved [] = []
approved (a ∷ as_) =
    let rest = approved as_ in elim a.decision [ approve ↦ a.gate_id ∷ rest | reject ↦ rest ]

abbrev pub gates_before : FullWorkflowStage → List FullWorkflowApprovalGateId
gates_before full_intake = []
gates_before full_product = []
gates_before full_solution = product_to_solution ∷ []
gates_before full_implementation = product_to_solution ∷ solution_to_fullstack ∷ []
gates_before full_code_review =
    product_to_solution ∷ solution_to_fullstack ∷ fullstack_to_code_review ∷ []
gates_before full_qa =
    product_to_solution ∷ solution_to_fullstack ∷ fullstack_to_code_review ∷ code_review_to_qa ∷ []
gates_before full_done =
    product_to_solution ∷ solution_to_fullstack ∷ fullstack_to_code_review ∷ code_review_to_qa
    ∷ qa_to_done ∷ []

abbrev pub IsEarned : FullWorkflowState → Type 0
IsEarned state = approved state.approvals ≡ gates_before state.current_stage

approved-append :
    (as_ : List FullWorkflowApproval) (a : FullWorkflowApproval)
    → approved (as_ ++ (a ∷ [])) ≡ approved as_ ++ approved (a ∷ [])
approved-append [] a = refl
approved-append (b ∷ as_) a = ground (arith, approved-append as_ a)

-- An approved gate adds itself to the gates before its stage.
gates_step :
    (gate : FullWorkflowApprovalGateId)
    → gates_before (approval_gate gate).from_stage ++ (gate ∷ [])
      ≡ gates_before (approval_gate gate).to_stage
unfolding approval_gate
gates_step product_to_solution = refl
gates_step solution_to_fullstack = refl
gates_step fullstack_to_code_review = refl
gates_step code_review_to_qa = refl
gates_step qa_to_done = refl

stage_at_number : (s : FullWorkflowStage) → get_elem? full_workflow_stages (stage_number s) ≡ some s
stage_at_number full_intake = refl
stage_at_number full_product = refl
stage_at_number full_solution = refl
stage_at_number full_implementation = refl
stage_at_number full_code_review = refl
stage_at_number full_qa = refl
stage_at_number full_done = refl

stage_eq→eq : (s t : FullWorkflowStage) → stage_eq s t ≡ true → s ≡ t
stage_eq→eq s t h = some-eq (
    sym (stage_at_number s)
    ∙ ap (get_elem? full_workflow_stages) ((==_iff _ _).0 h)
    ∙ stage_at_number t)

module _ (host : Host) where
  role_task-Keeps :
      (s : FullWorkflowState) (role : FullWorkflowRoleId) (stage : FullWorkflowStage) (w : World)
      → IsEarned s
      → AllFiles IsEarned w
      → Keeps IsEarned (run_role_task host s role stage w)
  role_task-Keeps s role stage w earned all = (
    imply (run_role_task host s role stage w).0 (run_role_task-RoleDone host s role stage w),
    rw (run_role_task-rows host s role stage w).same_files all,
  )
    where
      imply :
          (r : Result FullWorkflowError FullWorkflowState)
          → OnOk (RoleDone s role) r
          → OnOk IsEarned r
      imply (ok t) d = ap approved d.same_approvals ∙ earned ∙ ap gates_before (sym d.same_stage)
      imply (err e) d = tt

  audit-Keeps :
      (s : FullWorkflowState) (e : EventType) (role : FullWorkflowRoleId)
      (stage : FullWorkflowStage) (f : FullWorkflowState → M FullWorkflowState) (w : World)
      → IsEarned s
      → AllFiles IsEarned w
      → ((t : FullWorkflowState) (v : World)
          → IsEarned t
          → AllFiles IsEarned v
          → Keeps IsEarned (f t v))
      → Keeps IsEarned ((record_audit host s e role stage >>= f) w)
  audit-Keeps s e role stage f w earned all k =
      bind-Keeps IsEarned (record_audit host s e role stage) f w
        (unfold record_audit in (earned, all)) k

  stage_task-Keeps :
      (s : FullWorkflowState) (stage : FullWorkflowStage) (w : World)
      → IsEarned s
      → AllFiles IsEarned w
      → Keeps IsEarned (run_stage_task host s stage w)
  unfolding run_stage_task
  stage_task-Keeps s stage w earned all = elim (Bool-cases (is_done stage)) [
    | inl yes_ ↦ rw yes_ (earned, all)
    | inr no_ ↦ rw no_ (role_task-Keeps s s.current_owner stage w earned all)
  ]

  decision-Keeps :
      (gate : FullWorkflowApprovalGateId) (d : Decision) (reason : Option String)
      (s : FullWorkflowState) (w : World)
      → stage_eq (approval_gate gate).from_stage s.current_stage ≡ true
      → IsEarned s
      → AllFiles IsEarned w
      → Keeps IsEarned (record_decision host gate d reason s w)
  unfolding record_decision now_iso reject_gate approve_gate
  decision-Keeps gate reject reason s w fits earned all =
      audit-Keeps _ full_gate_rejected s.current_owner s.current_stage save_file _
        (approved-append s.approvals _ ∙ append-nil _ ∙ earned) all (save_file-Keeps IsEarned)
  decision-Keeps gate approve reason s w fits earned all =
      let here = stage_eq→eq (approval_gate gate).from_stage s.current_stage fits in
      let to_stage = (approval_gate gate).to_stage in
      audit-Keeps _ full_gate_approved (owner_for_stage to_stage) to_stage
        (λ audited. run_stage_task host audited to_stage >>= save_all) _
        (approved-append s.approvals _
          ∙ ap (λ l. l ++ (gate ∷ [])) (earned ∙ ap gates_before (sym here))
          ∙ gates_step gate)
        all
        (λ t v e al.
          bind-Keeps IsEarned (run_stage_task host t to_stage) save_all v
            (stage_task-Keeps t to_stage v e al) (save_all-Keeps IsEarned))

  advance-IsEarned :
      (id : String) (gate : FullWorkflowApprovalGateId) (d : Decision) (reason : Option String)
      (w : World)
      → AllFiles IsEarned w
      → Keeps IsEarned (advance_full_workflow host id gate d reason w)
  unfolding advance_full_workflow
  advance-IsEarned id gate d reason w all =
      bind-Keeps IsEarned (read_state id)
        (λ s.
          if stage_eq (approval_gate gate).from_stage s.current_stage
          then record_decision host gate d reason s
          else throw gate_cannot_advance)
        w (read_state-Keeps IsEarned id w all)
        λ s v earned al.
          elim (Bool-cases (stage_eq (approval_gate gate).from_stage s.current_stage)) [
            | inl fits ↦ rw fits (decision-Keeps gate d reason s v fits earned al)
            | inr differs ↦ rw differs (tt, al)
          ]

  block-IsEarned :
      (id reason : String) (w : World)
      → AllFiles IsEarned w
      → Keeps IsEarned (block_full_workflow host id reason w)
  unfolding block_full_workflow block_state now_iso create_id
  block-IsEarned id reason w all =
      bind-Keeps IsEarned (read_state id) (block_state host reason) w
        (read_state-Keeps IsEarned id w all)
        λ s v earned al.
          audit-Keeps _ full_gate_rejected s.current_owner s.current_stage save_all _ earned al
            (save_all-Keeps IsEarned)

  support-IsEarned :
      (id : String) (role : FullWorkflowRoleId) (stage : Option FullWorkflowStage) (w : World)
      → AllFiles IsEarned w
      → Keeps IsEarned (run_full_workflow_support_role host id role stage w)
  unfolding run_full_workflow_support_role support_state
  support-IsEarned id role stage w all =
      bind-Keeps IsEarned (read_state id) (support_state host role stage) w
        (read_state-Keeps IsEarned id w all)
        λ s v earned al.
          bind-Keeps IsEarned (run_role_task host s role _) save_file v
            (role_task-Keeps s role _ v earned al) (save_file-Keeps IsEarned)

  start-IsEarned :
      (objective : String) (workers : ℕ) (w : World)
      → AllFiles IsEarned w
      → Keeps IsEarned (start_full_workflow host objective workers w)
  unfolding start_full_workflow now_iso create_id persist_parent_session
  start-IsEarned objective workers w all = elim (Bool-cases (str_eq (host.trim objective) "")) [
    | inl blank ↦ rw blank (tt, all)
    | inr given ↦ rw given (
        audit-Keeps _ full_started master_orchestrator full_intake
          (λ s. run_role_task host s product_lead full_product >>= save_file) _ refl all
          (λ s v earned al.
            bind-Keeps IsEarned (run_role_task host s product_lead full_product) save_file v
              (role_task-Keeps s product_lead full_product v earned al) (save_file-Keeps IsEarned)))
  ]

-- Neither a reroute nor a close.
abbrev pub IsGated : Request → Type 0
IsGated (reroute id finding stage) = ⊥
IsGated (close id) = ⊥
IsGated _ = Unit

perform-IsEarned :
    (host : Host) (call : Request) (w : World)
    → IsGated call
    → AllFiles IsEarned w
    → Keeps IsEarned (perform host call w)
unfolding perform
perform-IsEarned host (start_workflow objective workers) w gated all =
    start-IsEarned host objective workers w all
perform-IsEarned host (advance id gate decision reason) w gated all =
    advance-IsEarned host id gate decision reason w all
perform-IsEarned host (reroute id finding stage) w gated all = absurd gated
perform-IsEarned host (block id reason) w gated all = block-IsEarned host id reason w all
perform-IsEarned host (support id role stage) w gated all =
    support-IsEarned host id role stage w all
perform-IsEarned host (close id) w gated all = absurd gated

after-IsEarned :
    (host : Host) (calls : List Request) (w : World)
    → All IsGated calls
    → AllFiles IsEarned w
    → AllFiles IsEarned (after host calls w)
unfolding after
after-IsEarned host [] w gated all = all
after-IsEarned host (call ∷ calls) w gated all =
    after-IsEarned host calls (perform host call w).1 gated.1
      (perform-IsEarned host call w gated.0 all).1

-- After any calls but reroutes and closes, on a world without state files: the approved gates of each
-- state file are exactly the gates before its stage, in their order. A session at "full_done" has had
-- all five approvals.
pub after-gates :
    (host : Host) (calls : List Request) (w : World)
    → All IsGated calls
    → w.files ≡ []
    → AllFiles IsEarned (after host calls w)
after-gates host calls w gated none_yet = after-IsEarned host calls w gated (rw none_yet tt)
