-- ===== src/FullWorkflow/Types.antt =====
-- packages/shared/src/types/full-workflow.ts and the constants of full-workflow-runtime.ts.
use Prim.Native.String.{String}
use dh_kit.Kit.{ℕ, suc, Bool, Option, none, some, List, [], ◌∷◌, ◌==◌, if◌then◌else◌, get_elem?}
use mathlib.Core.Option

pub data FullWorkflowRoleId : Type 0 where
  master_orchestrator product_lead solution_lead fullstack_agent : FullWorkflowRoleId
  code_reviewer qa_agent context_scout summarizer : FullWorkflowRoleId

pub data FullWorkflowPermission : Type 0 where
  read_only write_with_permission bounded_shell : FullWorkflowPermission

pub data FullWorkflowStage : Type 0 where
  full_intake full_product full_solution full_implementation : FullWorkflowStage
  full_code_review full_qa full_done : FullWorkflowStage

pub data FullWorkflowApprovalGateId : Type 0 where
  product_to_solution solution_to_fullstack fullstack_to_code_review : FullWorkflowApprovalGateId
  code_review_to_qa qa_to_done : FullWorkflowApprovalGateId

pub record FullWorkflowApprovalGate : Type 0 where
  pub id : FullWorkflowApprovalGateId
  pub from_stage : FullWorkflowStage
  pub to_stage : FullWorkflowStage

pub data ChildStatus : Type 0 where
  child_running child_complete : ChildStatus

pub record FullWorkflowChildSession : Type 0 where
  pub id : String
  pub role : FullWorkflowRoleId
  pub stage : FullWorkflowStage
  pub status : ChildStatus
  pub permission : FullWorkflowPermission
  pub summary : Option String

-- `type` is always "role_output" here.
pub record FullWorkflowArtifact : Type 0 where
  pub id : String
  pub role : FullWorkflowRoleId
  pub stage : FullWorkflowStage
  pub summary : String
  pub evidence_refs : List String
  pub created_at : String

pub data Decision : Type 0 where
  approve reject : Decision

pub record FullWorkflowApproval : Type 0 where
  pub gate_id : FullWorkflowApprovalGateId
  pub decision : Decision
  pub reason : Option String
  pub created_at : String

pub record FullWorkflowRerouteIssue : Type 0 where
  pub id : String
  pub finding : String
  pub target_stage : FullWorkflowStage
  pub created_at : String

pub data EventType : Type 0 where
  full_started full_role_started full_role_finished full_gate_approved : EventType
  full_gate_rejected full_rerouted full_closed : EventType

pub record FullWorkflowAuditRecord : Type 0 where
  pub id : String
  pub event_type : EventType
  pub role : FullWorkflowRoleId
  pub stage : FullWorkflowStage
  pub created_at : String

pub data Status : Type 0 where
  running blocked complete : Status

-- `concurrency.singleWriteOwner` is the constant "fullstack_agent".
pub record FullWorkflowState : Type 0 where
  pub parent_session_id : String
  pub objective : String
  pub current_stage : FullWorkflowStage
  pub current_owner : FullWorkflowRoleId
  pub status : Status
  pub child_sessions : List FullWorkflowChildSession
  pub approvals : List FullWorkflowApproval
  pub artifacts : List FullWorkflowArtifact
  pub reroute_issues : List FullWorkflowRerouteIssue
  pub evidence_ledger_refs : List String
  pub audit : List FullWorkflowAuditRecord
  pub max_read_only_workers : ℕ
  pub created_at : String
  pub updated_at : String

-- The permission of each entry of `FULL_WORKFLOW_ROLES`; every role has one.
unfoldable pub role_permission : FullWorkflowRoleId → FullWorkflowPermission
role_permission fullstack_agent = write_with_permission
role_permission qa_agent = bounded_shell
role_permission _ = read_only

abbrev pub stage_number : FullWorkflowStage → ℕ
stage_number full_intake = 0
stage_number full_product = 1
stage_number full_solution = 2
stage_number full_implementation = 3
stage_number full_code_review = 4
stage_number full_qa = 5
stage_number full_done = 6

abbrev pub stage_eq : FullWorkflowStage → FullWorkflowStage → Bool
stage_eq s t = stage_number s == stage_number t

abbrev pub full_workflow_stages : List FullWorkflowStage
full_workflow_stages =
    full_intake ∷ full_product ∷ full_solution ∷ full_implementation ∷ full_code_review ∷ full_qa
    ∷ full_done ∷ []

-- The entry of `FULL_WORKFLOW_APPROVAL_GATES` with an id; every id has one.
unfoldable pub approval_gate : FullWorkflowApprovalGateId → FullWorkflowApprovalGate
approval_gate product_to_solution = record {
  id = product_to_solution;
  from_stage = full_product;
  to_stage = full_solution;
}
approval_gate solution_to_fullstack = record {
  id = solution_to_fullstack;
  from_stage = full_solution;
  to_stage = full_implementation;
}
approval_gate fullstack_to_code_review = record {
  id = fullstack_to_code_review;
  from_stage = full_implementation;
  to_stage = full_code_review;
}
approval_gate code_review_to_qa = record {
  id = code_review_to_qa;
  from_stage = full_code_review;
  to_stage = full_qa;
}
approval_gate qa_to_done = record { id = qa_to_done; from_stage = full_qa; to_stage = full_done }

unfoldable pub owner_for_stage : FullWorkflowStage → FullWorkflowRoleId
owner_for_stage full_product = product_lead
owner_for_stage full_solution = solution_lead
owner_for_stage full_implementation = fullstack_agent
owner_for_stage full_code_review = code_reviewer
owner_for_stage full_qa = qa_agent
owner_for_stage _ = master_orchestrator

-- `indexOf` and the stage after it in the list.
index_of : FullWorkflowStage → List FullWorkflowStage → Option ℕ
index_of stage [] = none
index_of stage (s ∷ ss) = if stage_eq s stage then some 0 else Option.map suc (index_of stage ss)

unfoldable pub next_stage : FullWorkflowStage → Option FullWorkflowStage
unfolding index_of
next_stage stage = elim (index_of stage full_workflow_stages) [
  | none ↦ none
  | some index ↦ get_elem? full_workflow_stages (suc index)
]

abbrev pub is_done : FullWorkflowStage → Bool
is_done stage = stage_eq stage full_done

-- `stage === "full_done" ? "complete" : "running"`
abbrev pub status_at : FullWorkflowStage → Status
status_at stage = if is_done stage then complete else running
