-- ===== src/Tui/State.antt =====
-- The types of apps/tui/src/state.ts, and of the events that it reads.
use Prim.Native.String.{String}
use dh_kit.Kit.{ℕ, Option, none, List, []}
use dh_kit.Json.{Fields}

pub data TuiStatus : Type 0 where
  attaching connected running read_only : TuiStatus

pub record TuiSessionSummary : Type 0 where
  pub id : String
  pub title : Option String
  pub status : Option String
  pub stage : Option String
  pub updated_at : Option String

pub record TuiModelOption : Type 0 where
  pub id : String
  pub name : String
  pub provider_id : String
  pub model_id : String

pub record TuiAgentOption : Type 0 where
  pub id : String
  pub display_name : String
  pub role : String
  pub permission : String

pub record TuiContextItem : Type 0 where
  pub path : String
  pub label : String
  pub reason : String
  pub byte_length : Option ℕ

pub data TranscriptRole : Type 0 where
  assistant user system : TranscriptRole

pub record TuiTranscriptItem : Type 0 where
  pub role : TranscriptRole
  pub session_id : Option String
  pub text : String

pub record TuiPermissionPrompt : Type 0 where
  pub session_id : String
  pub tool : String
  pub reason : Option String

-- `RunEventType`, and an event; its sequence number and time are not read.
pub data RunEventType : Type 0 where
  session_created message_started text_delta tool_started tool_delta : RunEventType
  tool_finished permission_requested message_finished session_finished runtime_degraded :
      RunEventType

pub record RunEvent : Type 0 where
  pub type : RunEventType
  pub session_id : String
  pub payload : Fields

pub data TuiEventLogItemType : Type 0 where
  run_event_type : RunEventType → TuiEventLogItemType
  agent_selected_type model_selected_type session_selected_type : TuiEventLogItemType
  session_forked_type session_deleted_type : TuiEventLogItemType

pub record TuiEventLogItem : Type 0 where
  pub type : TuiEventLogItemType
  pub session_id : String
  pub label : String

pub record TuiState : Type 0 where
  pub server_url : String
  pub status : TuiStatus
  pub sessions : List TuiSessionSummary
  pub current_session_id : Option String
  pub models : List TuiModelOption
  pub agents : List TuiAgentOption
  pub transcript : List TuiTranscriptItem
  pub event_log : List TuiEventLogItem
  pub context_items : List TuiContextItem
  pub context_warnings : List String
  pub prompt : String
  pub model : String
  pub agent_id : String
  pub final_status : Option String
  pub runtime_degraded_reason : Option String
  pub permission_prompt : Option TuiPermissionPrompt
  pub read_only_reason : Option String

unfoldable pub create_initial_tui_state : String → TuiState
create_initial_tui_state server_url = record {
  server_url = server_url;
  status = attaching;
  sessions = [];
  current_session_id = none;
  models = [];
  agents = [];
  transcript = [];
  event_log = [];
  context_items = [];
  context_warnings = [];
  prompt = "";
  model = "default";
  agent_id = "general";
  final_status = none;
  runtime_degraded_reason = none;
  permission_prompt = none;
  read_only_reason = none;
}

-- What is read of the reports of a run and of the context planner.
pub record FileAttachment : Type 0 where
  pub path : String
  pub byte_length : ℕ

pub record RunDirectReport : Type 0 where
  pub session_id : String
  pub model : String
  pub agent_id : String
  pub title : Option String
  pub text : String
  pub events : List RunEvent
  pub files : List FileAttachment
  pub final_status : String
  pub degraded_reason : Option String

pub record LedgerEntry : Type 0 where
  pub file_path : String
  pub first_line : ℕ
  pub last_line : ℕ
  pub reason : String

pub record ContextInspectReport : Type 0 where
  pub entries : List LedgerEntry
  pub warnings : List String

pub data PermissionDecision : Type 0 where
  allow deny : PermissionDecision

pub data TuiAction : Type 0 where
  server_connected session_next : TuiAction
  server_failed : String → TuiAction
  sessions_loaded : List TuiSessionSummary → TuiAction
  session_selected : String → TuiAction
  session_forked : String → String → Option String → TuiAction
  session_deleted : String → TuiAction
  models_loaded : List TuiModelOption → TuiAction
  agents_loaded : List TuiAgentOption → TuiAction
  context_planned : ContextInspectReport → TuiAction
  context_failed : String → TuiAction
  prompt_changed : String → TuiAction
  model_selected : String → TuiAction
  agent_selected : String → TuiAction
  run_started : String → TuiAction
  run_event : RunEvent → TuiAction
  permission_responded : PermissionDecision → Option String → TuiAction
  run_reported : RunDirectReport → TuiAction
