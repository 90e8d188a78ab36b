-- ===== src/Tui/Reducer.antt =====
-- `reduceTuiState` and the helpers on sessions.
use Prim.Native.String.{String}
use text.Mathlib.Text.{◌==◌ as str_eq}
use dh_kit.Kit.{
  ℕ, suc, ◌+◌, ◌%◌, Bool, true, false, Option, none, some, List, [], ◌∷◌, ◌++◌, map, reverse,
  if◌then◌else◌, find_first, get_elem?, length,
}
use mathlib.Core.Option
use dh_kit.Tui.State.{
  TuiSessionSummary, TuiContextItem, TuiPermissionPrompt, RunEvent, TuiEventLogItemType, TuiState,
  FileAttachment, RunDirectReport, LedgerEntry, PermissionDecision, TuiAction, connected, read_only,
  running, assistant, user, run_event_type, agent_selected_type, model_selected_type,
  session_selected_type, session_forked_type, session_deleted_type, permission_requested, allow,
  deny, server_connected, session_next, server_failed, sessions_loaded, session_selected,
  session_forked, session_deleted, models_loaded, agents_loaded, context_planned, context_failed,
  prompt_changed, model_selected, agent_selected, run_started, run_event, permission_responded,
  run_reported,
}
use dh_kit.Tui.Events.{texts, or_else, or_text, event_prompt, apply_run_event}

abbrev pub has_session : String → List TuiSessionSummary → Bool
has_session id [] = false
has_session id (s ∷ ss) = if str_eq s.id id then true else has_session id ss

abbrev pub first_id : List TuiSessionSummary → Option String
first_id [] = none
first_id (s ∷ ss) = some s.id

-- `state.currentSessionId && sessions.some(...)`: an empty id counts as none.
abbrev pub still_listed : Option String → List TuiSessionSummary → Bool
still_listed none sessions = false
still_listed (some id) sessions = if str_eq id "" then false else has_session id sessions

-- An entry with the title, and else as it was.
abbrev pub retitle : String → String → List TuiSessionSummary → List TuiSessionSummary
retitle id title [] = []
retitle id title (s ∷ ss) =
    let rest = retitle id title ss in
    if str_eq s.id id then record s { id = id; title = some title } ∷ rest else s ∷ rest

unfoldable pub upsert_session : List TuiSessionSummary → String → String → List TuiSessionSummary
upsert_session sessions id title =
    if has_session id sessions
    then retitle id title sessions
    else record { id = id; title = some title; status = none; stage = none; updated_at = none }
      ∷ sessions

abbrev pub log : TuiEventLogItemType → String → List String → TuiState → TuiState
log type session_id label state = record state {
  event_log =
      state.event_log
      ++ (record { type = type; session_id = session_id; label = texts label } ∷ []);
}

unfoldable pub select_session : TuiState → String → TuiState
select_session state session_id =
    if has_session session_id state.sessions
    then log session_selected_type session_id ("session.selected: " ∷ session_id ∷ [])
        (record state { current_session_id = some session_id })
    else state

-- `findIndex`; `none` is -1.
abbrev pub index_of_session : Option String → List TuiSessionSummary → Option ℕ
index_of_session none sessions = none
index_of_session (some id) [] = none
index_of_session (some id) (s ∷ ss) =
    if str_eq s.id id then some 0 else Option.map suc (index_of_session (some id) ss)

abbrev pub next_index : Option ℕ → ℕ → ℕ
next_index none size = 0
next_index (some i) size = (i + 1) % size

-- `state.sessions[(currentIndex + 1) % state.sessions.length] ?? state.sessions[0]`
unfoldable pub next_session : Option String → List TuiSessionSummary → Option TuiSessionSummary
next_session current [] = none
next_session current (s ∷ ss) =
    or_else (get_elem? (s ∷ ss) (next_index (index_of_session current (s ∷ ss)) (length (s ∷ ss))))
      (some s)

abbrev pub select_chosen : TuiState → Option TuiSessionSummary → TuiState
select_chosen state none = state
select_chosen state (some chosen) = select_session state chosen.id

-- Without sessions there is no next one.
unfoldable pub select_next_session : TuiState → TuiState
select_next_session state =
    select_chosen state (next_session state.current_session_id state.sessions)

unfoldable pub fork_session : TuiState → String → String → Option String → TuiState
fork_session state source_session_id session_id title =
    log session_forked_type session_id
      ("session.forked: " ∷ source_session_id ∷ " -> " ∷ session_id ∷ [])
      (record state {
        current_session_id = some session_id;
        sessions =
            upsert_session state.sessions session_id
              (or_text title (texts ("Fork of " ∷ source_session_id ∷ [])));
      })

abbrev pub without : String → List TuiSessionSummary → List TuiSessionSummary
without id [] = []
without id (s ∷ ss) = let rest = without id ss in if str_eq s.id id then rest else s ∷ rest

abbrev pub is_current : Option String → String → Bool
is_current none id = false
is_current (some current) id = str_eq current id

unfoldable pub delete_session : TuiState → String → TuiState
delete_session state session_id =
    let sessions = without session_id state.sessions in
    log session_deleted_type session_id ("session.deleted: " ∷ session_id ∷ []) (record state {
      sessions = sessions;
      current_session_id =
          if is_current state.current_session_id session_id
          then first_id sessions
          else state.current_session_id;
    })

abbrev pub decision_text : PermissionDecision → String
decision_text allow = "approved"
decision_text deny = "denied"

abbrev pub reason_suffix : Option String → String
reason_suffix none = ""
reason_suffix (some reason) = if str_eq reason "" then "" else texts (" " ∷ reason ∷ [])

unfoldable pub apply_permission_response : TuiState → PermissionDecision → Option String → TuiState
apply_permission_response state decision reason = elim state.permission_prompt [
  | none ↦ state
  | some prompt ↦
      log (run_event_type permission_requested) prompt.session_id
        ("permission." ∷ decision_text decision ∷ ": " ∷ prompt.tool ∷ reason_suffix reason ∷ [])
        (record state { permission_prompt = none })
]

abbrev pub is_permission_event : RunEvent → Bool
is_permission_event event = elim event.type [ permission_requested ↦ true | _ ↦ false ]

unfoldable pub find_permission_prompt : RunDirectReport → Option TuiPermissionPrompt
find_permission_prompt report =
    Option.map event_prompt (find_first is_permission_event (reverse report.events))

module _ (number_text : ℕ → String) where
  abbrev pub to_context_item_from_file : FileAttachment → TuiContextItem
  to_context_item_from_file file = record {
    path = file.path;
    label = texts (file.path ∷ " (" ∷ number_text file.byte_length ∷ " bytes)" ∷ []);
    reason = "attached file";
    byte_length = some file.byte_length;
  }

  abbrev pub to_context_item_from_ledger : LedgerEntry → TuiContextItem
  to_context_item_from_ledger entry = record {
    path = entry.file_path;
    label = texts (
        entry.file_path
        ∷ ":"
        ∷ number_text entry.first_line
        ∷ "-"
        ∷ number_text entry.last_line
        ∷ []);
    reason = entry.reason;
    byte_length = none;
  }

  abbrev pub reported_items : List FileAttachment → List TuiContextItem → List TuiContextItem
  reported_items [] items = items
  reported_items (file ∷ files) items = map to_context_item_from_file (file ∷ files)

  unfoldable pub report_run : TuiState → RunDirectReport → TuiState
  report_run state report = record state {
    status = connected;
    sessions =
        upsert_session state.sessions report.session_id (or_text report.title report.session_id);
    current_session_id = some report.session_id;
    prompt = "";
    model = report.model;
    agent_id = report.agent_id;
    context_items = reported_items report.files state.context_items;
    final_status = some report.final_status;
    runtime_degraded_reason = report.degraded_reason;
    transcript =
        state.transcript
        ++ (record { role = assistant; session_id = some report.session_id; text = report.text }
            ∷ []);
    permission_prompt = find_permission_prompt report;
  }

  unfoldable pub reduce_tui_state : TuiState → TuiAction → TuiState
  reduce_tui_state state server_connected = record state {
    status = connected;
    read_only_reason = none;
  }
  reduce_tui_state state (server_failed reason) = record state {
    status = read_only;
    read_only_reason = some reason;
  }
  reduce_tui_state state (sessions_loaded sessions) = record state {
    sessions = sessions;
    current_session_id =
        if still_listed state.current_session_id sessions
        then state.current_session_id
        else first_id sessions;
  }
  reduce_tui_state state (session_selected id) = select_session state id
  reduce_tui_state state session_next = select_next_session state
  reduce_tui_state state (session_forked source id title) = fork_session state source id title
  reduce_tui_state state (session_deleted id) = delete_session state id
  reduce_tui_state state (models_loaded models) = record state { models = models }
  reduce_tui_state state (agents_loaded agents) = record state { agents = agents }
  reduce_tui_state state (context_planned report) = record state {
    context_items = map to_context_item_from_ledger report.entries;
    context_warnings = report.warnings;
  }
  reduce_tui_state state (context_failed reason) = record state { context_warnings = reason ∷ [] }
  reduce_tui_state state (prompt_changed value) = record state { prompt = value }
  reduce_tui_state state (model_selected model) =
      log model_selected_type (or_text state.current_session_id "")
        ("model.selected: " ∷ model ∷ []) (record state { model = model })
  reduce_tui_state state (agent_selected agent) =
      log agent_selected_type (or_text state.current_session_id "")
        ("agent.selected: " ∷ agent ∷ []) (record state { agent_id = agent })
  reduce_tui_state state (run_started message) = record state {
    status = running;
    prompt = message;
    event_log = [];
    context_items = [];
    context_warnings = [];
    final_status = none;
    runtime_degraded_reason = none;
    transcript =
        state.transcript
        ++ (record { role = user; session_id = state.current_session_id; text = message } ∷ []);
  }
  reduce_tui_state state (run_event event) = apply_run_event number_text state event
  reduce_tui_state state (permission_responded decision reason) =
      apply_permission_response state decision reason
  reduce_tui_state state (run_reported report) = report_run state report
