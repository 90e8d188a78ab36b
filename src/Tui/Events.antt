-- ===== src/Tui/Events.antt =====
-- The events of a run: what a payload says, the labels of the event log, and `applyRunEvent`.
use Prim.Native.String
use Prim.Native.String.{String}
use text.Mathlib.Text.{◌==◌ as str_eq}
use dh_kit.Kit.{
  ℕ, Bool, true, false, Option, none, some, List, [], ◌∷◌, ◌++◌, map, if◌then◌else◌, any, take,
  ◌==◌,
}
use dh_kit.Json.{Json, Items, Fields, str, num, other_num, arr, obj, nil, item, get}
use dh_kit.Tui.State.{
  TuiState, TuiContextItem, TuiTranscriptItem, TuiPermissionPrompt, TuiEventLogItem, RunEvent,
  RunEventType, assistant, run_event_type, connected, session_created, message_started, text_delta,
  tool_started, tool_delta, tool_finished, permission_requested, message_finished, session_finished,
  runtime_degraded,
}

abbrev pub texts : List String → String
texts [] = ""
texts (s ∷ ss) = String.◌++◌ s (texts ss)

abbrev pub or_else {ℓ} : {A : Type ℓ} → Option A → Option A → Option A
or_else (some a) o = some a
or_else none o = o

abbrev pub or_text : Option String → String → String
or_text (some s) t = s
or_text none t = t

-- A text that is not empty.
unfoldable pub string_payload : Option Json → Option String
string_payload (some (str s)) = if str_eq s "" then none else some s
string_payload _ = none

unfoldable pub tool_payload : Fields → Option String
tool_payload payload =
    or_else (string_payload (get "tool" payload)) (string_payload (get "toolName" payload))

abbrev pub type_text : RunEventType → String
type_text session_created = "session.created"
type_text message_started = "message.started"
type_text text_delta = "text.delta"
type_text tool_started = "tool.started"
type_text tool_delta = "tool.delta"
type_text tool_finished = "tool.finished"
type_text permission_requested = "permission.requested"
type_text message_finished = "message.finished"
type_text session_finished = "session.finished"
type_text runtime_degraded = "runtime.degraded"

abbrev pub item_texts : Items → List String
item_texts nil = []
item_texts (item (str s) items) = s ∷ item_texts items
item_texts (item _ items) = item_texts items

abbrev pub join_comma : List String → String
join_comma [] = ""
join_comma (s ∷ []) = s
join_comma (s ∷ t ∷ ts) = texts (s ∷ ", " ∷ join_comma (t ∷ ts) ∷ [])

abbrev pub path_list : List String → String
path_list [] = ""
path_list (s ∷ ss) = texts (" (" ∷ join_comma (take 3 (s ∷ ss)) ∷ ")" ∷ [])

-- The text of a number in a template string is a parameter.
module _ (number_text : ℕ → String) where
  abbrev pub number_of : Option Json → Option String
  number_of (some (num n)) = some (number_text n)
  number_of (some (other_num t)) = some t
  number_of _ = none

  abbrev pub file_word : Option Json → String
  file_word (some (num n)) = if n == 1 then "file changed" else "files changed"
  file_word _ = "files changed"

  abbrev pub diff_text :
      Option String → String → Option String → Option String → Option Json → Option String
  diff_text (some changed) word (some additions) (some deletions) (some (arr paths)) = some (
      texts (
        "diff: "
        ∷ changed
        ∷ " "
        ∷ word
        ∷ ", +"
        ∷ additions
        ∷ " -"
        ∷ deletions
        ∷ path_list (item_texts paths)
        ∷ []))
  diff_text _ _ _ _ _ = none

  abbrev pub diff_of : Option Json → Option String
  diff_of (some (obj values)) =
      diff_text (number_of (get "filesChanged" values)) (file_word (get "filesChanged" values))
        (number_of (get "additions" values)) (number_of (get "deletions" values))
        (get "paths" values)
  diff_of _ = none

  unfoldable pub diff_summary_label : Option Json → Option String
  diff_summary_label (some (obj metadata)) = diff_of (get "diffSummary" metadata)
  diff_summary_label _ = none

  abbrev pub spaced : Option String → String
  spaced (some s) = texts (" " ∷ s ∷ [])
  spaced none = ""

  unfoldable pub event_label : RunEvent → String
  event_label event = elim (tool_payload event.payload) [
    | some tool ↦ texts (
        type_text event.type
        ∷ ": "
        ∷ tool
        ∷ spaced (string_payload (get "path" event.payload))
        ∷ spaced (diff_summary_label (get "metadata" event.payload))
        ∷ [])
    | none ↦ type_text event.type
  ]

  unfoldable pub to_event_log_item : RunEvent → TuiEventLogItem
  to_event_log_item event = record {
    type = run_event_type event.type;
    session_id = event.session_id;
    label = event_label event;
  }

  abbrev pub logged : RunEvent → TuiState → TuiState
  logged event state = record state {
    event_log = state.event_log ++ (to_event_log_item event ∷ []);
  }

-- `{ ...entry, ...item }` for an item without a byte length keeps the entry's.
unfoldable pub upsert_context_item : List TuiContextItem → TuiContextItem → List TuiContextItem
upsert_context_item items new =
    if any (λ entry. str_eq entry.path new.path) items
    then map
        (λ entry.
          if str_eq entry.path new.path
          then record new { byte_length = or_else new.byte_length entry.byte_length }
          else entry)
        items
    else items ++ (new ∷ [])

abbrev pub is_assistant_of : String → TuiTranscriptItem → Bool
is_assistant_of session_id last = elim last.role [
  | assistant ↦ elim last.session_id [ some id ↦ str_eq id session_id | none ↦ false ]
  | _ ↦ false
]

-- The last item of the transcript is replaced, or one is added.
unfoldable pub append_assistant_delta :
    List TuiTranscriptItem → String → String → List TuiTranscriptItem
append_assistant_delta [] session_id delta =
    record { role = assistant; session_id = some session_id; text = delta } ∷ []
append_assistant_delta (last ∷ []) session_id delta =
    if is_assistant_of session_id last
    then record last { text = String.◌++◌ last.text delta } ∷ []
    else last ∷ record { role = assistant; session_id = some session_id; text = delta } ∷ []
append_assistant_delta (first ∷ next ∷ items) session_id delta =
    first ∷ append_assistant_delta (next ∷ items) session_id delta

abbrev pub ends_run : RunEventType → Bool
ends_run message_finished = true
ends_run session_finished = true
ends_run _ = false

abbrev pub is_degraded : RunEventType → Bool
is_degraded runtime_degraded = true
is_degraded _ = false

unfoldable pub event_base : TuiState → RunEvent → TuiState
event_base state event = record state {
  current_session_id = some event.session_id;
  status = if ends_run event.type then connected else state.status;
  final_status =
      if ends_run event.type
      then or_else (string_payload (get "finalStatus" event.payload)) state.final_status
      else state.final_status;
  runtime_degraded_reason =
      if is_degraded event.type
      then or_else (string_payload (get "reason" event.payload)) state.runtime_degraded_reason
      else state.runtime_degraded_reason;
}

unfoldable pub event_prompt : RunEvent → TuiPermissionPrompt
event_prompt event = record {
  session_id = event.session_id;
  tool = or_text (tool_payload event.payload) "unknown";
  reason = string_payload (get "reason" event.payload);
}

unfoldable pub tool_context_items : RunEvent → List TuiContextItem → List TuiContextItem
tool_context_items event items = elim (string_payload (get "path" event.payload)) [
  | none ↦ items
  | some path ↦ upsert_context_item items (record {
    path = path;
    label = path;
    reason = texts (
        type_text event.type
        ∷ elim (tool_payload event.payload) [ some tool ↦ texts (": " ∷ tool ∷ []) | none ↦ "" ]
        ∷ []);
    byte_length = none;
  })
]

module _ (number_text : ℕ → String) where
  -- The tool events, and all others that are only logged.
  abbrev pub by_type : RunEventType → RunEvent → TuiState → TuiState
  by_type text_delta event base = record base {
    transcript =
        append_assistant_delta base.transcript event.session_id
          (or_text (string_payload (get "text" event.payload)) "");
  }
  by_type permission_requested event base =
      logged number_text event (record base { permission_prompt = some (event_prompt event) })
  by_type tool_started event base =
      logged number_text event
        (record base { context_items = tool_context_items event base.context_items })
  by_type tool_delta event base =
      logged number_text event
        (record base { context_items = tool_context_items event base.context_items })
  by_type tool_finished event base =
      logged number_text event
        (record base { context_items = tool_context_items event base.context_items })
  by_type _ event base = logged number_text event base

  unfoldable pub apply_run_event : TuiState → RunEvent → TuiState
  apply_run_event state event = by_type event.type event (event_base state event)
