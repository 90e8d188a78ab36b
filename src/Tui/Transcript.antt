-- ===== src/Tui/Transcript.antt =====
-- The text that a run streams: its deltas are one item of the transcript.
use Prim.Native.String
use Prim.Native.String.{String}
use text.Mathlib.TextPositions.{eq_refl}
use dh_kit.Kit.{ℕ, ◌≡◌, refl, ap, ◌∙◌, false, some, List, [], ◌∷◌, ◌++◌, All}
use dh_kit.Json.{get}
use dh_kit.Tui.State.{TuiTranscriptItem, TuiState, RunEvent, text_delta, assistant, run_event}
use dh_kit.Tui.Events.{
  is_assistant_of, append_assistant_delta, string_payload, or_text, apply_run_event, event_base,
  by_type,
}
use dh_kit.Tui.Reducer.{reduce_tui_state}

-- An assistant's item of a session.
abbrev pub spoken : String → String → TuiTranscriptItem
spoken session_id text = record { role = assistant; session_id = some session_id; text = text }

-- The last item is not the assistant's in the session.
abbrev pub Fresh : String → List TuiTranscriptItem → Type 0
Fresh session_id [] = Unit
Fresh session_id (last ∷ []) = is_assistant_of session_id last ≡ false
Fresh session_id (first ∷ next ∷ items) = Fresh session_id (next ∷ items)

first_delta :
    (session_id delta : String) (items : List TuiTranscriptItem)
    → Fresh session_id items
    → append_assistant_delta items session_id delta ≡ items ++ (spoken session_id delta ∷ [])
unfolding append_assistant_delta
first_delta id delta [] fresh = refl
first_delta id delta (last ∷ []) fresh = rw fresh refl
first_delta id delta (first ∷ next ∷ items) fresh =
    ap (λ l. first ∷ l) (first_delta id delta (next ∷ items) fresh)

next_delta :
    (session_id text delta : String) (items : List TuiTranscriptItem)
    → append_assistant_delta (items ++ (spoken session_id text ∷ [])) session_id delta
      ≡ items ++ (spoken session_id (String.◌++◌ text delta) ∷ [])
unfolding append_assistant_delta
next_delta id text delta [] = rw (eq_refl id) refl
next_delta id text delta (item ∷ []) = ap (λ l. item ∷ l) (next_delta id text delta [])
next_delta id text delta (item ∷ next ∷ items) =
    ap (λ l. item ∷ l) (next_delta id text delta (next ∷ items))

-- What a run's text event adds.
abbrev pub delta_of : RunEvent → String
delta_of event = or_text (string_payload (get "text" event.payload)) ""

abbrev pub joined : String → List RunEvent → String
joined text [] = text
joined text (event ∷ events) = joined (String.◌++◌ text (delta_of event)) events

-- A text event of the session.
abbrev pub IsDelta : String → RunEvent → Type 0
IsDelta session_id event = (event.type ≡ text_delta) × (event.session_id ≡ session_id)

module _ (number_text : ℕ → String) where
  abbrev pub stream : TuiState → List RunEvent → TuiState
  stream state [] = state
  stream state (event ∷ events) =
      stream (reduce_tui_state number_text state (run_event event)) events

  reduce-delta :
      (state : TuiState) (event : RunEvent) (session_id : String)
      → IsDelta session_id event
      → (reduce_tui_state number_text state (run_event event)).transcript
        ≡ append_assistant_delta state.transcript session_id (delta_of event)
  unfolding reduce_tui_state apply_run_event event_base
  reduce-delta state event id (kind, session) =
      ap (λ t. (by_type number_text t event (event_base state event)).transcript) kind
      ∙ ap (λ i. append_assistant_delta state.transcript i (delta_of event)) session

  stream-more :
      (events : List RunEvent) (state : TuiState) (session_id text : String)
      (items : List TuiTranscriptItem)
      → All (IsDelta session_id) events
      → state.transcript ≡ items ++ (spoken session_id text ∷ [])
      → (stream state events).transcript ≡ items ++ (spoken session_id (joined text events) ∷ [])
  stream-more [] state id text items deltas e = e
  stream-more (event ∷ events) state id text items deltas e =
      stream-more events (reduce_tui_state number_text state (run_event event)) id
        (String.◌++◌ text (delta_of event)) items deltas.1
        (reduce-delta state event id deltas.0
          ∙ ap (λ l. append_assistant_delta l id (delta_of event)) e
          ∙ next_delta id text (delta_of event) items)

  -- The text events of one session, one after the other, add one item to the transcript: the
  -- assistant's, whose text is their texts joined in order. The last item before them is not the
  -- assistant's in this session.
  pub stream-transcript :
      (state : TuiState) (session_id : String) (event : RunEvent) (events : List RunEvent)
      → Fresh session_id state.transcript
      → All (IsDelta session_id) (event ∷ events)
      → (stream state (event ∷ events)).transcript
        ≡ state.transcript ++ (spoken session_id (joined (delta_of event) events) ∷ [])
  stream-transcript state id event events fresh deltas =
      stream-more events (reduce_tui_state number_text state (run_event event)) id (delta_of event)
        state.transcript deltas.1
        (reduce-delta state event id deltas.0
          ∙ first_delta id (delta_of event) state.transcript fresh)
