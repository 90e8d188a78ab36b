-- ===== src/Tui/Sessions.antt =====
-- The sessions of the terminal interface: how often an id is listed, and which session is the current one.
use Prim.Native.String.{String}
use Prim.Native.Nat.{max}
use text.Mathlib.Text.{◌==◌ as str_eq}
use mathlib.Core.List.{foldl}
use dh_kit.Kit.{
  ℕ, ◌≡◌, refl, ◌≤◌, inl, inr, Bool-cases, Option-cases, Option, none, some, List, [], ◌∷◌, arith,
  if◌then◌else◌,
}
use dh_kit.Tui.State.{
  TuiSessionSummary, TuiState, TuiAction, create_initial_tui_state, RunEvent, server_connected,
  session_next, server_failed, sessions_loaded, session_selected, session_forked, session_deleted,
  models_loaded, agents_loaded, context_planned, context_failed, session_created, message_started,
  text_delta, tool_started, tool_delta, tool_finished, permission_requested, message_finished,
  session_finished, runtime_degraded, RunEventType, PermissionDecision, prompt_changed,
  model_selected, agent_selected, run_started, run_event, permission_responded, run_reported,
}
use dh_kit.Tui.Events.{apply_run_event, event_base, by_type}
use dh_kit.Tui.Reducer.{
  has_session, first_id, still_listed, select_session, select_next_session, fork_session,
  next_session, select_chosen, without, is_current, delete_session, apply_permission_response,
  report_run, reduce_tui_state,
}
use dh_kit.Tui.Listing.{
  count_id, Known, count_id-without, first-Known, has-without_other, upsert-lists, count_id-upsert,
}

-- The state after a history in which `loaded` was the last list that was loaded, and `event` names the
-- session of the last run event since a list was loaded, a session forked or a run reported.
pub record IsConsistent (loaded : List TuiSessionSummary) (event : Option String) (state : TuiState)
    : Type 0 where
  pub once : (id : String) → count_id id state.sessions ≤ max 1 (count_id id loaded)
  pub known : Known event state.current_session_id state.sessions

module _ {loaded : List TuiSessionSummary} {event : Option String} where
  -- Only the list and the current session count.
  same_sessions :
      (s t : TuiState)
      → IsConsistent loaded event s
      → t.sessions ≡ s.sessions
      → t.current_session_id ≡ s.current_session_id
      → IsConsistent loaded event t
  same_sessions s t c list current = record {
    once = λ id. rw list (c.once id);
    known = rw (list, current) c.known;
  }

  select-IsConsistent :
      (s : TuiState) (id : String)
      → IsConsistent loaded event s
      → IsConsistent loaded event (select_session s id)
  unfolding select_session
  select-IsConsistent s id c = elim (Bool-cases (has_session id s.sessions)) [
    | inl listed ↦ rw (listed, select_session) (record { once = c.once; known = inl listed })
    | inr missing ↦ rw (missing, select_session) c
  ]

  delete-IsConsistent :
      (s : TuiState) (id : String)
      → IsConsistent loaded event s
      → IsConsistent loaded event (delete_session s id)
  unfolding delete_session
  delete-IsConsistent s id c = record {
    once = λ i. omega (arith, c.once i, count_id-without i id s.sessions);
    known = go s.current_session_id c.known;
  }
    where
      go :
          (current : Option String)
          → Known event current s.sessions
          → Known event
              (if is_current current id then first_id (without id s.sessions) else current)
              (without id s.sessions)
      go none k = tt
      go (some i) k = elim (Bool-cases (str_eq i id)) [
        | inl same ↦ rw same (first-Known event (without id s.sessions))
        | inr other ↦ rw other (elim k [
          | inl listed ↦ inl (has-without_other i id s.sessions other listed)
          | inr named ↦ inr named
        ])
      ]

  next-IsConsistent :
      (s : TuiState)
      → IsConsistent loaded event s
      → IsConsistent loaded event (select_next_session s)
  unfolding select_next_session
  next-IsConsistent s c = go (next_session s.current_session_id s.sessions)
    where
      go : (o : Option TuiSessionSummary) → IsConsistent loaded event (select_chosen s o)
      go none = c
      go (some chosen) = select-IsConsistent s chosen.id c

  response-IsConsistent :
      (s : TuiState) (d : PermissionDecision) (reason : Option String)
      → IsConsistent loaded event s
      → IsConsistent loaded event (apply_permission_response s d reason)
  unfolding apply_permission_response
  response-IsConsistent s d reason c = elim (Option-cases s.permission_prompt) [
    | inl silent ↦ rw (silent, apply_permission_response) c
    | inr (p, asked) ↦ rw (asked, apply_permission_response) (same_sessions s _ c refl refl)
  ]

loaded-Known :
    (current : Option String) (ss : List TuiSessionSummary)
    → Known none (if still_listed current ss then current else first_id ss) ss
loaded-Known none ss = first-Known none ss
loaded-Known (some id) ss = elim (Bool-cases (str_eq id "")) [
  | inl empty ↦ rw empty (first-Known none ss)
  | inr named ↦ rw named (elim (Bool-cases (has_session id ss)) [
    | inl listed ↦ rw listed (inl listed)
    | inr missing ↦ rw missing (first-Known none ss)
  ])
]

event-sessions :
    (number_text : ℕ → String) (s : TuiState) (e : RunEvent)
    → ((apply_run_event number_text s e).sessions ≡ s.sessions)
      × ((apply_run_event number_text s e).current_session_id ≡ some e.session_id)
unfolding apply_run_event event_base
event-sessions number_text s e = go e.type
  where
    go :
        (t : RunEventType)
        → ((by_type number_text t e (event_base s e)).sessions ≡ s.sessions)
          × ((by_type number_text t e (event_base s e)).current_session_id ≡ some e.session_id)
    go text_delta = (refl, refl)
    go permission_requested = (refl, refl)
    go tool_started = (refl, refl)
    go tool_delta = (refl, refl)
    go tool_finished = (refl, refl)
    go session_created = (refl, refl)
    go message_started = (refl, refl)
    go message_finished = (refl, refl)
    go session_finished = (refl, refl)
    go runtime_degraded = (refl, refl)

-- The list that was loaded last.
abbrev pub last_loaded : List TuiSessionSummary → TuiAction → List TuiSessionSummary
last_loaded loaded (sessions_loaded sessions) = sessions
last_loaded loaded _ = loaded

-- The session of the last run event, unless an action has since set the current session to a listed one.
abbrev pub last_event : Option String → TuiAction → Option String
last_event event (run_event e) = some e.session_id
last_event event (sessions_loaded sessions) = none
last_event event (session_forked source id title) = none
last_event event (run_reported report) = none
last_event event _ = event

reduce_tui_state-IsConsistent :
    (number_text : ℕ → String) (loaded : List TuiSessionSummary) (event : Option String)
    (state : TuiState) (action : TuiAction)
    → IsConsistent loaded event state
    → IsConsistent
        (last_loaded loaded action)
        (last_event event action)
        (reduce_tui_state number_text state action)
unfolding reduce_tui_state fork_session report_run
reduce_tui_state-IsConsistent n l e s (sessions_loaded ss) c = record {
  once = λ id. omega arith;
  known = loaded-Known s.current_session_id ss;
}
reduce_tui_state-IsConsistent n l e s (session_selected id) c = select-IsConsistent s id c
reduce_tui_state-IsConsistent n l e s session_next c = next-IsConsistent s c
reduce_tui_state-IsConsistent n l e s (session_forked source id title) c = record {
  once = λ i. count_id-upsert i id _ s.sessions (count_id i l) (c.once i);
  known = inl (upsert-lists id _ s.sessions);
}
reduce_tui_state-IsConsistent n l e s (session_deleted id) c = delete-IsConsistent s id c
reduce_tui_state-IsConsistent n l e s (run_event event) c =
    let (list, current) = event-sessions n s event in
    record { once = λ id. rw list (c.once id); known = rw (list, current) (inr refl) }
reduce_tui_state-IsConsistent n l e s (permission_responded d reason) c =
    response-IsConsistent s d reason c
reduce_tui_state-IsConsistent n l e s (run_reported report) c = record {
  once = λ i. count_id-upsert i report.session_id _ s.sessions (count_id i l) (c.once i);
  known = inl (upsert-lists report.session_id _ s.sessions);
}
reduce_tui_state-IsConsistent n l e s server_connected c = same_sessions s _ c refl refl
reduce_tui_state-IsConsistent n l e s (server_failed reason) c = same_sessions s _ c refl refl
reduce_tui_state-IsConsistent n l e s (models_loaded models) c = same_sessions s _ c refl refl
reduce_tui_state-IsConsistent n l e s (agents_loaded agents) c = same_sessions s _ c refl refl
reduce_tui_state-IsConsistent n l e s (context_planned report) c = same_sessions s _ c refl refl
reduce_tui_state-IsConsistent n l e s (context_failed reason) c = same_sessions s _ c refl refl
reduce_tui_state-IsConsistent n l e s (prompt_changed value) c = same_sessions s _ c refl refl
reduce_tui_state-IsConsistent n l e s (model_selected model) c = same_sessions s _ c refl refl
reduce_tui_state-IsConsistent n l e s (agent_selected agent) c = same_sessions s _ c refl refl
reduce_tui_state-IsConsistent n l e s (run_started message) c = same_sessions s _ c refl refl

module _ (number_text : ℕ → String) where
  abbrev pub after_actions : TuiState → List TuiAction → TuiState
  after_actions state [] = state
  after_actions state (action ∷ actions) =
      after_actions (reduce_tui_state number_text state action) actions

  actions-IsConsistent :
      (actions : List TuiAction) (loaded : List TuiSessionSummary) (event : Option String)
      (state : TuiState)
      → IsConsistent loaded event state
      → IsConsistent
          (foldl last_loaded loaded actions)
          (foldl last_event event actions)
          (after_actions state actions)
  actions-IsConsistent [] loaded event state c = c
  actions-IsConsistent (action ∷ actions) loaded event state c =
      actions-IsConsistent actions (last_loaded loaded action) (last_event event action)
        (reduce_tui_state number_text state action)
        (reduce_tui_state-IsConsistent number_text loaded event state action c)

  -- After any actions on the initial state, no session id is listed more than once, unless the list
  -- that was loaded last repeats it, and then no more often than there; and the current session, if
  -- there is one, is listed, or is the session of the last run event, after which no list was loaded,
  -- no session forked and no run reported.
  pub after_actions-IsConsistent :
      (server_url : String) (actions : List TuiAction)
      → IsConsistent
          (foldl last_loaded [] actions)
          (foldl last_event none actions)
          (after_actions (create_initial_tui_state server_url) actions)
  unfolding create_initial_tui_state
  after_actions-IsConsistent server_url actions =
      actions-IsConsistent actions [] none (create_initial_tui_state server_url)
        (record { once = λ id. omega arith; known = tt })
