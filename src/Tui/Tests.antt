-- ===== src/Tui/Tests.antt =====
-- Runs of the terminal interface's reducer.
use Prim.Native.String.{String}
use dh_kit.Kit.{ℕ, ◌≡◌, refl, false, none, some, List, [], ◌∷◌}
use dh_kit.Json.{str, num, obj, arr, item, nil, end, field}
use dh_kit.Tui.State.{
  TuiAction, create_initial_tui_state, TuiSessionSummary, RunEvent, text_delta, tool_finished,
  sessions_loaded, session_next, session_forked, session_deleted, run_event,
}
use dh_kit.Tui.Events.{
  apply_run_event, event_base, event_label, tool_payload, string_payload, diff_summary_label,
}
use dh_kit.Tui.Reducer.{
  reduce_tui_state, select_next_session, next_session, select_session, fork_session, upsert_session,
  delete_session, has_session,
}
use dh_kit.Tui.Sessions.{IsConsistent, after_actions, after_actions-IsConsistent}
use dh_kit.Tui.Transcript.{stream, spoken, stream-transcript}

abbrev two : ℕ → String
two n = "2"

abbrev summary : String → TuiSessionSummary
summary id = record { id = id; title = none; status = none; stage = none; updated_at = none }

abbrev delta : String → RunEvent
delta text = record { type = text_delta; session_id = "a"; payload = field "text" (str text) end }

-- The last is an event of a session that is not listed.
abbrev actions : List TuiAction
actions =
    sessions_loaded (summary "a" ∷ summary "b" ∷ [])
    ∷ session_next
    ∷ session_forked "b" "c" none
    ∷ session_deleted "c"
    ∷ run_event
        (record { type = text_delta; session_id = "z"; payload = field "text" (str "x") end })
    ∷ []

after_actions-IsConsistent_example :
    IsConsistent
      (summary "a" ∷ summary "b" ∷ [])
      (some "z")
      (after_actions two (create_initial_tui_state "http://localhost") actions)
after_actions-IsConsistent_example = after_actions-IsConsistent two "http://localhost" actions

-- The event makes its session the current one, which is not listed.
unlisted_current :
    let state = after_actions two (create_initial_tui_state "http://localhost") actions in
    (state.current_session_id ≡ some "z") × (has_session "z" state.sessions ≡ false)
unfolding create_initial_tui_state reduce_tui_state select_next_session next_session select_session
    fork_session upsert_session delete_session apply_run_event event_base
unlisted_current = (refl, refl)

-- The last session follows the first, and the first the last.
next_session_run :
    (next_session (some "a") (summary "a" ∷ summary "b" ∷ []) ≡ some (summary "b"))
    × (next_session (some "b") (summary "a" ∷ summary "b" ∷ []) ≡ some (summary "a"))
unfolding next_session
next_session_run = (refl, refl)

stream-transcript_example :
    (stream two
      (create_initial_tui_state "http://localhost")
      (delta "he" ∷ delta "llo" ∷ [])).transcript
    ≡ spoken "a" "hello" ∷ []
unfolding create_initial_tui_state string_payload
stream-transcript_example =
    stream-transcript two (create_initial_tui_state "http://localhost") "a" (delta "he")
      (delta "llo" ∷ []) tt ((refl, refl), ((refl, refl), tt))

abbrev edited : RunEvent
edited = record {
  type = tool_finished;
  session_id = "a";
  payload = field "tool" (str "edit") (
      field "path" (str "x.ts") (
        field "metadata"
          (obj (
            field "diffSummary"
              (obj (
                field "filesChanged" (num 2) (
                  field "additions" (num 2) (
                    field "deletions" (num 2)
                      (field "paths" (arr (item (str "x.ts") (item (str "y.ts") nil))) end)))))
              end))
          end));
}

edited_label :
    event_label two edited ≡ "tool.finished: edit x.ts diff: 2 files changed, +2 -2 (x.ts, y.ts)"
unfolding event_label tool_payload string_payload diff_summary_label
edited_label = refl
