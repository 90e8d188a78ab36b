-- ===== src/FullWorkflow/Tests.antt =====
-- Runs of the full workflow with a host whose subagents always answer.
use dh_kit.Kit.{refl, none, some, List, [], ◌∷◌}
use dh_kit.FullWorkflow.Types.{
  full_qa, product_to_solution, solution_to_fullstack, approve, reject, approval_gate,
}
use dh_kit.FullWorkflow.Store.{Host, World}
use dh_kit.FullWorkflow.Ops.{initial_state}
use dh_kit.FullWorkflow.Keep.{AllFiles}
use dh_kit.FullWorkflow.Sound.{AllSound}
use dh_kit.FullWorkflow.Preserve.{
  Request, start_workflow, advance, reroute, block, close, perform, after, after-AllSound,
}
use dh_kit.FullWorkflow.Gates.{IsEarned, after-gates}
use dh_kit.FullWorkflow.Returns.{StoredNow, perform-StoredNow}
use dh_kit.FullWorkflow.Rows.{StoredIfOk, Rejected, perform-StoredIfOk, advance-Rejected}

abbrev toy_host : Host
toy_host = record {
  trim = λ s. s;
  create_id = λ prefix n. prefix;
  now_iso = λ n. "2025-01-01T00:00:00.000Z";
  subagent = λ role stage objective. some "done";
  inspect_context = λ objective. some "ledger-1";
}

abbrev no_files : World
no_files = record { ticks = 0; files = []; sessions = []; workflows = []; events = [] }

abbrev calls : List Request
calls =
    start_workflow "ship it" 3
    ∷ advance "session" product_to_solution reject none
    ∷ advance "session" product_to_solution approve none
    ∷ advance "session" solution_to_fullstack approve none
    ∷ block "session" "waiting"
    ∷ []

abbrev all_calls : List Request
all_calls =
    start_workflow "ship it" 3
    ∷ advance "session" product_to_solution approve none
    ∷ reroute "session" "gap" full_qa
    ∷ close "session"
    ∷ []

after-AllSound_example : AllSound (after toy_host all_calls no_files)
after-AllSound_example = after-AllSound toy_host all_calls no_files refl

after-gates_example : AllFiles IsEarned (after toy_host calls no_files)
after-gates_example = after-gates toy_host calls no_files (tt, (tt, (tt, (tt, (tt, tt))))) refl

abbrev started : World
started = record no_files {
  files = ("session", initial_state "session" "ship it" 3 "2025-01-01T00:00:00.000Z") ∷ [];
}

perform-StoredIfOk_example :
    StoredIfOk (perform toy_host (advance "session" product_to_solution approve none) started)
perform-StoredIfOk_example =
    perform-StoredIfOk toy_host (advance "session" product_to_solution approve none) started refl

advance-Rejected_example :
    Rejected started (perform toy_host (advance "session" product_to_solution reject none) started)
unfolding approval_gate
advance-Rejected_example =
    advance-Rejected toy_host "session" product_to_solution none started refl refl

perform-StoredNow_example :
    StoredNow (perform toy_host (advance "session" product_to_solution approve none) started)
unfolding approval_gate
perform-StoredNow_example =
    perform-StoredNow toy_host "session" (advance "session" product_to_solution approve none)
      started (λ role stage objective. ("done", refl)) refl refl (refl, refl)
