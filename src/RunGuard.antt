-- ===== src/RunGuard.antt =====
-- packages/runtime/src/session/session-run-state.ts: the registry of the sessions that are busy, and the
-- guard that runs a function while its session is.
pub mod Holders
pub mod Steps
pub mod Exclusion
pub mod Release
mod Tests
use Prim.Native.String.{String}
use text.Mathlib.Text.{◌==◌ as str_eq}
use dh_kit.Kit.{
  ℕ, zero, suc, Bool, true, false, not, Option, none, some, List, [], ◌∷◌, ◌++◌, get_elem?,
  if◌then◌else◌, Result, ok, err, lookup, save, remove, has_key,
}

-- An entry, but for the caller's metadata.
pub record RunEntry : Type 0 where
  pub run_id : String
  pub session_id : String
  pub started_at : String
  pub cancel_requested_at : Option String
  pub cancel_reason : Option String

pub data Failure : Type 0 where
  session_busy_error : String → Failure
  thrown : String → Failure

abbrev pub Registry : Type 0
Registry = List (String × RunEntry)

abbrev pub assert_not_busy : String → Registry → Result Failure (Unit {0})
assert_not_busy session_id registry =
    if has_key session_id registry then err (session_busy_error session_id) else ok tt

-- The new entry and the registry with it; the run's id and the time are given.
abbrev pub mark_busy : String → String → String → Registry → Result Failure (RunEntry × Registry)
mark_busy session_id run_id now registry =
    let entry : RunEntry = record {
      run_id = run_id;
      session_id = session_id;
      started_at = now;
      cancel_requested_at = none;
      cancel_reason = none;
    } in
    elim (assert_not_busy session_id registry) [
      | err error ↦ err error
      | ok _ ↦ ok (entry, save session_id entry registry)
    ]

abbrev pub mark_idle : String → Registry → Registry
mark_idle session_id registry = remove session_id registry

abbrev pub cancelled_entry : String → Option String → RunEntry → RunEntry
cancelled_entry now reason entry = record {
  run_id = entry.run_id;
  session_id = entry.session_id;
  started_at = entry.started_at;
  cancel_requested_at = some now;
  cancel_reason = reason;
}

abbrev pub cancel : String → String → Option String → Registry → Bool × Registry
cancel session_id now reason registry = elim (lookup session_id registry) [
  | none ↦ (false, registry)
  | some current ↦ (true, save session_id (cancelled_entry now reason current) registry)
]

abbrev pub is_cancel_requested : String → Registry → Bool
is_cancel_requested session_id registry = elim (lookup session_id registry) [
  | none ↦ false
  | some entry ↦ elim entry.cancel_requested_at [ none ↦ false | some at ↦ not (str_eq at "") ]
]

abbrev pub get_run_entry : String → Registry → Option RunEntry
get_run_entry session_id registry = lookup session_id registry

-- Where a call of `withSessionRunGuard` is: `onBusy` is pending, then the function, then `onIdle`.
pub data Phase (T : Type 0) : Type 0 where
  announcing running : Phase T
  concluding returned : Result Failure T → Phase T

pub record Guard (T : Type 0) : Type 0 where
  pub session_id : String
  pub has_on_idle : Bool
  pub phase : Phase T

pub record World (T : Type 0) : Type 0 where
  pub registry : Registry
  pub guards : List (Guard T)

-- What happens: a guard is called, what one waits for is settled (with an error or none, for the
-- callbacks), and the other operations.
pub data GuardEvent (T : Type 0) : Type 0 where
  called : String → String → String → Bool → Bool → GuardEvent T
  on_busy_settled : ℕ → Option String → GuardEvent T
  fn_settled : ℕ → Result Failure T → GuardEvent T
  on_idle_settled : ℕ → Option String → GuardEvent T
  cancel_called : String → String → Option String → GuardEvent T
  marked_idle : String → GuardEvent T

module _ {T : Type 0} where
  abbrev pub set_at : ℕ → Guard T → List (Guard T) → List (Guard T)
  set_at i g [] = []
  set_at zero g (x ∷ guards) = g ∷ guards
  set_at (suc i) g (x ∷ guards) = x ∷ set_at i g guards

  abbrev pub in_phase : Phase T → Guard T → Guard T
  in_phase phase guard = record {
    session_id = guard.session_id;
    has_on_idle = guard.has_on_idle;
    phase = phase;
  }

  abbrev pub move : ℕ → Guard T → Phase T → Registry → World T → World T
  move i guard phase registry world = record {
    registry = registry;
    guards = set_at i (in_phase phase guard) world.guards;
  }

  abbrev pub new_guard : String → Bool → Phase T → Guard T
  new_guard session_id has_on_idle phase = record {
    session_id = session_id;
    has_on_idle = has_on_idle;
    phase = phase;
  }

  -- A call: it fails when the session is busy, else marks it, and waits for `onBusy` if there is one.
  abbrev pub start_guard : String → String → String → Bool → Bool → World T → World T
  start_guard session_id run_id now has_on_busy has_on_idle world =
      let new : Phase T → Guard T = new_guard session_id has_on_idle in
      elim (mark_busy session_id run_id now world.registry) [
        | err error ↦ record {
          registry = world.registry;
          guards = world.guards ++ (new (returned (err error)) ∷ []);
        }
        | ok (entry, registry) ↦ record {
          registry = registry;
          guards = world.guards ++ (new (if has_on_busy then announcing else running) ∷ []);
        }
      ]

  -- `onBusy` stands before the `try`: its error leaves the session marked.
  abbrev pub after_on_busy : ℕ → Guard T → Option String → World T → World T
  after_on_busy i guard error world = elim error [
    | none ↦ move i guard running world.registry world
    | some message ↦ move i guard (returned (err (thrown message))) world.registry world
  ]

  -- The `finally` block, up to `onIdle`.
  abbrev pub after_fn : ℕ → Guard T → Result Failure T → World T → World T
  after_fn i guard result world =
      move i guard (if guard.has_on_idle then concluding result else returned result)
        (mark_idle guard.session_id world.registry) world

  -- An error of `onIdle` takes the place of the result.
  abbrev pub after_on_idle : ℕ → Guard T → Result Failure T → Option String → World T → World T
  after_on_idle i guard result error world = elim error [
    | none ↦ move i guard (returned result) world.registry world
    | some message ↦ move i guard (returned (err (thrown message))) world.registry world
  ]

  -- What is settled is of the guard's phase, or else nothing happens.
  abbrev pub settle_on_busy : ℕ → Option String → Option (Guard T) → World T → World T
  settle_on_busy i error none world = world
  settle_on_busy i error (some guard) world = elim guard.phase [
    | announcing ↦ after_on_busy i guard error world
    | _ ↦ world
  ]

  abbrev pub settle_fn : ℕ → Result Failure T → Option (Guard T) → World T → World T
  settle_fn i result none world = world
  settle_fn i result (some guard) world = elim guard.phase [
    | running ↦ after_fn i guard result world
    | _ ↦ world
  ]

  abbrev pub settle_on_idle : ℕ → Option String → Option (Guard T) → World T → World T
  settle_on_idle i error none world = world
  settle_on_idle i error (some guard) world = elim guard.phase [
    | concluding result ↦ after_on_idle i guard result error world
    | _ ↦ world
  ]

  unfoldable pub step_guards : World T → GuardEvent T → World T
  step_guards world (called session_id run_id now on_busy on_idle) =
      start_guard session_id run_id now on_busy on_idle world
  step_guards world (on_busy_settled i error) =
      settle_on_busy i error (get_elem? world.guards i) world
  step_guards world (fn_settled i result) = settle_fn i result (get_elem? world.guards i) world
  step_guards world (on_idle_settled i error) =
      settle_on_idle i error (get_elem? world.guards i) world
  step_guards world (cancel_called session_id now reason) = record {
    registry = (cancel session_id now reason world.registry).1;
    guards = world.guards;
  }
  step_guards world (marked_idle session_id) = record {
    registry = mark_idle session_id world.registry;
    guards = world.guards;
  }

  abbrev pub run : World T → List (GuardEvent T) → World T
  run world [] = world
  run world (event ∷ events) = run (step_guards world event) events

  abbrev pub start : World T
  start = record { registry = []; guards = [] }
