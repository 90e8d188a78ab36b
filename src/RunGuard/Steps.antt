-- ===== src/RunGuard/Steps.antt =====
-- What the steps of a world do, as a few kinds of change.
use Prim.Native.String.{String}
use text.Mathlib.Text.{◌==◌ as str_eq}
use text.Mathlib.TextEquality.{eq_iff}
use mathlib.Core.Path.{subst}
use dh_kit.Kit.{
  ℕ, ◌≡◌, refl, ap, ◌∙◌, inl, inr, Bool, true, false, ◌||◌, Option, none, some, List, [], ◌∷◌, ◌++◌,
  get_elem?, if◌then◌else◌, arith, Bool-cases, Result, ok, err, All, lookup, save, has_key,
  has_key-save,
}
use dh_kit.RunGuard.{
  RunEntry, Failure, session_busy_error, thrown, Registry, Phase, announcing, running, concluding,
  returned, Guard, World, GuardEvent, called, on_busy_settled, fn_settled, on_idle_settled,
  cancel_called, marked_idle, mark_busy, mark_idle, cancel, cancelled_entry, move, new_guard,
  start_guard, after_on_busy, after_fn, after_on_idle, settle_on_busy, settle_fn, settle_on_idle,
  step_guards, run,
}
use dh_kit.RunGuard.Holders.{is_holding}

-- Nobody but the guards marks a session idle.
abbrev pub IsGuarded : {T : Type 0} → GuardEvent T → Type 0
IsGuarded (marked_idle session_id) = ⊥
IsGuarded event = Unit

-- What marking a session does to the registry, if it is done.
abbrev Marks : String → Registry → Result Failure (RunEntry × Registry) → Type 0
Marks id registry (err error) = Unit
Marks id registry (ok (entry, marked)) =
    (has_key id registry ≡ false)
    × ((s : String) → has_key s marked ≡ (str_eq id s || has_key s registry))

mark_busy-Marks :
    (id run_id now : String) (registry : Registry)
    → Marks id registry (mark_busy id run_id now registry)
mark_busy-Marks id run_id now registry = go (has_key id registry) refl
  where
    go :
        (b : Bool)
        → has_key id registry ≡ b
        → Marks id registry
            (elim (if b then err (session_busy_error id) else ok tt)
              as (λ (r : Result Failure (Unit {0})). Result Failure (RunEntry × Registry)) [
                | err error ↦ err error
                | ok _ ↦
                    let entry : RunEntry = record {
                      run_id = run_id;
                      session_id = id;
                      started_at = now;
                      cancel_requested_at = none;
                      cancel_reason = none;
                    } in
                    ok (entry, save id entry registry)
              ])
    go true e = tt
    go false e = (e, λ s. has_key-save s id _ registry)

some_key :
    (key : String) (entry : RunEntry) (registry : Registry)
    → lookup key registry ≡ some entry
    → has_key key registry ≡ true
some_key key entry [] h = cc
some_key key entry ((k, e) ∷ registry) h = elim (Bool-cases (str_eq k key)) [
  | inl same ↦ rw same refl
  | inr other ↦ rw other (some_key key entry registry (rw other at h))
]

has_key-cancel :
    (s key now : String) (reason : Option String) (registry : Registry)
    → has_key s (cancel key now reason registry).1 ≡ has_key s registry
has_key-cancel s key now reason registry = go (lookup key registry) refl
  where
    go :
        (o : Option RunEntry)
        → lookup key registry ≡ o
        → has_key s
            (elim o as (λ (q : Option RunEntry). Bool × Registry) [
              | none ↦ (false, registry)
              | some current ↦ (true, save key (cancelled_entry now reason current) registry)
            ]).1
          ≡ has_key s registry
    go none e = refl
    go (some current) e =
        let here = some_key key current registry e in
        has_key-save s key _ registry ∙ elim (Bool-cases (str_eq key s)) [
          | inl same ↦
              let there : has_key s registry ≡ true =
                subst (λ x. has_key x registry ≡ true) ((eq_iff key s).0 same) here in
              ground arith
          | inr other ↦ ground arith
        ]

-- A property of the worlds is kept by every step that keeps it in each of these changes.
module _ {T : Type 0} (P : World T → Type 0)
    (refused : (g : Guard T) (w : World T)
      → P w
      → is_holding g.phase ≡ false
      → P (record { registry = w.registry; guards = w.guards ++ (g ∷ []) }))
    (taken : (g : Guard T) (registry : Registry) (w : World T)
      → P w
      → has_key g.session_id w.registry ≡ false
      → ((s : String) → has_key s registry ≡ (str_eq g.session_id s || has_key s w.registry))
      → P (record { registry = registry; guards = w.guards ++ (g ∷ []) }))
    (moved : (i : ℕ) (g : Guard T) (phase : Phase T) (w : World T)
      → P w
      → get_elem? w.guards i ≡ some g
      → is_holding g.phase ≡ true
      → P (move i g phase w.registry w))
    (freed : (i : ℕ) (g : Guard T) (phase : Phase T) (w : World T)
      → P w
      → get_elem? w.guards i ≡ some g
      → is_holding g.phase ≡ true
      → is_holding phase ≡ false
      → P (move i g phase (mark_idle g.session_id w.registry) w))
    (rested : (i : ℕ) (g : Guard T) (phase : Phase T) (w : World T)
      → P w
      → get_elem? w.guards i ≡ some g
      → is_holding g.phase ≡ false
      → is_holding phase ≡ false
      → P (move i g phase w.registry w))
    (noted : (registry : Registry) (w : World T)
      → P w
      → ((s : String) → has_key s registry ≡ has_key s w.registry)
      → P (record { registry = registry; guards = w.guards })) where
  start_lem :
      (id run_id now : String) (on_busy on_idle : Bool) (w : World T)
      → P w
      → P (start_guard id run_id now on_busy on_idle w)
  start_lem id run_id now on_busy on_idle w all =
      go (mark_busy id run_id now w.registry) (mark_busy-Marks id run_id now w.registry)
    where
      go :
          (r : Result Failure (RunEntry × Registry))
          → Marks id w.registry r
          → P (elim r as (λ (q : Result Failure (RunEntry × Registry)). World T) [
            | err error ↦ record {
              registry = w.registry;
              guards = w.guards ++ (new_guard id on_idle (returned (err error)) ∷ []);
            }
            | ok (entry, registry) ↦ record {
              registry = registry;
              guards =
                  w.guards ++ (new_guard id on_idle (if on_busy then announcing else running) ∷ []);
            }
          ])
      go (err error) m = refused (new_guard id on_idle (returned (err error))) w all refl
      go (ok (entry, registry)) (free, marked) =
          taken (new_guard id on_idle (if on_busy then announcing else running)) registry w all free
            marked

  settle_on_busy_lem :
      (i : ℕ) (error : Option String) (o : Option (Guard T)) (w : World T)
      → P w
      → get_elem? w.guards i ≡ o
      → P (settle_on_busy i error o w)
  settle_on_busy_lem i error none w all at = all
  settle_on_busy_lem i error (some g) w all at = go g.phase refl
    where
      go :
          (p : Phase T)
          → g.phase ≡ p
          → P (elim p as (λ (q : Phase T). World T) [
            | announcing ↦ after_on_busy i g error w
            | _ ↦ w
          ])
      go announcing e = answer error
        where
          answer : (error : Option String) → P (after_on_busy i g error w)
          answer none = moved i g running w all at (ap is_holding e)
          answer (some message) =
              moved i g (returned (err (thrown message))) w all at (ap is_holding e)
      go running e = all
      go (concluding result) e = all
      go (returned result) e = all

  settle_fn_lem :
      (i : ℕ) (result : Result Failure T) (o : Option (Guard T)) (w : World T)
      → P w
      → get_elem? w.guards i ≡ o
      → P (settle_fn i result o w)
  settle_fn_lem i result none w all at = all
  settle_fn_lem i result (some g) w all at = go g.phase refl
    where
      done : (b : Bool) → is_holding (if b then concluding result else returned result) ≡ false
      done true = refl
      done false = refl

      go :
          (p : Phase T)
          → g.phase ≡ p
          → P (elim p as (λ (q : Phase T). World T) [ running ↦ after_fn i g result w | _ ↦ w ])
      go announcing e = all
      go running e = freed i g _ w all at (ap is_holding e) (done g.has_on_idle)
      go (concluding result') e = all
      go (returned result') e = all

  settle_on_idle_lem :
      (i : ℕ) (error : Option String) (o : Option (Guard T)) (w : World T)
      → P w
      → get_elem? w.guards i ≡ o
      → P (settle_on_idle i error o w)
  settle_on_idle_lem i error none w all at = all
  settle_on_idle_lem i error (some g) w all at = go g.phase refl
    where
      go :
          (p : Phase T)
          → g.phase ≡ p
          → P (elim p as (λ (q : Phase T). World T) [
            | concluding result ↦ after_on_idle i g result error w
            | _ ↦ w
          ])
      go announcing e = all
      go running e = all
      go (returned result) e = all
      go (concluding result) e = answer error
        where
          answer : (error : Option String) → P (after_on_idle i g result error w)
          answer none = rested i g (returned result) w all at (ap is_holding e) refl
          answer (some message) =
              rested i g (returned (err (thrown message))) w all at (ap is_holding e) refl

  pub step_guards_lem :
      (w : World T) (event : GuardEvent T) → IsGuarded event → P w → P (step_guards w event)
  unfolding step_guards
  step_guards_lem w (called id run_id now on_busy on_idle) own all =
      start_lem id run_id now on_busy on_idle w all
  step_guards_lem w (on_busy_settled i error) own all =
      settle_on_busy_lem i error (get_elem? w.guards i) w all refl
  step_guards_lem w (fn_settled i result) own all =
      settle_fn_lem i result (get_elem? w.guards i) w all refl
  step_guards_lem w (on_idle_settled i error) own all =
      settle_on_idle_lem i error (get_elem? w.guards i) w all refl
  step_guards_lem w (cancel_called key now reason) own all =
      noted (cancel key now reason w.registry).1 w all
        (λ s. has_key-cancel s key now reason w.registry)
  step_guards_lem w (marked_idle id) own all = absurd own

  pub run_lem :
      (w : World T) (events : List (GuardEvent T)) → All IsGuarded events → P w → P (run w events)
  run_lem w [] own all = all
  run_lem w (event ∷ events) own all =
      run_lem (step_guards w event) events own.1 (step_guards_lem w event own.0 all)
