-- ===== src/RunGuard/Tests.antt =====
-- Guards at concrete events.
use dh_kit.Kit.{
  ℕ, ◌≤◌, ◌≡◌, refl, true, false, some, List, [], ◌∷◌, map, if◌then◌else◌, err, has_key,
}
use dh_kit.RunGuard.{
  session_busy_error, Guard, announcing, running, returned, GuardEvent, called, on_busy_settled,
  cancel_called, assert_not_busy, is_cancel_requested, run, start, step_guards,
}
use dh_kit.RunGuard.Holders.{holders}
use dh_kit.RunGuard.Exclusion.{run-exclusive}
use dh_kit.RunGuard.Release.{on_busy_settled-strands}

abbrev two_calls : List (GuardEvent ℕ)
two_calls =
    called "a" "run-1" "now" false true
    ∷ called "a" "run-2" "now" false false
    ∷ cancel_called "a" "later" (some "stop")
    ∷ []

-- The second call is refused, and the run is asked to stop.
refused_call :
    map (λ (g : Guard ℕ). g.phase) (run start two_calls).guards
    ≡ running ∷ returned (err (session_busy_error "a")) ∷ []
unfolding step_guards
refused_call = refl

asked_to_stop : is_cancel_requested "a" (run (start {T = ℕ}) two_calls).registry ≡ true
unfolding step_guards
asked_to_stop = refl

run-exclusive_example :
    holders "a" (run (start {T = ℕ}) two_calls).guards
    ≤ (if has_key "a" (run (start {T = ℕ}) two_calls).registry then 1 else 0)
run-exclusive_example = run-exclusive two_calls "a" (tt, (tt, (tt, tt)))

abbrev announced : Guard ℕ
announced = record { session_id = "a"; has_on_idle = false; phase = announcing }

on_busy_settled-strands_example :
    assert_not_busy "a"
      (run
        (step_guards
          (run (start {T = ℕ}) (called "a" "run-1" "now" true false ∷ []))
          (on_busy_settled 0 (some "disk full")))
        (called "a" "run-2" "later" false false ∷ [])).registry
    ≡ err (session_busy_error "a")
unfolding step_guards
on_busy_settled-strands_example =
    on_busy_settled-strands (called "a" "run-1" "now" true false ∷ [])
      (called "a" "run-2" "later" false false ∷ []) 0 announced "disk full" (tt, tt) (tt, tt) refl
      refl
