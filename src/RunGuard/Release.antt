-- ===== src/RunGuard/Release.antt =====
-- A session whose guard's `onBusy` fails is never released.
use Prim.Native.String.{String}
use text.Mathlib.Text.{◌==◌ as str_eq}
use text.Mathlib.TextEquality.{eq_iff}
use text.Mathlib.TextPositions.{eq_refl}
use mathlib.Core.Path.{subst}
use dh_kit.Kit.{
  ℕ, ◌≡◌, sym, ap, ◌∙◌, inl, inr, true, false, ◌||◌, some, List, [], ◌∷◌, ◌++◌, get_elem?,
  if◌then◌else◌, arith, Bool-cases, ok, err, All, has_key, has_key-remove,
}
use dh_kit.RunGuard.{
  session_busy_error, thrown, Registry, Phase, announcing, returned, Guard, World, GuardEvent,
  on_busy_settled, assert_not_busy, in_phase, move, after_on_busy, settle_on_busy, step_guards, run,
  start,
}
use dh_kit.RunGuard.Steps.{IsGuarded, run_lem}
use dh_kit.RunGuard.Exclusion.{IsAllotted, run-IsAllotted}
use dh_kit.RunGuard.Holders.{is_holding, holders, holders-append, holders-set_at}

-- The session is busy, and no guard is there to release it.
abbrev IsLost : {T : Type 0} → String → World T → Type 0
IsLost s world = (has_key s world.registry ≡ true) × (holders s world.guards ≡ 0)

module _ {T : Type 0} (s : String) where
  run-IsLost :
      (w : World T) (events : List (GuardEvent T))
      → All IsGuarded events
      → IsLost s w
      → IsLost s (run w events)
  run-IsLost =
      run_lem (IsLost s)
        (λ g w lost idle.
          let e = holders-append s w.guards (g ∷ []) in (lost.0, ground (arith, lost.1)))
        (λ g registry w lost free marked. added g registry w free (marked s) lost)
        (λ i g phase w lost at holding.
          let change = holders-set_at s i (in_phase phase g) g w.guards at in
          (lost.0, ground (arith, lost.1)))
        (λ i g phase w lost at holding done.
          let change = holders-set_at s i (in_phase phase g) g w.guards at in
          let left = has_key-remove s g.session_id w.registry in
          (ground (arith, lost.0, lost.1), ground (arith, lost.1)))
        (λ i g phase w lost at holding idle.
          let change = holders-set_at s i (in_phase phase g) g w.guards at in
          (lost.0, ground (arith, lost.1)))
        (λ registry w lost same. (same s ∙ lost.0, lost.1))
    where
      added :
          (g : Guard T) (registry : Registry) (w : World T)
          → has_key g.session_id w.registry ≡ false
          → has_key s registry ≡ (str_eq g.session_id s || has_key s w.registry)
          → IsLost s w
          → IsLost s (record { registry = registry; guards = w.guards ++ (g ∷ []) })
      added g registry w free marked (busy, none_holds) =
          let e = holders-append s w.guards (g ∷ []) in
          elim (Bool-cases (str_eq g.session_id s)) [
            | inl same ↦
                let unmarked : has_key s w.registry ≡ false =
                  subst (λ x. has_key x w.registry ≡ false) ((eq_iff g.session_id s).0 same) free in
                absurd cc
            | inr other ↦ (ground arith, ground arith)
          ]

  fail-IsLost :
      (i : ℕ) (g : Guard T) (message : String) (w : World T)
      → IsAllotted w
      → str_eq g.session_id s ≡ true
      → get_elem? w.guards i ≡ some g
      → is_holding g.phase ≡ true
      → IsLost s (move i g (returned (err (thrown message))) w.registry w)
  fail-IsLost i g message w all here at holding =
      let change =
        holders-set_at s i (in_phase (returned (err (thrown message))) g) g w.guards at in
      let before = all s in (ground arith, ground arith)

-- When sessions are marked idle by guards only and the `onBusy` of a guard fails, its session is busy for
-- ever: after whatever else happens, a check that it is not busy fails.
pub on_busy_settled-strands :
    {T : Type 0} (before after : List (GuardEvent T)) (i : ℕ) (g : Guard T) (message : String)
    → All IsGuarded before
    → All IsGuarded after
    → get_elem? (run start before).guards i ≡ some g
    → g.phase ≡ announcing
    → assert_not_busy g.session_id
        (run (step_guards (run start before) (on_busy_settled i (some message))) after).registry
      ≡ err (session_busy_error g.session_id)
unfolding step_guards
on_busy_settled-strands {T = T} before after i g message own_before own_after at phase =
    let w = run start before in
    let failed : step_guards w (on_busy_settled i (some message))
        ≡ move i g (returned (err (thrown message))) w.registry w =
      ap (λ o. settle_on_busy i (some message) o w) at
      ∙ ap
          (λ p. elim p as (λ (q : Phase T). World T) [
            | announcing ↦ after_on_busy i g (some message) w
            | _ ↦ w
          ])
          phase in
    let lost =
      run-IsLost g.session_id (step_guards w (on_busy_settled i (some message))) after own_after (
        subst (IsLost g.session_id) (sym failed) (
          fail-IsLost g.session_id i g message w
            (run-IsAllotted start before own_before (λ s. omega arith)) (eq_refl g.session_id) at
            (ap is_holding phase))) in
    ap (λ b. if b then err (session_busy_error g.session_id) else ok tt) lost.0
