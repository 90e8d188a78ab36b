-- ===== src/RunGuard/Exclusion.antt =====
-- No two guards hold a session at a time.
use Prim.Native.String.{String}
use text.Mathlib.Text.{◌==◌ as str_eq}
use text.Mathlib.TextEquality.{eq_iff}
use mathlib.Core.Path.{subst}
use dh_kit.Kit.{
  ◌≤◌, ◌≡◌, inl, inr, false, ◌||◌, List, [], ◌∷◌, ◌++◌, if◌then◌else◌, arith, Bool-cases, All,
  has_key, has_key-remove,
}
use dh_kit.RunGuard.{Registry, Guard, World, GuardEvent, in_phase, run, start}
use dh_kit.RunGuard.Steps.{IsGuarded, run_lem}
use dh_kit.RunGuard.Holders.{holders, holders-append, holders-set_at}

-- A session that is busy is held at most once, any other by no guard.
abbrev pub IsAllotted : {T : Type 0} → World T → Type 0
IsAllotted world =
    (s : String) → holders s world.guards ≤ (if has_key s world.registry then 1 else 0)

module _ {T : Type 0} where
  pub run-IsAllotted :
      (w : World T) (events : List (GuardEvent T))
      → All IsGuarded events
      → IsAllotted w
      → IsAllotted (run w events)
  run-IsAllotted =
      run_lem IsAllotted
        (λ g w all idle s.
          let e = holders-append s w.guards (g ∷ []) in let before = all s in ground arith)
        (λ g registry w all free marked s. added g registry w s free (marked s) (all s))
        (λ i g phase w all at holding s.
          let moved = holders-set_at s i (in_phase phase g) g w.guards at in
          let before = all s in ground arith)
        (λ i g phase w all at holding done s.
          let moved = holders-set_at s i (in_phase phase g) g w.guards at in
          let before = all s in let left = has_key-remove s g.session_id w.registry in ground arith)
        (λ i g phase w all at holding idle s.
          let moved = holders-set_at s i (in_phase phase g) g w.guards at in
          let before = all s in ground arith)
        (λ registry w all same s. let e = same s in let before = all s in ground arith)
    where
      added :
          (g : Guard T) (registry : Registry) (w : World T) (s : String)
          → has_key g.session_id w.registry ≡ false
          → has_key s registry ≡ (str_eq g.session_id s || has_key s w.registry)
          → holders s w.guards ≤ (if has_key s w.registry then 1 else 0)
          → holders s (w.guards ++ (g ∷ [])) ≤ (if has_key s registry then 1 else 0)
      added g registry w s free marked before =
          let e = holders-append s w.guards (g ∷ []) in
          elim (Bool-cases (str_eq g.session_id s)) [
            | inl same ↦
                let unmarked : has_key s w.registry ≡ false =
                  subst (λ x. has_key x w.registry ≡ false) ((eq_iff g.session_id s).0 same) free in
                ground arith
            | inr other ↦ ground arith
          ]

-- After any events in which sessions are marked idle by guards only, each session is held by at most one
-- guard, whose function or `onBusy` is pending, and by none when it is not busy.
pub run-exclusive :
    {T : Type 0} (events : List (GuardEvent T)) (s : String)
    → All IsGuarded events
    → holders s (run start events).guards ≤ (if has_key s (run start events).registry then 1 else 0)
run-exclusive events s own = run-IsAllotted start events own (λ k. omega arith) s
