-- ===== src/RunGuard/Holders.antt =====
-- The guards that hold a session: those whose function is pending, or stands behind a pending `onBusy`.
use Prim.Native.String.{String}
use text.Mathlib.Text.{◌==◌ as str_eq}
use dh_kit.Kit.{
  ℕ, zero, suc, ◌+◌, ◌≡◌, Bool, true, false, some, some-eq, List, [], ◌∷◌, ◌++◌, get_elem?,
  if◌then◌else◌, arith,
}
use dh_kit.RunGuard.{Phase, announcing, running, concluding, returned, Guard, set_at}

module _ {T : Type 0} where
  abbrev pub is_holding : Phase T → Bool
  is_holding announcing = true
  is_holding running = true
  is_holding (concluding result) = false
  is_holding (returned result) = false

  abbrev pub held : String → Guard T → ℕ
  held s guard = if str_eq guard.session_id s then (if is_holding guard.phase then 1 else 0) else 0

  -- How many guards hold a session.
  abbrev pub holders : String → List (Guard T) → ℕ
  holders s [] = 0
  holders s (guard ∷ guards) = held s guard + holders s guards

  pub holders-append :
      (s : String) (xs ys : List (Guard T)) → holders s (xs ++ ys) ≡ holders s xs + holders s ys
  holders-append s [] ys = omega arith
  holders-append s (x ∷ xs) ys = omega (arith, holders-append s xs ys)

  pub holders-set_at :
      (s : String) (i : ℕ) (g x : Guard T) (guards : List (Guard T))
      → get_elem? guards i ≡ some x
      → holders s (set_at i g guards) + held s x ≡ holders s guards + held s g
  holders-set_at s i g x [] h = cc
  holders-set_at s zero g x (y ∷ guards) h = rw (some-eq h) (omega arith)
  holders-set_at s (suc i) g x (y ∷ guards) h = omega (arith, holders-set_at s i g x guards h)
