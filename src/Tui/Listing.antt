-- ===== src/Tui/Listing.antt =====
-- How often an id is in a list of sessions, and what the list's operations do to that.
use Prim.Native.String.{String}
use Prim.Native.Nat.{max}
use text.Mathlib.Text.{◌==◌ as str_eq}
use text.Mathlib.TextEquality.{eq_iff}
use text.Mathlib.TextPositions.{eq_refl}
use mathlib.Core.Path.{subst}
use dh_kit.Kit.{
  ℕ, ◌≡◌, refl, sym, ap, ◌∙◌, ◌⊎◌, ◌+◌, ◌≤◌, inl, inr, Bool, true, false, Bool-cases, Option, none,
  some, List, [], ◌∷◌, arith, if◌then◌else◌,
}
use dh_kit.Tui.State.{TuiSessionSummary}
use dh_kit.Tui.Reducer.{has_session, first_id, retitle, upsert_session, without}

abbrev pub count_id : String → List TuiSessionSummary → ℕ
count_id id [] = 0
count_id id (s ∷ ss) = (if str_eq s.id id then 1 else 0) + count_id id ss

-- The current session is listed, or it is the one that an event has named.
abbrev pub Known : Option String → Option String → List TuiSessionSummary → Type 0
Known event none sessions = Unit
Known event (some id) sessions = (has_session id sessions ≡ true) ⊎ (event ≡ some id)

has-retitle :
    (i id title : String) (ss : List TuiSessionSummary)
    → has_session i (retitle id title ss) ≡ has_session i ss
has-retitle i id title [] = refl
has-retitle i id title (s ∷ ss) = elim (Bool-cases (str_eq s.id id)) [
  | inl same ↦ rw same (
      rw ((eq_iff s.id id).0 same)
        (ap (λ b. if str_eq id i then true else b) (has-retitle i id title ss)))
  | inr other ↦ rw other (ap (λ b. if str_eq s.id i then true else b) (has-retitle i id title ss))
]

count_id-retitle :
    (i id title : String) (ss : List TuiSessionSummary)
    → count_id i (retitle id title ss) ≡ count_id i ss
count_id-retitle i id title [] = refl
count_id-retitle i id title (s ∷ ss) = elim (Bool-cases (str_eq s.id id)) [
  | inl same ↦ rw same (
      rw ((eq_iff s.id id).0 same)
        (ap (λ n. (if str_eq id i then 1 else 0) + n) (count_id-retitle i id title ss)))
  | inr other ↦
      rw other (ap (λ n. (if str_eq s.id i then 1 else 0) + n) (count_id-retitle i id title ss))
]

pub count_id-without :
    (i id : String) (ss : List TuiSessionSummary) → count_id i (without id ss) ≤ count_id i ss
count_id-without i id [] = omega arith
count_id-without i id (s ∷ ss) = ground (arith, count_id-without i id ss)

count_id-missing :
    (id : String) (ss : List TuiSessionSummary) → has_session id ss ≡ false → count_id id ss ≡ 0
count_id-missing id [] h = refl
count_id-missing id (s ∷ ss) h = ground (arith, count_id-missing id ss)

pub first-Known :
    (event : Option String) (ss : List TuiSessionSummary) → Known event (first_id ss) ss
first-Known event [] = tt
first-Known event (s ∷ ss) = inl (rw (eq_refl s.id) refl)

pub has-without_other :
    (i id : String) (ss : List TuiSessionSummary)
    → str_eq i id ≡ false
    → has_session i ss ≡ true
    → has_session i (without id ss) ≡ true
has-without_other i id [] differs h = h
has-without_other i id (s ∷ ss) differs h = elim (Bool-cases (str_eq s.id id)) [
  | inl same ↦ rw same (
      has-without_other i id ss differs (
        rw (subst (λ k. str_eq k i ≡ false) (sym ((eq_iff s.id id).0 same)) (flipped i id differs))
          at h))
  | inr other ↦
      rw other (keeps (str_eq s.id i) (has_session i ss) (has-without_other i id ss differs) h)
]
  where
    keeps :
        (b c : Bool) {d : Bool}
        → (c ≡ true → d ≡ true)
        → (if b then true else c) ≡ true
        → (if b then true else d) ≡ true
    keeps true c k e = refl
    keeps false c k e = k e

    clash : true ≡ false → ⊥
    clash e = cc

    flipped : (a b : String) → str_eq a b ≡ false → str_eq b a ≡ false
    flipped a b h = elim (Bool-cases (str_eq b a)) [
      | inl same ↦
          absurd (
            clash
              (sym (subst (λ k. str_eq a k ≡ true) (sym ((eq_iff b a).0 same)) (eq_refl a)) ∙ h))
      | inr other ↦ other
    ]

pub upsert-lists :
    (id title : String) (ss : List TuiSessionSummary)
    → has_session id (upsert_session ss id title) ≡ true
unfolding upsert_session
upsert-lists id title ss = elim (Bool-cases (has_session id ss)) [
  | inl listed ↦ rw listed (has-retitle id id title ss ∙ listed)
  | inr missing ↦ rw missing (rw (eq_refl id) refl)
]

pub count_id-upsert :
    (i id title : String) (ss : List TuiSessionSummary) (n : ℕ)
    → count_id i ss ≤ max 1 n
    → count_id i (upsert_session ss id title) ≤ max 1 n
unfolding upsert_session
count_id-upsert i id title ss n h = elim (Bool-cases (has_session id ss)) [
  | inl listed ↦ rw listed (rw (count_id-retitle i id title ss) h)
  | inr missing ↦ rw missing (elim (Bool-cases (str_eq id i)) [
    | inl same ↦ rw same (
        rw (subst (λ k. count_id k ss ≡ 0) ((eq_iff id i).0 same) (count_id-missing id ss missing))
          (omega arith))
    | inr other ↦ rw other (omega (arith, h))
  ])
]
