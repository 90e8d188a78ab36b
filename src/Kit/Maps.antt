-- ===== src/Kit/Maps.antt =====
-- Sets of texts as lists, and maps with text keys as lists of entries.
use Prim.Native.String.{String}
use mathlib.Core.Path.{◌≡◌, refl, sym, ap, ◌∙◌, subst}
use mathlib.Core.Logic.{inl, inr}
use mathlib.Core.Bool.{Bool, true, false, ◌||◌}
use mathlib.Core.List.{List, [], ◌∷◌, ◌++◌}
use mathlib.Core.Option.{Option, none, some}
use native.Mathlib.Omega.{arith}
use text.Mathlib.Text.{◌==◌ as str_eq}
use text.Mathlib.TextEquality.{eq_iff}
use text.Mathlib.TextPositions.{eq_refl}
use dh_kit.Kit.Tests.{if◌then◌else◌, Bool-cases}

abbrev pub member : String → List String → Bool
member key [] = false
member key (k ∷ ks) = str_eq k key || member key ks

-- `Set.add`.
abbrev pub add : String → List String → List String
add key ks = if member key ks then ks else key ∷ ks

-- Reading and writing by key; a write replaces the entry of the key.
abbrev pub lookup {ℓ} : {V : Type ℓ} → String → List (String × V) → Option V
lookup key [] = none
lookup key ((k, v) ∷ entries) = if str_eq k key then some v else lookup key entries

abbrev pub save {ℓ} : {V : Type ℓ} → String → V → List (String × V) → List (String × V)
save key v [] = (key, v) ∷ []
save key v ((k, w) ∷ entries) =
    if str_eq k key then (k, v) ∷ entries else (k, w) ∷ save key v entries

pub member-append :
    (key : String) (ks js : List String) → member key (ks ++ js) ≡ (member key ks || member key js)
member-append key [] js = refl
member-append key (k ∷ ks) js = ground (arith, member-append key ks js)

pub member-add_self : (key : String) (ks : List String) → member key (add key ks) ≡ true
member-add_self key ks = elim (Bool-cases (member key ks)) [
  | inl old ↦ rw old old
  | inr new ↦ rw new (rw (eq_refl key) refl)
]

pub member-add :
    (key k : String) (ks : List String) → member key ks ≡ true → member key (add k ks) ≡ true
member-add key k ks h = ground arith

pub lookup-save {ℓ} :
    {V : Type ℓ} (key : String) (v : V) (entries : List (String × V))
    → lookup key (save key v entries) ≡ some v
lookup-save key v [] = rw (eq_refl key) refl
lookup-save key v ((k, w) ∷ entries) = elim (Bool-cases (str_eq k key)) [
  | inl same ↦ rw (same, same) refl
  | inr other ↦ rw (other, other) (lookup-save key v entries)
]

pub lookup-save_other {ℓ} :
    {V : Type ℓ} (key j : String) (v : V) (entries : List (String × V))
    → str_eq key j ≡ false
    → lookup j (save key v entries) ≡ lookup j entries
lookup-save_other key j v [] h = rw h refl
lookup-save_other key j v ((k, w) ∷ entries) h = elim (Bool-cases (str_eq k key)) [
  | inl same ↦ rw same (
      let apart : str_eq k j ≡ false =
        subst (λ x. str_eq x j ≡ false) (sym ((eq_iff k key).0 same)) h in
      rw apart refl)
  | inr other ↦
      rw other (ap (λ o. if str_eq k j then some w else o) (lookup-save_other key j v entries h))
]

-- `Map.has` and `Map.delete`.
abbrev pub has_key {ℓ} : {V : Type ℓ} → String → List (String × V) → Bool
has_key key [] = false
has_key key ((k, v) ∷ entries) = str_eq k key || has_key key entries

abbrev pub remove {ℓ} : {V : Type ℓ} → String → List (String × V) → List (String × V)
remove key [] = []
remove key ((k, v) ∷ entries) =
    let rest = remove key entries in if str_eq k key then rest else (k, v) ∷ rest

pub has_key-save {ℓ} :
    {V : Type ℓ} (j key : String) (v : V) (entries : List (String × V))
    → has_key j (save key v entries) ≡ (str_eq key j || has_key j entries)
has_key-save j key v [] = refl
has_key-save j key v ((k, w) ∷ entries) = elim (Bool-cases (str_eq k key)) [
  | inl same ↦ rw same (
      subst
        (λ x.
          (str_eq x j || has_key j entries) ≡ (str_eq key j || (str_eq x j || has_key j entries)))
        (sym ((eq_iff k key).0 same)) (ground arith))
  | inr other ↦ rw other (let rest = has_key-save j key v entries in ground arith)
]

pub has_key-remove {ℓ} :
    {V : Type ℓ} (j key : String) (entries : List (String × V))
    → has_key j (remove key entries) ≡ (if str_eq key j then false else has_key j entries)
has_key-remove j key [] = ground arith
has_key-remove j key ((k, w) ∷ entries) = elim (Bool-cases (str_eq k key)) [
  | inl same ↦ rw same (
      has_key-remove j key entries
      ∙ subst
          (λ x.
            (if str_eq key j then false else has_key j entries)
            ≡ (if str_eq key j then false else (str_eq x j || has_key j entries)))
          (sym ((eq_iff k key).0 same)) (ground arith))
  | inr other ↦ rw other (elim (Bool-cases (str_eq key j)) [
    | inl here ↦
        let apart : str_eq k j ≡ false =
          subst (λ x. str_eq k x ≡ false) ((eq_iff key j).0 here) other in
        let rest = has_key-remove j key entries in ground arith
    | inr away ↦ let rest = has_key-remove j key entries in ground arith
  ])
]
