-- ===== src/WorkItems/Progress.antt =====
-- The schedule gets to the end when the dependencies have no cycle.
use Prim.Native.String.{String}
use text.Mathlib.Text.{◌==◌ as str_eq}
use text.Mathlib.TextEquality.{eq_iff}
use text.Mathlib.TextPositions.{eq_refl}
use mathlib.Core.Path.{subst}
use dh_kit.Kit.{
  ℕ, zero, suc, ◌+◌, ◌≤◌, ◌<◌, ◌≡◌, refl, sym, ap, ◌∙◌, inl, inr, Bool, true, false, not, ◌&&◌,
  some, List, [], ◌∷◌, keep, is_empty_list, length, ltb, Bool-cases, All, All-map, All-both, arith,
  lookup, member, add,
}
use dh_kit.WorkItems.{
  WorkItemState, ids, is_item_done, unresolved, schedulable_items, all_members, is_free, in_layer,
  add_items, add_groups, plan_work_items,
}
use dh_kit.WorkItems.Lists.{flatten, has, member-add_groups}
use dh_kit.WorkItems.Rounds.{count_left, All-has}
use dh_kit.WorkItems.Order.{
  UniqueIds, schedulable-UniqueIds, waits_lem, waits_of, Planned, plan-Planned, plan-Scheduled,
  count_left-le,
}

-- The scheduled ids and the items that are left are no more than the items.
abbrev Fits : List WorkItemState → List String → Type 0
Fits items ks = length ks + count_left ks items ≤ length items

count_left-cons :
    (k : String) (ks : List String) (items : List WorkItemState)
    → count_left (k ∷ ks) items ≤ count_left ks items
count_left-cons k ks [] = omega arith
count_left-cons k ks (item ∷ items) = ground (arith, count_left-cons k ks items)

count_left-new :
    (k : String) (ks : List String) (items : List WorkItemState)
    → has k items ≡ true
    → member k ks ≡ false
    → count_left (k ∷ ks) items < count_left ks items
count_left-new k ks [] h new = cc
count_left-new k ks (item ∷ items) h new = elim (Bool-cases (str_eq item.id k)) [
  | inl same ↦
      let fewer = count_left-cons k ks items in
      let fresh : member item.id ks ≡ false =
        subst (λ x. member x ks ≡ false) (sym ((eq_iff item.id k).0 same)) new in
      let self : str_eq k item.id ≡ true =
        subst (λ x. str_eq x item.id ≡ true) ((eq_iff item.id k).0 same) (eq_refl item.id) in
      ground arith
  | inr other ↦
      let more : has k items ≡ true = rw other at h in
      let fewer = count_left-new k ks items more new in ground arith
]

Fits-add :
    (items : List WorkItemState) (k : String) (ks : List String)
    → has k items ≡ true
    → Fits items ks
    → Fits items (add k ks)
Fits-add items k ks h fits = elim (Bool-cases (member k ks)) [
  | inl old ↦ rw old fits
  | inr new ↦ rw new (omega (arith, fits, count_left-new k ks items h new))
]

Fits-add_items :
    (items group : List WorkItemState) (ks : List String)
    → All (λ item. has item.id items ≡ true) group
    → Fits items ks
    → Fits items (add_items group ks)
Fits-add_items items [] ks h fits = fits
Fits-add_items items (item ∷ group) ks h fits =
    Fits-add_items items group (add item.id ks) h.1 (Fits-add items item.id ks h.0 fits)

Fits-add_groups :
    (items : List WorkItemState) (groups : List (List WorkItemState)) (ks : List String)
    → All (All (λ item. has item.id items ≡ true)) groups
    → Fits items ks
    → Fits items (add_groups groups ks)
Fits-add_groups items [] ks h fits = fits
Fits-add_groups items (group ∷ groups) ks h fits =
    Fits-add_groups items groups (add_items group ks) h.1 (Fits-add_items items group ks h.0 fits)

none_left :
    (ks : List String) (items : List WorkItemState)
    → count_left ks items ≡ 0
    → All (λ item. member item.id ks ≡ true) items
none_left ks [] h = tt
none_left ks (item ∷ items) h = elim (Bool-cases (member item.id ks)) [
  | inl yes_m ↦ (yes_m, none_left ks items (ground arith))
  | inr no_m ↦ absurd (ground arith)
]

free_fails :
    (waits : List (String × List String)) (ks ds : List String) (item : WorkItemState)
    → lookup item.id waits ≡ some ds
    → in_layer waits ks item ≡ false
    → all_members ds ks ≡ true
    → member item.id ks ≡ true
free_fails waits ks ds item found out all =
    let held : (not (member item.id ks) && all_members ds ks) ≡ false =
      rw (found, is_free) at out in
    ground arith

-- No item is free.
no_layer :
    (p : WorkItemState → Bool) (items : List WorkItemState)
    → is_empty_list (keep p items) ≡ true
    → All (λ item. p item ≡ false) items
no_layer p [] h = tt
no_layer p (item ∷ items) h = elim (Bool-cases (p item)) [
  | inl yes_p ↦ let e : false ≡ true = rw yes_p at h in absurd cc
  | inr no_p ↦ (no_p, no_layer p items (rw no_p at h))
]

at_id :
    (Q : String → Type 0) (d : String) (items : List WorkItemState)
    → has d items ≡ true
    → All (λ item. Q item.id) items
    → Q d
at_id Q d [] h all = absurd cc
at_id Q d (item ∷ items) h all = elim (Bool-cases (str_eq item.id d)) [
  | inl same ↦ subst Q ((eq_iff item.id d).0 same) all.0
  | inr other ↦ at_id Q d items (rw other at h) all.1
]

all_kept :
    (p : String → Bool) (ds ks : List String)
    → ((d : String) → member d ds ≡ true → p d ≡ true → member d ks ≡ true)
    → all_members (keep p ds) ks ≡ true
all_kept p [] ks f = refl
all_kept p (d ∷ ds) ks f =
    let rest = all_kept p ds ks (λ e m q. f e (ground (arith, eq_iff d e)) q) in
    elim (Bool-cases (p d)) [
      | inl yes_p ↦ rw yes_p (rw (f d (rw (eq_refl d) refl) yes_p) rest)
      | inr no_p ↦ rw no_p rest
    ]

-- The dependencies that an item waits for have a lower rank.
abbrev pub IsRanked : List WorkItemState → (String → ℕ) → WorkItemState → Type 0
IsRanked items rank item =
    (d : String)
    → member d item.dependencies ≡ true
    → has d (schedulable_items items) ≡ true
    → rank d < rank item.id

module _ (items : List WorkItemState) (rank : String → ℕ) (ks : List String) where
  abbrev Known : WorkItemState → Type 0
  Known item =
      (in_layer (waits_of items) ks item ≡ false)
      × (lookup item.id (waits_of items) ≡ some (unresolved items item))
      × IsRanked items rank item

  step :
      (n : ℕ) (xs : List WorkItemState)
      → All (λ item. rank item.id < n → member item.id ks ≡ true) (schedulable_items items)
      → All Known xs
      → All (λ item. rank item.id < suc n → member item.id ks ≡ true) xs
  step n [] below known = tt
  step n (item ∷ xs) below ((out, found, ranked), known) = (
    λ low. free_fails (waits_of items) ks (unresolved items item) item found out (
        all_kept _ item.dependencies ks (λ d m waits.
          let here = is_listed d waits in
          at_id (λ k. rank k < n → member k ks ≡ true) d (schedulable_items items) here below
            (omega (arith, low, ranked d m here)))),
    step n xs below known,
  )
    where
      is_listed :
          (d : String)
          → (not (member d (ids (keep is_item_done items))) && has d (schedulable_items items))
            ≡ true
          → has d (schedulable_items items) ≡ true
      is_listed d h = ground arith

  reached :
      (n : ℕ)
      → All Known (schedulable_items items)
      → All (λ item. rank item.id < n → member item.id ks ≡ true) (schedulable_items items)
  reached zero known =
      All-map Known _ (schedulable_items items) (λ item k low. absurd (omega (arith, low))) known
  reached (suc n) known = step n (schedulable_items items) (reached n known) known

-- At the end of the loop every item is scheduled.
all_scheduled :
    (items : List WorkItemState) (rank : String → ℕ) (ks : List String)
    → UniqueIds items
    → All (IsRanked items rank) (schedulable_items items)
    → Fits (schedulable_items items) ks
    → (ltb (length ks) (length (schedulable_items items)) ≡ true
        → is_empty_list (keep (in_layer (waits_of items) ks) (schedulable_items items)) ≡ true)
    → All (λ item. member item.id ks ≡ true) (schedulable_items items)
all_scheduled items rank ks unique ranked fits stuck =
    elim (Bool-cases (ltb (length ks) (length (schedulable_items items)))) [
      | inr full ↦ none_left ks (schedulable_items items) (ground arith)
      | inl short ↦
          let known =
            All-map _ (Known items rank ks) (schedulable_items items)
              (λ item k. (k.0, k.1.0, k.1.1))
              (All-both _ _ (schedulable_items items)
                (no_layer (in_layer (waits_of items) ks) (schedulable_items items) (stuck short))
                (All-both _ (IsRanked items rank) (schedulable_items items)
                  (waits_lem items (schedulable_items items) []
                    (schedulable-UniqueIds items unique))
                  ranked)) in
          All-map _ _ (schedulable_items items)
            (λ item here.
              at_id (λ k. rank k < suc (rank item.id) → member k ks ≡ true) item.id
                (schedulable_items items) here (reached items rank ks (suc (rank item.id)) known)
                (omega arith))
            (All-has (schedulable_items items))
    ]

-- When no two items have the same id and the dependencies among the schedulable items have no cycle, so
-- that some rank falls along each of them, a plan is made and every schedulable item is in its execution
-- order.
pub plan_work_items_complete :
    (items : List WorkItemState) (rank : String → ℕ)
    → UniqueIds items
    → All (IsRanked items rank) (schedulable_items items)
    → Planned
        (λ plan.
          All (λ item. has item.id (flatten plan.execution_order) ≡ true) (schedulable_items items))
        (plan_work_items items)
plan_work_items_complete items rank unique ranked =
    let (r, made, facts) =
      plan-Scheduled (λ item. has item.id (schedulable_items items) ≡ true) items
        (All-has (schedulable_items items)) in
    let fits : Fits (schedulable_items items) r.1 =
      subst (Fits (schedulable_items items)) (sym facts.covers) (
        Fits-add_groups (schedulable_items items) r.0 [] facts.taken
          (omega (arith, count_left-le [] (schedulable_items items)))) in
    plan-Planned _ items r made (
      All-map (λ item. member item.id r.1 ≡ true) _ (schedulable_items items)
        (λ item m. in_order r item.id facts.covers m)
        (all_scheduled items rank r.1 unique ranked fits facts.stuck))
  where
    in_order :
        (r : List (List WorkItemState) × List String) (d : String)
        → r.1 ≡ add_groups r.0 []
        → member d r.1 ≡ true
        → has d (flatten r.0) ≡ true
    in_order r d covers m =
        let same = ap (λ ks. member d ks) covers ∙ member-add_groups d r.0 [] in ground arith
