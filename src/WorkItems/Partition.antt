-- ===== src/WorkItems/Partition.antt =====
-- The pending items that the plan calls blocked are those it does not run.
use Prim.Native.String.{String}
use dh_kit.Kit.{
  keep-passes, ◌≡◌, ◌⊎◌, refl, ap, ◌∙◌, inl, inr, Bool, true, false, not, ◌||◌, List, [], ◌∷◌, keep,
  Bool-cases, if◌then◌else◌, All, All-map, arith, member,
}
use text.Mathlib.Text.{◌==◌ as str_eq}
use text.Mathlib.TextEquality.{eq_iff}
use mathlib.Core.Path.{subst}
use dh_kit.WorkItems.{
  WorkItemState, is_pending, missing_ids, schedulable_items, add_groups, plan_of, plan_work_items,
}
use dh_kit.WorkItems.Lists.{flatten, has, has-append, member-add_groups}
use dh_kit.WorkItems.Rounds.{All-has}
use dh_kit.WorkItems.Order.{Planned, plan-Planned, plan-Scheduled}

-- Whether an item is kept depends on its id only.
has-keep_id :
    (d : String) (q : String → Bool) (items : List WorkItemState)
    → has d (keep (λ item. q item.id) items) ≡ (if q d then has d items else false)
has-keep_id d q [] = ground arith
has-keep_id d q (item ∷ items) = elim (Bool-cases (str_eq item.id d)) [
  | inl same ↦
      let here : q item.id ≡ q d = ap q ((eq_iff item.id d).0 same) in
      let rest = has-keep_id d q items in ground arith
  | inr other ↦ let rest = has-keep_id d q items in ground arith
]

has-none :
    (d : String) (xs : List WorkItemState)
    → All (λ item. str_eq item.id d ≡ false) xs
    → has d xs ≡ false
has-none d [] h = refl
has-none d (x ∷ xs) h = rw h.0 (has-none d xs h.1)

has-none_groups :
    (d : String) (groups : List (List WorkItemState))
    → All (All (λ item. str_eq item.id d ≡ false)) groups
    → has d (flatten groups) ≡ false
has-none_groups d [] h = refl
has-none_groups d (group ∷ groups) h =
    has-append d group (flatten groups)
    ∙ rw (has-none d group h.0, has-none_groups d groups h.1) refl

-- No item of a missing id stands in the order.
missing-absent :
    (items : List WorkItemState) (groups : List (List WorkItemState)) (d : String)
    → All (All (λ item. member item.id (missing_ids items) ≡ false)) groups
    → member d (missing_ids items) ≡ true
    → has d (flatten groups) ≡ false
missing-absent items groups d taken m = has-none_groups d groups (
    All-map _ _ groups
      (λ group g.
        All-map (λ item. member item.id (missing_ids items) ≡ false) _ group
          (λ item h. apart item.id h (Bool-cases (str_eq item.id d))) g)
      taken)
  where
    apart :
        (k : String)
        → member k (missing_ids items) ≡ false
        → (str_eq k d ≡ true) ⊎ (str_eq k d ≡ false)
        → str_eq k d ≡ false
    apart k h (inl same) =
        let clash : member d (missing_ids items) ≡ false =
          subst (λ x. member x (missing_ids items) ≡ false) ((eq_iff k d).0 same) h in
        cc
    apart k h (inr other) = other

partition_cases :
    (missing ordered : Bool) {waits scheduled free left listed : Bool}
    → waits ≡ true
    → scheduled ≡ (ordered || false)
    → free ≡ (if not missing then waits else false)
    → left ≡ (if not scheduled then free else false)
    → listed ≡ (if missing || left then waits else false)
    → (missing ≡ true → ordered ≡ false)
    → listed ≡ not ordered
partition_cases true true w s f l b absent = absurd (differ (absent refl))
  where
    differ : true ≡ false → ⊥
    differ h = cc
partition_cases true false w s f l b absent = ground arith
partition_cases false true w s f l b absent = ground arith
partition_cases false false w s f l b absent = ground arith

-- Every pending item is either blocked or in the execution order, never both and never neither.
pub plan_work_items-partition :
    (items : List WorkItemState)
    → Planned
        (λ plan.
          All
            (λ item. has item.id plan.blocked ≡ not (has item.id (flatten plan.execution_order)))
            (keep is_pending items))
        (plan_work_items items)
plan_work_items-partition items =
    let (r, made, facts) =
      plan-Scheduled (λ item. member item.id (missing_ids items) ≡ false) items
        (All-map _ _ (schedulable_items items) (λ item h. ground arith)
          (keep-passes (λ item. not (member item.id (missing_ids items)))
            (keep is_pending items))) in
    plan-Planned _ items r made (
      All-map _ _ (keep is_pending items)
        (λ item here. agree r facts.taken facts.covers item.id here)
        (All-has (keep is_pending items)))
  where
    agree :
        (r : List (List WorkItemState) × List String)
        → All (All (λ item. member item.id (missing_ids items) ≡ false)) r.0
        → r.1 ≡ add_groups r.0 []
        → (d : String) → has d (keep is_pending items) ≡ true
        → has d (plan_of items r).blocked ≡ not (has d (flatten r.0))
    agree r taken covers d here =
        partition_cases (member d (missing_ids items)) (has d (flatten r.0)) here
          (ap (λ ks. member d ks) covers ∙ member-add_groups d r.0 [])
          (has-keep_id d (λ k. not (member k (missing_ids items))) (keep is_pending items))
          (has-keep_id d (λ k. not (member k r.1)) (schedulable_items items))
          (has-keep_id d _ (keep is_pending items)) (missing-absent items r.0 d taken)
