-- ===== src/WorkItems/Tests.antt =====
-- The planner's unit tests, and its theorems at concrete items.
use Prim.Native.String.{String}
use text.Mathlib.Text.{◌==◌ as str_eq}
use text.Mathlib.TextEquality.{eq_iff}
use mathlib.Core.Path.{subst}
use dh_kit.Kit.{
  ℕ, ◌≡◌, refl, true, false, Option, none, some, List, [], ◌∷◌, map, if◌then◌else◌, arith, ◌<◌, inl,
  inr, not, keep, member, Bool-cases, All,
}
use dh_kit.WorkItems.{
  WorkItemStatus, pending, in_progress, done, blocked_status, WorkItemState, WorkItemPlan, ids,
  is_pending, schedulable_items, plan_work_items, schedule, unresolved_map, group_parallelizable,
  grouped,
}
use dh_kit.WorkItems.Lists.{flatten, has}
use dh_kit.WorkItems.Order.{Planned, InOrder, plan_work_items-InOrder}
use dh_kit.WorkItems.Partition.{plan_work_items-partition}
use dh_kit.WorkItems.Progress.{IsRanked, plan_work_items_complete}
use dh_kit.WorkItems.Ready.{plan_work_items-ready}

abbrev item_of : String → List String → WorkItemStatus → WorkItemState
item_of id dependencies status = record {
  id = id;
  dependencies = dependencies;
  parallelizable = false;
  execution_group = none;
  status = status;
}

abbrev in_group : String → WorkItemState → WorkItemState
in_group name item = record {
  id = item.id;
  dependencies = item.dependencies;
  parallelizable = true;
  execution_group = some name;
  status = item.status;
}

-- The ids in a plan: ready, blocked, and the execution order.
abbrev shown : Option WorkItemPlan → Option (List String × List String × List (List String))
shown none = none
shown (some plan) = some (ids plan.ready, ids plan.blocked, map ids plan.execution_order)

abbrev separated : List WorkItemState
separated =
    item_of "a" [] done ∷ item_of "b" ("a" ∷ []) pending ∷ item_of "c" ("missing" ∷ []) pending ∷ []

separated_plan : shown (plan_work_items separated) ≡ some ("b" ∷ [], "c" ∷ [], ("b" ∷ []) ∷ [])
unfolding plan_work_items schedule unresolved_map group_parallelizable grouped
separated_plan = refl

abbrev layered : List WorkItemState
layered =
    item_of "d" ("b" ∷ "c" ∷ []) pending
    ∷ in_group "g" (item_of "b" ("a" ∷ []) pending)
    ∷ in_group "g" (item_of "c" ("a" ∷ []) pending)
    ∷ item_of "a" ("z" ∷ []) pending
    ∷ item_of "z" [] done
    ∷ []

layered_plan :
    shown (plan_work_items layered)
    ≡ some ("a" ∷ [], [], ("a" ∷ []) ∷ ("b" ∷ "c" ∷ []) ∷ ("d" ∷ []) ∷ [])
unfolding plan_work_items schedule unresolved_map group_parallelizable grouped
layered_plan = refl

abbrev cycle : List WorkItemState
cycle =
    item_of "a" ("b" ∷ []) pending ∷ item_of "b" ("a" ∷ []) pending ∷ item_of "c" [] pending ∷ []

cycle_plan : shown (plan_work_items cycle) ≡ some ("c" ∷ [], "a" ∷ "b" ∷ [], ("c" ∷ []) ∷ [])
unfolding plan_work_items schedule unresolved_map group_parallelizable grouped
cycle_plan = refl

abbrev unfinished : List WorkItemState
unfinished =
    item_of "a" ("b" ∷ "c" ∷ []) pending
    ∷ item_of "b" [] in_progress
    ∷ item_of "c" [] blocked_status
    ∷ []

-- An item runs beside, not after, the unfinished items that it depends on.
unfinished_plan : shown (plan_work_items unfinished) ≡ some ("a" ∷ [], [], ("a" ∷ []) ∷ [])
unfolding plan_work_items schedule unresolved_map group_parallelizable grouped
unfinished_plan = refl

plan_work_items-partition_example :
    Planned
      (λ plan.
        All
          (λ item. has item.id plan.blocked ≡ not (has item.id (flatten plan.execution_order)))
          (keep is_pending cycle))
      (plan_work_items cycle)
plan_work_items-partition_example = plan_work_items-partition cycle

plan_work_items-InOrder_example :
    Planned (λ plan. InOrder layered [] plan.execution_order) (plan_work_items layered)
plan_work_items-InOrder_example =
    plan_work_items-InOrder layered (refl, (refl, (refl, (refl, (refl, tt)))))

of_member :
    (Q : String → Type 0) (d : String) (ds : List String) → member d ds ≡ true → All Q ds → Q d
of_member Q d [] m all = absurd cc
of_member Q d (e ∷ ds) m all = elim (Bool-cases (str_eq e d)) [
  | inl same ↦ subst Q ((eq_iff e d).0 same) all.0
  | inr other ↦ of_member Q d ds (rw other at m) all.1
]

abbrev layer_rank : String → ℕ
layer_rank d = if str_eq d "a" then 0 else if str_eq d "d" then 2 else 1

layered_ranks : All (IsRanked layered layer_rank) (schedulable_items layered)
layered_ranks = (
  (λ d m h.
      of_member (λ k. layer_rank k < 2) d ("b" ∷ "c" ∷ []) m (omega arith, (omega arith, tt))),
  (
    (λ d m h. of_member (λ k. layer_rank k < 1) d ("a" ∷ []) m (omega arith, tt)),
    (
      (λ d m h. of_member (λ k. layer_rank k < 1) d ("a" ∷ []) m (omega arith, tt)),
      (
        (λ d m h.
            of_member (λ k. has k (schedulable_items layered) ≡ true → layer_rank k < 0) d
              ("z" ∷ []) m ((λ (e : false ≡ true). absurd cc), tt) h),
        tt,
      ),
    ),
  ),
)

plan_work_items_complete_example :
    Planned
      (λ plan.
        All (λ item. has item.id (flatten plan.execution_order) ≡ true) (schedulable_items layered))
      (plan_work_items layered)
plan_work_items_complete_example =
    plan_work_items_complete layered layer_rank (refl, (refl, (refl, (refl, (refl, tt)))))
      layered_ranks

-- The item runs although what it depends on is in progress or blocked.
plan_work_items-ready_example :
    Planned (λ plan. has "a" plan.ready ≡ true) (plan_work_items unfinished)
plan_work_items-ready_example =
    plan_work_items-ready [] (item_of "b" [] in_progress ∷ item_of "c" [] blocked_status ∷ [])
      (item_of "a" ("b" ∷ "c" ∷ []) pending) (refl, (refl, (refl, tt))) refl
      (λ d m.
        of_member (λ k. (has k unfinished ≡ true) × (has k (keep is_pending unfinished) ≡ false)) d
          ("b" ∷ "c" ∷ []) m ((refl, refl), ((refl, refl), tt)))
