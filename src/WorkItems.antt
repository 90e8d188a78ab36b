-- ===== src/WorkItems.antt =====
-- packages/runtime/src/workflow/work-item-planner.ts: which work items are ready, which are blocked, and
-- in what order the others run.
pub mod Lists
pub mod Rounds
pub mod Order
pub mod Partition
pub mod Progress
pub mod Ready
mod Tests
use Prim.Native.String
use Prim.Native.String.{String}
use text.Mathlib.Text.{◌==◌ as str_eq}
use dh_kit.Kit.{
  ℕ, zero, suc, ◌+◌, Bool, true, false, not, ◌&&◌, ◌||◌, Option, none, some, List, [], ◌∷◌, ◌++◌,
  map, keep, is_empty_list, ltb, length, if◌then◌else◌, lookup, save, member, add,
}

pub data WorkItemStatus : Type 0 where
  pending in_progress done blocked_status : WorkItemStatus

-- The fields of a work item that the planner reads.
pub record WorkItemState : Type 0 where
  pub id : String
  pub dependencies : List String
  pub parallelizable : Bool
  pub execution_group : Option String
  pub status : WorkItemStatus

pub record WorkItemPlan : Type 0 where
  pub ready : List WorkItemState
  pub blocked : List WorkItemState
  pub parallelizable_groups : List (List WorkItemState)
  pub execution_order : List (List WorkItemState)

abbrev pub is_item_done : WorkItemState → Bool
is_item_done item = elim item.status [ done ↦ true | _ ↦ false ]

abbrev pub is_pending : WorkItemState → Bool
is_pending item = elim item.status [ pending ↦ true | _ ↦ false ]

abbrev pub ids : List WorkItemState → List String
ids items = map (λ item. item.id) items

-- The map from a group's key to its items, in the order in which the keys come up.
abbrev pub push_to :
    String → WorkItemState → List (String × List WorkItemState) → List (String × List WorkItemState)
push_to key item [] = (key, item ∷ []) ∷ []
push_to key item ((k, group) ∷ groups) =
    if str_eq k key
    then (k, group ++ (item ∷ [])) ∷ groups
    else (k, group) ∷ push_to key item groups

abbrev pub group_key : WorkItemState → String
group_key item = elim item.execution_group [ some name ↦ name | none ↦ String.◌++◌ "solo:" item.id ]

unfoldable pub grouped :
    List WorkItemState → List (String × List WorkItemState) → List (String × List WorkItemState)
grouped [] groups = groups
grouped (item ∷ items) groups = grouped items (push_to (group_key item) item groups)

-- No group of the map is empty.
unfoldable pub group_parallelizable : List WorkItemState → List (List WorkItemState)
unfolding grouped
group_parallelizable items =
    map (λ entry. entry.1) (grouped (keep (λ item. item.parallelizable) items) [])
    ++ map (λ item. item ∷ []) (keep (λ item. not item.parallelizable) items)

-- The dependencies of an item that are no item's id.
abbrev pub missing_dependencies : List WorkItemState → WorkItemState → List String
missing_dependencies items item =
    keep (λ d. not (member d (ids (keep is_item_done items))) && not (member d (ids items)))
      item.dependencies

-- The ids with an entry in `missingDependencyIdsByItem`.
abbrev pub missing_ids : List WorkItemState → List String
missing_ids items =
    ids
      (keep (λ item. not (is_empty_list (missing_dependencies items item))) (keep is_pending items))

abbrev pub schedulable_items : List WorkItemState → List WorkItemState
schedulable_items items =
    keep (λ item. not (member item.id (missing_ids items))) (keep is_pending items)

-- The dependencies that have to be scheduled first.
abbrev pub unresolved : List WorkItemState → WorkItemState → List String
unresolved items item =
    keep
      (λ d.
        not (member d (ids (keep is_item_done items))) && member d (ids (schedulable_items items)))
      item.dependencies

-- `unresolvedDepsByItem`, filled from the front of the list.
unfoldable pub unresolved_map :
    List WorkItemState
    → List WorkItemState
    → List (String × List String)
    → List (String × List String)
unresolved_map items [] entries = entries
unresolved_map items (item ∷ rest) entries =
    unresolved_map items rest (save item.id (unresolved items item) entries)

abbrev pub all_members : List String → List String → Bool
all_members [] ks = true
all_members (d ∷ ds) ks = member d ks && all_members ds ks

-- Nothing is left to wait for: there is no entry, or each id of it is scheduled.
abbrev pub is_free : List (String × List String) → List String → WorkItemState → Bool
is_free waits scheduled item = elim (lookup item.id waits) [
  | none ↦ true
  | some ds ↦ all_members ds scheduled
]

abbrev pub in_layer : List (String × List String) → List String → WorkItemState → Bool
in_layer waits scheduled item = not (member item.id scheduled) && is_free waits scheduled item

abbrev pub add_items : List WorkItemState → List String → List String
add_items [] scheduled = scheduled
add_items (item ∷ items) scheduled = add_items items (add item.id scheduled)

abbrev pub add_groups : List (List WorkItemState) → List String → List String
add_groups [] scheduled = scheduled
add_groups (group ∷ groups) scheduled = add_groups groups (add_items group scheduled)

-- The execution order from here on, and the ids that are scheduled in the end; `none` where the fuel
-- runs out.
abbrev pub Schedule : Type 0
Schedule = Option (List (List WorkItemState) × List String)

abbrev pub after_groups : List (List WorkItemState) → Schedule → Schedule
after_groups groups none = none
after_groups groups (some (order, scheduled)) = some (groups ++ order, scheduled)

unfoldable pub schedule :
    List (String × List String) → List WorkItemState → ℕ → List String → Schedule
schedule waits schedulable zero scheduled = none
schedule waits schedulable (suc fuel) scheduled =
    let layer = keep (in_layer waits scheduled) schedulable in
    let groups = group_parallelizable layer in
    let rest = schedule waits schedulable fuel (add_groups groups scheduled) in
    if ltb (length scheduled) (length schedulable)
    then if is_empty_list layer then some ([], scheduled) else after_groups groups rest
    else some ([], scheduled)

abbrev pub has_no_wait : List (String × List String) → WorkItemState → Bool
has_no_wait waits item = elim (lookup item.id waits) [ none ↦ true | some ds ↦ is_empty_list ds ]

abbrev pub plan_of : List WorkItemState → List (List WorkItemState) × List String → WorkItemPlan
plan_of items (order, scheduled) =
    let schedulable = schedulable_items items in
    let waits = unresolved_map items schedulable [] in
    let ready = keep (has_no_wait waits) schedulable in
    let unscheduled = ids (keep (λ item. not (member item.id scheduled)) schedulable) in
    record {
      ready = ready;
      blocked =
          keep (λ item. member item.id (missing_ids items) || member item.id unscheduled)
            (keep is_pending items);
      parallelizable_groups = group_parallelizable ready;
      execution_order = order;
    }

-- One round for each schedulable item, and one to see that nothing is left.
unfoldable pub plan_work_items : List WorkItemState → Option WorkItemPlan
plan_work_items items =
    let schedulable = schedulable_items items in
    elim (schedule (unresolved_map items schedulable []) schedulable (suc (length schedulable))
      []) [ none ↦ none | some result ↦ some (plan_of items result) ]
