-- ===== src/WorkItems/Ready.antt =====
-- Which pending items are ready at once.
use Prim.Native.String.{String}
use text.Mathlib.Text.{◌==◌ as str_eq}
use text.Mathlib.TextEquality.{eq_iff}
use text.Mathlib.TextPositions.{eq_refl}
use mathlib.Core.Path.{subst}
use dh_kit.Kit.{
  ◌≡◌, refl, sym, ap, ◌∙◌, inl, inr, Bool, true, false, not, ◌||◌, some, List, [], ◌∷◌, ◌++◌, keep,
  is_empty_list, Bool-cases, if◌then◌else◌, All, All-map, All-both, arith, lookup, member,
}
use dh_kit.WorkItems.{
  WorkItemState, is_pending, missing_dependencies, missing_ids, schedulable_items, unresolved,
  has_no_wait, plan_of, plan_work_items,
}
use dh_kit.WorkItems.Lists.{has}
use dh_kit.WorkItems.Rounds.{All-has}
use dh_kit.WorkItems.Order.{
  UniqueIds, UniqueIds-keep, schedulable-UniqueIds, has-keep, waits_lem, waits_of, Planned,
  plan-Planned, plan-Scheduled,
}

past_head :
    (p : WorkItemState → Bool) (item : WorkItemState) (xs ys : List WorkItemState)
    → has item.id xs ≡ false
    → All (λ x. has x.id ys ≡ p x) xs
    → All (λ x. (str_eq item.id x.id || has x.id ys) ≡ p x) xs
past_head p item [] ys h all = tt
past_head p item (x ∷ xs) ys h all = (
  ground (arith, eq_iff item.id x.id, eq_iff x.id item.id),
  past_head p item xs ys (ground arith) all.1,
)

-- With unique ids, an item is kept when it passes the test.
kept_by_id :
    (p : WorkItemState → Bool) (items : List WorkItemState)
    → UniqueIds items
    → All (λ item. has item.id (keep p items) ≡ p item) items
kept_by_id p [] u = tt
kept_by_id p (item ∷ items) u = elim (Bool-cases (p item)) [
  | inl yes_p ↦
      subst
        (λ b.
          let l = if b then item ∷ keep p items else keep p items in
          (has item.id l ≡ p item) × All (λ x. has x.id l ≡ p x) items)
        (sym yes_p)
        (
          rw (eq_refl item.id) (sym yes_p),
          past_head p item items (keep p items) u.0 (kept_by_id p items u.1),
        )
  | inr no_p ↦
      subst
        (λ b.
          let l = if b then item ∷ keep p items else keep p items in
          (has item.id l ≡ p item) × All (λ x. has x.id l ≡ p x) items)
        (sym no_p) (has-keep item.id p items u.0 ∙ sym no_p, kept_by_id p items u.1)
]

-- A property of what is kept is one of each item that passes the test.
passing :
    (p : WorkItemState → Bool) (Q : WorkItemState → Type 0) (items : List WorkItemState)
    → All Q (keep p items)
    → All (λ item. p item ≡ true → Q item) items
passing p Q [] h = tt
passing p Q (item ∷ items) h = elim (Bool-cases (p item)) [
  | inl yes_p ↦
      let kept : Q item × All Q (keep p items) = rw yes_p at h in
      ((λ e. kept.0), passing p Q items kept.1)
  | inr no_p ↦
      let kept : All Q (keep p items) = rw no_p at h in
      ((λ e. absurd (clash no_p e)), passing p Q items kept)
]
  where
    clash : {b : Bool} → b ≡ false → b ≡ true → ⊥
    clash h k = cc

-- The dependencies are known, and none of them is pending.
abbrev pub IsWaitingForNoPending : List WorkItemState → WorkItemState → Type 0
IsWaitingForNoPending items item =
    (d : String)
    → member d item.dependencies ≡ true
    → (has d items ≡ true) × (has d (keep is_pending items) ≡ false)

none_kept :
    (p : String → Bool) (ds : List String)
    → ((d : String) → member d ds ≡ true → p d ≡ false)
    → is_empty_list (keep p ds) ≡ true
none_kept p [] f = refl
none_kept p (d ∷ ds) f = rw (f d (rw (eq_refl d) refl)) (none_kept p ds (λ e m. f e (ground arith)))

ready_now :
    (items : List WorkItemState) (item : WorkItemState)
    → IsWaitingForNoPending items item
    → (is_empty_list (missing_dependencies items item) ≡ true)
      × (is_empty_list (unresolved items item) ≡ true)
ready_now items item h = (
  none_kept _ item.dependencies (λ d m. let known = (h d m).0 in ground arith),
  none_kept _ item.dependencies (λ d m.
      let none =
        has-keep d (λ x. not (member x.id (missing_ids items))) (keep is_pending items) (h d m).1 in
      ground arith),
)

all_ready :
    (items : List WorkItemState) (r : List (List WorkItemState) × List String)
    → UniqueIds items
    → All
        (λ item. IsWaitingForNoPending items item → has item.id (plan_of items r).ready ≡ true)
        (keep is_pending items)
all_ready items r unique =
    let pool = keep is_pending items in
    let at_schedulable =
      All-both _ _ (schedulable_items items)
        (waits_lem items (schedulable_items items) [] (schedulable-UniqueIds items unique))
        (kept_by_id (has_no_wait (waits_of items)) (schedulable_items items)
          (schedulable-UniqueIds items unique)) in
    All-map _ _ pool
      (λ item (missing, at). λ waiting.
        let (known, free) = ready_now items item waiting in
        let (found, kept) = at (ap not (missing ∙ ap not known)) in
        kept ∙ rw (found, has_no_wait) free)
      (All-both _ _ pool
        (kept_by_id (λ item. not (is_empty_list (missing_dependencies items item))) pool
          (UniqueIds-keep is_pending items unique))
        (passing (λ item. not (member item.id (missing_ids items)))
          (λ item.
            (lookup item.id (waits_of items) ≡ some (unresolved items item))
            × (has item.id (keep (has_no_wait (waits_of items)) (schedulable_items items))
                ≡ has_no_wait (waits_of items) item))
          pool at_schedulable))

at_middle :
    (Q : WorkItemState → Type 0) (xs ys : List WorkItemState) (x : WorkItemState)
    → All Q (xs ++ (x ∷ ys))
    → Q x
at_middle Q [] ys x h = h.0
at_middle Q (y ∷ xs) ys x h = at_middle Q xs ys x h.1

-- When no two items have the same id, a plan is made, and a pending item whose dependencies are known
-- and not pending is ready in it, whether those dependencies are done, in progress or blocked.
pub plan_work_items-ready :
    (before after : List WorkItemState) (item : WorkItemState)
    → UniqueIds (before ++ (item ∷ after))
    → is_pending item ≡ true
    → IsWaitingForNoPending (before ++ (item ∷ after)) item
    → Planned (λ plan. has item.id plan.ready ≡ true) (plan_work_items (before ++ (item ∷ after)))
plan_work_items-ready before after item unique is_p waiting =
    let items = before ++ (item ∷ after) in
    let (r, made, facts) =
      plan-Scheduled (λ x. has x.id (schedulable_items items) ≡ true) items
        (All-has (schedulable_items items)) in
    plan-Planned _ items r made (
      at_middle
        (λ x.
          is_pending x ≡ true
          → IsWaitingForNoPending items x
          → has x.id (plan_of items r).ready ≡ true)
        before after item (passing is_pending _ items (all_ready items r unique)) is_p waiting)
