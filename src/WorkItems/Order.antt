-- ===== src/WorkItems/Order.antt =====
-- The plan as a whole: it is always made, and its groups come after what they depend on.
use Prim.Native.String.{String}
use text.Mathlib.Text.{◌==◌ as str_eq}
use text.Mathlib.TextEquality.{eq_iff}
use mathlib.Core.Path.{subst}
use dh_kit.Kit.{
  suc, ◌≤◌, ◌≡◌, ◌⊎◌, refl, sym, ◌∙◌, inl, inr, Bool, true, false, ◌||◌, Option, none, some, List,
  [], ◌∷◌, ◌++◌, keep, length, Bool-cases, All, arith, lookup, save, lookup-save, lookup-save_other,
  member, member-append,
}
use dh_kit.WorkItems.{
  WorkItemState, WorkItemPlan, ids, is_item_done, is_pending, schedulable_items, unresolved,
  unresolved_map, all_members, is_free, add_items, schedule, Schedule, plan_of, plan_work_items,
}
use dh_kit.WorkItems.Lists.{has, member-add_items}
use dh_kit.WorkItems.Rounds.{Ordered, Scheduled, Ends, count_left, schedule-Ends}

-- No two items have the same id.
abbrev pub UniqueIds : List WorkItemState → Type 0
UniqueIds [] = Unit
UniqueIds (item ∷ items) = (has item.id items ≡ false) × UniqueIds items

pub has-keep :
    (d : String) (p : WorkItemState → Bool) (items : List WorkItemState)
    → has d items ≡ false
    → has d (keep p items) ≡ false
has-keep d p [] h = refl
has-keep d p (item ∷ items) h = ground (arith, has-keep d p items)

pub UniqueIds-keep :
    (p : WorkItemState → Bool) (items : List WorkItemState)
    → UniqueIds items
    → UniqueIds (keep p items)
UniqueIds-keep p [] u = tt
UniqueIds-keep p (item ∷ items) u = elim (Bool-cases (p item)) [
  | inl yes_p ↦ rw yes_p (has-keep item.id p items u.0, UniqueIds-keep p items u.1)
  | inr no_p ↦ rw no_p (UniqueIds-keep p items u.1)
]

pub schedulable-UniqueIds :
    (items : List WorkItemState) → UniqueIds items → UniqueIds (schedulable_items items)
schedulable-UniqueIds items u = UniqueIds-keep _ _ (UniqueIds-keep is_pending items u)

lookup-unresolved_map :
    (items rest : List WorkItemState) (d : String) (entries : List (String × List String))
    → has d rest ≡ false
    → lookup d (unresolved_map items rest entries) ≡ lookup d entries
unfolding unresolved_map
lookup-unresolved_map items [] d entries h = refl
lookup-unresolved_map items (item ∷ rest) d entries h =
    let (differs, absent) = parts (str_eq item.id d) (has d rest) h in
    lookup-unresolved_map items rest d (save item.id (unresolved items item) entries) absent
    ∙ lookup-save_other item.id d (unresolved items item) entries differs
  where
    parts : (a b : Bool) → (a || b) ≡ false → (a ≡ false) × (b ≡ false)
    parts a b h = ground arith

-- An item waits for its own unresolved dependencies.
pub waits_lem :
    (items rest : List WorkItemState) (entries : List (String × List String))
    → UniqueIds rest
    → All
        (λ item. lookup item.id (unresolved_map items rest entries) ≡ some (unresolved items item))
        rest
unfolding unresolved_map
waits_lem items [] entries u = tt
waits_lem items (item ∷ rest) entries u = (
  lookup-unresolved_map items rest item.id (save item.id (unresolved items item) entries) u.0
      ∙ lookup-save item.id (unresolved items item) entries,
  waits_lem items rest (save item.id (unresolved items item) entries) u.1,
)

abbrev pub waits_of : List WorkItemState → List (String × List String)
waits_of items = unresolved_map items (schedulable_items items) []

pub count_left-le :
    (ks : List String) (items : List WorkItemState) → count_left ks items ≤ length items
count_left-le ks [] = omega arith
count_left-le ks (item ∷ items) = ground (arith, count_left-le ks items)

-- The plan is that of a schedule.
pub plan-Scheduled :
    (P : WorkItemState → Type 0) (items : List WorkItemState)
    → All P (schedulable_items items)
    → (r : List (List WorkItemState) × List String) × (plan_work_items items
        ≡ some (plan_of items r))
      × Scheduled P (waits_of items) (schedulable_items items) [] r
unfolding plan_work_items
plan-Scheduled P items all =
    go
      (schedule (waits_of items) (schedulable_items items) (suc (length (schedulable_items items)))
        [])
      (schedule-Ends P (waits_of items) (schedulable_items items) all
        (suc (length (schedulable_items items))) []
        (omega (arith, count_left-le [] (schedulable_items items))))
  where
    go :
        (s : Schedule)
        → Ends (Scheduled P (waits_of items) (schedulable_items items) []) s
        → (r : List (List WorkItemState) × List String) × (elim s [
          | none ↦ none
          | some result ↦ some (plan_of items result)
        ]
            ≡ some (plan_of items r))
          × Scheduled P (waits_of items) (schedulable_items items) [] r
    go none h = absurd h
    go (some r) h = (r, refl, h)

-- A plan is made, and it has the property.
abbrev pub Planned : (WorkItemPlan → Type 0) → Option WorkItemPlan → Type 0
Planned Q none = ⊥
Planned Q (some plan) = Q plan

pub plan-Planned :
    (Q : WorkItemPlan → Type 0) (items : List WorkItemState)
    (r : List (List WorkItemState) × List String)
    → plan_work_items items ≡ some (plan_of items r)
    → Q (plan_of items r)
    → Planned Q (plan_work_items items)
plan-Planned Q items r e h = subst (Planned Q) (sym e) h

-- A dependency is no reason to wait: its item is done, stands in an earlier group, or is not to be
-- scheduled at all.
abbrev pub Settled : List WorkItemState → List String → WorkItemState → Type 0
Settled items earlier item =
    (d : String)
    → member d item.dependencies ≡ true
    → (has d (keep is_item_done items) ≡ true)
      ⊎ ((member d earlier ≡ true) ⊎ (has d (schedulable_items items) ≡ false))

abbrev pub InOrder : List WorkItemState → List String → List (List WorkItemState) → Type 0
InOrder items earlier [] = Unit
InOrder items earlier (group ∷ groups) =
    All (Settled items earlier) group × InOrder items (earlier ++ ids group) groups

members-all :
    (ds ks : List String) (d : String)
    → all_members ds ks ≡ true
    → member d ds ≡ true
    → member d ks ≡ true
members-all [] ks d h m = cc
members-all (e ∷ ds) ks d h m = ground (arith, members-all ds ks d, eq_iff e d)

-- A member that passes the test is kept.
member-keep :
    (p : String → Bool) (d : String) (ds : List String)
    → member d ds ≡ true
    → p d ≡ true
    → member d (keep p ds) ≡ true
member-keep p d [] m h = m
member-keep p d (e ∷ ds) m h = elim (Bool-cases (str_eq e d)) [
  | inl same ↦
      let kept : p e ≡ true = subst (λ x. p x ≡ true) (sym ((eq_iff e d).0 same)) h in
      rw kept (rw same refl)
  | inr other ↦
      let more : member d ds ≡ true = rw other at m in
      let rest = member-keep p d ds more h in ground arith
]

free-Settled :
    (items : List WorkItemState) (scheduled earlier : List String) (item : WorkItemState)
    → ((d : String) → member d scheduled ≡ true → member d earlier ≡ true)
    → lookup item.id (waits_of items) ≡ some (unresolved items item)
    → is_free (waits_of items) scheduled item ≡ true
    → Settled items earlier item
free-Settled items scheduled earlier item within found free d m =
    elim (Bool-cases (has d (keep is_item_done items))) [
      | inl finished ↦ inl finished
      | inr open_ ↦ elim (Bool-cases (has d (schedulable_items items))) [
        | inl waits ↦ inr (
            inl (
              within d (
                members-all (unresolved items item) scheduled d (rw (found, is_free) at free)
                  (member-keep _ d item.dependencies m (ground arith)))))
        | inr outside ↦ inr (inr outside)
      ]
    ]

Ordered-InOrder :
    (items : List WorkItemState) (scheduled earlier : List String)
    (groups : List (List WorkItemState))
    → ((d : String) → member d scheduled ≡ true → member d earlier ≡ true)
    → All (All (λ item. lookup item.id (waits_of items) ≡ some (unresolved items item))) groups
    → Ordered (waits_of items) scheduled groups
    → InOrder items earlier groups
Ordered-InOrder items scheduled earlier [] within found h = tt
Ordered-InOrder items scheduled earlier (group ∷ groups) within found h = (
  settled group found.0 h.0,
  Ordered-InOrder items (add_items group scheduled) (earlier ++ ids group) groups next found.1 h.1,
)
  where
    settled :
        (xs : List WorkItemState)
        → All (λ item. lookup item.id (waits_of items) ≡ some (unresolved items item)) xs
        → All (λ item. is_free (waits_of items) scheduled item ≡ true) xs
        → All (Settled items earlier) xs
    settled [] f k = tt
    settled (x ∷ xs) f k =
        (free-Settled items scheduled earlier x within f.0 k.0, settled xs f.1 k.1)

    next :
        (d : String)
        → member d (add_items group scheduled) ≡ true
        → member d (earlier ++ ids group) ≡ true
    next d m =
        member-append d earlier (ids group)
        ∙ either (has d group) (member d scheduled) (sym (member-add_items d group scheduled) ∙ m)
            (within d)
      where
        either : (g s : Bool) {e : Bool} → (g || s) ≡ true → (s ≡ true → e ≡ true) → (e || g) ≡ true
        either true s h k = ground arith
        either false s h k = ground arith

-- When no two items have the same id, a plan is made, and in its execution order each group stands
-- after the dependencies of its items, but for those that are done and those that are not schedulable:
-- unknown, in progress, blocked, or pending with an unknown dependency.
pub plan_work_items-InOrder :
    (items : List WorkItemState)
    → UniqueIds items
    → Planned (λ plan. InOrder items [] plan.execution_order) (plan_work_items items)
plan_work_items-InOrder items unique =
    let P =
      λ (item : WorkItemState). lookup item.id (waits_of items) ≡ some (unresolved items item) in
    let (r, made, facts) =
      plan-Scheduled P items
        (waits_lem items (schedulable_items items) [] (schedulable-UniqueIds items unique)) in
    plan-Planned (λ plan. InOrder items [] plan.execution_order) items r made
      (Ordered-InOrder items [] [] r.0 (λ d h. h) facts.taken facts.ordered)
