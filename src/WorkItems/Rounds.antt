-- ===== src/WorkItems/Rounds.antt =====
-- The rounds of the schedule: each one takes at least one item, waits for nothing that is not scheduled,
-- and the loop ends only when no item is free.
use Prim.Native.String.{String}
use text.Mathlib.TextPositions.{eq_refl}
use dh_kit.Kit.{
  All-keep, keep-passes, ℕ, zero, suc, ◌+◌, ◌≤◌, ◌<◌, ◌≡◌, refl, sym, ap, ◌∙◌, inl, inr, Bool, true,
  false, ◌||◌, Option, none, some, List, [], ◌∷◌, ◌++◌, keep, is_empty_list, length, ltb,
  Bool-cases, if◌then◌else◌, All, All-map, All-append, arith, lookup, member,
}
use dh_kit.WorkItems.{
  WorkItemState, group_parallelizable, all_members, is_free, in_layer, add_items, add_groups,
  Schedule, after_groups, schedule,
}
use dh_kit.WorkItems.Lists.{
  All-group_parallelizable, has, has-group_parallelizable, member-add_items, member-add_groups,
}

abbrev pub Within : List String → List String → Type 0
Within ks js = (d : String) → member d ks ≡ true → member d js ≡ true

-- How many items are not scheduled yet.
abbrev pub count_left : List String → List WorkItemState → ℕ
count_left scheduled [] = 0
count_left scheduled (item ∷ items) =
    (if member item.id scheduled then 0 else 1) + count_left scheduled items

pub All-has : (items : List WorkItemState) → All (λ item. has item.id items ≡ true) items
All-has [] = tt
All-has (item ∷ items) = (
  rw (eq_refl item.id) refl,
  All-map (λ x. has x.id items ≡ true) (λ x. has x.id (item ∷ items) ≡ true) items
      (λ x h. ground arith) (All-has items),
)

count-drop :
    (p : WorkItemState → Bool) (ks js : List String) (items : List WorkItemState)
    → Within ks js
    → All (λ item. member item.id js ≡ true) (keep p items)
    → ((item : WorkItemState) → p item ≡ true → member item.id ks ≡ false)
    → count_left js items + length (keep p items) ≤ count_left ks items
count-drop p ks js [] within taken fresh = omega arith
count-drop p ks js (item ∷ items) within taken fresh = elim (Bool-cases (p item)) [
  | inl yes_p ↦
      let taken' : (member item.id js ≡ true) × All (λ x. member x.id js ≡ true) (keep p items) =
        rw yes_p at taken in
      let more = count-drop p ks js items within taken'.1 fresh in
      rw yes_p (rw (taken'.0, fresh item yes_p) (omega arith))
  | inr no_p ↦
      let taken' : All (λ x. member x.id js ≡ true) (keep p items) = rw no_p at taken in
      let more = count-drop p ks js items within taken' fresh in
      rw no_p (ground (arith, within item.id))
]

-- Every item of each group is free once the groups before it are scheduled.
abbrev pub Ordered : List (String × List String) → List String → List (List WorkItemState) → Type 0
Ordered waits scheduled [] = Unit
Ordered waits scheduled (group ∷ groups) =
    All (λ item. is_free waits scheduled item ≡ true) group
    × Ordered waits (add_items group scheduled) groups

all_members_mono :
    (ds ks js : List String) → Within ks js → all_members ds ks ≡ true → all_members ds js ≡ true
all_members_mono [] ks js within h = refl
all_members_mono (d ∷ ds) ks js within h =
    ground (arith, within d, all_members_mono ds ks js within)

is_free_mono :
    (waits : List (String × List String)) (ks js : List String) (item : WorkItemState)
    → Within ks js
    → is_free waits ks item ≡ true
    → is_free waits js item ≡ true
is_free_mono waits ks js item within h = go (lookup item.id waits) h
  where
    go :
        (o : Option (List String))
        → elim o [ none ↦ true | some ds ↦ all_members ds ks ] ≡ true
        → elim o [ none ↦ true | some ds ↦ all_members ds js ] ≡ true
    go none k = refl
    go (some ds) k = all_members_mono ds ks js within k

Within-add_items : (items : List WorkItemState) (ks : List String) → Within ks (add_items items ks)
Within-add_items items ks d h = member-add_items d items ks ∙ ground arith

Ordered-groups :
    (waits : List (String × List String)) (ks js : List String) (groups : List (List WorkItemState))
    → Within ks js
    → All (All (λ item. is_free waits ks item ≡ true)) groups
    → Ordered waits js groups
Ordered-groups waits ks js [] within free = tt
Ordered-groups waits ks js (group ∷ groups) within free = (
  All-map _ _ group (λ item h. is_free_mono waits ks js item within h) free.0,
  Ordered-groups waits ks (add_items group js) groups
      (λ d h. Within-add_items group js d (within d h)) free.1,
)

Ordered-append :
    (waits : List (String × List String)) (ks : List String) (xs ys : List (List WorkItemState))
    → Ordered waits ks xs
    → Ordered waits (add_groups xs ks) ys
    → Ordered waits ks (xs ++ ys)
Ordered-append waits ks [] ys h k = k
Ordered-append waits ks (group ∷ xs) ys h k =
    (h.0, Ordered-append waits (add_items group ks) xs ys h.1 k)

-- What a schedule from `scheduled` on has achieved.
pub record Scheduled (P : WorkItemState → Type 0) (waits : List (String × List String))
    (items : List WorkItemState) (scheduled : List String)
    (r : List (List WorkItemState) × List String) : Type 0 where
  pub ordered : Ordered waits scheduled r.0
  pub covers : r.1 ≡ add_groups r.0 scheduled
  pub taken : All (All P) r.0
  pub stuck :
      ltb (length r.1) (length items) ≡ true
      → is_empty_list (keep (in_layer waits r.1) items) ≡ true

-- There is a result, and it has the property.
abbrev pub Ends : (List (List WorkItemState) × List String → Type 0) → Schedule → Type 0
Ends Q none = ⊥
Ends Q (some r) = Q r

free_of_layer :
    (waits : List (String × List String)) (ks : List String) (item : WorkItemState)
    → in_layer waits ks item ≡ true
    → (member item.id ks ≡ false) × (is_free waits ks item ≡ true)
free_of_layer waits ks item h = ground arith

add_groups-append :
    (xs ys : List (List WorkItemState)) (ks : List String)
    → add_groups (xs ++ ys) ks ≡ add_groups ys (add_groups xs ks)
add_groups-append [] ys ks = refl
add_groups-append (group ∷ xs) ys ks = add_groups-append xs ys (add_items group ks)

module _ (P : WorkItemState → Type 0) (waits : List (String × List String))
    (items : List WorkItemState) (all : All P items) where
  abbrev layer_at : List String → List WorkItemState
  layer_at scheduled = keep (in_layer waits scheduled) items

  abbrev next_scheduled : List String → List String
  next_scheduled scheduled = add_groups (group_parallelizable (layer_at scheduled)) scheduled

  round-Ordered :
      (scheduled : List String)
      → Ordered waits scheduled (group_parallelizable (layer_at scheduled))
  round-Ordered scheduled =
      Ordered-groups waits scheduled scheduled (group_parallelizable (layer_at scheduled))
        (λ d h. h)
        (All-group_parallelizable _ (layer_at scheduled) (
          All-map _ _ (layer_at scheduled) (λ item h. (free_of_layer waits scheduled item h).1)
            (keep-passes (in_layer waits scheduled) items)))

  member-next :
      (scheduled : List String) (d : String)
      → member d (next_scheduled scheduled) ≡ (has d (layer_at scheduled) || member d scheduled)
  member-next scheduled d =
      member-add_groups d (group_parallelizable (layer_at scheduled)) scheduled
      ∙ ap (λ b. b || member d scheduled) (has-group_parallelizable d (layer_at scheduled))

  round-drop :
      (scheduled : List String)
      → is_empty_list (layer_at scheduled) ≡ false
      → count_left (next_scheduled scheduled) items < count_left scheduled items
  round-drop scheduled some_item = omega (
    arith,
    count-drop (in_layer waits scheduled) scheduled (next_scheduled scheduled) items
        (λ d h. member-next scheduled d ∙ ground arith)
        (All-map _ _ (layer_at scheduled) (λ item h. member-next scheduled item.id ∙ ground arith)
          (All-has (layer_at scheduled)))
        (λ item h. (free_of_layer waits scheduled item h).0),
    nonempty (layer_at scheduled) some_item,
  )
    where
      nonempty : (xs : List WorkItemState) → is_empty_list xs ≡ false → 0 < length xs
      nonempty [] h = cc
      nonempty (x ∷ xs) h = omega arith

  after_groups-Ends :
      (scheduled : List String) (rest : Schedule)
      → Ends (Scheduled P waits items (next_scheduled scheduled)) rest
      → Ends
          (Scheduled P waits items scheduled)
          (after_groups (group_parallelizable (layer_at scheduled)) rest)
  after_groups-Ends scheduled none h = h
  after_groups-Ends scheduled (some (order, last)) h = record {
    ordered =
        Ordered-append waits scheduled (group_parallelizable (layer_at scheduled)) order
          (round-Ordered scheduled) h.ordered;
    covers =
        h.covers
        ∙ sym (add_groups-append (group_parallelizable (layer_at scheduled)) order scheduled);
    taken =
        All-append (All P) _ order
          (All-group_parallelizable P (layer_at scheduled)
            (All-keep (in_layer waits scheduled) P items all))
          h.taken;
    stuck = h.stuck;
  }

  -- With fuel for each item that is left and one more, there is a schedule.
  pub schedule-Ends :
      (fuel : ℕ) (scheduled : List String)
      → count_left scheduled items < fuel
      → Ends (Scheduled P waits items scheduled) (schedule waits items fuel scheduled)
  unfolding schedule
  schedule-Ends zero scheduled enough = elim enough [ ]
  schedule-Ends (suc fuel) scheduled enough =
      elim (Bool-cases (ltb (length scheduled) (length items))) [
        | inl open_ ↦ rw open_ (elim (Bool-cases (is_empty_list (layer_at scheduled))) [
          | inl none_free ↦
              rw none_free
                (record { ordered = tt; covers = refl; taken = tt; stuck = λ h. none_free })
          | inr more ↦ rw more (
              after_groups-Ends scheduled (schedule waits items fuel (next_scheduled scheduled)) (
                schedule-Ends fuel (next_scheduled scheduled)
                  (omega (arith, round-drop scheduled more))))
        ])
        | inr full ↦ rw full (record {
          ordered = tt;
          covers = refl;
          taken = tt;
          stuck = λ h. absurd (differ full h);
        })
      ]
    where
      differ : {b : Bool} → b ≡ false → b ≡ true → ⊥
      differ h k = cc
