-- ===== src/WorkItems/Lists.antt =====
-- What grouping a list of work items and scheduling its groups does to the ids in it.
use Prim.Native.String.{String}
use text.Mathlib.Text.{◌==◌ as str_eq}
use text.Mathlib.TextEquality.{eq_iff}
use dh_kit.Kit.{
  All-keep, ◌≡◌, refl, sym, ap, ◌∙◌, inl, inr, Bool, true, false, not, ◌||◌, List, [], ◌∷◌, ◌++◌,
  map, keep, Bool-cases, All, All-append, arith, member, add,
}
use dh_kit.WorkItems.{
  WorkItemState, ids, push_to, group_key, grouped, group_parallelizable, add_items, add_groups,
}

abbrev pub flatten {ℓ} : {A : Type ℓ} → List (List A) → List A
flatten [] = []
flatten (xs ∷ xss) = xs ++ flatten xss

All-singles {κ} :
    (P : WorkItemState → Type κ) (items : List WorkItemState)
    → All P items
    → All (All P) (map (λ item. item ∷ []) items)
All-singles P [] h = tt
All-singles P (item ∷ items) h = ((h.0, tt), All-singles P items h.1)

All-push_to {κ} :
    (P : WorkItemState → Type κ) (key : String) (item : WorkItemState)
    (groups : List (String × List WorkItemState))
    → P item
    → All (λ entry. All P entry.1) groups
    → All (λ entry. All P entry.1) (push_to key item groups)
All-push_to P key item [] p h = ((p, tt), tt)
All-push_to P key item ((k, group) ∷ groups) p h = elim (Bool-cases (str_eq k key)) [
  | inl same ↦ rw same (All-append P group (item ∷ []) h.0 (p, tt), h.1)
  | inr other ↦ rw other (h.0, All-push_to P key item groups p h.1)
]

All-grouped {κ} :
    (P : WorkItemState → Type κ) (items : List WorkItemState)
    (groups : List (String × List WorkItemState))
    → All P items
    → All (λ entry. All P entry.1) groups
    → All (All P) (map (λ entry. entry.1) (grouped items groups))
unfolding grouped
All-grouped P [] groups h g = values groups g
  where
    values :
        (es : List (String × List WorkItemState))
        → All (λ entry. All P entry.1) es
        → All (All P) (map (λ entry. entry.1) es)
    values [] k = tt
    values ((k, group) ∷ es) (here, more) = (here, values es more)
All-grouped P (item ∷ items) groups h g =
    All-grouped P items (push_to (group_key item) item groups) h.1
      (All-push_to P (group_key item) item groups h.0 g)

-- A property of every item is one of every item of every group.
pub All-group_parallelizable {κ} :
    (P : WorkItemState → Type κ) (items : List WorkItemState)
    → All P items
    → All (All P) (group_parallelizable items)
unfolding group_parallelizable
All-group_parallelizable P items h =
    All-append (All P) _ _
      (All-grouped P _ [] (All-keep (λ item. item.parallelizable) P items h) tt)
      (All-singles P _ (All-keep (λ item. not item.parallelizable) P items h))

-- Whether an id stands in one of the items.
abbrev pub has : String → List WorkItemState → Bool
has d items = member d (ids items)

pub has-append :
    (d : String) (xs ys : List WorkItemState) → has d (xs ++ ys) ≡ (has d xs || has d ys)
has-append d [] ys = refl
has-append d (x ∷ xs) ys = ground (arith, has-append d xs ys)

or_swap : (g s r : Bool) → ((g || (s || false)) || r) ≡ (s || (g || r))
or_swap true true r = refl
or_swap true false r = refl
or_swap false true r = refl
or_swap false false r = refl

or_shift : (g s r : Bool) → (g || (s || r)) ≡ (s || (g || r))
or_shift true true r = refl
or_shift true false r = refl
or_shift false s r = refl

or_turn : (a b c : Bool) → (a || (b || c)) ≡ ((b || a) || c)
or_turn true true c = refl
or_turn true false c = refl
or_turn false b c = or_false_left b c
  where
    or_false_left : (b c : Bool) → (b || c) ≡ ((b || false) || c)
    or_false_left true c = refl
    or_false_left false c = refl

abbrev values : List (String × List WorkItemState) → List WorkItemState
values groups = flatten (map (λ entry. entry.1) groups)

has-push_to :
    (d key : String) (item : WorkItemState) (groups : List (String × List WorkItemState))
    → has d (values (push_to key item groups)) ≡ (str_eq item.id d || has d (values groups))
has-push_to d key item [] = refl
has-push_to d key item ((k, group) ∷ groups) = elim (Bool-cases (str_eq k key)) [
  | inl same ↦ rw same (
      has-append d (group ++ (item ∷ [])) (values groups)
      ∙ ap (λ b. b || has d (values groups)) (has-append d group (item ∷ []))
      ∙ or_swap (has d group) (str_eq item.id d) (has d (values groups))
      ∙ ap (λ b. str_eq item.id d || b) (sym (has-append d group (values groups))))
  | inr other ↦ rw other (
      has-append d group (values (push_to key item groups))
      ∙ ap (λ b. has d group || b) (has-push_to d key item groups)
      ∙ or_shift (has d group) (str_eq item.id d) (has d (values groups))
      ∙ ap (λ b. str_eq item.id d || b) (sym (has-append d group (values groups))))
]

has-grouped :
    (d : String) (items : List WorkItemState) (groups : List (String × List WorkItemState))
    → has d (values (grouped items groups)) ≡ (has d items || has d (values groups))
unfolding grouped
has-grouped d [] groups = refl
has-grouped d (item ∷ items) groups =
    has-grouped d items (push_to (group_key item) item groups)
    ∙ ap (λ b. has d items || b) (has-push_to d (group_key item) item groups)
    ∙ or_turn (has d items) (str_eq item.id d) (has d (values groups))

flatten-append :
    (xss yss : List (List WorkItemState)) (d : String)
    → has d (flatten (xss ++ yss)) ≡ (has d (flatten xss) || has d (flatten yss))
flatten-append [] yss d = refl
flatten-append (xs ∷ xss) yss d =
    has-append d xs (flatten (xss ++ yss))
    ∙ ap (λ b. has d xs || b) (flatten-append xss yss d)
    ∙ assoc (has d xs) (has d (flatten xss)) (has d (flatten yss))
    ∙ ap (λ b. b || has d (flatten yss)) (sym (has-append d xs (flatten xss)))
  where
    assoc : (a b c : Bool) → (a || (b || c)) ≡ ((a || b) || c)
    assoc true b c = refl
    assoc false b c = refl

has-singles :
    (d : String) (items : List WorkItemState)
    → has d (flatten (map (λ item. item ∷ []) items)) ≡ has d items
has-singles d [] = refl
has-singles d (item ∷ items) = ap (λ b. str_eq item.id d || b) (has-singles d items)

has-split :
    (d : String) (p : WorkItemState → Bool) (items : List WorkItemState)
    → (has d (keep p items) || has d (keep (λ item. not (p item)) items)) ≡ has d items
has-split d p [] = refl
has-split d p (item ∷ items) = ground (arith, has-split d p items)

or_false : (b : Bool) → (b || false) ≡ b
or_false true = refl
or_false false = refl

-- Grouping keeps the ids.
pub has-group_parallelizable :
    (d : String) (items : List WorkItemState)
    → has d (flatten (group_parallelizable items)) ≡ has d items
unfolding group_parallelizable
has-group_parallelizable d items =
    let together = keep (λ item. item.parallelizable) items in
    let alone = keep (λ item. not item.parallelizable) items in
    flatten-append (map (λ entry. entry.1) (grouped together [])) (map (λ item. item ∷ []) alone) d
    ∙ ap (λ b. b || has d (flatten (map (λ item. item ∷ []) alone)))
        (has-grouped d together [] ∙ or_false (has d together))
    ∙ ap (λ b. has d together || b) (has-singles d alone)
    ∙ has-split d (λ item. item.parallelizable) items

pub member-add_lem :
    (d k : String) (ks : List String) → member d (add k ks) ≡ (str_eq k d || member d ks)
member-add_lem d k ks = ground (arith, eq_iff k d)

pub member-add_items :
    (d : String) (items : List WorkItemState) (ks : List String)
    → member d (add_items items ks) ≡ (has d items || member d ks)
member-add_items d [] ks = refl
member-add_items d (item ∷ items) ks =
    member-add_items d items (add item.id ks)
    ∙ ap (λ b. has d items || b) (member-add_lem d item.id ks)
    ∙ or_turn (has d items) (str_eq item.id d) (member d ks)

pub member-add_groups :
    (d : String) (groups : List (List WorkItemState)) (ks : List String)
    → member d (add_groups groups ks) ≡ (has d (flatten groups) || member d ks)
member-add_groups d [] ks = refl
member-add_groups d (group ∷ groups) ks =
    member-add_groups d groups (add_items group ks)
    ∙ ap (λ b. has d (flatten groups) || b) (member-add_items d group ks)
    ∙ or_turn (has d (flatten groups)) (has d group) (member d ks)
    ∙ ap (λ b. b || member d ks) (sym (has-append d group (flatten groups)))
