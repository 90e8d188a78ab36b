-- ===== src/ContextPlanner/Sorting.antt =====
-- Sorting entries by score, and leaving out those with a key that came before.
use Prim.Native.String.{String}
use text.Mathlib.Text.{◌==◌ as str_eq}
use dh_kit.Kit.{
  ◌≡◌, inl, inr, Bool, true, false, ◌&&◌, List, [], ◌∷◌, any, All, All-map, Bool-cases, arith,
  member,
}
use dh_kit.ContextPlanner.{
  ContextLedgerEntry, Platform, entry_key, insert_entry, sorted_entries, unseen,
}

-- The scores are in a total order.
pub record IsOrder {S : Type 0} (at_least : S → S → Bool) : Type 0 where
  pub total : (a b : S) → at_least a b ≡ false → at_least b a ≡ true
  pub trans : (a b c : S) → at_least a b ≡ true → at_least b c ≡ true → at_least a c ≡ true

module _ {S : Type 0} (platform : Platform S) where
  abbrev pub Beats : ContextLedgerEntry S → ContextLedgerEntry S → Type 0
  Beats x y = platform.at_least x.score y.score ≡ true

  -- The entries are in order of their scores, the best first.
  abbrev pub Descending : List (ContextLedgerEntry S) → Type 0
  Descending [] = Unit
  Descending (x ∷ xs) = All (Beats x) xs × Descending xs

  -- The entries have different keys.
  abbrev pub DistinctKeys : List (ContextLedgerEntry S) → Type 0
  DistinctKeys [] = Unit
  DistinctKeys (x ∷ xs) =
      All (λ y. str_eq (entry_key platform x) (entry_key platform y) ≡ false) xs × DistinctKeys xs

  -- An entry of the list has the same key and no lower score.
  abbrev pub stands_for : ContextLedgerEntry S → ContextLedgerEntry S → Bool
  stands_for e d =
      str_eq (entry_key platform d) (entry_key platform e) && platform.at_least d.score e.score

  abbrev pub Kept : List (ContextLedgerEntry S) → ContextLedgerEntry S → Type 0
  Kept entries e = any (stands_for e) entries ≡ true

  All-insert_entry :
      (P : ContextLedgerEntry S → Type 0) (e : ContextLedgerEntry S)
      (xs : List (ContextLedgerEntry S))
      → P e
      → All P xs
      → All P (insert_entry platform e xs)
  All-insert_entry P e [] p all = (p, tt)
  All-insert_entry P e (x ∷ xs) p all = elim (Bool-cases (platform.at_least e.score x.score)) [
    | inl first ↦ rw first (p, all)
    | inr later ↦ rw later (all.0, All-insert_entry P e xs p all.1)
  ]

  inserted-All :
      (P : ContextLedgerEntry S → Type 0) (e : ContextLedgerEntry S)
      (xs : List (ContextLedgerEntry S))
      → All P (insert_entry platform e xs)
      → P e × All P xs
  inserted-All P e [] all = all
  inserted-All P e (x ∷ xs) all = elim (Bool-cases (platform.at_least e.score x.score)) [
    | inl first ↦ rw first at all
    | inr later ↦
        let split : P x × All P (insert_entry platform e xs) = rw later at all in
        let rest = inserted-All P e xs split.1 in (rest.0, (split.0, rest.1))
  ]

  pub sorted-All :
      (P : ContextLedgerEntry S → Type 0) (xs : List (ContextLedgerEntry S))
      → All P (sorted_entries platform xs)
      → All P xs
  sorted-All P [] all = tt
  sorted-All P (x ∷ xs) all =
      let split = inserted-All P x (sorted_entries platform xs) all in
      (split.0, sorted-All P xs split.1)

  module _ (order : IsOrder platform.at_least) where
    pub at_least_refl : (a : S) → platform.at_least a a ≡ true
    at_least_refl a = elim (Bool-cases (platform.at_least a a)) [
      | inl yes_it_is ↦ yes_it_is
      | inr no_it_is ↦ order.total a a no_it_is
    ]

    insert_entry-Descending :
        (e : ContextLedgerEntry S) (xs : List (ContextLedgerEntry S))
        → Descending xs
        → Descending (insert_entry platform e xs)
    insert_entry-Descending e [] d = (tt, tt)
    insert_entry-Descending e (x ∷ xs) d = elim (Bool-cases (platform.at_least e.score x.score)) [
      | inl first ↦ rw first (
        (
          first,
          All-map (Beats x) (Beats e) xs (λ y h. order.trans e.score x.score y.score first h) d.0,
        ),
        d,
      )
      | inr later ↦ rw later (
        All-insert_entry (Beats x) e xs (order.total e.score x.score later) d.0,
        insert_entry-Descending e xs d.1,
      )
    ]

    pub sorted_entries-Descending :
        (xs : List (ContextLedgerEntry S)) → Descending (sorted_entries platform xs)
    sorted_entries-Descending [] = tt
    sorted_entries-Descending (x ∷ xs) =
        insert_entry-Descending x (sorted_entries platform xs) (sorted_entries-Descending xs)

  pub All-unseen :
      (P : ContextLedgerEntry S → Type 0) (seen : List String) (xs : List (ContextLedgerEntry S))
      → All P xs
      → All P (unseen platform seen xs)
  All-unseen P seen [] all = tt
  All-unseen P seen (x ∷ xs) all = elim (Bool-cases (member (entry_key platform x) seen)) [
    | inl old ↦ rw old (All-unseen P seen xs all.1)
    | inr new ↦ rw new (all.0, All-unseen P (entry_key platform x ∷ seen) xs all.1)
  ]

  pub unseen-Descending :
      (seen : List String) (xs : List (ContextLedgerEntry S))
      → Descending xs
      → Descending (unseen platform seen xs)
  unseen-Descending seen [] d = tt
  unseen-Descending seen (x ∷ xs) d = elim (Bool-cases (member (entry_key platform x) seen)) [
    | inl old ↦ rw old (unseen-Descending seen xs d.1)
    | inr new ↦ rw new (
      All-unseen (Beats x) (entry_key platform x ∷ seen) xs d.0,
      unseen-Descending (entry_key platform x ∷ seen) xs d.1,
    )
  ]

  -- What is left has no key that was seen.
  unseen_fresh :
      (seen : List String) (xs : List (ContextLedgerEntry S))
      → All (λ d. member (entry_key platform d) seen ≡ false) (unseen platform seen xs)
  unseen_fresh seen [] = tt
  unseen_fresh seen (x ∷ xs) = elim (Bool-cases (member (entry_key platform x) seen)) [
    | inl old ↦ rw old (unseen_fresh seen xs)
    | inr new ↦ rw new (
      new,
      All-map _ _ (unseen platform (entry_key platform x ∷ seen) xs) (λ d h. ground arith)
          (unseen_fresh (entry_key platform x ∷ seen) xs),
    )
  ]

  pub unseen-DistinctKeys :
      (seen : List String) (xs : List (ContextLedgerEntry S))
      → DistinctKeys (unseen platform seen xs)
  unseen-DistinctKeys seen [] = tt
  unseen-DistinctKeys seen (x ∷ xs) = elim (Bool-cases (member (entry_key platform x) seen)) [
    | inl old ↦ rw old (unseen-DistinctKeys seen xs)
    | inr new ↦ rw new (
      All-map _ _ (unseen platform (entry_key platform x ∷ seen) xs) (λ d h. ground arith)
          (unseen_fresh (entry_key platform x ∷ seen) xs),
      unseen-DistinctKeys (entry_key platform x ∷ seen) xs,
    )
  ]
