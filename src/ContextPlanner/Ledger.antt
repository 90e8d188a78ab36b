-- ===== src/ContextPlanner/Ledger.antt =====
-- The entries of a ledger are the best of the evidence, each key once.
use Prim.Native.String.{String}
use text.Mathlib.Text.{◌==◌ as str_eq}
use text.Mathlib.TextPositions.{eq_refl}
use mathlib.Core.Path.{subst}
use dh_kit.Kit.{
  ℕ, zero, suc, ◌≤◌, ◌≡◌, ◌⊎◌, refl, sym, ap, inl, inr, true, false, List, [], ◌∷◌, length, take,
  All, All-map, All-both, Bool-cases, arith, member,
}
use dh_kit.ContextPlanner.{
  ContextLedgerEntry, Platform, entry_key, sorted_entries, unseen, dedupe_entries,
}
use dh_kit.ContextPlanner.Sorting.{
  IsOrder, Beats, Descending, DistinctKeys, stands_for, Kept, sorted-All, at_least_refl,
  sorted_entries-Descending, unseen-Descending, unseen-DistinctKeys,
}

-- A list holds the best of some entries: no more than the budget, the best first, each key once; and each
-- entry has one with its key and no lower score in the list, or the list is full of entries whose score is
-- no lower.
pub record IsBestOf {S : Type 0} (platform : Platform S) (budget : ℕ)
    (entries ledger : List (ContextLedgerEntry S)) : Type 0 where
  pub within : length ledger ≤ budget
  pub descending : Descending platform ledger
  pub distinct : DistinctKeys platform ledger
  pub best :
      All
        (λ e.
          Kept platform ledger e
          ⊎ ((length ledger ≡ budget) × All (λ d. Beats platform d e) ledger))
        entries

module _ {S : Type 0} (platform : Platform S) (order : IsOrder platform.at_least) where
  unseen_old :
      (seen : List String) (x : ContextLedgerEntry S) (xs : List (ContextLedgerEntry S))
      → member (entry_key platform x) seen ≡ true
      → unseen platform seen (x ∷ xs) ≡ unseen platform seen xs
  unseen_old seen x xs old = rw old refl

  unseen_new :
      (seen : List String) (x : ContextLedgerEntry S) (xs : List (ContextLedgerEntry S))
      → member (entry_key platform x) seen ≡ false
      → unseen platform seen (x ∷ xs) ≡ x ∷ unseen platform (entry_key platform x ∷ seen) xs
  unseen_new seen x xs new = rw new refl

  -- A later entry has the first one's key, or stands for itself in what follows.
  through :
      (seen : List String) (x y : ContextLedgerEntry S) (rest : List (ContextLedgerEntry S))
      → Beats platform x y
      → (member (entry_key platform y) (entry_key platform x ∷ seen) ≡ true) ⊎ Kept platform rest y
      → (member (entry_key platform y) seen ≡ true) ⊎ Kept platform (x ∷ rest) y
  through seen x y rest better (inr kept) = inr (ground arith)
  through seen x y rest better (inl known) =
      elim (Bool-cases (str_eq (entry_key platform x) (entry_key platform y))) [
        | inl same ↦ inr (rw (same, better) refl)
        | inr other ↦ inl (rw other at known)
      ]

  -- Of entries in order, one for each is left, unless its key was seen before.
  unseen-Kept :
      (seen : List String) (xs : List (ContextLedgerEntry S))
      → Descending platform xs
      → All
          (λ e.
            (member (entry_key platform e) seen ≡ true) ⊎ Kept platform (unseen platform seen xs) e)
          xs
  unseen-Kept seen [] d = tt
  unseen-Kept seen (x ∷ xs) d = elim (Bool-cases (member (entry_key platform x) seen)) [
    | inl old ↦
        subst
          (λ l. All (λ e. (member (entry_key platform e) seen ≡ true) ⊎ Kept platform l e) (x ∷ xs))
          (sym (unseen_old seen x xs old)) (inl old, unseen-Kept seen xs d.1)
    | inr new ↦
        let rest = unseen platform (entry_key platform x ∷ seen) xs in
        subst
          (λ l. All (λ e. (member (entry_key platform e) seen ≡ true) ⊎ Kept platform l e) (x ∷ xs))
          (sym (unseen_new seen x xs new))
          (
            inr (rw (eq_refl (entry_key platform x), at_least_refl platform order x.score) refl),
            All-map _ _ xs (λ y both. through seen x y rest both.0 both.1)
                (All-both (Beats platform x) _ xs d.0
                  (unseen-Kept (entry_key platform x ∷ seen) xs d.1)),
          )
  ]

  take-All :
      (P : ContextLedgerEntry S → Type 0) (n : ℕ) (xs : List (ContextLedgerEntry S))
      → All P xs
      → All P (take n xs)
  take-All P zero xs all = tt
  take-All P (suc n) [] all = tt
  take-All P (suc n) (x ∷ xs) all = (all.0, take-All P n xs all.1)

  take-Descending :
      (n : ℕ) (xs : List (ContextLedgerEntry S))
      → Descending platform xs
      → Descending platform (take n xs)
  take-Descending zero xs d = tt
  take-Descending (suc n) [] d = tt
  take-Descending (suc n) (x ∷ xs) d =
      (take-All (Beats platform x) n xs d.0, take-Descending n xs d.1)

  take-DistinctKeys :
      (n : ℕ) (xs : List (ContextLedgerEntry S))
      → DistinctKeys platform xs
      → DistinctKeys platform (take n xs)
  take-DistinctKeys zero xs d = tt
  take-DistinctKeys (suc n) [] d = tt
  take-DistinctKeys (suc n) (x ∷ xs) d = (take-All _ n xs d.0, take-DistinctKeys n xs d.1)

  length-take_le : (n : ℕ) (xs : List (ContextLedgerEntry S)) → length (take n xs) ≤ n
  length-take_le zero xs = omega arith
  length-take_le (suc n) [] = omega arith
  length-take_le (suc n) (x ∷ xs) = omega (arith, length-take_le n xs)

  Kept-Beats :
      (x e : ContextLedgerEntry S) (xs : List (ContextLedgerEntry S))
      → All (Beats platform x) xs
      → Kept platform xs e
      → Beats platform x e
  Kept-Beats x e [] all kept = absurd cc
  Kept-Beats x e (y ∷ xs) all kept = elim (Bool-cases (stands_for platform e y)) [
    | inl this ↦ order.trans x.score y.score e.score all.0 (ground arith)
    | inr other ↦ Kept-Beats x e xs all.1 (rw other at kept)
  ]

  take-Kept :
      (n : ℕ) (xs : List (ContextLedgerEntry S)) (e : ContextLedgerEntry S)
      → Descending platform xs
      → Kept platform xs e
      → Kept platform (take n xs) e
        ⊎ ((length (take n xs) ≡ n) × All (λ d. Beats platform d e) (take n xs))
  take-Kept zero xs e d kept = inr (refl, tt)
  take-Kept (suc n) [] e d kept = absurd cc
  take-Kept (suc n) (x ∷ xs) e d kept = elim (Bool-cases (stands_for platform e x)) [
    | inl this ↦ inl (rw this refl)
    | inr other ↦
        let rest : Kept platform xs e = rw other at kept in
        elim (take-Kept n xs e d.1 rest) [
          | inl here ↦ inl (rw other here)
          | inr (full, all) ↦ inr (ap suc full, (Kept-Beats x e xs d.0 rest, all))
        ]
  ]

-- The entries of a ledger are the best of the evidence, whatever it is: no more than the budget, in order
-- of their scores, each key once; and for each piece of evidence there is an entry with its key and no
-- lower score, or the ledger is full of entries whose score is no lower, when the scores are in a total
-- order.
pub dedupe_entries-IsBestOf :
    {S : Type 0} (platform : Platform S) (budget : ℕ) (entries : List (ContextLedgerEntry S))
    → IsOrder platform.at_least
    → IsBestOf platform budget entries (dedupe_entries platform entries budget)
unfolding dedupe_entries
dedupe_entries-IsBestOf platform budget entries order =
    let sorted = sorted_entries platform entries in
    let descending = sorted_entries-Descending platform order entries in
    let left = unseen platform [] sorted in
    record {
      within = length-take_le platform order budget left;
      descending =
          take-Descending platform order budget left
            (unseen-Descending platform [] sorted descending);
      distinct =
          take-DistinctKeys platform order budget left (unseen-DistinctKeys platform [] sorted);
      best = sorted-All platform _ entries (
          All-map _ _ sorted
            (λ e known. elim known [
              | inl never ↦ absurd (differ never)
              | inr kept ↦
                  take-Kept platform order budget left e
                    (unseen-Descending platform [] sorted descending) kept
            ])
            (unseen-Kept platform order [] sorted descending));
    }
  where
    differ : false ≡ true → ⊥
    differ h = cc
