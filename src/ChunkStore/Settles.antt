-- ===== src/ChunkStore/Settles.antt =====
-- A file whose texts are its own is chunked once.
use Prim.Native.String.{String}
use text.Mathlib.Text.{◌==◌ as str_eq}
use text.Mathlib.TextPositions.{eq_refl}
use dh_kit.Kit.{
  suc, ◌≡◌, refl, sym, ap, ◌∙◌, inl, inr, Bool, true, false, not, ◌||◌, ◌==◌, ==_refl, none, List,
  [], ◌∷◌, ◌++◌, append_assoc, append-nil, map, is_empty_list, length, if◌then◌else◌, All,
  Bool-cases, arith, ℤ,
}
use dh_kit.Chunker.{ChunkInput}
use dh_kit.ChunkStore.{
  ChunkRow, find_by_content_hash, delete_by_file_id, find_by_file_id, starts_before, insert_row,
  in_line_order, find_content_hashes_by_file_id, some_hash_differs, row_of, persist_chunks,
  refresh_file_chunks, needs_refresh,
}
use dh_kit.ChunkStore.Repeats.{stores, after_input, persist_first}

not_found :
    (hash : String) (rows : List ChunkRow)
    → stores hash rows ≡ false
    → find_by_content_hash hash rows ≡ none
not_found hash [] h = refl
not_found hash (row ∷ rows) h = elim (Bool-cases (str_eq row.content_hash hash)) [
  | inl here ↦ let clash : true ≡ false = rw here at h in absurd cc
  | inr away ↦ rw away (not_found hash rows (rw away at h))
]

stores-append_one :
    (hash : String) (rows : List ChunkRow) (row : ChunkRow)
    → stores hash (rows ++ (row ∷ [])) ≡ (stores hash rows || str_eq row.content_hash hash)
stores-append_one hash [] row = ground arith
stores-append_one hash (r ∷ rows) row = ground (arith, stores-append_one hash rows row)

own_none :
    (file_id : String) (rows : List ChunkRow)
    → find_by_file_id file_id (delete_by_file_id file_id rows) ≡ []
own_none file_id [] = refl
own_none file_id (r ∷ rows) = elim (Bool-cases (str_eq r.file_id file_id)) [
  | inl own ↦ rw own (own_none file_id rows)
  | inr other ↦ rw other (rw other (own_none file_id rows))
]

find_by_file_id-append :
    (file_id : String) (xs ys : List ChunkRow)
    → find_by_file_id file_id (xs ++ ys) ≡ find_by_file_id file_id xs ++ find_by_file_id file_id ys
find_by_file_id-append file_id [] ys = refl
find_by_file_id-append file_id (x ∷ xs) ys = elim (Bool-cases (str_eq x.file_id file_id)) [
  | inl own ↦ rw own (ap (λ l. x ∷ l) (find_by_file_id-append file_id xs ys))
  | inr other ↦ rw other (find_by_file_id-append file_id xs ys)
]

same_hashes : (hashes : List String) → some_hash_differs hashes hashes ≡ false
same_hashes [] = refl
same_hashes (hash ∷ hashes) = rw (eq_refl hash) (same_hashes hashes)

-- The line stands before the other, and is not the same.
abbrev pub IsBefore : ℤ → ℤ → Type 0
IsBefore a b = (starts_before a b ≡ true) × (starts_before b a ≡ false)

-- Each chunk starts before the next, and at another line.
abbrev pub IsAscending : List ChunkInput → Type 0
IsAscending [] = Unit
IsAscending (x ∷ []) = Unit
IsAscending (x ∷ y ∷ inputs) = IsBefore x.line_start y.line_start × IsAscending (y ∷ inputs)

module _ (content_hash : String → String) where
  -- The texts of the chunks differ in their hashes.
  abbrev pub HasDistinctHashes : List ChunkInput → Type 0
  HasDistinctHashes [] = Unit
  HasDistinctHashes (x ∷ inputs) =
      All (λ y. str_eq (content_hash x.content) (content_hash y.content) ≡ false) inputs
      × HasDistinctHashes inputs

  still_new :
      (input : ChunkInput) (inputs : List ChunkInput) (rows : List ChunkRow)
      → All (λ y. str_eq (content_hash input.content) (content_hash y.content) ≡ false) inputs
      → All (λ y. stores (content_hash y.content) rows ≡ false) inputs
      → All
          (λ y. stores (content_hash y.content) (rows ++ (row_of content_hash input ∷ [])) ≡ false)
          inputs
  still_new input [] rows d h = tt
  still_new input (y ∷ inputs) rows d h = (
    stores-append_one (content_hash y.content) rows (row_of content_hash input)
        ∙ rw (h.0, d.0) refl,
    still_new input inputs rows d.1 h.1,
  )

  persist_new :
      (inputs : List ChunkInput) (rows : List ChunkRow)
      → HasDistinctHashes inputs
      → All (λ y. stores (content_hash y.content) rows ≡ false) inputs
      → (persist_chunks content_hash inputs rows).1 ≡ rows ++ map (row_of content_hash) inputs
  unfolding persist_chunks
  persist_new [] rows d h = sym (append-nil rows)
  persist_new (input ∷ inputs) rows d h =
      persist_first content_hash input inputs rows
      ∙ ap (after_input content_hash input inputs rows)
          (not_found (content_hash input.content) rows h.0)
      ∙ persist_new inputs (rows ++ (row_of content_hash input ∷ [])) d.1
          (still_new input inputs rows d.0 h.1)
      ∙ append_assoc rows (row_of content_hash input ∷ []) (map (row_of content_hash) inputs)

  own_rows :
      (file_id : String) (inputs : List ChunkInput)
      → All (λ y. str_eq y.file_id file_id ≡ true) inputs
      → find_by_file_id file_id (map (row_of content_hash) inputs)
        ≡ map (row_of content_hash) inputs
  own_rows file_id [] own = refl
  own_rows file_id (x ∷ inputs) own =
      rw own.0 (ap (λ l. row_of content_hash x ∷ l) (own_rows file_id inputs own.1))

  rows_in_order :
      (inputs : List ChunkInput)
      → IsAscending inputs
      → in_line_order (map (row_of content_hash) inputs) ≡ map (row_of content_hash) inputs
  rows_in_order [] h = refl
  rows_in_order (x ∷ []) h = refl
  rows_in_order (x ∷ y ∷ inputs) h =
      ap (insert_row (row_of content_hash x)) (rows_in_order (y ∷ inputs) h.1) ∙ rw h.0.0 refl

  hashes_of_rows :
      (inputs : List ChunkInput)
      → map (λ row. row.content_hash) (map (row_of content_hash) inputs)
        ≡ map (λ input. content_hash input.content) inputs
  hashes_of_rows [] = refl
  hashes_of_rows (x ∷ inputs) = ap (λ l. content_hash x.content ∷ l) (hashes_of_rows inputs)

-- A file with chunks of which each starts before the next, whose hashes differ from each other and from
-- those that other files' rows hold, needs no refresh for the same chunks right after it is refreshed.
pub refresh_file_chunks-settles :
    (content_hash : String → String) (file_id : String) (input : ChunkInput)
    (inputs : List ChunkInput) (rows : List ChunkRow)
    → All (λ y. str_eq y.file_id file_id ≡ true) (input ∷ inputs)
    → IsAscending (input ∷ inputs)
    → HasDistinctHashes content_hash (input ∷ inputs)
    → All
        (λ y. stores (content_hash y.content) (delete_by_file_id file_id rows) ≡ false)
        (input ∷ inputs)
    → needs_refresh content_hash file_id
        (input ∷ inputs)
        (refresh_file_chunks content_hash file_id (input ∷ inputs) rows)
      ≡ false
refresh_file_chunks-settles content_hash file_id input inputs rows own ascending distinct new =
    ap (λ existing. compared existing) hashes
    ∙ rw (==_refl (suc (length (map (λ y. content_hash y.content) inputs))))
        (same_hashes (map (λ y. content_hash y.content) (input ∷ inputs)))
  where
    compared : List String → Bool
    compared existing =
        let next = map (λ y. content_hash y.content) (input ∷ inputs) in
        if is_empty_list existing
        then true
        else if not (length existing == length next)
        then true
        else some_hash_differs existing next

    hashes :
        find_content_hashes_by_file_id file_id
          (refresh_file_chunks content_hash file_id (input ∷ inputs) rows)
        ≡ map (λ y. content_hash y.content) (input ∷ inputs)
    hashes =
        ap (find_content_hashes_by_file_id file_id)
          (persist_new content_hash (input ∷ inputs) (delete_by_file_id file_id rows) distinct new)
        ∙ ap (λ l. map (λ row. row.content_hash) (in_line_order l))
            (find_by_file_id-append file_id (delete_by_file_id file_id rows)
                (map (row_of content_hash) (input ∷ inputs))
              ∙ ap (λ l. l ++ find_by_file_id file_id (map (row_of content_hash) (input ∷ inputs)))
                  (own_none file_id rows)
              ∙ own_rows content_hash file_id (input ∷ inputs) own)
        ∙ ap (map (λ row. row.content_hash)) (rows_in_order content_hash (input ∷ inputs) ascending)
        ∙ hashes_of_rows content_hash (input ∷ inputs)
