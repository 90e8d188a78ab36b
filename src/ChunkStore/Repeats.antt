-- ===== src/ChunkStore/Repeats.antt =====
-- A file that shares a chunk's text with another file is chunked again by every job.
use Prim.Native.String.{String}
use text.Mathlib.Text.{◌==◌ as str_eq}
use mathlib.Core.Path.{subst}
use dh_kit.Kit.{
  ℕ, suc, ◌+◌, ◌≤◌, ◌<◌, ◌≡◌, refl, sym, ap, ◌∙◌, inl, inr, Bool, true, false, not, ◌==◌, Option,
  none, some, List, [], ◌∷◌, ◌++◌, map, any, is_empty_list, length, if◌then◌else◌, Bool-cases,
  arith,
}
use dh_kit.Chunker.{ChunkInput}
use dh_kit.ChunkStore.{
  ChunkRow, find_by_content_hash, delete_by_file_id, find_by_file_id, starts_before, insert_row,
  in_line_order, find_content_hashes_by_file_id, some_hash_differs, row_of, with_row,
  persist_chunks, refresh_file_chunks, needs_refresh,
}

-- Whether a row with this hash is stored.
abbrev pub stores : String → List ChunkRow → Bool
stores hash rows = any (λ row. str_eq row.content_hash hash) rows

find-stores :
    (hash : String) (rows : List ChunkRow)
    → find_by_content_hash hash rows ≡ none
    → stores hash rows ≡ false
find-stores hash [] h = refl
find-stores hash (row ∷ rows) h = elim (Bool-cases (str_eq row.content_hash hash)) [
  | inl here ↦ let found : some row ≡ none = rw here at h in absurd cc
  | inr away ↦ rw away (find-stores hash rows (rw away at h))
]

stores-append :
    (hash : String) (xs ys : List ChunkRow) → stores hash xs ≡ true → stores hash (xs ++ ys) ≡ true
stores-append hash [] ys h = absurd cc
stores-append hash (x ∷ xs) ys h = ground (arith, stores-append hash xs ys)

-- How many rows a file has.
abbrev pub rows_of : String → List ChunkRow → ℕ
rows_of file_id rows = length (find_by_file_id file_id rows)

rows_of-append :
    (file_id : String) (rows : List ChunkRow) (row : ChunkRow)
    → rows_of file_id (rows ++ (row ∷ [])) ≤ suc (rows_of file_id rows)
rows_of-append file_id [] row = ground arith
rows_of-append file_id (r ∷ rows) row = ground (arith, rows_of-append file_id rows row)

rows_of-delete :
    (file_id : String) (rows : List ChunkRow) → rows_of file_id (delete_by_file_id file_id rows) ≡ 0
rows_of-delete file_id [] = refl
rows_of-delete file_id (r ∷ rows) = ground (arith, rows_of-delete file_id rows)

length-insert_row :
    (row : ChunkRow) (rows : List ChunkRow) → length (insert_row row rows) ≡ suc (length rows)
length-insert_row row [] = refl
length-insert_row row (r ∷ rows) = elim (Bool-cases (starts_before row.line_start r.line_start)) [
  | inl before ↦ rw before refl
  | inr after ↦ rw after (ap suc (length-insert_row row rows))
]

length-in_line_order : (rows : List ChunkRow) → length (in_line_order rows) ≡ length rows
length-in_line_order [] = refl
length-in_line_order (row ∷ rows) =
    length-insert_row row (in_line_order rows) ∙ ap suc (length-in_line_order rows)

length-map {ℓ κ} :
    {A : Type ℓ} {B : Type κ} (f : A → B) (xs : List A) → length (map f xs) ≡ length xs
length-map f [] = refl
length-map f (x ∷ xs) = ap suc (length-map f xs)

module _ (content_hash : String → String) where
  -- The table after the first of some inputs, by what is found of it.
  abbrev pub after_input :
      ChunkInput → List ChunkInput → List ChunkRow → Option ChunkRow → List ChunkRow
  after_input input inputs rows (some existing) = (persist_chunks content_hash inputs rows).1
  after_input input inputs rows none =
      (persist_chunks content_hash inputs (rows ++ (row_of content_hash input ∷ []))).1

  pub persist_first :
      (input : ChunkInput) (inputs : List ChunkInput) (rows : List ChunkRow)
      → (persist_chunks content_hash (input ∷ inputs) rows).1
        ≡ after_input input inputs rows (find_by_content_hash (content_hash input.content) rows)
  unfolding persist_chunks
  persist_first input inputs rows = go (find_by_content_hash (content_hash input.content) rows)
    where
      go :
          (o : Option ChunkRow)
          → (elim o as (λ (q : Option ChunkRow). List ChunkRow × List ChunkRow) [
            | some existing ↦
                with_row content_hash existing (persist_chunks content_hash inputs rows)
            | none ↦
                with_row content_hash
                  (row_of content_hash input)
                  (persist_chunks content_hash inputs (rows ++ (row_of content_hash input ∷ [])))
          ]).1
            ≡ after_input input inputs rows o
      go (some existing) = refl
      go none = refl

  -- Some input's text is stored.
  abbrev pub is_shared : List ChunkInput → List ChunkRow → Bool
  is_shared inputs rows = any (λ input. stores (content_hash input.content) rows) inputs

  module _ (file_id : String) where
    abbrev grown : List ChunkInput → List ChunkRow → ℕ
    grown inputs rows = rows_of file_id (persist_chunks content_hash inputs rows).1

    first_le :
        (input : ChunkInput) (inputs : List ChunkInput) (rows : List ChunkRow) (o : Option ChunkRow)
        → grown inputs rows ≤ rows_of file_id rows + length inputs
        → (let more = rows ++ (row_of content_hash input ∷ []) in
            grown inputs more ≤ rows_of file_id more + length inputs)
        → rows_of file_id (after_input input inputs rows o)
          ≤ rows_of file_id rows + suc (length inputs)
    first_le input inputs rows (some existing) h k = omega (arith, h)
    first_le input inputs rows none h k =
        omega (arith, k, rows_of-append file_id rows (row_of content_hash input))

    -- Each input adds at most one row of the file.
    grown_le :
        (inputs : List ChunkInput) (rows : List ChunkRow)
        → grown inputs rows ≤ rows_of file_id rows + length inputs
    unfolding persist_chunks
    grown_le [] rows = omega arith
    grown_le (input ∷ inputs) rows =
        subst (λ t. rows_of file_id t ≤ rows_of file_id rows + suc (length inputs))
          (sym (persist_first input inputs rows))
          (first_le input inputs rows (find_by_content_hash (content_hash input.content) rows)
            (grown_le inputs rows) (grown_le inputs (rows ++ (row_of content_hash input ∷ []))))

    is_shared-append :
        (inputs : List ChunkInput) (rows : List ChunkRow) (row : ChunkRow)
        → is_shared inputs rows ≡ true
        → is_shared inputs (rows ++ (row ∷ [])) ≡ true
    is_shared-append [] rows row h = absurd cc
    is_shared-append (input ∷ inputs) rows row h = ground (
      arith,
      is_shared-append inputs rows row,
      stores-append (content_hash input.content) rows (row ∷ []),
    )

    -- An input whose text is stored adds none.
    grown_lt :
        (inputs : List ChunkInput) (rows : List ChunkRow)
        → is_shared inputs rows ≡ true
        → grown inputs rows < rows_of file_id rows + length inputs
    grown_lt [] rows h = absurd cc
    grown_lt (input ∷ inputs) rows h =
        subst (λ t. rows_of file_id t < rows_of file_id rows + suc (length inputs))
          (sym (persist_first input inputs rows))
          (first_lt (find_by_content_hash (content_hash input.content) rows) refl (λ later.
            grown_lt inputs (rows ++ (row_of content_hash input ∷ []))
              (is_shared-append inputs rows (row_of content_hash input) later)))
      where
        first_lt :
            (o : Option ChunkRow)
            → find_by_content_hash (content_hash input.content) rows ≡ o
            → (is_shared inputs rows ≡ true
                → (let more = rows ++ (row_of content_hash input ∷ []) in
                    grown inputs more < rows_of file_id more + length inputs))
            → rows_of file_id (after_input input inputs rows o)
              < rows_of file_id rows + suc (length inputs)
        first_lt (some existing) found rest = omega (arith, grown_le inputs rows)
        first_lt none missing rest =
            let new = find-stores (content_hash input.content) rows missing in
            let later : is_shared inputs rows ≡ true = rw new at h in
            omega (arith, rest later, rows_of-append file_id rows (row_of content_hash input))

-- A file with a chunk whose text another file's row already holds needs a refresh again right after it is
-- refreshed.
pub refresh_file_chunks-repeats :
    (content_hash : String → String) (file_id : String) (inputs : List ChunkInput)
    (rows : List ChunkRow)
    → is_shared content_hash inputs (delete_by_file_id file_id rows) ≡ true
    → needs_refresh content_hash file_id inputs
        (refresh_file_chunks content_hash file_id inputs rows)
      ≡ true
refresh_file_chunks-repeats content_hash file_id inputs rows shared =
    let after = refresh_file_chunks content_hash file_id inputs rows in
    let own = find_by_file_id file_id after in
    let fewer = grown_lt content_hash file_id inputs (delete_by_file_id file_id rows) shared in
    let none_left = rows_of-delete file_id rows in
    differ (find_content_hashes_by_file_id file_id after)
      (map (λ input. content_hash input.content) inputs)
      (omega (
        arith,
        fewer,
        none_left,
        length-map (λ row. row.content_hash) (in_line_order own),
        length-in_line_order own,
        length-map (λ input. content_hash input.content) inputs,
      ))
  where
    differ :
        (existing next : List String)
        → length existing < length next
        → (if is_empty_list existing
            then true
            else if not (length existing == length next)
            then true
            else some_hash_differs existing next)
          ≡ true
    differ [] next h = refl
    differ (x ∷ existing) next h =
        let apart : (suc (length existing) == length next) ≡ false = ground arith in rw apart refl
