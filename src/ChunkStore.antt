-- ===== src/ChunkStore.antt =====
-- packages/retrieval/src/semantic/embedding-pipeline.ts and packages/runtime/src/jobs/index-job-runner.ts:
-- how the chunks of files are stored, and which files the next index job chunks again.
pub mod Repeats
pub mod Settles
pub mod Own
mod Tests
use Prim.Native.String.{String}
use text.Mathlib.Text.{◌==◌ as str_eq}
use dh_kit.Kit.{
  ℕ, zero, suc, Bool, true, false, not, ◌||◌, ◌==◌, leb, Option, none, some, List, [], ◌∷◌, ◌++◌,
  map, keep, find_first, is_empty_list, length, if◌then◌else◌, ℤ, pos, negsuc,
}
use dh_kit.Paths.{IndexedFile}
use dh_kit.Chunker.{ChunkInput}

-- A row of the table `chunks`, but for its id, its time and the estimate of its tokens.
pub record ChunkRow : Type 0 where
  pub file_id : String
  pub file_path : String
  pub symbol_id : Option String
  pub line_start : ℤ
  pub line_end : ℤ
  pub content : String
  pub content_hash : String
  pub language : String

abbrev pub find_by_content_hash : String → List ChunkRow → Option ChunkRow
find_by_content_hash hash rows = find_first (λ row. str_eq row.content_hash hash) rows

abbrev pub delete_by_file_id : String → List ChunkRow → List ChunkRow
delete_by_file_id file_id rows = keep (λ row. not (str_eq row.file_id file_id)) rows

abbrev pub find_by_file_id : String → List ChunkRow → List ChunkRow
find_by_file_id file_id rows = keep (λ row. str_eq row.file_id file_id) rows

-- `ORDER BY line_start ASC`. Rows that start at one line keep the order of the table, where SQL leaves
-- theirs open.
abbrev pub starts_before : ℤ → ℤ → Bool
starts_before (pos a) (pos b) = leb a b
starts_before (pos a) (negsuc b) = false
starts_before (negsuc a) (pos b) = true
starts_before (negsuc a) (negsuc b) = leb b a

abbrev pub insert_row : ChunkRow → List ChunkRow → List ChunkRow
insert_row row [] = row ∷ []
insert_row row (r ∷ rows) =
    if starts_before row.line_start r.line_start then row ∷ r ∷ rows else r ∷ insert_row row rows

abbrev pub in_line_order : List ChunkRow → List ChunkRow
in_line_order [] = []
in_line_order (row ∷ rows) = insert_row row (in_line_order rows)

abbrev pub find_content_hashes_by_file_id : String → List ChunkRow → List String
find_content_hashes_by_file_id file_id rows =
    map (λ row. row.content_hash) (in_line_order (find_by_file_id file_id rows))

-- `hash !== nextHashes[index]` for some index, in lists of one length.
abbrev pub some_hash_differs : List String → List String → Bool
some_hash_differs [] next = false
some_hash_differs (hash ∷ hashes) [] = true
some_hash_differs (hash ∷ hashes) (next ∷ rest) =
    not (str_eq hash next) || some_hash_differs hashes rest

module _ (content_hash : String → String) where
  abbrev pub row_of : ChunkInput → ChunkRow
  row_of input = record {
    file_id = input.file_id;
    file_path = input.file_path;
    symbol_id = input.symbol_id;
    line_start = input.line_start;
    line_end = input.line_end;
    content = input.content;
    content_hash = content_hash input.content;
    language = input.language;
  }

  abbrev pub with_row : ChunkRow → List ChunkRow × List ChunkRow → List ChunkRow × List ChunkRow
  with_row row (results, rows) = (row ∷ results, rows)

  -- The rows of the inputs, and the table with those that are new.
  unfoldable pub persist_chunks : List ChunkInput → List ChunkRow → List ChunkRow × List ChunkRow
  persist_chunks [] rows = ([], rows)
  persist_chunks (input ∷ inputs) rows =
      elim (find_by_content_hash (content_hash input.content) rows) [
        | some existing ↦ with_row existing (persist_chunks inputs rows)
        | none ↦ with_row (row_of input) (persist_chunks inputs (rows ++ (row_of input ∷ [])))
      ]

  -- What refreshing a file does to the table.
  abbrev pub refresh_file_chunks : String → List ChunkInput → List ChunkRow → List ChunkRow
  refresh_file_chunks file_id new_chunk_inputs rows =
      (persist_chunks new_chunk_inputs (delete_by_file_id file_id rows)).1

  -- The inputs of a file, in their order.
  abbrev pub inputs_of_file : String → List ChunkInput → List ChunkInput
  inputs_of_file file_id inputs = keep (λ input. str_eq input.file_id file_id) inputs

  abbrev pub needs_refresh : String → List ChunkInput → List ChunkRow → Bool
  needs_refresh file_id inputs rows =
      let existing_hashes = find_content_hashes_by_file_id file_id rows in
      let next_hashes = map (λ input. content_hash input.content) inputs in
      if is_empty_list existing_hashes
      then true
      else if not (length existing_hashes == length next_hashes)
      then true
      else some_hash_differs existing_hashes next_hashes

  unfoldable pub filter_files_needing_refresh :
      List IndexedFile → List ChunkInput → List ChunkRow → List IndexedFile
  filter_files_needing_refresh files candidate_chunk_inputs rows =
      keep (λ file. needs_refresh file.id (inputs_of_file file.id candidate_chunk_inputs) rows)
        files
