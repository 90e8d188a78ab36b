-- ===== src/ChunkStore/Tests.antt =====
-- The store at concrete chunks.
use Prim.Native.String.{String}
use dh_kit.Kit.{ℕ, ◌≡◌, refl, true, false, none, some, arith, List, [], ◌∷◌, map, pos}
use dh_kit.Paths.{IndexedFile}
use dh_kit.Chunker.{ChunkInput, chunk_by_window, windows}
use dh_kit.ChunkStore.{
  ChunkRow, persist_chunks, refresh_file_chunks, needs_refresh, filter_files_needing_refresh,
}
use dh_kit.ChunkStore.Settles.{refresh_file_chunks-settles}
use dh_kit.ChunkStore.Own.{chunk_by_window-settles}
use dh_kit.ChunkStore.Repeats.{refresh_file_chunks-repeats}

abbrev input_of : String → ℕ → String → ChunkInput
input_of file line content = record {
  file_id = file;
  file_path = file;
  symbol_id = none;
  line_start = pos line;
  line_end = pos line;
  content = content;
  language = "typescript";
}

abbrev same : String → String
same text = text

abbrev stored : List ChunkRow
stored = refresh_file_chunks same "a" (input_of "a" 1 "x" ∷ input_of "a" 2 "y" ∷ []) []

abbrev file_of : String → IndexedFile
file_of id = record { id = id; path = id; language = "typescript"; workspace_root = none }

-- A file is chunked again when a chunk of it has changed, and another file's text is not its own.
refreshed_files :
    map
      (λ (file : IndexedFile). file.id)
      (filter_files_needing_refresh same
        (file_of "a" ∷ file_of "b" ∷ [])
        (input_of "a" 1 "x" ∷ input_of "b" 1 "x" ∷ input_of "a" 2 "y" ∷ [])
        stored)
    ≡ "b" ∷ []
unfolding filter_files_needing_refresh persist_chunks
refreshed_files = refl

refresh_file_chunks-repeats_example :
    needs_refresh same "b"
      (input_of "b" 1 "x" ∷ [])
      (refresh_file_chunks same "b" (input_of "b" 1 "x" ∷ []) stored)
    ≡ true
unfolding persist_chunks
refresh_file_chunks-repeats_example =
    refresh_file_chunks-repeats same "b" (input_of "b" 1 "x" ∷ []) stored refl

abbrev moved_on : List ChunkInput
moved_on = input_of "a" 1 "x" ∷ input_of "a" 4 "z" ∷ []

refresh_file_chunks-settles_example :
    needs_refresh same "a" moved_on (refresh_file_chunks same "a" moved_on stored) ≡ false
unfolding persist_chunks
refresh_file_chunks-settles_example =
    refresh_file_chunks-settles same "a" (input_of "a" 1 "x") (input_of "a" 4 "z" ∷ []) stored
      (refl, (refl, tt)) ((refl, refl), tt) ((refl, tt), (tt, tt)) (refl, (refl, tt))

abbrev window_of : ℕ → ℕ → String → ChunkInput
window_of start end content = record {
  file_id = "a";
  file_path = "a";
  symbol_id = none;
  line_start = pos start;
  line_end = pos end;
  content = content;
  language = "typescript";
}

chunk_by_window-settles_example :
    needs_refresh same "a"
      (window_of 1 2 "x\ny" ∷ window_of 2 3 "y\nz" ∷ [])
      (refresh_file_chunks same "a" (window_of 1 2 "x\ny" ∷ window_of 2 3 "y\nz" ∷ []) stored)
    ≡ false
unfolding persist_chunks chunk_by_window windows
chunk_by_window-settles_example =
    chunk_by_window-settles same same (file_of "a") "a" ("x" ∷ "y" ∷ "z" ∷ [])
      (some (record { max_lines = some 2; overlap_lines = some 1 })) (window_of 1 2 "x\ny")
      (window_of 2 3 "y\nz" ∷ []) stored (omega arith) refl ((refl, tt), (tt, tt))
      (refl, (refl, tt))
