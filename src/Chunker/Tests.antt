-- ===== src/Chunker/Tests.antt =====
-- The chunker at concrete files.
use Prim.Native.String.{String}
use text.Mathlib.Text.{starts_with}
use dh_kit.Kit.{ℕ, ◌≡◌, refl, some, none, Option, List, [], ◌∷◌, map, arith, ℤ, pos}
use dh_kit.Paths.{
  PathModule, IndexedFile, resolve_indexed_file_absolute_path, to_repo_relative_path,
  is_path_within_workspace,
}
use dh_kit.Chunker.{
  ChunkerOptions, IndexedSymbol, ChunkInput, Workspace, chunk_file, chunk_by_symbols,
  chunk_by_window, windows,
}
use dh_kit.Chunker.Windows.{Chunked, chunk_by_window_endless}
use dh_kit.Chunker.Files.{chunk_file-Chunked}

abbrev toy_paths : PathModule
toy_paths = record {
  resolve = λ p. p;
  join = λ root p. p;
  relative = λ from to. to;
  is_absolute = λ p. starts_with p "/";
  posix_normalize = λ p. p;
  replace_backslashes = λ p. p;
  strip_dot_slash = λ p. p;
  trim = λ p. p;
}

abbrev toy_workspace : Workspace
toy_workspace = record {
  paths = toy_paths;
  read_file = λ p. some "text";
  split_lines = λ text. "a" ∷ "b" ∷ "c" ∷ "d" ∷ "e" ∷ [];
  trim = λ text. text;
}

abbrev toy_file : IndexedFile
toy_file = record { id = "f"; path = "a.ts"; language = "typescript"; workspace_root = none }

abbrev options_of : ℕ → ℕ → Option ChunkerOptions
options_of max overlap = some (record { max_lines = some max; overlap_lines = some overlap })

abbrev symbol_at : String → ℕ → ℕ → IndexedSymbol
symbol_at id start end = record { id = id; file_id = "f"; line_start = start; line_end = end }

abbrev shown : Option (List ChunkInput) → Option (List (ℤ × ℤ × String))
shown none = none
shown (some chunks) = some (map (λ c. (c.line_start, c.line_end, c.content)) chunks)

overlapping_windows :
    shown (chunk_file toy_workspace "." toy_file [] (options_of 3 1))
    ≡ some ((pos 1, pos 3, "a\nb\nc") ∷ (pos 3, pos 5, "c\nd\ne") ∷ [])
unfolding chunk_file chunk_by_window windows resolve_indexed_file_absolute_path
    to_repo_relative_path is_path_within_workspace
overlapping_windows = refl

symbols_and_gaps :
    shown (chunk_file toy_workspace "." toy_file (symbol_at "g" 4 9 ∷ symbol_at "f" 2 2 ∷ []) none)
    ≡ some (
        (pos 1, pos 1, "a")
        ∷ (pos 2, pos 2, "b")
        ∷ (pos 3, pos 3, "c")
        ∷ (pos 4, pos 5, "d\ne")
        ∷ [])
unfolding chunk_file chunk_by_symbols resolve_indexed_file_absolute_path to_repo_relative_path
    is_path_within_workspace
symbols_and_gaps = refl

chunk_file-Chunked_example :
    Chunked toy_workspace.trim
      (toy_workspace.split_lines "text")
      0
      (chunk_file toy_workspace "." toy_file (symbol_at "g" 4 9 ∷ symbol_at "f" 2 2 ∷ []) none)
unfolding resolve_indexed_file_absolute_path to_repo_relative_path is_path_within_workspace
chunk_file-Chunked_example =
    chunk_file-Chunked toy_workspace "." toy_file (symbol_at "g" 4 9 ∷ symbol_at "f" 2 2 ∷ []) none
      "a.ts" "a.ts" "text" refl refl refl (omega arith) (omega arith, (omega arith, tt))

-- Windows of two lines that overlap by two lines stay at the first one for ever.
chunk_by_window_endless_example :
    chunk_by_window (λ text. text) toy_file "a.ts" ("a" ∷ "b" ∷ "c" ∷ []) 1000 (options_of 2 2)
    ≡ none
chunk_by_window_endless_example =
    chunk_by_window_endless (λ text. text) toy_file "a.ts" ("a" ∷ "b" ∷ "c" ∷ []) (options_of 2 2)
      1000 (omega arith) (omega arith)
