-- ===== src/Chunker.antt =====
-- packages/retrieval/src/semantic/chunker.ts: the chunks of a file's lines that are embedded, along the
-- symbols of the file or in overlapping windows.
pub mod Covering
pub mod Windows
pub mod Symbols
pub mod Files
mod Tests
use Prim.Native.String
use Prim.Native.String.{String}
use text.Mathlib.Text.{◌==◌ as str_eq}
use dh_kit.Kit.{
  ℕ, zero, suc, ◌+◌, ◌/◌, Bool, true, false, not, leb, ltb, Option, none, some, List, [], ◌∷◌, ◌++◌,
  keep, is_empty_list, length, if◌then◌else◌, min, ℤ, pos, difference, plus, minus, min_with,
  is_below, is_above, slice,
}
use dh_kit.Paths.{
  PathModule, IndexedFile, resolve_indexed_file_absolute_path, to_repo_relative_path,
}

abbrev pub default_chunk_max_lines : ℕ
default_chunk_max_lines = 60

abbrev pub default_chunk_overlap_lines : ℕ
default_chunk_overlap_lines = 8

pub record ChunkerOptions : Type 0 where
  pub max_lines : Option ℕ
  pub overlap_lines : Option ℕ

-- The fields of a symbol that are read here; lines count from one.
pub record IndexedSymbol : Type 0 where
  pub id : String
  pub file_id : String
  pub line_start : ℕ
  pub line_end : ℕ

pub record ChunkInput : Type 0 where
  pub file_id : String
  pub file_path : String
  pub symbol_id : Option String
  pub line_start : ℤ
  pub line_end : ℤ
  pub content : String
  pub language : String

-- The file system, and `split("\n")`, `trim` and `node:path`. A file that cannot be read is `none`.
pub record Workspace : Type 0 where
  pub paths : PathModule
  pub read_file : String → Option String
  pub split_lines : String → List String
  pub trim : String → String

-- By the length of a text.
abbrev pub estimate_tokens : ℕ → ℕ
estimate_tokens length = (length + 3) / 4

abbrev pub join_lines : List String → String
join_lines [] = ""
join_lines (line ∷ []) = line
join_lines (line ∷ next ∷ lines) = String.◌++◌ line (String.◌++◌ "\n" (join_lines (next ∷ lines)))

-- The options, none of them being the default.
abbrev pub or_default : ℕ → Option ℕ → ℕ
or_default n none = n
or_default n (some m) = m

abbrev pub max_lines_of : Option ChunkerOptions → ℕ
max_lines_of none = default_chunk_max_lines
max_lines_of (some options) = or_default default_chunk_max_lines options.max_lines

abbrev pub overlap_of : Option ChunkerOptions → ℕ
overlap_of none = default_chunk_overlap_lines
overlap_of (some options) = or_default default_chunk_overlap_lines options.overlap_lines

-- `[...symbols].sort((a, b) => a.lineStart - b.lineStart)`, which is stable.
abbrev pub insert_symbol : IndexedSymbol → List IndexedSymbol → List IndexedSymbol
insert_symbol symbol [] = symbol ∷ []
insert_symbol symbol (s ∷ symbols) =
    if leb symbol.line_start s.line_start
    then symbol ∷ s ∷ symbols
    else s ∷ insert_symbol symbol symbols

abbrev pub sorted_symbols : List IndexedSymbol → List IndexedSymbol
sorted_symbols [] = []
sorted_symbols (symbol ∷ symbols) = insert_symbol symbol (sorted_symbols symbols)

abbrev pub after_chunks : List ChunkInput → Option (List ChunkInput) → Option (List ChunkInput)
after_chunks chunks none = none
after_chunks chunks (some rest) = some (chunks ++ rest)

module _ (trim : String → String) (file : IndexedFile) (path : String) (lines : List String) where
  -- The chunk from one line to another, counting from zero, unless its text is blank.
  abbrev pub chunk_of : Option String → ℤ → ℤ → List ChunkInput
  chunk_of symbol_id start end =
      let content = join_lines (slice start end lines) in
      if not (str_eq (trim content) "")
      then record {
        file_id = file.id;
        file_path = path;
        symbol_id = symbol_id;
        line_start = plus start 1;
        line_end = end;
        content = content;
        language = file.language;
      }
        ∷ []
      else []

  -- The chunks from the cursor on.
  abbrev pub symbol_chunks : List IndexedSymbol → ℕ → List ChunkInput
  symbol_chunks [] cursor =
      if ltb cursor (length lines) then chunk_of none (pos cursor) (pos (length lines)) else []
  symbol_chunks (symbol ∷ symbols) cursor =
      let sym_start = difference symbol.line_start 1 in
      let sym_end = min symbol.line_end (length lines) in
      (if is_above sym_start cursor then chunk_of none (pos cursor) sym_start else [])
      ++ chunk_of (some symbol.id) sym_start (pos sym_end)
      ++ symbol_chunks symbols sym_end

  unfoldable pub chunk_by_symbols : List IndexedSymbol → List ChunkInput
  chunk_by_symbols symbols = symbol_chunks (sorted_symbols symbols) 0

  -- The chunks of the windows from a line on; `none` where the fuel runs out.
  unfoldable pub windows : ℕ → ℕ → ℕ → ℤ → Option (List ChunkInput)
  windows max_lines overlap zero start = none
  windows max_lines overlap (suc fuel) start =
      let end = min_with (plus start max_lines) (length lines) in
      let rest = windows max_lines overlap fuel (minus end overlap) in
      if is_below start (length lines)
      then after_chunks (chunk_of none start end)
          (if not (is_below end (length lines)) then some [] else rest)
      else some []

  unfoldable pub chunk_by_window : ℕ → Option ChunkerOptions → Option (List ChunkInput)
  chunk_by_window fuel options = windows (max_lines_of options) (overlap_of options) fuel (pos 0)

-- The windows have fuel for each line and one more.
unfoldable pub chunk_file :
    Workspace
    → String
    → IndexedFile
    → List IndexedSymbol
    → Option ChunkerOptions
    → Option (List ChunkInput)
chunk_file workspace repo_root file symbols options =
    elim (resolve_indexed_file_absolute_path workspace.paths repo_root file) [
      | none ↦ some []
      | some absolute_path ↦ elim (to_repo_relative_path workspace.paths repo_root absolute_path) [
        | none ↦ some []
        | some path ↦ elim (workspace.read_file absolute_path) [
          | none ↦ some []
          | some content ↦
              let lines = workspace.split_lines content in
              let file_symbols = keep (λ s. str_eq s.file_id file.id) symbols in
              if not (is_empty_list file_symbols)
              then some (chunk_by_symbols workspace.trim file path lines file_symbols)
              else chunk_by_window workspace.trim file path lines (suc (length lines)) options
        ]
      ]
    ]

unfoldable pub chunk_files :
    Workspace
    → String
    → List IndexedFile
    → List IndexedSymbol
    → Option ChunkerOptions
    → Option (List ChunkInput)
chunk_files workspace repo_root [] symbols options = some []
chunk_files workspace repo_root (file ∷ files) symbols options =
    let rest = chunk_files workspace repo_root files symbols options in
    elim (chunk_file workspace repo_root file symbols options) [
      | none ↦ none
      | some chunks ↦ after_chunks chunks rest
    ]
