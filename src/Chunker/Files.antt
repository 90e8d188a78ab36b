-- ===== src/Chunker/Files.antt =====
-- The chunks of a file that can be read.
use Prim.Native.String.{String}
use text.Mathlib.Text.{◌==◌ as str_eq}
use mathlib.Core.Path.{subst}
use dh_kit.Kit.{
  All-keep, suc, ◌<◌, ◌≡◌, sym, ap, ◌∙◌, not, Option, none, some, List, [], ◌∷◌, keep,
  is_empty_list, length, if◌then◌else◌, All,
}
use dh_kit.Paths.{IndexedFile, resolve_indexed_file_absolute_path, to_repo_relative_path}
use dh_kit.Chunker.{
  ChunkerOptions, IndexedSymbol, Workspace, max_lines_of, overlap_of, chunk_file, chunk_by_symbols,
  chunk_by_window,
}
use dh_kit.Chunker.Windows.{Chunked, chunk_by_window-Chunked}
use dh_kit.Chunker.Symbols.{IsOneBased, chunk_by_symbols-Chunked}

-- For a file that can be read there are chunks. They cover each of its lines that stands in no blank
-- stretch, and each is the text of its lines, when windows overlap less than they are long and the lines
-- of symbols count from one.
pub chunk_file-Chunked :
    (workspace : Workspace) (root : String) (file : IndexedFile) (symbols : List IndexedSymbol)
    (options : Option ChunkerOptions) (absolute path content : String)
    → resolve_indexed_file_absolute_path workspace.paths root file ≡ some absolute
    → to_repo_relative_path workspace.paths root absolute ≡ some path
    → workspace.read_file absolute ≡ some content
    → overlap_of options < max_lines_of options
    → All IsOneBased symbols
    → Chunked workspace.trim
        (workspace.split_lines content)
        0
        (chunk_file workspace root file symbols options)
unfolding chunk_file
chunk_file-Chunked workspace root file symbols options absolute path content found relative read
      less all =
    subst (Chunked workspace.trim (workspace.split_lines content) 0) (sym readable) (
      by_symbols (keep (λ s. str_eq s.file_id file.id) symbols)
        (All-keep (λ s. str_eq s.file_id file.id) IsOneBased symbols all))
  where
    step :
        {A B : Type 0} (o : Option A) (a : A) (f : A → Option (List B))
        → o ≡ some a
        → elim o [ none ↦ some [] | some x ↦ f x ] ≡ f a
    step o a f e = ap (λ q. elim q [ none ↦ some [] | some x ↦ f x ]) e

    readable : chunk_file workspace root file symbols options ≡ (
        let lines = workspace.split_lines content in
        let own = keep (λ s. str_eq s.file_id file.id) symbols in
        if not (is_empty_list own)
        then some (chunk_by_symbols workspace.trim file path lines own)
        else chunk_by_window workspace.trim file path lines (suc (length lines)) options)
    readable =
        step (resolve_indexed_file_absolute_path workspace.paths root file) absolute _ found
        ∙ step (to_repo_relative_path workspace.paths root absolute) path _ relative
        ∙ step (workspace.read_file absolute) content _ read

    by_symbols :
        (own : List IndexedSymbol)
        → All IsOneBased own
        → (let lines = workspace.split_lines content in
            Chunked workspace.trim lines 0 (
              if not (is_empty_list own)
              then some (chunk_by_symbols workspace.trim file path lines own)
              else chunk_by_window workspace.trim file path lines (suc (length lines)) options))
    by_symbols [] own =
        chunk_by_window-Chunked workspace.trim file path (workspace.split_lines content) options
          less
    by_symbols (s ∷ ss) own =
        chunk_by_symbols-Chunked workspace.trim file path (workspace.split_lines content) (s ∷ ss)
          own
