-- ===== src/ChunkStore/Own.antt =====
-- The chunks of a file without symbols are stored in their order, so the file settles.
use Prim.Native.String.{String}
use text.Mathlib.Text.{◌==◌ as str_eq}
use text.Mathlib.TextPositions.{eq_refl}
use mathlib.Core.Path.{subst}
use dh_kit.Kit.{
  ℕ, suc, ◌+◌, ◌<◌, ◌≡◌, refl, inl, inr, true, false, Option, none, some, List, [], ◌∷◌, ◌++◌,
  length, All, All-map, Bool-cases, arith, le→leb, leb, ◌≤◌, pos, slice,
}
use dh_kit.Paths.{IndexedFile}
use dh_kit.Chunker.{
  ChunkerOptions, ChunkInput, chunk_of, after_chunks, join_lines, max_lines_of, overlap_of,
  chunk_by_window,
}
use dh_kit.Chunker.Windows.{windows_lem}
use dh_kit.ChunkStore.{ChunkRow, delete_by_file_id, needs_refresh, refresh_file_chunks}
use dh_kit.ChunkStore.Repeats.{stores}
use dh_kit.ChunkStore.Settles.{IsAscending, HasDistinctHashes, refresh_file_chunks-settles}

-- The chunk is the file's, and starts at a line or after it.
abbrev StartsFrom : String → ℕ → ChunkInput → Type 0
StartsFrom file_id s chunk =
    (a : ℕ) × (chunk.line_start ≡ pos a) × (s < a) × (str_eq chunk.file_id file_id ≡ true)

abbrev InOrderFrom : String → ℕ → Option (List ChunkInput) → Type 0
InOrderFrom file_id s none = ⊥
InOrderFrom file_id s (some chunks) = All (StartsFrom file_id s) chunks × IsAscending chunks

StartsFrom-le :
    (file_id : String) (s t : ℕ) (chunks : List ChunkInput)
    → s ≤ t
    → All (StartsFrom file_id t) chunks
    → All (StartsFrom file_id s) chunks
StartsFrom-le file_id s t chunks h =
    All-map (StartsFrom file_id t) (StartsFrom file_id s) chunks
      (λ c (a, start, later, own). (a, start, omega (arith, h, later), own))

-- A chunk before chunks that start later.
IsAscending-cons :
    (file_id : String) (s : ℕ) (c : ChunkInput) (chunks : List ChunkInput)
    → c.line_start ≡ pos (s + 1)
    → All (StartsFrom file_id (s + 1)) chunks
    → IsAscending chunks
    → IsAscending (c ∷ chunks)
IsAscending-cons file_id s c [] at all up = tt
IsAscending-cons file_id s c (d ∷ chunks) at ((a, start, later, own), all) up =
    (rw (at, start) ((le→leb (s + 1) a (omega (arith, later)), above (s + 1) a later)), up)
  where
    above : (n k : ℕ) → n < k → leb k n ≡ false
    above n k h = ground arith

module _ (trim : String → String) (file : IndexedFile) (path : String) (lines : List String) where
  abbrev window_chunk : ℕ → ℕ → ChunkInput
  window_chunk s e = record {
    file_id = file.id;
    file_path = path;
    symbol_id = none;
    line_start = pos (s + 1);
    line_end = pos e;
    content = join_lines (slice (pos s) (pos e) lines);
    language = file.language;
  }

  -- A window before chunks that start at a later line.
  before_later :
      (s e : ℕ) (chunks : List ChunkInput)
      → All (StartsFrom file.id (s + 1)) chunks
      → IsAscending chunks
      → InOrderFrom file.id s (some (chunk_of trim file path lines none (pos s) (pos e) ++ chunks))
  before_later s e chunks all up =
      let after = StartsFrom-le file.id s (s + 1) chunks (omega arith) all in
      elim (Bool-cases (str_eq (trim (join_lines (slice (pos s) (pos e) lines))) "")) [
        | inl blank ↦ rw blank (after, up)
        | inr text ↦ rw text (
          ((s + 1, refl, omega arith, eq_refl file.id), after),
          IsAscending-cons file.id s (window_chunk s e) chunks refl all up,
        )
      ]

  next_one :
      (s e t : ℕ) (rest : Option (List ChunkInput))
      → s < t
      → InOrderFrom file.id t rest
      → InOrderFrom file.id s
          (after_chunks (chunk_of trim file path lines none (pos s) (pos e)) rest)
  next_one s e t none before h = h
  next_one s e t (some chunks) before h =
      before_later s e chunks (StartsFrom-le file.id (s + 1) t chunks (omega (arith, before)) h.0)
        h.1

  chunk_by_window-InOrder :
      (options : Option ChunkerOptions)
      → overlap_of options < max_lines_of options
      → InOrderFrom file.id 0 (chunk_by_window trim file path lines (suc (length lines)) options)
  unfolding chunk_by_window
  chunk_by_window-InOrder options less =
      windows_lem trim file path lines (max_lines_of options) (overlap_of options)
        (InOrderFrom file.id) (suc (length lines)) 0 (λ s over. (tt, tt))
        (λ s e over. before_later s e [] tt tt) (λ s e t rest before h. next_one s e t rest before)
        less (omega arith) (omega arith)

-- A file that is chunked in windows, whose chunks' hashes differ from each other and from those that other
-- files' rows hold, needs no refresh after it is refreshed with them, when windows overlap less than they
-- are long.
pub chunk_by_window-settles :
    (content_hash trim : String → String) (file : IndexedFile) (path : String) (lines : List String)
    (options : Option ChunkerOptions) (input : ChunkInput) (inputs : List ChunkInput)
    (rows : List ChunkRow)
    → overlap_of options < max_lines_of options
    → chunk_by_window trim file path lines (suc (length lines)) options ≡ some (input ∷ inputs)
    → HasDistinctHashes content_hash (input ∷ inputs)
    → All
        (λ y. stores (content_hash y.content) (delete_by_file_id file.id rows) ≡ false)
        (input ∷ inputs)
    → needs_refresh content_hash file.id
        (input ∷ inputs)
        (refresh_file_chunks content_hash file.id (input ∷ inputs) rows)
      ≡ false
chunk_by_window-settles content_hash trim file path lines options input inputs rows less chunked
      distinct new =
    let facts : InOrderFrom file.id 0 (some (input ∷ inputs)) =
      subst (InOrderFrom file.id 0) chunked
        (chunk_by_window-InOrder trim file path lines options less) in
    refresh_file_chunks-settles content_hash file.id input inputs rows
      (All-map (StartsFrom file.id 0) (λ y. str_eq y.file_id file.id ≡ true) (input ∷ inputs)
        (λ c (a, start, later, own). own) facts.0)
      facts.1 distinct new
