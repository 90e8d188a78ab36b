-- ===== src/Chunker/Covering.antt =====
-- What it means that chunks cover the lines of a file, and that a chunk is the text of its lines.
use Prim.Native.String.{String}
use text.Mathlib.Text.{◌==◌ as str_eq}
use dh_kit.Kit.{
  ℕ, ◌+◌, ◌≤◌, ◌<◌, ◌≡◌, ◌⊎◌, refl, inl, inr, Bool, true, not, ◌&&◌, ◌||◌, List, [], ◌∷◌, ◌++◌, any,
  All, Bool-cases, arith, pos, is_below, slice, Option,
}
use dh_kit.Paths.{IndexedFile}
use dh_kit.Chunker.{ChunkInput, join_lines, chunk_of}

-- Whether the range of a chunk holds the line that has this many lines before it.
abbrev pub holds : ℕ → ChunkInput → Bool
holds i chunk = is_below chunk.line_start (i + 2) && not (is_below chunk.line_end (i + 1))

-- The line stands in a stretch of lines whose text is blank.
abbrev pub InBlank : (String → String) → List String → ℕ → Type 0
InBlank trim lines i =
    (from : ℕ) × (to : ℕ) × (from ≤ i)
    × (i < to)
    × (str_eq (trim (join_lines (slice (pos from) (pos to) lines))) "" ≡ true)

abbrev pub Covers : (String → String) → List String → List ChunkInput → ℕ → Type 0
Covers trim lines chunks i = (any (holds i) chunks ≡ true) ⊎ InBlank trim lines i

-- The content of a chunk is the text of the lines in its range.
abbrev pub IsTextOf : List String → ChunkInput → Type 0
IsTextOf lines chunk =
    (a : ℕ) × (b : ℕ) × (chunk.line_start ≡ pos (a + 1))
    × (chunk.line_end ≡ pos b)
    × (chunk.content ≡ join_lines (slice (pos a) (pos b) lines))

any-append :
    (i : ℕ) (xs ys : List ChunkInput)
    → any (holds i) (xs ++ ys) ≡ (any (holds i) xs || any (holds i) ys)
any-append i [] ys = refl
any-append i (x ∷ xs) ys = ground (arith, any-append i xs ys)

module _ (trim : String → String) (lines : List String) where
  pub Covers-left :
      (xs ys : List ChunkInput) (i : ℕ) → Covers trim lines xs i → Covers trim lines (xs ++ ys) i
  Covers-left xs ys i (inl h) = inl (let e = any-append i xs ys in ground arith)
  Covers-left xs ys i (inr h) = inr h

  pub Covers-right :
      (xs ys : List ChunkInput) (i : ℕ) → Covers trim lines ys i → Covers trim lines (xs ++ ys) i
  Covers-right xs ys i (inl h) = inl (let e = any-append i xs ys in ground arith)
  Covers-right xs ys i (inr h) = inr h

  module _ (file : IndexedFile) (path : String) (symbol_id : Option String) where
    -- A stretch of lines is covered by its chunk.
    pub chunk_of-Covers :
        (a b i : ℕ)
        → a ≤ i
        → i < b
        → Covers trim lines (chunk_of trim file path lines symbol_id (pos a) (pos b)) i
    chunk_of-Covers a b i low high =
        elim (Bool-cases (str_eq (trim (join_lines (slice (pos a) (pos b) lines))) "")) [
          | inl blank ↦ inr (a, b, low, high, blank)
          | inr text ↦ inl (rw text (ground arith))
        ]

    pub chunk_of-IsTextOf :
        (a b : ℕ) → All (IsTextOf lines) (chunk_of trim file path lines symbol_id (pos a) (pos b))
    chunk_of-IsTextOf a b =
        elim (Bool-cases (str_eq (trim (join_lines (slice (pos a) (pos b) lines))) "")) [
          | inl blank ↦ rw blank tt
          | inr text ↦ rw text ((a, b, refl, refl, refl), tt)
        ]
