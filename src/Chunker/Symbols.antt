-- ===== src/Chunker/Symbols.antt =====
-- The chunks along the symbols of a file cover it.
use Prim.Native.String.{String}
use dh_kit.Kit.{
  ℕ, ◌-◌, ◌≤◌, ◌<◌, ◌≡◌, inl, inr, true, ltb, leb, Option, none, some, List, [], ◌∷◌, ◌++◌, length,
  if◌then◌else◌, All, All-append, Bool-cases, arith, min, pos, difference_le,
}
use dh_kit.Paths.{IndexedFile}
use dh_kit.Chunker.{
  IndexedSymbol, ChunkInput, chunk_of, insert_symbol, sorted_symbols, symbol_chunks,
  chunk_by_symbols,
}
use dh_kit.Chunker.Covering.{
  Covers, Covers-left, Covers-right, IsTextOf, chunk_of-Covers, chunk_of-IsTextOf,
}
use dh_kit.Chunker.Windows.{Chunked}

-- Lines count from one.
abbrev pub IsOneBased : IndexedSymbol → Type 0
IsOneBased symbol = 1 ≤ symbol.line_start

All-insert_symbol :
    (s : IndexedSymbol) (symbols : List IndexedSymbol)
    → IsOneBased s
    → All IsOneBased symbols
    → All IsOneBased (insert_symbol s symbols)
All-insert_symbol s [] h all = (h, tt)
All-insert_symbol s (x ∷ symbols) h all = elim (Bool-cases (leb s.line_start x.line_start)) [
  | inl before ↦ rw before (h, all)
  | inr after ↦ rw after (all.0, All-insert_symbol s symbols h all.1)
]

All-sorted_symbols :
    (symbols : List IndexedSymbol)
    → All IsOneBased symbols
    → All IsOneBased (sorted_symbols symbols)
All-sorted_symbols [] all = tt
All-sorted_symbols (s ∷ symbols) all =
    All-insert_symbol s (sorted_symbols symbols) all.0 (All-sorted_symbols symbols all.1)

module _ (trim : String → String) (file : IndexedFile) (path : String) (lines : List String) where
  abbrev chunk : Option String → ℕ → ℕ → List ChunkInput
  chunk id a b = chunk_of trim file path lines id (pos a) (pos b)

  abbrev gap : ℕ → ℕ → List ChunkInput
  gap cursor start = if ltb cursor start then chunk none cursor start else []

  gap-Covers :
      (cursor start i : ℕ) → cursor ≤ i → i < start → Covers trim lines (gap cursor start) i
  gap-Covers cursor start i low high =
      let open_ : ltb cursor start ≡ true = ground arith in
      rw open_ (chunk_of-Covers trim lines file path none cursor start i low high)

  gap-IsTextOf : (cursor start : ℕ) → All (IsTextOf lines) (gap cursor start)
  gap-IsTextOf cursor start = elim (Bool-cases (ltb cursor start)) [
    | inl open_ ↦ rw open_ (chunk_of-IsTextOf trim lines file path none cursor start)
    | inr shut ↦ rw shut tt
  ]

  join_rest :
      (cursor start end : ℕ) (id : String) (rest : List ChunkInput)
      → Chunked trim lines end (some rest)
      → Chunked trim lines cursor (some (gap cursor start ++ chunk (some id) start end ++ rest))
  join_rest cursor start end id rest more =
      let front = gap cursor start ++ chunk (some id) start end in
      (
        λ i low high. elim (Bool-cases (ltb i end)) [
          | inr past ↦ Covers-right trim lines front rest i (more.0 i (ground arith) high)
          | inl before ↦ Covers-left trim lines front rest i (elim (Bool-cases (ltb i start)) [
            | inl outside ↦
                Covers-left trim lines (gap cursor start) (chunk (some id) start end) i
                  (gap-Covers cursor start i low (ground arith))
            | inr inside ↦
                Covers-right trim lines (gap cursor start) (chunk (some id) start end) i (
                  chunk_of-Covers trim lines file path (some id) start end i (ground arith)
                    (ground arith))
          ])
        ],
        All-append (IsTextOf lines) front rest
            (All-append (IsTextOf lines) (gap cursor start) (chunk (some id) start end)
              (gap-IsTextOf cursor start)
              (chunk_of-IsTextOf trim lines file path (some id) start end))
            more.1,
      )

  -- Every line from the cursor on is covered, wherever the symbols start and end.
  symbols-Chunked :
      (symbols : List IndexedSymbol) (cursor : ℕ)
      → All IsOneBased symbols
      → Chunked trim lines cursor (some (symbol_chunks trim file path lines symbols cursor))
  symbols-Chunked [] cursor all = (
    λ i low high. gap-Covers cursor (length lines) i low high,
    gap-IsTextOf cursor (length lines),
  )
  symbols-Chunked (s ∷ symbols) cursor all =
      let end = min s.line_end (length lines) in
      rw (difference_le s.line_start 1 all.0) (
        join_rest cursor (s.line_start - 1) end s.id
          (symbol_chunks trim file path lines symbols end) (symbols-Chunked symbols end all.1))

-- The chunks along the symbols of a file, whose lines count from one, cover every line that stands in no
-- blank stretch, and each is the text of its lines; symbols may overlap, nest or end past the file.
pub chunk_by_symbols-Chunked :
    (trim : String → String) (file : IndexedFile) (path : String) (lines : List String)
    (symbols : List IndexedSymbol)
    → All IsOneBased symbols
    → Chunked trim lines 0 (some (chunk_by_symbols trim file path lines symbols))
unfolding chunk_by_symbols
chunk_by_symbols-Chunked trim file path lines symbols all =
    symbols-Chunked trim file path lines (sorted_symbols symbols) 0 (All-sorted_symbols symbols all)
