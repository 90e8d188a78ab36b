-- ===== src/Chunker/Windows.antt =====
-- The windows of a file: they end, and cover it, when they overlap less than they are long; else they
-- never end.
use Prim.Native.String.{String}
use dh_kit.Kit.{
  ℕ, zero, suc, ◌+◌, ◌-◌, ◌≤◌, ◌<◌, ◌≡◌, refl, inl, inr, true, ltb, leb, Option, none, some, List,
  [], ◌++◌, length, All, All-append, Bool-cases, arith, min, ℤ, pos, negsuc, difference, plus,
  minus, min_with, is_below, difference_le,
}
use dh_kit.Paths.{IndexedFile}
use dh_kit.Chunker.{
  ChunkerOptions, ChunkInput, chunk_of, after_chunks, windows, max_lines_of, overlap_of,
  chunk_by_window,
}
use dh_kit.Chunker.Covering.{
  Covers, Covers-left, Covers-right, IsTextOf, chunk_of-Covers, chunk_of-IsTextOf,
}

-- There are chunks, they cover the lines from a line on, and each is the text of its lines.
abbrev pub Chunked : (String → String) → List String → ℕ → Option (List ChunkInput) → Type 0
Chunked trim lines s none = ⊥
Chunked trim lines s (some chunks) =
    ((i : ℕ) → s ≤ i → i < length lines → Covers trim lines chunks i) × All (IsTextOf lines) chunks

module _ (trim : String → String) (file : IndexedFile) (path : String) (lines : List String)
    (max_lines overlap : ℕ) where
  abbrev pub window : ℕ → ℕ → List ChunkInput
  window s e = chunk_of trim file path lines none (pos s) (pos e)

  last_window : (s e : ℕ) → length lines ≤ e → Chunked trim lines s (some (window s e ++ []))
  last_window s e all = (
    λ i low high.
        Covers-left trim lines (window s e) [] i
          (chunk_of-Covers trim lines file path none s e i low (omega (arith, all, high))),
    All-append (IsTextOf lines) (window s e) [] (chunk_of-IsTextOf trim lines file path none s e)
        tt,
  )

  next_window :
      (s e t : ℕ) (rest : Option (List ChunkInput))
      → t ≤ e
      → Chunked trim lines t rest
      → Chunked trim lines s (after_chunks (window s e) rest)
  next_window s e t none h r = r
  next_window s e t (some chunks) h r = (
    λ i low high. elim (Bool-cases (ltb i e)) [
      | inl before ↦
          Covers-left trim lines (window s e) chunks i
            (chunk_of-Covers trim lines file path none s e i low (ground arith))
      | inr after ↦ Covers-right trim lines (window s e) chunks i (r.0 i (ground arith) high)
    ],
    All-append (IsTextOf lines) (window s e) chunks
        (chunk_of-IsTextOf trim lines file path none s e) r.1,
  )

  -- A property of what comes from a line on holds of the windows, when it holds past the end and of the
  -- last window, and goes from later windows to those with one before them; windows that overlap less than
  -- they are long end, with fuel for each line and one more.
  pub windows_lem :
      (P : ℕ → Option (List ChunkInput) → Type 0) (fuel s : ℕ)
      → ((s : ℕ) → length lines ≤ s → P s (some []))
      → ((s e : ℕ) → length lines ≤ e → P s (some (window s e ++ [])))
      → ((s e t : ℕ) (rest : Option (List ChunkInput))
          → s < t
          → t ≤ e
          → P t rest
          → P s (after_chunks (window s e) rest))
      → overlap < max_lines
      → length lines < fuel + s
      → 0 < fuel
      → P s (windows trim file path lines max_lines overlap fuel (pos s))
  unfolding windows
  windows_lem P zero s past last next less enough more = absurd (omega (arith, more))
  windows_lem P (suc fuel) s past last next less enough more =
      elim (Bool-cases (ltb s (length lines))) [
        | inr over ↦ rw over (past s (ground arith))
        | inl inside ↦
            rw inside (elim (Bool-cases (ltb (min (s + max_lines) (length lines)) (length lines))) [
              | inr final ↦ rw final (last s (min (s + max_lines) (length lines)) (ground arith))
              | inl again ↦ rw again (
                  let e = min (s + max_lines) (length lines) in
                  let reached : e ≡ s + max_lines = ground arith in
                  next s e (e - overlap) _ (omega (arith, reached, less)) (omega arith) (
                    rw (difference_le e overlap (omega (arith, reached, less))) (
                      windows_lem P fuel (e - overlap) past last next less
                        (omega (arith, reached, less, enough)) (ground arith))))
            ])
      ]

  pub windows-Chunked :
      (fuel s : ℕ)
      → overlap < max_lines
      → length lines < fuel + s
      → 0 < fuel
      → Chunked trim lines s (windows trim file path lines max_lines overlap fuel (pos s))
  windows-Chunked fuel s less enough more =
      windows_lem (Chunked trim lines) fuel s
        (λ s over. ((λ i low high. absurd (omega (arith, over, low, high))), tt)) last_window
        (λ s e t rest before h. next_window s e t rest h) less enough more

  -- A start that is no line after the first.
  abbrev IsEarly : ℤ → Type 0
  IsEarly (pos a) = a ≡ 0
  IsEarly (negsuc a) = Unit

  end_below :
      (z : ℤ)
      → IsEarly z
      → max_lines < length lines
      → is_below (min_with (plus z max_lines) (length lines)) (length lines) ≡ true
  end_below (pos a) early short = ground arith
  end_below (negsuc a) tt short = elim (Bool-cases (leb (a + 1) max_lines)) [
    | inl within ↦ rw within (ground arith)
    | inr before ↦ rw before refl
  ]

  IsEarly-difference : (a b : ℕ) → a ≤ b → IsEarly (difference a b)
  IsEarly-difference a b h = elim (Bool-cases (leb b a)) [
    | inl full ↦ rw full (omega (arith, h))
    | inr part ↦ rw part tt
  ]

  next-IsEarly :
      (z : ℤ)
      → IsEarly z
      → max_lines ≤ overlap
      → IsEarly (minus (min_with (plus z max_lines) (length lines)) overlap)
  next-IsEarly (pos a) early more =
      IsEarly-difference (min (a + max_lines) (length lines)) overlap (ground arith)
  next-IsEarly (negsuc a) tt more = elim (Bool-cases (leb (a + 1) max_lines)) [
    | inl within ↦ rw within (
        IsEarly-difference (min (max_lines - (a + 1)) (length lines)) overlap (omega (arith, more)))
    | inr before ↦ rw before tt
  ]

  windows_endless :
      (fuel : ℕ) (z : ℤ)
      → IsEarly z
      → max_lines ≤ overlap
      → max_lines < length lines
      → windows trim file path lines max_lines overlap fuel z ≡ none
  unfolding windows
  windows_endless zero z early more short = refl
  windows_endless (suc fuel) z early more short =
      rw (first z early, end_below z early short)
        (rw
          (windows_endless fuel (minus (min_with (plus z max_lines) (length lines)) overlap)
            (next-IsEarly z early more) more short)
          refl)
    where
      first : (z : ℤ) → IsEarly z → is_below z (length lines) ≡ true
      first (pos a) early = ground arith
      first (negsuc a) tt = refl

-- Windows that overlap by as much as they are long, or more, never end, whatever the fuel, when the file
-- has more lines than a window.
pub chunk_by_window_endless :
    (trim : String → String) (file : IndexedFile) (path : String) (lines : List String)
    (options : Option ChunkerOptions) (fuel : ℕ)
    → max_lines_of options ≤ overlap_of options
    → max_lines_of options < length lines
    → chunk_by_window trim file path lines fuel options ≡ none
unfolding chunk_by_window
chunk_by_window_endless trim file path lines options fuel more short =
    windows_endless trim file path lines (max_lines_of options) (overlap_of options) fuel (pos 0)
      refl more short

-- Windows that overlap less than they are long come to an end: the chunks cover every line that stands in
-- no blank stretch, and each is the text of its lines.
pub chunk_by_window-Chunked :
    (trim : String → String) (file : IndexedFile) (path : String) (lines : List String)
    (options : Option ChunkerOptions)
    → overlap_of options < max_lines_of options
    → Chunked trim lines 0 (chunk_by_window trim file path lines (suc (length lines)) options)
unfolding chunk_by_window
chunk_by_window-Chunked trim file path lines options less =
    windows-Chunked trim file path lines (max_lines_of options) (overlap_of options)
      (suc (length lines)) 0 less (omega arith) (omega arith)
