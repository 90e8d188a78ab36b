-- ===== src/Kit/Integers.antt =====
-- Integers over the native numbers, and the slices of a list that they denote.
use Prim.Native.Nat.{ℕ, suc, ◌+◌, ◌-◌, ◌≤◌, min}
use mathlib.Core.Path.{◌≡◌}
use mathlib.Core.Bool.{Bool, true, false}
use mathlib.Core.List.{List}
use native.Mathlib.Omega.{arith}
use dh_kit.Kit.Tests.{ltb, leb, if◌then◌else◌}
use dh_kit.Kit.Lists.{length, take, drop}

-- `negsuc n` is -(n + 1).
pub data ℤ : Type 0 where
  pos negsuc : ℕ → ℤ

abbrev pub difference : ℕ → ℕ → ℤ
difference a b = if leb b a then pos (a - b) else negsuc (b - a - 1)

abbrev pub plus : ℤ → ℕ → ℤ
plus (pos a) n = pos (a + n)
plus (negsuc a) n = difference n (a + 1)

abbrev pub minus : ℤ → ℕ → ℤ
minus (pos a) n = difference a n
minus (negsuc a) n = negsuc (a + n)

-- `Math.min(z, n)`.
abbrev pub min_with : ℤ → ℕ → ℤ
min_with (pos a) n = pos (min a n)
min_with (negsuc a) n = negsuc a

abbrev pub is_below : ℤ → ℕ → Bool
is_below (pos a) n = ltb a n
is_below (negsuc a) n = true

abbrev pub is_above : ℤ → ℕ → Bool
is_above (pos a) n = ltb n a
is_above (negsuc a) n = false

-- Where an index of `array.slice` points to: a negative one counts from the end.
abbrev pub index_in : ℕ → ℤ → ℕ
index_in len (pos n) = min n len
index_in len (negsuc n) = len - suc n

abbrev pub slice {ℓ} : {A : Type ℓ} → ℤ → ℤ → List A → List A
slice start end xs =
    let from = index_in (length xs) start in take (index_in (length xs) end - from) (drop from xs)

pub difference_le : (a b : ℕ) → b ≤ a → difference a b ≡ pos (a - b)
difference_le a b h = ground arith
