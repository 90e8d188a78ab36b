-- ===== src/Codec/Decimal.antt =====
-- The decimal text of a number, as `encodeRpcFrame` writes it and `parseFrameHeaders` reads it.
use dh_kit.Kit.{
  ℕ, zero, suc, ◌+◌, ◌/◌, ◌%◌, ◌<◌, ◌≤◌, ◌≡◌, refl, ap, ◌∙◌, inl, inr, true, false, [], ◌∷◌, ltb,
  Bool-cases, le→leb, All, Bytes, arith, is_empty,
}
use dh_kit.Codec.{all_digits, number_from, decimal_from, decimal}

abbrev pub IsDigit : ℕ → Type 0
IsDigit c = (48 ≤ c) × (c ≤ 57)

decimal_from-value :
    (fuel n : ℕ) (out : Bytes)
    → n < fuel
    → number_from 0 (decimal_from fuel n out) ≡ number_from n out
unfolding decimal_from number_from
decimal_from-value zero n out h = absurd (omega arith)
decimal_from-value (suc fuel) n out h = elim (Bool-cases (ltb n 10)) [
  | inl small ↦ rw small (ap (λ k. number_from k out) (ground arith))
  | inr large ↦ rw large (
      decimal_from-value fuel (n / 10) ((48 + n % 10) ∷ out) (ground arith)
      ∙ ap (λ k. number_from k out) (omega arith))
]

-- Reading back the decimal text of a number gives the number.
pub number_from-decimal : (n : ℕ) → number_from 0 (decimal n) ≡ n
unfolding decimal number_from
number_from-decimal n = decimal_from-value (suc n) n [] (omega arith)

decimal_from-All :
    (fuel n : ℕ) (out : Bytes) → All IsDigit out → All IsDigit (decimal_from fuel n out)
unfolding decimal_from
decimal_from-All zero n out h = h
decimal_from-All (suc fuel) n out h = elim (Bool-cases (ltb n 10)) [
  | inl small ↦ rw small ((omega arith, omega arith), h)
  | inr large ↦
      rw large
        (decimal_from-All fuel (n / 10) ((48 + n % 10) ∷ out) ((omega arith, omega arith), h))
]

pub decimal-All : (n : ℕ) → All IsDigit (decimal n)
unfolding decimal
decimal-All n = decimal_from-All (suc n) n [] tt

decimal_from-nonempty :
    (fuel n c : ℕ) (out : Bytes) → is_empty (decimal_from fuel n (c ∷ out)) ≡ false
unfolding decimal_from
decimal_from-nonempty zero n c out = refl
decimal_from-nonempty (suc fuel) n c out = elim (Bool-cases (ltb n 10)) [
  | inl small ↦ rw small
  | inr large ↦ rw large (decimal_from-nonempty fuel (n / 10) (48 + n % 10) (c ∷ out))
]

pub decimal-nonempty : (n : ℕ) → is_empty (decimal n) ≡ false
unfolding decimal decimal_from
decimal-nonempty n = elim (Bool-cases (ltb n 10)) [
  | inl small ↦ rw small
  | inr large ↦ rw large (decimal_from-nonempty n (n / 10) (48 + n % 10) [])
]

pub all_digits_lem : (s : Bytes) → All IsDigit s → all_digits s ≡ true
unfolding all_digits
all_digits_lem [] h = refl
all_digits_lem (c ∷ s) ((low, high), h) =
    rw (le→leb 48 c low, le→leb c 57 high) (all_digits_lem s h)
