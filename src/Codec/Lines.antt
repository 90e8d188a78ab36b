-- ===== src/Codec/Lines.antt =====
-- What `split("\r\n")`, `split(":")` and `trim` answer on the parts of a frame header.
use mathlib.Core.List.{reverse-cons, reverse-reverse}
use dh_kit.Kit.{
  ℕ, ◌≡◌, ◌≢◌, refl, false, none, some, List, [], ◌∷◌, ◌++◌, reverse, All, All-append, Bytes, arith,
  is_space, drop_spaces, trim,
}
use dh_kit.Codec.{split_lines, split_on}

-- The byte is neither `c` nor, for a text, any of its bytes.
abbrev pub Lacks : ℕ → Bytes → Type 0
Lacks c s = All (λ a. a ≢ c) s

split_lines-cons :
    (a b : ℕ) (s : Bytes) {line : Bytes} {lines : List Bytes}
    → a ≢ 13
    → split_lines (some b) s ≡ line ∷ lines
    → split_lines (some a) (b ∷ s) ≡ (a ∷ line) ∷ lines
unfolding split_lines
split_lines-cons a b s h e = ground arith

-- A line without a carriage return ends at the next CR LF.
pub split_lines-append :
    (a : ℕ) (s t : Bytes)
    → Lacks 13 (a ∷ s)
    → split_lines (some a) (s ++ (13 ∷ 10 ∷ t)) ≡ (a ∷ s) ∷ split_lines none t
unfolding split_lines
split_lines-append a [] t h =
    split_lines-cons a 13 (10 ∷ t) {line = []} {lines = split_lines none t} h.0 refl
split_lines-append a (b ∷ s) t h =
    split_lines-cons a b (s ++ (13 ∷ 10 ∷ t)) h.0 (split_lines-append b s t h.1)

pub split_lines-single :
    (a : ℕ) (s : Bytes) → Lacks 13 (a ∷ s) → split_lines (some a) s ≡ (a ∷ s) ∷ []
unfolding split_lines
split_lines-single a [] h = refl
split_lines-single a (b ∷ s) h = split_lines-cons a b s h.0 (split_lines-single b s h.1)

pub split_on-single : (c : ℕ) (s : Bytes) → Lacks c s → split_on c s ≡ s ∷ []
unfolding split_on
split_on-single c [] h = refl
split_on-single c (a ∷ s) h = ground (arith, split_on-single c s h.1)

pub split_on-append :
    (c : ℕ) (s t : Bytes) → Lacks c s → split_on c (s ++ (c ∷ t)) ≡ s ∷ split_on c t
unfolding split_on
split_on-append c [] t h = ground arith
split_on-append c (a ∷ s) t h = ground (arith, split_on-append c s t h.1)

abbrev pub IsSolid : Bytes → Type 0
IsSolid s = All (λ a. is_space a ≡ false) s

drop_spaces_solid : (s : Bytes) → IsSolid s → drop_spaces s ≡ s
drop_spaces_solid [] h = refl
drop_spaces_solid (a ∷ s) h = rw h.0

IsSolid-reverse : (s : Bytes) → IsSolid s → IsSolid (reverse s)
IsSolid-reverse [] h = tt
IsSolid-reverse (a ∷ s) h = rw reverse-cons (
    All-append (λ (b : ℕ). is_space b ≡ false) (reverse s) (a ∷ []) (IsSolid-reverse s h.1)
      (h.0, tt))

-- Trimming takes off the blank before a text without white space, and nothing more.
pub trim_solid : (s : Bytes) → IsSolid s → trim (32 ∷ s) ≡ s
trim_solid s h =
    rw (drop_spaces_solid s h, drop_spaces_solid (reverse s) (IsSolid-reverse s h))
      (reverse-reverse s)
