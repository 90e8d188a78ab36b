-- ===== src/Retry/Bounds.antt =====
-- The delay before an attempt.
use Prim.Native.String.{String}
use text.Mathlib.Text.{◌==◌ as str_eq}
use native.Mathlib.Nat.{mul_assoc, mul_comm, pow-suc, add-zero, add-suc}
use dh_kit.Kit.{
  ℕ, zero, suc, ◌+◌, ◌*◌, ◌^◌, ◌≤◌, ◌≡◌, min, sym, ◌∙◌, none, some, arith, Option, ap, Bool, true,
  false, if◌then◌else◌,
}
use dh_kit.Retry.{
  Platform, RetryHints, delay_by_text, compute_retry_delay, exponential, parse_retry_after,
}

min-le : (a b : ℕ) → min a b ≤ b
min-le a b = omega arith

delay_by_text-le :
    (platform : Platform) (text : Option String) (otherwise max_delay_ms now_ms : ℕ)
    → delay_by_text platform text otherwise max_delay_ms now_ms ≤ max_delay_ms
unfolding delay_by_text
delay_by_text-le platform none otherwise m now = min-le otherwise m
delay_by_text-le platform (some text) otherwise m now = ground arith

-- A delay is at most the maximum, whatever the hints are and the clock reads.
pub compute_retry_delay-le :
    (platform : Platform) (attempt : ℕ) (hints : RetryHints) (base_delay_ms max_delay_ms now_ms : ℕ)
    → compute_retry_delay platform attempt hints base_delay_ms max_delay_ms now_ms ≤ max_delay_ms
unfolding compute_retry_delay
compute_retry_delay-le platform attempt hints base m now =
    ground (arith, delay_by_text-le platform hints.hint_text (exponential base attempt) m now)

doubles : (base n : ℕ) → exponential base (suc (suc n)) ≡ 2 * exponential base (suc n)
unfolding exponential
doubles base n =
    ap (λ k. base * k) (pow-suc 2 n) ∙ sym (mul_assoc base (2 ^ n) 2) ∙ mul_comm (base * 2 ^ n) 2

exponential-step : (base a : ℕ) → exponential base a ≤ exponential base (suc a)
exponential-step base zero = unfold exponential in omega arith
exponential-step base (suc n) = omega (arith, doubles base n)

exponential-grows : (base d a : ℕ) → exponential base a ≤ exponential base (a + d)
exponential-grows base zero a = rw (add-zero a) (omega arith)
exponential-grows base (suc d) a =
    rw (add-suc a d) (omega (arith, exponential-grows base d a, exponential-step base (a + d)))

-- The hint is a text that is no number of seconds, and is a date.
abbrev pub names_date : Platform → Option String → Bool
names_date platform none = false
names_date platform (some text) =
    let trimmed = platform.trim text in
    if str_eq trimmed "" then false else elim (platform.seconds_in_ms trimmed) [
      | some ms ↦ false
      | none ↦ elim (platform.parse_date trimmed) [ some date ↦ true | none ↦ false ]
    ]

-- At the same hints, whose text is not a date, the delay after a later failure is no shorter, whatever the
-- clock reads at each.
pub compute_retry_delay-grows :
    (platform : Platform) (a d : ℕ) (hints : RetryHints)
    (base_delay_ms max_delay_ms now_ms later_ms : ℕ)
    → names_date platform hints.hint_text ≡ false
    → compute_retry_delay platform a hints base_delay_ms max_delay_ms now_ms
      ≤ compute_retry_delay platform (a + d) hints base_delay_ms max_delay_ms later_ms
unfolding compute_retry_delay delay_by_text parse_retry_after
compute_retry_delay-grows platform a d hints base m now later no_date =
    ground (arith, exponential-grows base d a)
