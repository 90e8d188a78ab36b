-- ===== src/Retry/Tests.antt =====
-- Runs of the retrying provider.
use Prim.Native.String.{String}
use text.Mathlib.Text.{◌==◌ as str_eq}
use dh_kit.Kit.{◌*◌, ℕ, ◌≤◌, ◌≡◌, refl, none, some, ltb, if◌then◌else◌, Result, ok, err, [], ◌∷◌}
use dh_kit.Retry.{
  Platform, Thrown, RetryHints, provider_error, network, compute_retry_delay, is_retryable,
  extract_retry_hints, delay_by_text, exponential, parse_retry_after,
}
use dh_kit.Retry.Chat.{chat, chat_from, chatted, retry_attempt, slept}
use dh_kit.Retry.Bounds.{compute_retry_delay-le, compute_retry_delay-grows}
use dh_kit.Retry.Attempts.{Ended, chat-Ended}

abbrev toy_platform : Platform
toy_platform = record {
  trim = λ s. s;
  seconds_in_ms = λ s. if str_eq s "2" then some 2000 else none;
  parse_date = λ s. if str_eq s "noon" then some 5000 else none;
}

abbrev reset : Thrown
reset = provider_error (record {
  kind = network;
  message = "reset";
  retryable = none;
  status_code = none;
  retry_after_ms = none;
  retry_after = none;
})

abbrev ticking : ℕ → ℕ
ticking attempt = 1000 * attempt

-- Two failures, then a response.
abbrev flaky : ℕ → Result Thrown String
flaky n = if ltb n 3 then err reset else ok "hello"

chat-Ended_example : Ended toy_platform 3 ticking flaky 1 (chat toy_platform 3 ticking flaky)
chat-Ended_example = chat-Ended toy_platform 3 ticking flaky

flaky_run : chat toy_platform 3 ticking flaky ≡ (
  some (ok "hello"),
  chatted 1
      ∷ retry_attempt 1 500 "reset"
      ∷ slept 500
      ∷ chatted 2
      ∷ retry_attempt 2 1000 "reset"
      ∷ slept 1000
      ∷ chatted 3
      ∷ [],
)
unfolding chat chat_from is_retryable extract_retry_hints compute_retry_delay delay_by_text
    exponential
flaky_run = refl

abbrev in_seconds : RetryHints
in_seconds = record { hint_ms = none; hint_text = some "2" }

abbrev no_hints : RetryHints
no_hints = record { hint_ms = none; hint_text = none }

abbrev at_noon : RetryHints
at_noon = record { hint_ms = none; hint_text = some "noon" }

compute_retry_delay-le_example : compute_retry_delay toy_platform 1 in_seconds 500 1000 70 ≤ 1000
compute_retry_delay-le_example = compute_retry_delay-le toy_platform 1 in_seconds 500 1000 70

compute_retry_delay-grows_example :
    compute_retry_delay toy_platform 2 no_hints 500 8000 1000
    ≤ compute_retry_delay toy_platform 5 no_hints 500 8000 3000
compute_retry_delay-grows_example =
    compute_retry_delay-grows toy_platform 2 3 no_hints 500 8000 1000 3000 refl

-- At a date the second delay is the shorter one.
at_noon_run :
    (compute_retry_delay toy_platform 1 at_noon 500 8000 1000 ≡ 4000)
    × (compute_retry_delay toy_platform 2 at_noon 500 8000 3000 ≡ 2000)
unfolding compute_retry_delay delay_by_text exponential parse_retry_after
at_noon_run = (refl, refl)
