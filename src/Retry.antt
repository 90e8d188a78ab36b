-- ===== src/Retry.antt =====
-- packages/runtime/src/reliability/retry-policy.ts and retrying-chat-provider.ts: which failures of a
-- chat provider are tried again, after what delay, and the loop that does it.
pub mod Chat
pub mod Bounds
pub mod Attempts
mod Tests
use Prim.Native.String.{String}
use text.Mathlib.Text.{◌==◌ as str_eq}
use dh_kit.Kit.{
  ℕ, zero, suc, ◌+◌, ◌-◌, ◌*◌, ◌^◌, min, Bool, true, false, ◌&&◌, ◌||◌, Option, none, some, List,
  [], ◌∷◌, leb, ◌==◌, if◌then◌else◌, Result, ok, err,
}

-- `ChatProviderErrorKind`; any other text is `other_kind`.
pub data Kind : Type 0 where
  semantic overflow network rate_limit transient auth unknown other_kind : Kind

-- A number of milliseconds: finite and positive, with its floor, or any other number.
pub data Millis : Type 0 where
  positive : ℕ → Millis
  not_positive : Millis

pub record ChatProviderError : Type 0 where
  pub kind : Kind
  pub message : String
  pub retryable : Option Bool
  pub status_code : Option ℕ
  pub retry_after_ms : Option Millis
  pub retry_after : Option String

-- What may be thrown: an object with the two texts of a provider error, or any other value with its
-- text.
pub data Thrown : Type 0 where
  provider_error : ChatProviderError → Thrown
  other_thrown : String → Thrown

-- The language's functions on texts: `trim`, the floor of a thousand times `Number(text)` where that is
-- finite and not negative, and `Date.parse` where it is a date, one before 1970 as 0.
pub record Platform : Type 0 where
  pub trim : String → String
  pub seconds_in_ms : String → Option ℕ
  pub parse_date : String → Option ℕ

pub record RetryHints : Type 0 where
  pub hint_ms : Option Millis
  pub hint_text : Option String

abbrev pub default_max_retries : ℕ
default_max_retries = 3

abbrev pub default_base_delay_ms : ℕ
default_base_delay_ms = 500

abbrev pub default_max_delay_ms : ℕ
default_max_delay_ms = 8000

abbrev pub as_chat_provider_error : Thrown → Option ChatProviderError
as_chat_provider_error (provider_error e) = some e
as_chat_provider_error (other_thrown text) = none

abbrev pub kind_retries : Kind → Bool
kind_retries network = true
kind_retries rate_limit = true
kind_retries transient = true
kind_retries _ = false

abbrev pub status_retries : ℕ → Bool
status_retries code =
    code == 408 || (code == 409 || (code == 425 || (code == 429 || leb 500 code && leb code 599)))

abbrev pub by_status : Kind → Option ℕ → Bool
by_status kind none = kind_retries kind
by_status kind (some code) = status_retries code

abbrev pub by_kind : Kind → Option ℕ → Bool
by_kind semantic status = false
by_kind overflow status = false
by_kind kind status = by_status kind status

abbrev pub error_retries : ChatProviderError → Bool
error_retries e = elim e.retryable [
  | some flag ↦ if flag then true else by_kind e.kind e.status_code
  | none ↦ by_kind e.kind e.status_code
]

unfoldable pub is_retryable : Thrown → Bool
is_retryable thrown = elim (as_chat_provider_error thrown) [
  | none ↦ false
  | some e ↦ error_retries e
]

unfoldable pub extract_retry_hints : Thrown → RetryHints
extract_retry_hints thrown = elim (as_chat_provider_error thrown) [
  | none ↦ record { hint_ms = none; hint_text = none }
  | some e ↦ record { hint_ms = e.retry_after_ms; hint_text = e.retry_after }
]

abbrev pub predecessor : ℕ → ℕ
predecessor zero = zero
predecessor (suc n) = n

-- `base * 2 ** (max(1, attempt) - 1)`, for a base above 0 or a power that the language's numbers can hold:
-- elsewhere it is 0 here, and 0 times infinity, no number, there.
unfoldable pub exponential : ℕ → ℕ → ℕ
exponential base attempt = base * 2 ^ predecessor attempt

module _ (platform : Platform) where
  open platform use {trim, seconds_in_ms, parse_date}

  -- The last argument, here and below, is what the clock reads when the delay is computed.
  unfoldable pub parse_retry_after : String → ℕ → Option ℕ
  parse_retry_after value now_ms =
      let trimmed = trim value in
      if str_eq trimmed "" then none else elim (seconds_in_ms trimmed) [
        | some ms ↦ some ms
        | none ↦ elim (parse_date trimmed) [ some date ↦ some (date - now_ms) | none ↦ none ]
      ]

  -- The delay by the text of the hint; an empty text is no hint.
  unfoldable pub delay_by_text : Option String → ℕ → ℕ → ℕ → ℕ
  delay_by_text none otherwise max_delay_ms now_ms = min otherwise max_delay_ms
  delay_by_text (some text) otherwise max_delay_ms now_ms =
      if str_eq text "" then min otherwise max_delay_ms else elim (parse_retry_after text now_ms) [
        | some ms ↦ min ms max_delay_ms
        | none ↦ min otherwise max_delay_ms
      ]

  unfoldable pub compute_retry_delay : ℕ → RetryHints → ℕ → ℕ → ℕ → ℕ
  compute_retry_delay attempt hints base_delay_ms max_delay_ms now_ms = elim hints.hint_ms [
    | some (positive ms) ↦ min ms max_delay_ms
    | some not_positive ↦
        delay_by_text hints.hint_text (exponential base_delay_ms attempt) max_delay_ms now_ms
    | none ↦ delay_by_text hints.hint_text (exponential base_delay_ms attempt) max_delay_ms now_ms
  ]
