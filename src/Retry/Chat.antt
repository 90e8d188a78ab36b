-- ===== src/Retry/Chat.antt =====
-- `chat` of a retrying provider. The provider's answers, and what the clock reads after them, are functions
-- of the attempt, from 1 on.
use Prim.Native.String.{String}
use dh_kit.Kit.{
  ℕ, zero, suc, ◌+◌, ◌&&◌, leb, Option, none, some, List, [], ◌∷◌, ◌++◌, if◌then◌else◌, Result, ok,
  err,
}
use dh_kit.Retry.{
  Thrown, provider_error, other_thrown, Platform, is_retryable, extract_retry_hints,
  compute_retry_delay, default_base_delay_ms, default_max_delay_ms,
}

pub data Event : Type 0 where
  chatted : ℕ → Event
  retry_attempt : ℕ → ℕ → String → Event
  retry_give_up : ℕ → String → Event
  slept : ℕ → Event

abbrev pub error_message : Thrown → String
error_message (provider_error e) = e.message
error_message (other_thrown text) = text

module _ {R : Type 0} (platform : Platform) (max_retries : ℕ) (now_ms : ℕ → ℕ)
    (answer : ℕ → Result Thrown R) where
  -- The hints of an error with the default base and maximum.
  abbrev pub delay_after : ℕ → Thrown → ℕ
  delay_after attempt error =
      compute_retry_delay platform attempt (extract_retry_hints error) default_base_delay_ms
        default_max_delay_ms (now_ms attempt)

  abbrev pub after :
      List Event → Option (Result Thrown R) × List Event → Option (Result Thrown R) × List Event
  after before (result, events) = (result, before ++ events)

  -- What follows a failed attempt; the last argument is the rest of the loop.
  abbrev pub retry :
      ℕ → Thrown → Option (Result Thrown R) × List Event → Option (Result Thrown R) × List Event
  retry attempt error rest =
      if is_retryable error && leb attempt max_retries
      then after
          (chatted attempt
            ∷ retry_attempt attempt (delay_after attempt error) (error_message error)
            ∷ slept (delay_after attempt error)
            ∷ [])
          rest
      else (some (err error), chatted attempt ∷ retry_give_up attempt (error_message error) ∷ [])

  -- The loop from an attempt on; without fuel there is no result.
  unfoldable pub chat_from : ℕ → ℕ → Option (Result Thrown R) × List Event
  chat_from zero attempt = (none, [])
  chat_from (suc fuel) attempt =
      let rest = chat_from fuel (attempt + 1) in
      elim (answer attempt) [
        | ok response ↦ (some (ok response), chatted attempt ∷ [])
        | err error ↦ retry attempt error rest
      ]

  unfoldable pub chat : Option (Result Thrown R) × List Event
  chat = chat_from (max_retries + 1) 1
