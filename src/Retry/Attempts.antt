-- ===== src/Retry/Attempts.antt =====
-- The loop of the retrying provider ends, at the first attempt that is not retried.
use mathlib.Core.Path.{subst}
use dh_kit.Kit.{
  le→leb, leb→le, dec_lt, Bool, ℕ, zero, suc, ◌+◌, ◌≤◌, ◌<◌, ◌≡◌, refl, sym, ◌∙◌, some, arith,
  Bool-cases, inl, inr, Option, true, false, ap, List, [], ◌∷◌, ◌&&◌, All, Result, ok, err, leb,
}
use dh_kit.Retry.{
  Platform, Thrown, is_retryable, extract_retry_hints, default_base_delay_ms, default_max_delay_ms,
}
use dh_kit.Retry.Bounds.{compute_retry_delay-le}
use dh_kit.Retry.Chat.{Event, chatted, slept, chat_from, chat}

abbrev pub counts_chat : Event → ℕ
counts_chat (chatted attempt) = 1
counts_chat _ = 0

abbrev pub count_chats : List Event → ℕ
count_chats [] = 0
count_chats (e ∷ es) = counts_chat e + count_chats es

-- A sleep is no longer than the default maximum.
abbrev pub IsBounded : Event → Type 0
IsBounded (slept ms) = ms ≤ default_max_delay_ms
IsBounded _ = Unit

both : {a b : Bool} → (a && b) ≡ true → (a ≡ true) × (b ≡ true)
both h = ground arith

module _ {R : Type 0} (platform : Platform) (max_retries : ℕ) (now_ms : ℕ → ℕ)
    (answer : ℕ → Result Thrown R) where
  -- The attempt fails, and another one follows it.
  abbrev pub Retried : ℕ → Type 0
  Retried attempt =
      (error : Thrown) × (answer attempt ≡ err error)
      × (is_retryable error ≡ true)
      × (attempt ≤ max_retries)

  -- The attempt ends the loop: a response, an error that is not retryable, or the last retry.
  abbrev pub Final : ℕ → Type 0
  Final attempt = Retried attempt → ⊥

  -- A run from an attempt on that has ended at the attempt `last`.
  pub record Ended (first : ℕ) (r : Option (Result Thrown R) × List Event) : Type 0 where
    pub last : ℕ
    pub in_order : first ≤ last
    pub retried : (k : ℕ) → first ≤ k → k < last → Retried k
    pub final : Final last
    pub result : r.0 ≡ some (answer last)
    pub calls : count_chats r.1 + first ≡ suc last
    pub bounded : All IsBounded r.1

  answered-Ended :
      (fuel attempt : ℕ) (response : R)
      → answer attempt ≡ ok response
      → Ended attempt (chat_from platform max_retries now_ms answer (suc fuel) attempt)
  unfolding chat_from
  answered-Ended fuel attempt response e = record {
    last = attempt;
    in_order = omega arith;
    retried = λ k h l. absurd (omega arith);
    final = λ r. differ (sym e ∙ r.1);
    result = rw (e, chat_from) refl;
    calls = rw (e, chat_from) (omega arith);
    bounded = rw (e, chat_from) (tt, tt);
  }
    where
      differ : {error : Thrown} → ◌≡◌ {A = Result Thrown R} (ok response) (err error) → ⊥
      differ h = cc

  given_up-Ended :
      (fuel attempt : ℕ) (error : Thrown)
      → answer attempt ≡ err error
      → (is_retryable error && leb attempt max_retries) ≡ false
      → Ended attempt (chat_from platform max_retries now_ms answer (suc fuel) attempt)
  unfolding chat_from
  given_up-Ended fuel attempt error e stops = record {
    last = attempt;
    in_order = omega arith;
    retried = λ k h l. absurd (omega arith);
    final = λ (found, same, retries, early).
        refuse stops (ap is_retryable (same_error (sym e ∙ same)) ∙ retries)
          (le→leb attempt max_retries early);
    result = rw (e, chat_from) (rw stops refl);
    calls = rw (e, chat_from) (rw stops (omega arith));
    bounded = rw (e, chat_from) (rw stops (tt, (tt, tt)));
  }
    where
      same_error : {a b : Thrown} → ◌≡◌ {A = Result Thrown R} (err a) (err b) → a ≡ b
      same_error h = cc

      refuse : {a b : Bool} → (a && b) ≡ false → a ≡ true → b ≡ true → ⊥
      refuse h k l = ground arith

  retried-Ended :
      (fuel attempt : ℕ) (error : Thrown)
      → answer attempt ≡ err error
      → (is_retryable error && leb attempt max_retries) ≡ true
      → Ended (attempt + 1) (chat_from platform max_retries now_ms answer fuel (attempt + 1))
      → Ended attempt (chat_from platform max_retries now_ms answer (suc fuel) attempt)
  unfolding chat_from
  retried-Ended fuel attempt error e again rest = record {
    last = rest.last;
    in_order = omega (arith, rest.in_order);
    retried = λ k h l. elim (dec_lt attempt k) [
      | yes later ↦ rest.retried k (omega arith) l
      | no here ↦
          subst Retried (omega arith)
            (error, e, (both again).0, leb→le attempt max_retries (both again).1)
    ];
    final = rest.final;
    result = rw (e, chat_from) (rw again rest.result);
    calls = rw (e, chat_from) (rw again (omega (arith, rest.calls)));
    bounded =
        rw (e, chat_from)
          (rw again (
            tt,
            (
              tt,
              (
                compute_retry_delay-le platform attempt (extract_retry_hints error)
                    default_base_delay_ms default_max_delay_ms (now_ms attempt),
                rest.bounded,
              ),
            ),
          ));
  }

  -- With fuel for every attempt that may follow, the loop ends.
  chat_from-Ended :
      (fuel attempt : ℕ)
      → max_retries + 1 < fuel + attempt
      → attempt ≤ max_retries + 1
      → Ended attempt (chat_from platform max_retries now_ms answer fuel attempt)
  chat_from-Ended zero attempt enough early = absurd (omega arith)
  chat_from-Ended (suc fuel) attempt enough early =
      go (λ more. chat_from-Ended fuel (attempt + 1) (omega arith) more) (answer attempt) refl
    where
      go :
          (attempt + 1 ≤ max_retries + 1
            → Ended (attempt + 1) (chat_from platform max_retries now_ms answer fuel (attempt + 1)))
          → (r : Result Thrown R) → answer attempt ≡ r
          → Ended attempt (chat_from platform max_retries now_ms answer (suc fuel) attempt)
      go rest (ok response) e = answered-Ended fuel attempt response e
      go rest (err error) e = elim (Bool-cases (is_retryable error && leb attempt max_retries)) [
        | inl again ↦
            let in_time : attempt ≤ max_retries = leb→le attempt max_retries (both again).1 in
            retried-Ended fuel attempt error e again (rest (omega arith))
        | inr stops ↦ given_up-Ended fuel attempt error e stops
      ]

  -- The call ends, whatever the provider does and the clock reads: it asks for the attempts 1, 2 and so
  -- on, one after the other, each of which but the last fails with a retryable error and is at most
  -- `max_retries`; the last is not such an attempt, and its answer is the result. The provider is called
  -- once for each attempt, and no sleep is longer than the default maximum.
  pub chat-Ended : Ended 1 (chat platform max_retries now_ms answer)
  unfolding chat
  chat-Ended = chat_from-Ended (max_retries + 1) 1 (omega arith) (omega arith)
