-- ===== src/Cerebrum/Retry.antt =====
-- packages/cerebrum/src/retry.ts: a call is tried again after some errors. The call and the pause
-- between two calls are parameters that act on a world; the pause is given the delay before jitter,
-- and whether jitter scales it.
pub mod Attempts
mod Tests
use cere_worker.Prelude.{
  ℕ, zero, suc, ◌+◌, ◌-◌, ◌*◌, ◌^◌, min, Text, codes, leb, ◌==◌, if◌then◌else◌, Bool, true, false,
  ◌&&◌, ◌||◌, Option, none, some, or_else, List, [], ◌∷◌, ◌++◌, any, starts_with,
}

pub record RetryOptions : Type 0 where
  pub max_attempts : Option ℕ
  pub base_delay_ms : Option ℕ
  pub max_delay_ms : Option ℕ
  pub jitter : Option Bool

pub record RequiredOptions : Type 0 where
  pub max_attempts : ℕ
  pub base_delay_ms : ℕ
  pub max_delay_ms : ℕ
  pub jitter : Bool

abbrev pub defaults : RequiredOptions
defaults = record { max_attempts = 3; base_delay_ms = 1000; max_delay_ms = 30000; jitter = true }

abbrev pub given {ℓ} : {A : Type ℓ} → Option A → A → A
given none d = d
given (some a) d = a

-- `{ ...DEFAULTS, ...options }`, where an option is given with a value or absent.
abbrev pub with_defaults : RetryOptions → RequiredOptions
with_defaults o = record {
  max_attempts = given o.max_attempts defaults.max_attempts;
  base_delay_ms = given o.base_delay_ms defaults.base_delay_ms;
  max_delay_ms = given o.max_delay_ms defaults.max_delay_ms;
  jitter = given o.jitter defaults.jitter;
}

-- What a call throws: an `Error` with its message, or anything else.
pub data Thrown : Type 0 where
  error : Text → Thrown
  other : Thrown

-- `toLowerCase` of one unit. Of the units beyond ASCII it has the two whose small letters begin with
-- ASCII; any other is kept: neither it nor its small letter stands in a phrase that is searched.
abbrev pub lower : ℕ → Text
lower c =
    if leb b'A' c && leb c b'Z'
    then (c + 32) ∷ []
    else if c == 0x212a
    then codes "k"
    else if c == 0x130
    then b'i' ∷ 0x307 ∷ []
    else c ∷ []

unfoldable pub to_lower : Text → Text
to_lower [] = []
to_lower (c ∷ s) = lower c ++ to_lower s

unfoldable pub includes : Text → Text → Bool
unfolding starts_with
includes phrase [] = starts_with phrase []
includes phrase (c ∷ s) = starts_with phrase (c ∷ s) || includes phrase s

abbrev pub final_phrases : List Text
final_phrases =
    codes "401"
    ∷ codes "unauthorized"
    ∷ codes "400"
    ∷ codes "bad request"
    ∷ codes "context length"
    ∷ codes "too many tokens"
    ∷ codes "invalid_api_key"
    ∷ codes "authentication"
    ∷ []

abbrev pub passing_phrases : List Text
passing_phrases =
    codes "429"
    ∷ codes "rate limit"
    ∷ codes "too many requests"
    ∷ codes "500"
    ∷ codes "502"
    ∷ codes "503"
    ∷ codes "504"
    ∷ codes "internal server error"
    ∷ codes "service unavailable"
    ∷ codes "bad gateway"
    ∷ codes "gateway timeout"
    ∷ codes "econnreset"
    ∷ codes "econnrefused"
    ∷ codes "etimedout"
    ∷ codes "fetch failed"
    ∷ codes "network"
    ∷ codes "socket"
    ∷ codes "overloaded"
    ∷ []

abbrev pub is_retryable_message : Text → Bool
is_retryable_message msg =
    if any (λ phrase. includes phrase msg) final_phrases
    then false
    else any (λ phrase. includes phrase msg) passing_phrases

unfoldable pub is_retryable : Thrown → Bool
unfolding any includes to_lower
is_retryable (error message) = is_retryable_message (to_lower message)
is_retryable other = false

-- `computeDelay` before the jitter, which scales it by a factor between a half and one.
abbrev pub capped_delay : ℕ → RequiredOptions → ℕ
capped_delay attempt opts = min (opts.base_delay_ms * 2 ^ attempt) opts.max_delay_ms

-- `threw none` is `throw lastError` with no error yet.
pub data Outcome {ℓ} (A : Type ℓ) : Type ℓ where
  returned : A → Outcome A
  threw : Option Thrown → Outcome A

pub data CallResult {ℓ} (A : Type ℓ) : Type ℓ where
  value : A → CallResult A
  thrown : Thrown → CallResult A

module _ {ℓ} {W : Type 0} {A : Type ℓ} (fn : W → W × CallResult A) (sleep : ℕ → Bool → W → W) where
  -- What follows one call: `left` calls may come after it, and `next` is the rest of the loop.
  abbrev pub after_call :
      RequiredOptions
      → ℕ
      → ℕ
      → (Option Thrown → W → W × Outcome A)
      → W × CallResult A
      → W × Outcome A
  after_call opts left attempt next (w, value a) = (w, returned a)
  after_call opts zero attempt next (w, thrown e) = (w, threw (some e))
  after_call opts (suc left) attempt next (w, thrown e) =
      if is_retryable e
      then next (some e) (sleep (capped_delay attempt opts) opts.jitter w)
      else (w, threw (some e))

  -- The loop, with `left` calls to go.
  unfoldable pub retry_from : RequiredOptions → ℕ → ℕ → Option Thrown → W → W × Outcome A
  retry_from opts zero attempt last w = (w, threw last)
  retry_from opts (suc left) attempt last w =
      after_call opts left attempt (retry_from opts left (attempt + 1)) (fn w)

  unfoldable pub with_retry : RetryOptions → W → W × Outcome A
  unfolding retry_from
  with_retry options w =
      let opts = with_defaults options in retry_from opts opts.max_attempts 0 none w
