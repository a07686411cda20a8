-- ===== src/Cerebrum/Retry/Tests.antt =====
-- packages/cerebrum/src/retry.ts with a call that fails a number of times; the world counts the
-- calls and adds up the delays.
use cere_worker.Prelude.{ℕ, zero, suc, ◌+◌, Text, codes, Bool, none, some, ◌≡◌, refl, arith}
use cere_worker.Cerebrum.Retry.{
  RetryOptions, error, is_retryable, with_defaults, CallResult, value, thrown, returned, threw,
  with_retry,
}
use cere_worker.Cerebrum.Retry.Attempts.{Calls, with_retry-Calls}

-- The failures still to come, the calls made, and the time slept.
abbrev fails : Text → ℕ × ℕ × ℕ → (ℕ × ℕ × ℕ) × CallResult ℕ
fails message (zero, calls, slept) = ((0, calls + 1, slept), value 7)
fails message (suc n, calls, slept) = ((n, calls + 1, slept), thrown (error message))

abbrev pauses : ℕ → Bool → ℕ × ℕ × ℕ → ℕ × ℕ × ℕ
pauses delay jitter (n, calls, slept) = (n, calls, slept + delay)

abbrev no_options : RetryOptions
no_options = record {
  max_attempts = none;
  base_delay_ms = none;
  max_delay_ms = none;
  jitter = none;
}

with_retry-Calls_example :
    let r = with_retry (fails (codes "Rate Limit")) pauses no_options (2, 0, 0) in
    Calls (fails (codes "Rate Limit")) pauses (with_defaults no_options) 0 3 (2, 0, 0) r.0 r.1
with_retry-Calls_example =
    with_retry-Calls (fails (codes "Rate Limit")) pauses no_options (2, 0, 0) (omega arith)

recovers :
    with_retry (fails (codes "Rate Limit")) pauses no_options (2, 0, 0) ≡ ((0, 3, 3000), returned 7)
unfolding with_retry is_retryable
recovers = refl

final_error :
    with_retry (fails (codes "401 Unauthorized")) pauses no_options (2, 0, 0)
    ≡ ((1, 1, 0), threw (some (error (codes "401 Unauthorized"))))
unfolding with_retry is_retryable
final_error = refl
