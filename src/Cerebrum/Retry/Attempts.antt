-- ===== src/Cerebrum/Retry/Attempts.antt =====
-- packages/cerebrum/src/retry.ts: `withRetry` against a description of its calls.
use cere_worker.Prelude.{
  ℕ, zero, suc, ◌+◌, ◌<◌, ◌≡◌, refl, inl, inr, Bool, true, false, Option, none, some, arith,
  Bool-cases,
}
use cere_worker.Cerebrum.Retry.{
  RetryOptions, RequiredOptions, with_defaults, Thrown, is_retryable, capped_delay, Outcome,
  returned, threw, CallResult, value, thrown, after_call, retry_from, with_retry,
}

module _ {ℓ} {W : Type 0} {A : Type ℓ} (fn : W → W × CallResult A) (sleep : ℕ → Bool → W → W)
    (opts : RequiredOptions) where
  -- `Calls attempt left w w' o`: from the call number `attempt` on, with at most `left` calls, the
  -- world goes from `w` to `w'` and `o` comes out. Each call but the last threw an error that is
  -- retryable, and the pause after it has the delay of its number; the last call gave its value, or
  -- was the last that is allowed, or threw an error that is not retryable.
  pub data Calls : ℕ → ℕ → W → W → Outcome A → Type ℓ where
    success :
        (attempt left : ℕ) (w w' : W) (a : A)
        → fn w ≡ (w', value a)
        → Calls attempt (suc left) w w' (returned a)
    exhausted :
        (attempt : ℕ) (w w' : W) (e : Thrown)
        → fn w ≡ (w', thrown e)
        → Calls attempt 1 w w' (threw (some e))
    given_up :
        (attempt left : ℕ) (w w' : W) (e : Thrown)
        → fn w ≡ (w', thrown e)
        → is_retryable e ≡ false
        → Calls attempt (suc left) w w' (threw (some e))
    again :
        (attempt left : ℕ) (w w' w'' : W) (e : Thrown) (o : Outcome A)
        → fn w ≡ (w', thrown e)
        → is_retryable e ≡ true
        → Calls (attempt + 1) (suc left) (sleep (capped_delay attempt opts) opts.jitter w') w'' o
        → Calls attempt (suc (suc left)) w w'' o

  last_call-Calls :
      (attempt : ℕ) (w : W) (next : Option Thrown → W → W × Outcome A) (r : W × CallResult A)
      → fn w ≡ r
      → let o = after_call fn sleep opts 0 attempt next r in Calls attempt 1 w o.0 o.1
  last_call-Calls attempt w next (w', value a) called = success attempt 0 w w' a called
  last_call-Calls attempt w next (w', thrown e) called = exhausted attempt w w' e called

  call-Calls :
      (attempt left : ℕ) (w : W) (next : Option Thrown → W → W × Outcome A) (r : W × CallResult A)
      → ((e : Thrown) (w' : W)
          → Calls (attempt + 1) (suc left) w' (next (some e) w').0 (next (some e) w').1)
      → fn w ≡ r
      → let o = after_call fn sleep opts (suc left) attempt next r in
        Calls attempt (suc (suc left)) w o.0 o.1
  call-Calls attempt left w next (w', value a) rest called =
      success attempt (suc left) w w' a called
  call-Calls attempt left w next (w', thrown e) rest called = elim (Bool-cases (is_retryable e)) [
    | inl t ↦
        let paused = sleep (capped_delay attempt opts) opts.jitter w' in
        rw t (again attempt left w w' _ e _ called t (rest e paused))
    | inr t ↦ rw t (given_up attempt (suc left) w w' e called t)
  ]

  retry_from-Calls :
      (left attempt : ℕ) (last : Option Thrown) (w : W)
      → let r = retry_from fn sleep opts (suc left) attempt last w in
        Calls attempt (suc left) w r.0 r.1
  unfolding retry_from
  retry_from-Calls zero attempt last w =
      last_call-Calls attempt w (retry_from fn sleep opts 0 (attempt + 1)) (fn w) refl
  retry_from-Calls (suc left) attempt last w =
      call-Calls attempt left w (retry_from fn sleep opts (suc left) (attempt + 1)) (fn w)
        (λ e w'. retry_from-Calls left (attempt + 1) (some e) w') refl

module _ {ℓ} {W : Type 0} {A : Type ℓ} (fn : W → W × CallResult A) (sleep : ℕ → Bool → W → W) where
  -- With at least one attempt allowed, `withRetry` makes calls and pauses as described by `Calls`, from
  -- the call number 0 on and at most `maxAttempts` of them, and gives what comes out of them.
  pub with_retry-Calls :
      (options : RetryOptions) (w : W)
      → 0 < (with_defaults options).max_attempts
      → let r = with_retry fn sleep options w in
        Calls fn sleep (with_defaults options) 0 (with_defaults options).max_attempts w r.0 r.1
  unfolding with_retry
  with_retry-Calls options w positive =
      positive_case (with_defaults options).max_attempts refl positive
    where
      positive_case :
          (n : ℕ)
          → n ≡ (with_defaults options).max_attempts
          → 0 < n
          → let r = retry_from fn sleep (with_defaults options) n 0 none w in
            Calls fn sleep (with_defaults options) 0 n w r.0 r.1
      positive_case zero e h = absurd (omega arith)
      positive_case (suc n) e h = retry_from-Calls fn sleep (with_defaults options) n 0 none w
