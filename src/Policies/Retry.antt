-- ===== src/Policies/Retry.antt =====
-- src/distributed/policies/command-retry-policy.ts: a command is tried a few times, with a pause
-- that grows by four and is jittered. The jitter ratio and the random number are fractions, given by
-- numerator and denominator; the options are natural numbers, on which `Math.floor` is the identity.
pub mod Laws
mod Tests
use autobyteus_server_ts.Common.{
  ◌==◌, if◌then◌else◌, get_or, Result, ok, err, ℕ, zero, suc, ◌+◌, ◌-◌, ◌*◌, ◌/◌, ◌^◌, min, max,
  Bool, Option, [],
}

pub record RetryOptions : Type 0 where
  pub max_attempts : Option ℕ
  pub base_delay_ms : Option ℕ
  pub max_delay_ms : Option ℕ
  pub jitter_ratio : Option (ℕ × ℕ)

pub record RetryPolicy : Type 0 where
  pub max_attempts : ℕ
  pub base_delay_ms : ℕ
  pub max_delay_ms : ℕ
  pub jitter_num : ℕ
  pub jitter_den : ℕ

-- The constructor; `min 1 (max 0 ratio)` holds a fraction to at most 1.
unfoldable pub new_retry_policy : RetryOptions → RetryPolicy
new_retry_policy o =
    let base = max 1 (get_or o.base_delay_ms 200) in
    let ratio = get_or o.jitter_ratio (1, 5) in
    record {
      max_attempts = max 1 (get_or o.max_attempts 3);
      base_delay_ms = base;
      max_delay_ms = max base (get_or o.max_delay_ms 2000);
      jitter_num = min ratio.0 ratio.1;
      jitter_den = ratio.1;
    }

unfoldable pub exponential_delay : RetryPolicy → ℕ → ℕ
exponential_delay p attempt = min p.max_delay_ms (p.base_delay_ms * 4 ^ (attempt - 1))

-- `Math.floor(exponentialDelay * jitterRatio)`.
unfoldable pub jitter_range : RetryPolicy → ℕ → ℕ
jitter_range p delay = (delay * p.jitter_num) / p.jitter_den

-- `random` is `Math.random()` as a fraction below 1. The range is at most the delay, so that
-- `exponentialDelay + jitter` is not negative and the subtraction does not stop at 0.
unfoldable pub compute_delay_ms : RetryPolicy → (random : ℕ × ℕ) → ℕ → ℕ
unfolding exponential_delay jitter_range
compute_delay_ms p random attempt =
    let delay = exponential_delay p attempt in
    let range = jitter_range p delay in
    if p.jitter_num == 0
    then delay
    else max 1 (delay + (random.0 * (range * 2 + 1)) / random.1 - range)

-- What the caller sees of `retryWithBackoff`: the value or the error thrown, and the attempts made.
pub record Outcome {ℓ κ} (E : Type ℓ) (A : Type κ) : Type (ℓ ⊔ κ) where
  pub result : Result E A
  pub attempts : ℕ

module _ {ℓ κ} {E : Type ℓ} {A : Type κ} (work : ℕ → Result E A) (retryable : E → ℕ → Bool) where
  -- The loop from one attempt on, with the number of attempts that are left after it.
  pub retry_from : ℕ → ℕ → Outcome E A
  retry_from attempt zero = record { result = work attempt; attempts = attempt }
  retry_from attempt (suc left) =
      let next = retry_from (suc attempt) left in
      elim (work attempt) [
        | ok a ↦ record { result = ok a; attempts = attempt }
        | err e ↦
            if retryable e attempt then next else record { result = err e; attempts = attempt }
      ]

  unfoldable pub retry_with_backoff : RetryPolicy → Outcome E A
  unfolding retry_from
  retry_with_backoff p = retry_from 1 (p.max_attempts - 1)
