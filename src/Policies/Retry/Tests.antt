-- ===== src/Policies/Retry/Tests.antt =====
-- Sample retries, and the theorems at them.
use autobyteus_server_ts.Common.{
  ltb, ◌==◌, if◌then◌else◌, Result, ok, err, ℕ, ◌+◌, ◌*◌, ◌≤◌, ◌≡◌, refl, Bool, none, arith,
}
use autobyteus_server_ts.Policies.Retry.{
  RetryOptions, new_retry_policy, exponential_delay, jitter_range, compute_delay_ms,
  retry_with_backoff,
}
use autobyteus_server_ts.Policies.Retry.Laws.{
  IsRetry, retry_with_backoff-IsRetry, compute_delay_ms_bounds,
}

abbrev defaults : RetryOptions
defaults = record {
  max_attempts = none;
  base_delay_ms = none;
  max_delay_ms = none;
  jitter_ratio = none;
}

-- Fails twice with a network error (0), then answers 42.
abbrev flaky : ℕ → Result ℕ ℕ
flaky n = if ltb n 3 then err 0 else ok 42

abbrev network_only : ℕ → ℕ → Bool
network_only e attempt = e == 0

third_attempt :
    retry_with_backoff flaky network_only (new_retry_policy defaults)
    ≡ record { result = ok 42; attempts = 3 }
unfolding retry_with_backoff new_retry_policy
third_attempt = refl

delays :
    (exponential_delay (new_retry_policy defaults) 1 ≡ 200)
    × (exponential_delay (new_retry_policy defaults) 2 ≡ 800)
    × (exponential_delay (new_retry_policy defaults) 3 ≡ 2000)
unfolding exponential_delay new_retry_policy
delays = (refl, refl, refl)

retry_with_backoff-IsRetry_example :
    IsRetry flaky network_only 1 3
      (retry_with_backoff flaky network_only (new_retry_policy defaults))
unfolding new_retry_policy
retry_with_backoff-IsRetry_example =
    retry_with_backoff-IsRetry flaky network_only (new_retry_policy defaults) (omega arith)

compute_delay_ms_bounds_example :
    (1 ≤ compute_delay_ms (new_retry_policy defaults) (7, 10) 2)
    × (compute_delay_ms (new_retry_policy defaults) (7, 10) 2
        ≤ 2 * (new_retry_policy defaults).max_delay_ms)
    × (exponential_delay (new_retry_policy defaults) 2
        ≤ compute_delay_ms (new_retry_policy defaults) (7, 10) 2
          + jitter_range
              (new_retry_policy defaults)
              (exponential_delay (new_retry_policy defaults) 2))
    × (compute_delay_ms (new_retry_policy defaults) (7, 10) 2
        ≤ exponential_delay (new_retry_policy defaults) 2
          + jitter_range
              (new_retry_policy defaults)
              (exponential_delay (new_retry_policy defaults) 2))
compute_delay_ms_bounds_example = compute_delay_ms_bounds defaults (7, 10) 2 (omega arith)
