-- ===== src/Policies/Retry/Laws.antt =====
-- The retry loop tries what it should, and its pauses are bounded.
use autobyteus_server_ts.Common.{
  Bool-cases, get_or, zero, Result, err, Result-cases, ℕ, zero, suc, ◌+◌, ◌-◌, ◌*◌, ◌/◌, ◌^◌, ◌≤◌,
  ◌<◌, min, max, ◌≡◌, refl, sym, ap, ◌∙◌, subst, inl, inr, Bool, true, false, arith,
}
use native.Mathlib.Decide.{dec_lt}
use native.Mathlib.Nat.{pow-suc, mul-le-mul, mul-le-mul_left, div-le_of_le-mul, div-lt_iff_lt-mul}
use autobyteus_server_ts.Policies.Retry.{
  RetryOptions, RetryPolicy, new_retry_policy, exponential_delay, jitter_range, compute_delay_ms,
  Outcome, retry_from, retry_with_backoff,
}

module _ {ℓ κ} {E : Type ℓ} {A : Type κ} (work : ℕ → Result E A) (retryable : E → ℕ → Bool) where
  -- Every attempt from `from` on that is followed by another failed with an error worth a retry.
  abbrev pub Retried : ℕ → ℕ → Type (ℓ ⊔ κ)
  Retried from last =
      (k : ℕ) → from ≤ k → k < last → (e : E) × (work k ≡ err e) × (retryable e k ≡ true)

  -- What a caller may rely on: the answer is that of the last attempt, every earlier one failed in
  -- a way that is worth a retry, and an error is thrown only if no attempt is left or it is not
  -- worth one.
  pub record IsRetry (from last : ℕ) (o : Outcome E A) : Type (ℓ ⊔ κ) where
    pub started : from ≤ o.attempts
    pub bounded : o.attempts ≤ last
    pub answer : o.result ≡ work o.attempts
    pub retried : Retried from o.attempts
    pub gave_up : (e : E) → o.result ≡ err e → o.attempts < last → retryable e o.attempts ≡ false

  retry_from-again :
      (from left : ℕ) (x : E)
      → work from ≡ err x
      → retryable x from ≡ true
      → IsRetry (suc from) (suc from + left) (retry_from work retryable (suc from) left)
      → IsRetry from (from + suc left) (retry_from work retryable (suc from) left)
  retry_from-again from left x e again ih = record {
    started = omega (arith, ih.started);
    bounded = omega (arith, ih.bounded);
    answer = ih.answer;
    retried = λ k a b. elim (dec_lt from k) [
      | yes later ↦ ih.retried k later b
      | no here ↦
          let same : k ≡ from = omega arith in (x, ap work same ∙ e, ap (retryable x) same ∙ again)
    ];
    gave_up = λ y h l. ih.gave_up y h (omega arith);
  }

  retry_from-IsRetry :
      (from left : ℕ) → IsRetry from (from + left) (retry_from work retryable from left)
  unfolding retry_from
  retry_from-IsRetry from zero = record {
    started = omega arith;
    bounded = omega arith;
    answer = refl;
    retried = λ k a b. absurd (omega arith);
    gave_up = λ e h l. absurd (omega arith);
  }
  retry_from-IsRetry from (suc left) = elim (Result-cases (work from)) [
    | inl (a, e) ↦
        rw (e, retry_from)
          (record {
            started = omega arith;
            bounded = omega arith;
            answer = sym e;
            retried = λ k a b. absurd (omega arith);
            gave_up = λ x h l. cc;
          })
    | inr (x, e) ↦ elim (Bool-cases (retryable x from)) [
      | inl again ↦
          rw (e, retry_from)
            (rw again (retry_from-again from left x e again (retry_from-IsRetry (suc from) left)))
      | inr final ↦
          rw (e, retry_from)
            (rw final (record {
              started = omega arith;
              bounded = omega arith;
              answer = sym e;
              retried = λ k a b. absurd (omega arith);
              gave_up = λ y h l. ground arith;
            }))
    ]
  ]

  -- The command is tried at most `max_attempts` times and at least once, and a retry is made only
  -- as `IsRetry` says.
  pub retry_with_backoff-IsRetry :
      (p : RetryPolicy)
      → 1 ≤ p.max_attempts
      → IsRetry 1 p.max_attempts (retry_with_backoff work retryable p)
  unfolding retry_with_backoff
  retry_with_backoff-IsRetry p h =
      let e : 1 + (p.max_attempts - 1) ≡ p.max_attempts = omega arith in
      subst (λ n. IsRetry 1 n (retry_from work retryable 1 (p.max_attempts - 1))) e
        (retry_from-IsRetry 1 (p.max_attempts - 1))

one-le-pow : (n : ℕ) → 1 ≤ 4 ^ n
one-le-pow zero = omega arith
one-le-pow (suc n) = omega (arith, pow-suc 4 n, one-le-pow n)

exponential_delay_bounds :
    (o : RetryOptions) (attempt : ℕ)
    → (1 ≤ exponential_delay (new_retry_policy o) attempt)
      × (exponential_delay (new_retry_policy o) attempt ≤ (new_retry_policy o).max_delay_ms)
unfolding exponential_delay new_retry_policy
exponential_delay_bounds o attempt =
    let base = max 1 (get_or o.base_delay_ms 200) in
    let base_pos : 1 ≤ base = omega arith in
    let grows : 1 * 1 ≤ base * 4 ^ (attempt - 1) =
      mul-le-mul {n₁ = 1} {m₁ = 1} base_pos (one-le-pow (attempt - 1)) in
    (omega arith, omega arith)

jitter_range-le : (o : RetryOptions) (delay : ℕ) → jitter_range (new_retry_policy o) delay ≤ delay
unfolding jitter_range new_retry_policy
jitter_range-le o delay =
    let ratio = get_or o.jitter_ratio (1, 5) in
    let capped : min ratio.0 ratio.1 ≤ ratio.1 = omega arith in
    div-le_of_le-mul ratio.1 (omega (arith, mul-le-mul_left delay capped))

random-lt :
    (random : ℕ × ℕ) (range : ℕ)
    → random.0 < random.1
    → (random.0 * (range * 2 + 1)) / random.1 < range * 2 + 1
random-lt random range h = (div-lt_iff_lt-mul (omega arith)).1 (grind arith)

-- A pause lasts at least a millisecond and at most twice the longest delay, and it is off the
-- exponential delay by at most the jitter.
pub compute_delay_ms_bounds :
    (o : RetryOptions) (random : ℕ × ℕ) (attempt : ℕ)
    → random.0 < random.1
    → let p = new_retry_policy o in
      let delay = exponential_delay p attempt in
      let pause = compute_delay_ms p random attempt in
      (1 ≤ pause)
      × (pause ≤ 2 * p.max_delay_ms)
      × (delay ≤ pause + jitter_range p delay)
      × (pause ≤ delay + jitter_range p delay)
unfolding compute_delay_ms
compute_delay_ms_bounds o random attempt h =
    let p = new_retry_policy o in
    let delay = exponential_delay p attempt in
    let range = jitter_range p delay in
    let drawn : (random.0 * (range * 2 + 1)) / random.1 < range * 2 + 1 =
      random-lt random range h in
    let bounds = exponential_delay_bounds o attempt in
    let less = jitter_range-le o delay in ground (arith, drawn, bounds, less)
