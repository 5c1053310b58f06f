-- ===== src/Agent/Delay.antt =====
-- core/stream.go: the waits between attempts.
use piglet.Prelude.{ℕ, zero, suc, ◌+◌, ◌^◌, ◌≤◌, min, ◌≡◌, arith, tests}
use piglet.Agent.State.{Config, max_retries, max_retry_delay}
use piglet.Agent.Stream.{StreamErr, retry_delay}

pub max_retries-positive : (c : Config) → 1 ≤ max_retries c
unfolding max_retries
max_retries-positive c = grind tests

max_retry_delay-positive : (c : Config) → 1 ≤ max_retry_delay c
unfolding max_retry_delay
max_retry_delay-positive c = grind tests

pow_positive : (n : ℕ) → 1 ≤ 2 ^ n
pow_positive zero = omega arith
pow_positive (suc n) = omega (arith, pow_positive n)

pow_mono : (m n : ℕ) → m ≤ n → 2 ^ m ≤ 2 ^ n
pow_mono zero n h = pow_positive n
pow_mono (suc m) zero h = absurd (omega arith)
pow_mono (suc m) (suc n) h = omega (arith, pow_mono m n (omega arith))

-- The wait before a retry is never zero and at most the cap in force; without a hint of the provider it
-- does not fall from one attempt to the next.
pub retry_delay_bounds :
    (c : Config) (n : ℕ) (e : StreamErr)
    → (1 ≤ retry_delay c n e)
      × (retry_delay c n e ≤ max_retry_delay c)
      × (e.retry_after ≡ 0 → retry_delay c n e ≤ retry_delay c (n + 1) e)
unfolding retry_delay
retry_delay_bounds c n e =
    let top = max_retry_delay-positive c in
    let low = pow_positive (min n 20) in
    let up = pow_mono (min n 20) (min (n + 1) 20) (omega arith) in
    (ground arith, ground arith, λ h. ground arith)
