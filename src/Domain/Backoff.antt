-- ===== src/Domain/Backoff.antt =====
-- The bounds of `RetryDelay` of internal/domain/state.go.
use sde_thp.Prelude.{ℕ, zero, suc, ◌*◌, ◌≤◌, ◌<◌, ◌≡◌, arith, ℤ, pos, negsuc}
use sde_thp.Domain.{second, retry_delay}

-- The delay lies between two and 64 seconds, for every attempt count, negative ones included.
pub retry_delay_bounds : (n : ℤ) → (2 * second ≤ retry_delay n) × (retry_delay n ≤ 64 * second)
unfolding retry_delay
retry_delay_bounds (negsuc n) = ground arith
retry_delay_bounds (pos zero) = omega arith
retry_delay_bounds (pos (suc zero)) = omega arith
retry_delay_bounds (pos (suc (suc zero))) = omega arith
retry_delay_bounds (pos (suc (suc (suc zero)))) = omega arith
retry_delay_bounds (pos (suc (suc (suc (suc zero))))) = omega arith
retry_delay_bounds (pos (suc (suc (suc (suc (suc zero)))))) = omega arith
retry_delay_bounds (pos (suc (suc (suc (suc (suc (suc n))))))) = ground arith

-- From the first attempt to the fifth each further attempt doubles the delay; from the sixth on the delay stays.
pub retry_delay-suc :
    (n : ℕ)
    → 1 ≤ n
    → (n < 6 → retry_delay (pos (suc n)) ≡ 2 * retry_delay (pos n))
      × (6 ≤ n → retry_delay (pos (suc n)) ≡ retry_delay (pos n))
unfolding retry_delay
retry_delay-suc zero h = absurd (omega arith)
retry_delay-suc (suc zero) h = omega arith
retry_delay-suc (suc (suc zero)) h = omega arith
retry_delay-suc (suc (suc (suc zero))) h = omega arith
retry_delay-suc (suc (suc (suc (suc zero)))) h = omega arith
retry_delay-suc (suc (suc (suc (suc (suc zero))))) h = omega arith
retry_delay-suc (suc (suc (suc (suc (suc (suc n)))))) h = ground arith
