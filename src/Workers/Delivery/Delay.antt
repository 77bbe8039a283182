-- ===== src/Workers/Delivery/Delay.antt =====
-- The time between two attempts (app/workers/tasks.py).
use payment_gateway_system.Prelude.{
  ℕ, zero, suc, ◌+◌, ◌-◌, ◌*◌, ◌^◌, ◌≤◌, ◌≡◌, arith, ltb, if◌then◌else◌,
}
use payment_gateway_system.Core.Config.{Settings}
use payment_gateway_system.Workers.Delivery.{backoff_delay, max_delay}

capped :
    (a b : ℕ)
    → a ≤ b
    → (if ltb a max_delay then a else max_delay) ≤ (if ltb b max_delay then b else max_delay)
capped a b h = ground arith

power : (n : ℕ) → 1 ≤ 2 ^ n
power zero = omega arith
power (suc n) = grind (arith, power n)

grows : (base n j j' : ℕ) → j ≤ base → base * 2 ^ n + j ≤ base * 2 ^ (suc n) + j'
grows base n j j' h = grind (arith, power n)

next_exponent : (n : ℕ) → 1 ≤ n → n + 1 - 1 ≡ suc (n - 1)
next_exponent n p = omega arith

-- The delays of one delivery, with whatever jitters between nothing and the base: no delay is longer
-- than an hour, and no delay is longer than one after a later attempt.
pub backoff_delay_bounds :
    (settings : Settings) (attempt jitter jitter' : ℕ)
    → 1 ≤ attempt
    → jitter ≤ settings.celery_webhook_retry_backoff
    → (backoff_delay settings attempt jitter ≤ 3600 * 1000000)
      × (backoff_delay settings attempt jitter ≤ backoff_delay settings (attempt + 1) jitter')
unfolding backoff_delay
backoff_delay_bounds settings attempt jitter jitter' p h = (
  ground arith,
  capped (settings.celery_webhook_retry_backoff * 2 ^ (attempt - 1) + jitter)
      (settings.celery_webhook_retry_backoff * 2 ^ (attempt + 1 - 1) + jitter')
      (rw (next_exponent attempt p)
        (grows settings.celery_webhook_retry_backoff (attempt - 1) jitter jitter' h)),
)
