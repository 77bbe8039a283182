-- ===== src/Middleware/RateLimit/Reset.antt =====
-- The header X-RateLimit-Reset (app/middleware/rate_limit.py).
use payment_gateway_system.Prelude.{ℕ, ◌*◌, ◌+◌, ◌/◌, ◌≡◌, ◌<◌, ◌≤◌, String, arith}
use payment_gateway_system.Middleware.RateLimit.{
  Counters, Call, quota, bucket, counter_key, limit_request, window_seconds,
}

reset-quota : (count b : ℕ) → (quota count b).reset ≡ b * 60
reset-quota count b = ground arith

window_holds : (n : ℕ) → ((n / 60000) * 60 * 1000 ≤ n) × (n < ((n / 60000) * 60 + 60) * 1000)
window_holds n = (omega arith, omega arith)

-- For any request and any counters, the time in seconds that the response gives for the reset of the
-- window is not in the future: it is the start of the window of the request, and the window ends a
-- minute later.
pub limit_request-reset :
    (counters : Counters) (str : ℕ → String) (r : Call) (s : counters.Store)
    → ((limit_request counters str r s).0.reset * 1000 ≤ r.now_ms)
      × (r.now_ms < ((limit_request counters str r s).0.reset + window_seconds) * 1000)
unfolding limit_request
limit_request-reset counters str r s =
    rw (reset-quota (counters.incr (counter_key counters str r) s).0 (bucket r))
      (window_holds r.now_ms)
