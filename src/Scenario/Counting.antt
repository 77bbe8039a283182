-- ===== src/Scenario/Counting.antt =====
-- Counters in memory, and a caller at the limit of its window.
use payment_gateway_system.Prelude.{
  ℕ, suc, ◌+◌, ◌*◌, ◌≤◌, ◌<◌, String, ◌≡◌, refl, some, none, [], ◌∷◌, str_eq, eq_iff, if◌then◌else◌,
}
use payment_gateway_system.Middleware.RateLimit.{Counters, IsCounting, Call, limit_request}
use payment_gateway_system.Middleware.RateLimit.Reset.{limit_request-reset}
use payment_gateway_system.Middleware.RateLimit.Window.{passed, attempts, passed-limit}

abbrev pub counters : Counters
counters = record {
  Store = String → ℕ;
  count = λ k s. s k;
  incr = λ k s. (suc (s k), λ k'. if str_eq k k' then suc (s k') else s k');
  expire = λ k n s. s;
}

counters-IsCounting : IsCounting counters
counters-IsCounting = record {
  incr-reply = λ k s. refl;
  count-incr = λ k s. rw ((eq_iff k k).1 refl) refl;
  count-incr_other = λ k k' s e. rw e refl;
  count-expire = λ k k' n s. refl;
}

abbrev shop : Call
shop = record { api_key = some "k1"; host = some "10.0.0.1"; now_ms = 61000 }

abbrev visitor : Call
visitor = record { api_key = none; host = some "10.0.0.2"; now_ms = 61000 }

abbrev window : String
window = "rl:k1:1"

-- Two of three requests of the shop go through from a count of 118.
passed-limit_example :
    passed counters (λ n. "1") window (shop ∷ visitor ∷ shop ∷ shop ∷ []) (λ k. 118) ≡ 2
unfolding attempts
passed-limit_example =
    passed-limit counters (λ n. "1") window counters-IsCounting (shop ∷ visitor ∷ shop ∷ shop ∷ [])
      (λ k. 118)

limit_request-reset_example : (60 * 1000 ≤ 61000) × (61000 < (60 + 60) * 1000)
unfolding limit_request
limit_request-reset_example = limit_request-reset counters (λ n. "1") shop (λ k. 118)
