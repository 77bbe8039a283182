-- ===== src/Scenario/Retries.antt =====
-- A caller over its limit that retries with the same idempotency key.
use payment_gateway_system.Prelude.{ℕ, refl, ◌≡◌, some, none, false}
use payment_gateway_system.Middleware.Idempotency.{dispatch}
use payment_gateway_system.Middleware.RateLimit.{limit_request}
use payment_gateway_system.Middleware.Stack.{
  HttpRequest, HttpResponse, Next, Site, too_many, serve_http,
}
use payment_gateway_system.Middleware.Stack.Replay.{retry_replays}
use payment_gateway_system.Scenario.Memory.{memory, memory-IsRedis, nothing}
use payment_gateway_system.Scenario.Counting.{counters}

-- An application that counts its orders.
abbrev orders : Next ℕ
orders r n =
    (some (record { status_code = 201; body = "ord_a1"; request_id = none; quota = none }), 1)

abbrev first : HttpRequest
first = record {
  method = "POST";
  path = "/v1/orders";
  idempotency_key = some "idem-0001";
  x_request_id = none;
  api_key = some "k1";
  host = some "10.0.0.1";
  seconds = 61;
  micros = 0;
  drawn_id = "d1";
}

-- Another caller, in the next window.
abbrev second : HttpRequest
second = record first { api_key = some "k2"; seconds = 121; drawn_id = "d2" }

-- The window of the caller is used up.
abbrev crowded : Site memory counters ℕ
crowded = record { keys = nothing; counts = λ k. 120; app = 0 }

abbrev refused : HttpResponse
refused = record (too_many (record { allowed = false; remaining = 0; reset = 60 })) {
  request_id = some "d1";
}

abbrev after_first : Site memory counters ℕ
after_first = (serve_http memory counters (λ n. "1") orders first crowded).1

run_first : serve_http memory counters (λ n. "1") orders first crowded ≡ (some refused, after_first)
unfolding serve_http dispatch limit_request
run_first = refl

retry_replays_example :
    serve_http memory counters
      (λ n. "1")
      orders
      second
      (record after_first { counts = λ k. 0; app = 0 })
    ≡ (
      some
          (record { status_code = 429; body = refused.body; request_id = some "d2"; quota = none }),
      record after_first { counts = λ k. 0; app = 0 },
    )
retry_replays_example =
    retry_replays memory counters (λ n. "1") orders first second crowded "idem:/v1/orders:idem-0001"
      refused after_first (λ k. 0) 0 memory-IsRedis refl refl refl run_first refl
