-- ===== src/Middleware/RateLimit.antt =====
-- app/middleware/rate_limit.py: the count of a caller's requests in a window of a minute. The store
-- of the counters is an interface.
pub mod Window
pub mod Reset
use payment_gateway_system.Prelude.{
  ℕ, suc, ◌+◌, ◌-◌, ◌*◌, ◌/◌, String, Bool, true, false, not, Option, none, some, ◌≡◌, ltb, str_eq,
  if◌then◌else◌,
}
use Prim.Native.String.{◌++◌}

-- `INCR`, whose reply is the new count, and `EXPIRE`.
pub record Counters : Type 1 where
  pub Store : Type 0
  pub count : String → Store → ℕ
  pub incr : String → Store → ℕ × Store
  pub expire : String → ℕ → Store → Store

-- The laws hold for the time in which no counter expires.
pub record IsCounting (c : Counters) : Type 0 where
  pub incr-reply : (k : String) (s : c.Store) → (c.incr k s).0 ≡ suc (c.count k s)
  pub count-incr : (k : String) (s : c.Store) → c.count k (c.incr k s).1 ≡ suc (c.count k s)
  pub count-incr_other :
      (k k' : String) (s : c.Store) → str_eq k' k ≡ false → c.count k (c.incr k' s).1 ≡ c.count k s
  pub count-expire :
      (k k' : String) (seconds : ℕ) (s : c.Store) → c.count k (c.expire k' seconds s) ≡ c.count k s

-- A request under /v1/: its `X-Api-Key` header, the address of the client, and the time of the store
-- in milliseconds.
pub record Call : Type 0 where
  pub api_key : Option String
  pub host : Option String
  pub now_ms : ℕ

-- Whether the request goes on to the handler, and the headers X-RateLimit-Remaining and
-- X-RateLimit-Reset of its response.
pub record Quota : Type 0 where
  pub allowed : Bool
  pub remaining : ℕ
  pub reset : ℕ

abbrev pub request_limit : ℕ
request_limit = 120

abbrev pub window_seconds : ℕ
window_seconds = 60

abbrev pub identity : Call → String
identity r = elim r.api_key [ none ↦ elim r.host [ none ↦ "unknown" | some h ↦ h ] | some k ↦ k ]

abbrev pub bucket : Call → ℕ
bucket r = r.now_ms / (window_seconds * 1000)

-- `max(0, limit - count)` is the subtraction of natural numbers.
abbrev pub quota : ℕ → ℕ → Quota
quota count b =
    if ltb request_limit count
    then record { allowed = false; remaining = 0; reset = b * window_seconds }
    else record { allowed = true; remaining = request_limit - count; reset = b * window_seconds }

module _ (counters : Counters) (str : ℕ → String) where
  abbrev pub counter_key : Call → String
  counter_key r = "rl:" ++ (identity r ++ (":" ++ str (bucket r)))

  unfoldable pub limit_request : Call → counters.Store → Quota × counters.Store
  limit_request r s =
      let (count, s') = counters.incr (counter_key r) s in
      (quota count (bucket r), counters.expire (counter_key r) (window_seconds * 2) s')
