-- ===== src/Middleware/Stack.antt =====
-- app/middleware/request_id.py, and the order in which app/main.py puts the middleware around the
-- endpoints: the request id outside, then the idempotency, then the rate limit. Here one request is
-- served after the other.
pub mod Replay
use text.Mathlib.Text.{starts_with}
use payment_gateway_system.Prelude.{
  ℕ, ◌+◌, ◌*◌, ◌/◌, String, Bool, true, false, Option, none, some, str_eq, if◌then◌else◌,
}
use payment_gateway_system.Middleware.Redis.{Redis}
use payment_gateway_system.Middleware.Idempotency.{
  Request, Response, KeyState, Phase, arrived, refused, reserved, running, responded, response,
  raised, redis_key, reply, dispatch,
}
use payment_gateway_system.Middleware.RateLimit.{Counters, Call, Quota, limit_request}

-- What the middleware reads of a request, with the reply to the command TIME of the store of the
-- counters, in seconds and microseconds, and the id that `uuid4` draws.
pub record HttpRequest : Type 0 where
  pub method : String
  pub path : String
  pub idempotency_key : Option String
  pub x_request_id : Option String
  pub api_key : Option String
  pub host : Option String
  pub seconds : ℕ
  pub micros : ℕ
  pub drawn_id : String

-- A response, with its header X-Request-Id and its headers X-RateLimit-*.
pub record HttpResponse : Type 0 where
  pub status_code : ℕ
  pub body : String
  pub request_id : Option String
  pub quota : Option Quota

-- `call_next`: nothing where it raises.
abbrev pub Next : Type 0 → Type 0
Next W = HttpRequest → W → Option HttpResponse × W

-- `request.headers.get("X-Request-Id") or uuid.uuid4().hex`
abbrev pub id_or_drawn : Option String → String → String
id_or_drawn none drawn = drawn
id_or_drawn (some id) drawn = if str_eq id "" then drawn else id

abbrev pub with_id : String → Option HttpResponse → Option HttpResponse
with_id id none = none
with_id id (some r) = some (record r { request_id = some id })

-- `RequestIdMiddleware.dispatch`; what it binds for the log is left out.
abbrev pub request_id : {W : Type 0} → Next W → Next W
request_id next r w =
    let (o, w') = next r w in (with_id (id_or_drawn r.x_request_id r.drawn_id) o, w')

abbrev pub with_quota : Quota → Option HttpResponse → Option HttpResponse
with_quota q none = none
with_quota q (some r) = some (record r { quota = some q })

-- `JSONResponse(status_code=429, content=body)`, with its text as JSON.
abbrev pub too_many : Quota → HttpResponse
too_many q = record {
  status_code = 429;
  body = "{\"error\":\"rate_limit_exceeded\",\"message\":\"Too many requests. Retry later.\"}";
  request_id = none;
  quota = some q;
}

-- `_now_ms`
abbrev pub now_ms : ℕ → ℕ → ℕ
now_ms seconds micros = seconds * 1000 + micros / 1000

-- The parts of the request and of the response that the two middlewares read.
abbrev pub call_of : HttpRequest → Call
call_of r = record { api_key = r.api_key; host = r.host; now_ms = now_ms r.seconds r.micros }

abbrev pub id_header : Option String → String
id_header none = ""
id_header (some id) = id

abbrev pub keyed : HttpRequest → Request
keyed r = record {
  method = r.method;
  path = r.path;
  idempotency_key = r.idempotency_key;
  request_id = id_header r.x_request_id;
}

abbrev pub plain : HttpResponse → Response
plain r = record { status_code = r.status_code; body = r.body }

abbrev pub replayed : Response → HttpResponse
replayed r = record { status_code = r.status_code; body = r.body; request_id = none; quota = none }

-- Whether a request has reserved its key.
abbrev pub is_admitted : Phase → Bool
is_admitted reserved = true
is_admitted _ = false

-- The two stores, and the state of the application.
pub record Site (redis : Redis KeyState) (counters : Counters) (A : Type 0) : Type 0 where
  pub keys : redis.Store
  pub counts : counters.Store
  pub app : A

module _ (redis : Redis KeyState) (counters : Counters) (str : ℕ → String) {A : Type 0} where
  abbrev pub limited :
      Next A
      → HttpRequest
      → Quota
      → Site redis counters A
      → Option HttpResponse × Site redis counters A
  limited next r q w =
      if q.allowed
      then (let (o, a) = next r w.app in (with_quota q o, record w { app = a }))
      else (some (too_many q), w)

  -- `RateLimitMiddleware.dispatch`
  abbrev pub rate_limit : Next A → Next (Site redis counters A)
  rate_limit next r w =
      if starts_with r.path "/v1/"
      then (let (q, c) = limit_request counters str (call_of r) w.counts in
          limited next r q (record w { counts = c }))
      else (let (o, a) = next r w.app in (o, record w { app = a }))

  -- From the response of the endpoint on; an exception leaves the key as it is.
  abbrev pub finish :
      String
      → String
      → Option HttpResponse
      → Site redis counters A
      → Option HttpResponse × Site redis counters A
  finish key id none w = (none, w)
  finish key id (some r) w = (
    some r,
    record w { keys = (dispatch redis key id (response (plain r)) (responded (plain r)) w.keys).1 },
  )

  -- From the reservation on.
  abbrev pub reserved_run :
      Next (Site redis counters A)
      → HttpRequest
      → String
      → Site redis counters A
      → Option HttpResponse × Site redis counters A
  reserved_run next r key w =
      let id = id_header r.x_request_id in
      let (p, s) = dispatch redis key id raised reserved w.keys in
      let (o, w') = next r (record w { keys = s }) in finish key id o w'

  abbrev pub keyed_run :
      Next (Site redis counters A)
      → HttpRequest
      → String
      → Site redis counters A
      → Option HttpResponse × Site redis counters A
  keyed_run next r key w =
      let (p, s) = dispatch redis key (id_header r.x_request_id) raised arrived w.keys in
      if is_admitted p
      then reserved_run next r key (record w { keys = s })
      else (some (replayed (reply (redis.get key s))), record w { keys = s })

  abbrev pub with_key :
      Next (Site redis counters A)
      → HttpRequest
      → Option String
      → Site redis counters A
      → Option HttpResponse × Site redis counters A
  with_key next r none w = next r w
  with_key next r (some key) w = keyed_run next r key w

  -- `IdempotencyMiddleware.dispatch`, with no other request between its commands.
  abbrev pub idempotent : Next (Site redis counters A) → Next (Site redis counters A)
  idempotent next r w = with_key next r (redis_key (keyed r)) w

  -- The middleware of `create_app` around the endpoints, whose innermost layer, CORSMiddleware, is
  -- the library's.
  unfoldable pub serve_http : Next A → Next (Site redis counters A)
  serve_http next = request_id (idempotent (rate_limit next))
