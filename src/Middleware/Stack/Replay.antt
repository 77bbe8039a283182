-- ===== src/Middleware/Stack/Replay.antt =====
-- A retry under an idempotency key, through all the middleware (app/main.py).
use payment_gateway_system.Prelude.{
  ℕ, String, true, ◌≡◌, refl, sym, ap, ◌∙◌, Option, none, some, if◌then◌else◌, Bool-cases, inl, inr,
}
use text.Mathlib.Text.{starts_with}
use payment_gateway_system.Middleware.Redis.{Redis, IsRedis}
use payment_gateway_system.Middleware.Idempotency.{
  Response, KeyState, reservation, in_progress, done, is_cached, dispatch, redis_key,
}
use payment_gateway_system.Middleware.RateLimit.{Counters, limit_request}
use payment_gateway_system.Middleware.Stack.{
  HttpRequest, HttpResponse, Next, id_or_drawn, with_id, id_header, keyed, plain, replayed, Site,
  rate_limit, with_key, call_of, keyed_run, finish, serve_http,
}

some_value : {x y : HttpResponse} → some x ≡ some y → x ≡ y
some_value p = cc

-- What the request id leaves of a response.
with_id_value :
    (id : String) (o : Option HttpResponse) {resp : HttpResponse}
    → with_id id o ≡ some resp
    → (q : HttpResponse) × ((o ≡ some q) × (plain q ≡ plain resp))
with_id_value id none h = cc
with_id_value id (some q) {resp} h = (q, (refl, ap plain (some_value h)))

-- The store once a request has reserved a key that was free.
abbrev begun : (redis : Redis KeyState) → String → String → redis.Store → redis.Store
begun redis key id s = redis.set_xx key in_progress (redis.set_nx key (reservation id) s).1

module _ (redis : Redis KeyState) (counters : Counters) (str : ℕ → String) {A : Type 0}
    (laws : IsRedis redis) where
  rate_limit-keys :
      (next : Next A) (r : HttpRequest) (w : Site redis counters A)
      → (rate_limit redis counters str next r w).1.keys ≡ w.keys
  rate_limit-keys next r w = elim (Bool-cases (starts_with r.path "/v1/")) [
    | inl e ↦ elim (Bool-cases (limit_request counters str (call_of r) w.counts).0.allowed) [
      | inl a ↦ rw (e, a) refl
      | inr a ↦ rw (e, a) refl
    ]
    | inr e ↦ rw e refl
  ]

  keyed_run-replay :
      (next : Next (Site redis counters A)) (r : HttpRequest) (w : Site redis counters A)
      (key : String) (q : Response)
      → redis.get key w.keys ≡ some (done q)
      → keyed_run redis counters str next r key w ≡ (some (replayed q), w)
  unfolding dispatch
  keyed_run-replay next r w key q g =
      rw (laws.set_nx-taken key (reservation (id_header r.x_request_id)) (done q) w.keys g, g) refl

  serve_http-keyed :
      (next : Next A) (r : HttpRequest) (w : Site redis counters A) (key : String)
      → redis_key (keyed r) ≡ some key
      → serve_http redis counters str next r w ≡ (
          let (o, w') = keyed_run redis counters str (rate_limit redis counters str next) r key w in
          (with_id (id_or_drawn r.x_request_id r.drawn_id) o, w'))
  unfolding serve_http
  serve_http-keyed next r w key e =
      ap
        (λ (k : Option String).
          let (o, w') = with_key redis counters str (rate_limit redis counters str next) r k w in
          (with_id (id_or_drawn r.x_request_id r.drawn_id) o, w'))
        e

  module _ (next : Next (Site redis counters A))
      (keys_stay : (r : HttpRequest) (w : Site redis counters A) → (next r w).1.keys ≡ w.keys)
      (r : HttpRequest) (w : Site redis counters A) (key : String)
      (free : redis.get key w.keys ≡ none) where
    abbrev reached : Site redis counters A
    reached = record w { keys = begun redis key (id_header r.x_request_id) w.keys }

    keyed_run-free :
        keyed_run redis counters str next r key w
        ≡ finish redis counters str key
            (id_header r.x_request_id)
            (next r reached).0
            (next r reached).1
    unfolding dispatch
    keyed_run-free =
        rw (laws.set_nx-free key (reservation (id_header r.x_request_id)) w.keys free) refl

    get-begun : redis.get key (next r reached).1.keys ≡ some in_progress
    get-begun =
        ap (λ (s : redis.Store). redis.get key s) (keys_stay r reached)
        ∙ laws.get-set_xx key in_progress (reservation (id_header r.x_request_id))
            (redis.set_nx key (reservation (id_header r.x_request_id)) w.keys).1
            (laws.get-set_nx key (reservation (id_header r.x_request_id)) w.keys free)

    keyed_run-stores :
        {resp : HttpResponse} {w' : Site redis counters A}
        → keyed_run redis counters str next r key w ≡ (some resp, w')
        → is_cached (plain resp) ≡ true
        → redis.get key w'.keys ≡ some (done (plain resp))
    unfolding dispatch
    keyed_run-stores {resp} {w'} h c =
        go (next r reached).0 (next r reached).1 get-begun (sym keyed_run-free ∙ h)
      where
        go :
            (o : Option HttpResponse) (v : Site redis counters A)
            → redis.get key v.keys ≡ some in_progress
            → finish redis counters str key (id_header r.x_request_id) o v ≡ (some resp, w')
            → redis.get key w'.keys ≡ some (done (plain resp))
        go none v g e = cc
        go (some q) v g e =
            let same : q ≡ resp = some_value (λ i. (e i).0) in
            let left : (if is_cached (plain q)
                  then redis.set_xx key (done (plain q)) v.keys
                  else redis.delete key v.keys)
                ≡ w'.keys =
              λ i. (e i).1.keys in
            let cached : is_cached (plain q) ≡ true = rw same c in
            rw (sym left, cached)
              (laws.get-set_xx key (done (plain q)) in_progress v.keys g
                ∙ ap (λ (x : HttpResponse). some (done (plain x))) same)

  stored_response :
      (next : Next A) (r : HttpRequest) (w : Site redis counters A) (key : String)
      {resp : HttpResponse} {w' : Site redis counters A}
      → redis_key (keyed r) ≡ some key
      → redis.get key w.keys ≡ none
      → serve_http redis counters str next r w ≡ (some resp, w')
      → is_cached (plain resp) ≡ true
      → redis.get key w'.keys ≡ some (done (plain resp))
  stored_response next r w key {resp} {w'} e f h c =
      let run : Option HttpResponse × Site redis counters A =
        keyed_run redis counters str (rate_limit redis counters str next) r key w in
      let ended : ◌≡◌ {A = Option HttpResponse × Site redis counters A}
          (with_id (id_or_drawn r.x_request_id r.drawn_id) run.0, run.1) (some resp, w') =
        sym (serve_http-keyed next r w key e) ∙ h in
      let (q, (o, same)) =
        with_id_value (id_or_drawn r.x_request_id r.drawn_id) run.0 (λ i. (ended i).0) in
      let cached : is_cached (plain q) ≡ true = ap is_cached same ∙ c in
      keyed_run-stores (rate_limit redis counters str next) (rate_limit-keys next) r w key f
        {resp = q} {w' = w'} (λ i. (o i, (ended i).1)) cached
      ∙ ap (λ (x : Response). some (done x)) same

-- A response with a status from 200 to 499 to a request whose idempotency key was free, also the one
-- of the rate limiter: every later request of a method that changes state with the same path and key, whoever sends it,
-- whatever the counters say by then and whatever the application has done since, is answered with
-- the status and the body of that response, and reaches neither the limiter nor the endpoints.
pub retry_replays :
    (redis : Redis KeyState) (counters : Counters) (str : ℕ → String) {A : Type 0} (next : Next A)
    (r r' : HttpRequest) (w : Site redis counters A) (key : String) (resp : HttpResponse)
    (w' : Site redis counters A) (counts : counters.Store) (app : A)
    → IsRedis redis
    → redis_key (keyed r) ≡ some key
    → redis_key (keyed r') ≡ some key
    → redis.get key w.keys ≡ none
    → serve_http redis counters str next r w ≡ (some resp, w')
    → is_cached (plain resp) ≡ true
    → serve_http redis counters str next r' (record w' { counts = counts; app = app }) ≡ (
      some (record {
        status_code = resp.status_code;
        body = resp.body;
        request_id = some (id_or_drawn r'.x_request_id r'.drawn_id);
        quota = none;
      }),
      record w' { counts = counts; app = app },
    )
retry_replays redis counters str {A} next r r' w key resp w' counts app laws e e' f h c =
    let later : Site redis counters A = record w' { counts = counts; app = app } in
    rw
      (
        serve_http-keyed redis counters str laws next r' later key e',
        keyed_run-replay redis counters str laws (rate_limit redis counters str next) r' later key
            (plain resp) (stored_response redis counters str laws next r w key e f h c),
      )
      refl
