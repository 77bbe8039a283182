-- ===== src/Middleware/Idempotency.antt =====
-- app/middleware/idempotency.py: a request with an idempotency key, one command of Redis at a time,
-- so that requests with the same key can interleave.
pub mod Exclusion
pub mod Replay
use payment_gateway_system.Prelude.{
  ℕ, String, Bool, true, false, ◌&&◌, ◌||◌, Option, none, some, List, [], ◌∷◌, ◌==◌, leb, ltb,
  str_eq, if◌then◌else◌,
}
use payment_gateway_system.Middleware.Redis.{Redis}
use Prim.Native.String.{◌++◌}

pub record Request : Type 0 where
  pub method : String
  pub path : String
  pub idempotency_key : Option String
  pub request_id : String

-- The status and the body of a response; a body is text.
pub record Response : Type 0 where
  pub status_code : ℕ
  pub body : String

-- What the store holds for a key: the reservation with the id of its request, the mark of a request
-- in progress, or a response.
pub data KeyState : Type 0 where
  reservation : String → KeyState
  in_progress : KeyState
  done : Response → KeyState

-- Where a request stands: between two awaits of `dispatch`, or at its end.
pub data Phase : Type 0 where
  arrived refused reserved running failed : Phase
  responded answered : Response → Phase

-- What `call_next` does.
pub data Outcome : Type 0 where
  response : Response → Outcome
  raised : Outcome

abbrev pub is_mutating : String → Bool
is_mutating m = str_eq m "POST" || str_eq m "PUT" || str_eq m "PATCH" || str_eq m "DELETE"

-- The key that a request uses in the store; a request with none goes to the handler at once.
abbrev pub redis_key : Request → Option String
redis_key r = elim r.idempotency_key [
  | none ↦ none
  | some key ↦ if is_mutating r.method then some ("idem:" ++ (r.path ++ (":" ++ key))) else none
]

abbrev pub conflict : String → Response
conflict body = record { status_code = 409; body = body }

-- The answer of a request that finds the key taken, from what it reads after.
abbrev pub reply : Option KeyState → Response
reply none = conflict "Idempotency key already in use. Retry with the same payload or a fresh key."
reply (some (reservation id)) = record { status_code = 200; body = "" }
reply (some in_progress) = conflict "Request with this Idempotency-Key is already being processed."
reply (some (done r)) = r

abbrev pub is_cached : Response → Bool
is_cached r = leb 200 r.status_code && ltb r.status_code 500

module _ (redis : Redis KeyState) (key : String) where
  unfoldable pub dispatch : String → Outcome → Phase → redis.Store → Phase × redis.Store
  dispatch id o arrived s =
      let (is_reserved, s') = redis.set_nx key (reservation id) s in
      (if is_reserved then reserved else refused, s')
  dispatch id o refused s = (answered (reply (redis.get key s)), s)
  dispatch id o reserved s = (running, redis.set_xx key in_progress s)
  dispatch id (response r) running s = (responded r, s)
  dispatch id raised running s = (failed, s)
  dispatch id o (responded r) s =
      (answered r, if is_cached r then redis.set_xx key (done r) s else redis.delete key s)
  dispatch id o (answered r) s = (answered r, s)
  dispatch id o failed s = (failed, s)

-- The requests that share the key, by number, and the store.
pub record World (redis : Redis KeyState) : Type 0 where
  pub store : redis.Store
  pub phases : ℕ → Phase

-- The request that moves, its id, and what the handler does if it is called.
pub record Turn : Type 0 where
  pub who : ℕ
  pub id : String
  pub outcome : Outcome

abbrev pub set_phase : ℕ → Phase → (ℕ → Phase) → ℕ → Phase
set_phase i p phases j = if j == i then p else phases j

module _ (redis : Redis KeyState) (key : String) where
  abbrev pub move : Turn → World redis → World redis
  move t w =
      let (p, s) = dispatch redis key t.id t.outcome (w.phases t.who) w.store in
      record { store = s; phases = set_phase t.who p w.phases }

  unfoldable pub interleave : List Turn → World redis → World redis
  interleave [] w = w
  interleave (t ∷ ts) w = interleave ts (move t w)

  abbrev pub opening : redis.Store → World redis
  opening s = record { store = s; phases = λ i. arrived }

  -- The world after these turns, for requests that all start anew.
  abbrev pub reached : List Turn → redis.Store → World redis
  reached ts s = interleave ts (opening s)
