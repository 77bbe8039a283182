-- ===== src/Scenario/Memory.antt =====
-- A store in memory that follows the laws of Redis, and the requests of a client that retries.
use payment_gateway_system.Prelude.{
  ℕ, String, Bool, true, false, ◌≡◌, refl, Option, none, some, [], ◌∷◌, str_eq, eq_iff,
  if◌then◌else◌,
}
use payment_gateway_system.Middleware.Redis.{Redis, IsRedis}
use payment_gateway_system.Middleware.Idempotency.{
  KeyState, done, Phase, Response, Turn, response, dispatch, interleave, reached,
}
use payment_gateway_system.Middleware.Idempotency.Exclusion.{handlers_exclude, is_busy}
use payment_gateway_system.Middleware.Idempotency.Replay.{Replayed, later_requests_replay}

abbrev pub assign : String → KeyState → (String → Option KeyState) → String → Option KeyState
assign k v s k' = if str_eq k' k then some v else s k'

abbrev pub assign_new :
    String
    → KeyState
    → (String → Option KeyState)
    → Option KeyState
    → Bool × (String → Option KeyState)
assign_new k v s none = (true, assign k v s)
assign_new k v s (some u) = (false, s)

abbrev pub assign_old :
    String → KeyState → (String → Option KeyState) → Option KeyState → String → Option KeyState
assign_old k v s none = s
assign_old k v s (some u) = assign k v s

abbrev pub memory : Redis KeyState
memory = record {
  Store = String → Option KeyState;
  get = λ k s. s k;
  set_nx = λ k v s. assign_new k v s (s k);
  set_xx = λ k v s. assign_old k v s (s k);
  delete = λ k s k'. if str_eq k' k then none else s k';
}

assigned : (k : String) (v : KeyState) (s : String → Option KeyState) → assign k v s k ≡ some v
assigned k v s = rw (eq_refl k) refl
  where
    eq_refl : (k : String) → str_eq k k ≡ true
    eq_refl k = (eq_iff k k).1 refl

pub memory-IsRedis : IsRedis memory
memory-IsRedis = record {
  set_nx-free = λ k v s e. rw e refl;
  get-set_nx = λ k v s e. rw e (assigned k v s);
  set_nx-taken = λ k v u s e. rw e refl;
  get-set_xx = λ k v u s e. rw e (assigned k v s);
}

abbrev pub created : Response
created = record { status_code = 201; body = "ord_a1" }

abbrev turn : ℕ → Turn
turn i = record { who = i; id = ""; outcome = response created }

abbrev key : String
key = "idem:/v1/orders:idem-0001"

abbrev pub nothing : String → Option KeyState
nothing k = none

handlers_exclude_example :
    ◌≡◌ {A = ℕ} 0 0
    × (is_busy (memory.get key (reached memory key (turn 0 ∷ turn 1 ∷ turn 0 ∷ []) nothing).store)
        ≡ true)
unfolding dispatch interleave
handlers_exclude_example =
    handlers_exclude memory key memory-IsRedis (turn 0 ∷ turn 1 ∷ turn 0 ∷ []) nothing 0 0 refl refl

later_requests_replay_example :
    Replayed created (Phase.answered created)
    × (memory.get key
          (interleave memory key
            (turn 1 ∷ turn 1 ∷ [])
            (reached memory key (turn 0 ∷ turn 0 ∷ turn 0 ∷ turn 0 ∷ []) nothing)).store
        ≡ some (done created))
unfolding dispatch interleave
later_requests_replay_example =
    later_requests_replay memory key memory-IsRedis created (turn 0 ∷ turn 0 ∷ turn 0 ∷ turn 0 ∷ [])
      (turn 1 ∷ turn 1 ∷ []) nothing 1 refl refl
