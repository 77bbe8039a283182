-- ===== src/Middleware/Idempotency/Replay.antt =====
-- The requests that come after a response was stored for their key (app/middleware/idempotency.py).
use payment_gateway_system.Prelude.{
  ℕ, String, true, false, ◌≡◌, refl, some, List, [], ◌∷◌, ◌==◌, Bool-cases, inl, inr,
}
use payment_gateway_system.Middleware.Redis.{Redis, IsRedis}
use payment_gateway_system.Middleware.Idempotency.{
  Response, KeyState, reservation, done, Phase, arrived, refused, reserved, running, failed,
  responded, answered, Outcome, dispatch, World, Turn, set_phase, move, interleave, reached,
}
use payment_gateway_system.Middleware.Idempotency.Exclusion.{is_holder, clash, same, done-free}

-- A request that was not let through: it waits, or it was given this response.
pub data Replayed (r : Response) : Phase → Type 0 where
  not_begun : Replayed r arrived
  turned_away : Replayed r refused
  given : Replayed r (answered r)

module _ (redis : Redis KeyState) (key : String) (laws : IsRedis redis) (r : Response) where
  -- The key holds the response, and no request holds the key.
  record IsSettled (w : World redis) : Type 0 where
    stored : redis.get key w.store ≡ some (done r)
    free : (j : ℕ) → is_holder (w.phases j) ≡ false

  set_phase-free :
      (i : ℕ) (p : Phase) (f : ℕ → Phase)
      → is_holder p ≡ false
      → ((j : ℕ) → is_holder (f j) ≡ false)
      → (j : ℕ) → is_holder (set_phase i p f j) ≡ false
  set_phase-free i p f h others j = elim (Bool-cases (j == i)) [
    | inl q ↦ rw q h
    | inr q ↦ rw q (others j)
  ]

  set_phase-Replayed :
      (i j : ℕ) (p : Phase) (f : ℕ → Phase)
      → (Replayed r (f i) → Replayed r p)
      → Replayed r (f j)
      → Replayed r (set_phase i p f j)
  set_phase-Replayed i j p f h k = elim (Bool-cases (j == i)) [
    | inl q ↦ rw q (h (rw (same j i q) at k))
    | inr q ↦ rw q k
  ]

  -- What one turn does to the key, to the request that moves and to any other.
  record Goes (i : ℕ) (f : ℕ → Phase) (next : Phase × redis.Store) : Type 0 where
    stored : redis.get key next.1 ≡ some (done r)
    free : is_holder next.0 ≡ false
    replays : Replayed r (f i) → Replayed r next.0

  dispatch-Goes :
      (t : Turn) (w : World redis)
      → IsSettled w
      → Goes t.who w.phases (dispatch redis key t.id t.outcome (w.phases t.who) w.store)
  unfolding dispatch
  dispatch-Goes t w x = go (w.phases t.who) t.outcome refl
    where
      go :
          (p : Phase) (o : Outcome)
          → w.phases t.who ≡ p
          → Goes t.who w.phases (dispatch redis key t.id o p w.store)
      go arrived o e =
          rw (laws.set_nx-taken key (reservation t.id) (done r) w.store x.stored)
            (record { stored = x.stored; free = refl; replays = λ u. turned_away })
      go refused o e = record { stored = x.stored; free = refl; replays = λ u. rw x.stored given }
      go reserved o e = absurd (clash true refl (rw e at (x.free t.who)))
      go running o e = absurd (clash true refl (rw e at (x.free t.who)))
      go (responded q) o e = absurd (clash true refl (rw e at (x.free t.who)))
      go (answered q) o e = record { stored = x.stored; free = refl; replays = λ u. rw e at u }
      go failed o e = record { stored = x.stored; free = refl; replays = λ u. rw e at u }

  interleave-Replayed :
      (ts : List Turn) (w : World redis) (i : ℕ)
      → IsSettled w
      → Replayed r (w.phases i)
      → let w' = interleave redis key ts w in
        Replayed r (w'.phases i) × (redis.get key w'.store ≡ some (done r))
  unfolding interleave
  interleave-Replayed [] w i x k = (k, x.stored)
  interleave-Replayed (t ∷ ts) w i x k =
      let g = dispatch-Goes t w x in
      interleave-Replayed ts (move redis key t w) i
        (record { stored = g.stored; free = set_phase-free t.who _ w.phases g.free x.free })
        (set_phase-Replayed t.who i _ w.phases g.replays k)

  -- Requests that share an idempotency key, interleaved in any way, while no key expires: once a
  -- response is stored for the key it stays, whatever turns follow, and a request that had not come
  -- by then is never let through to the handler; all it can be given is that response.
  pub later_requests_replay :
      (ts later : List Turn) (s : redis.Store) (i : ℕ)
      → redis.get key (reached redis key ts s).store ≡ some (done r)
      → (reached redis key ts s).phases i ≡ arrived
      → Replayed r ((interleave redis key later (reached redis key ts s)).phases i)
        × (redis.get key (interleave redis key later (reached redis key ts s)).store
            ≡ some (done r))
  later_requests_replay ts later s i g a =
      interleave-Replayed later (reached redis key ts s) i
        (record { stored = g; free = λ j. done-free redis key laws ts s r j g }) (rw a not_begun)
