-- ===== src/Middleware/Idempotency/Exclusion.antt =====
-- How requests with one idempotency key interleave (app/middleware/idempotency.py).
use payment_gateway_system.Prelude.{
  ℕ, String, Bool, true, false, ◌≡◌, refl, sym, ◌∙◌, Option, none, some, List, [], ◌∷◌, ◌==◌, arith,
  Bool-cases, Option-cases, inl, inr,
}
use payment_gateway_system.Middleware.Redis.{Redis, IsRedis}
use payment_gateway_system.Middleware.Idempotency.{
  Response, KeyState, reservation, in_progress, done, Phase, arrived, refused, reserved, running,
  failed, responded, answered, Outcome, response, raised, dispatch, World, Turn, set_phase, move,
  interleave, opening, reached,
}

-- A request that has the key and is not through with it.
abbrev pub is_holder : Phase → Bool
is_holder reserved = true
is_holder running = true
is_holder (responded r) = true
is_holder arrived = false
is_holder refused = false
is_holder failed = false
is_holder (answered r) = false

abbrev pub is_busy : Option KeyState → Bool
is_busy none = false
is_busy (some (reservation id)) = true
is_busy (some in_progress) = true
is_busy (some (done r)) = false

pub same : (i j : ℕ) → (i == j) ≡ true → i ≡ j
same i j h = ground arith

pub differs : (i j : ℕ) → (i == j) ≡ false → ¬ (i ≡ j)
differs i j h e = ground arith

pub clash : (b : Bool) → b ≡ true → ¬ (b ≡ false)
clash b t f = ground arith

module _ (redis : Redis KeyState) (key : String) (laws : IsRedis redis) where
  -- One request at most holds the key, and then the key is busy.
  record IsExclusive (w : World redis) : Type 0 where
    busy : (i : ℕ) → is_holder (w.phases i) ≡ true → is_busy (redis.get key w.store) ≡ true
    alone : (i j : ℕ) → is_holder (w.phases i) ≡ true → is_holder (w.phases j) ≡ true → i ≡ j

  -- Where the request `i` is the only one that may hold the key, it is so after it moved.
  holder-set_phase :
      (i : ℕ) (p : Phase) (f : ℕ → Phase)
      → ((j : ℕ) → is_holder (f j) ≡ true → j ≡ i)
      → (j : ℕ) → is_holder (set_phase i p f j) ≡ true
      → (j ≡ i) × (is_holder p ≡ true)
  holder-set_phase i p f others j e = elim (Bool-cases (j == i)) [
    | inl q ↦ (same j i q, rw q at e)
    | inr q ↦ absurd (differs j i q (others j (rw q at e)))
  ]

  move-alone :
      (i : ℕ) (p : Phase) (f : ℕ → Phase) (s : redis.Store)
      → ((j : ℕ) → is_holder (f j) ≡ true → j ≡ i)
      → (is_holder p ≡ true → is_busy (redis.get key s) ≡ true)
      → IsExclusive (record { store = s; phases = set_phase i p f })
  move-alone i p f s others h = record {
    busy = λ j e. h (holder-set_phase i p f others j e).1;
    alone = λ j l e e'.
        (holder-set_phase i p f others j e).0 ∙ sym (holder-set_phase i p f others l e').0;
  }

  -- A move to a phase that does not hold the key, and that leaves the store.
  holder-quiet :
      (i : ℕ) (p : Phase) (f : ℕ → Phase) (j : ℕ)
      → is_holder p ≡ false
      → is_holder (set_phase i p f j) ≡ true
      → is_holder (f j) ≡ true
  holder-quiet i p f j q e = elim (Bool-cases (j == i)) [
    | inl r ↦ absurd (clash (is_holder p) (rw r at e) q)
    | inr r ↦ rw r at e
  ]

  move-quiet :
      (i : ℕ) (p : Phase) (w : World redis)
      → is_holder p ≡ false
      → IsExclusive w
      → IsExclusive (record { store = w.store; phases = set_phase i p w.phases })
  move-quiet i p w q x = record {
    busy = λ j e. x.busy j (holder-quiet i p w.phases j q e);
    alone = λ j l e e'.
        x.alone j l (holder-quiet i p w.phases j q e) (holder-quiet i p w.phases l q e');
  }

  free_alone :
      (w : World redis) (i : ℕ)
      → IsExclusive w
      → redis.get key w.store ≡ none
      → (j : ℕ) → is_holder (w.phases j) ≡ true
      → j ≡ i
  free_alone w i x g j e = absurd (clash false (rw g at (x.busy j e)) refl)

  -- Marking a busy key, or a key that was reserved just now, as in progress.
  busy-set_xx :
      (s : redis.Store)
      → is_busy (redis.get key s) ≡ true
      → is_busy (redis.get key (redis.set_xx key in_progress s)) ≡ true
  busy-set_xx s b = elim (Option-cases (redis.get key s)) [
    | inl g ↦ absurd (clash false (rw g at b) refl)
    | inr (u, g) ↦ rw (laws.get-set_xx key in_progress u s g) refl
  ]

  move-keeps : (t : Turn) (w : World redis) → IsExclusive w → IsExclusive (move redis key t w)
  unfolding dispatch
  move-keeps t w x = go (w.phases t.who) t.outcome refl
    where
      go :
          (p : Phase) (o : Outcome)
          → w.phases t.who ≡ p
          → IsExclusive (
              let r = dispatch redis key t.id o p w.store in
              record { store = r.1; phases = set_phase t.who r.0 w.phases })
      go arrived o e = elim (Option-cases (redis.get key w.store)) [
        | inl g ↦
            move-alone t.who _ w.phases _ (free_alone w t.who x g)
              (λ h. rw (laws.get-set_nx key (reservation t.id) w.store g) refl)
        | inr (u, g) ↦
            rw (laws.set_nx-taken key (reservation t.id) u w.store g)
              (move-quiet t.who refused w refl x)
      ]
      go refused o e = move-quiet t.who _ w refl x
      go reserved o e =
          move-alone t.who running w.phases _ (λ j h. x.alone j t.who h (rw e refl))
            (λ h. busy-set_xx w.store (x.busy t.who (rw e refl)))
      go running (response r) e =
          move-alone t.who (responded r) w.phases _ (λ j h. x.alone j t.who h (rw e refl))
            (λ h. x.busy t.who (rw e refl))
      go running raised e = move-quiet t.who failed w refl x
      go (responded r) o e =
          move-alone t.who (answered r) w.phases _ (λ j h. x.alone j t.who h (rw e refl))
            (λ h. absurd (clash false h refl))
      go (answered r) o e = move-quiet t.who _ w refl x
      go failed o e = move-quiet t.who failed w refl x

  interleave-keeps :
      (ts : List Turn) (w : World redis) → IsExclusive w → IsExclusive (interleave redis key ts w)
  unfolding interleave
  interleave-keeps [] w x = x
  interleave-keeps (t ∷ ts) w x = interleave-keeps ts (move redis key t w) (move-keeps t w x)

  opening-IsExclusive : (s : redis.Store) → IsExclusive (opening redis key s)
  opening-IsExclusive s = record {
    busy = λ i e. absurd (clash false e refl);
    alone = λ i j e. absurd (clash false e refl);
  }

  reached-IsExclusive : (ts : List Turn) (s : redis.Store) → IsExclusive (reached redis key ts s)
  reached-IsExclusive ts s = interleave-keeps ts (opening redis key s) (opening-IsExclusive s)

  -- Requests that share an idempotency key, interleaved in any way between their commands, while no
  -- key expires: at any moment one of them at most is between its reservation of the key and its
  -- answer, so that the handler never runs for two of them at once, and then the key holds a
  -- reservation or the mark of a request in progress.
  pub handlers_exclude :
      (ts : List Turn) (s : redis.Store) (i j : ℕ)
      → is_holder ((reached redis key ts s).phases i) ≡ true
      → is_holder ((reached redis key ts s).phases j) ≡ true
      → (i ≡ j) × (is_busy (redis.get key (reached redis key ts s).store) ≡ true)
  handlers_exclude ts s i j h h' =
      let x = reached-IsExclusive ts s in (x.alone i j h h', x.busy i h)

  -- Where the key holds a response no request holds the key.
  pub done-free :
      (ts : List Turn) (s : redis.Store) (r : Response) (i : ℕ)
      → redis.get key (reached redis key ts s).store ≡ some (done r)
      → is_holder ((reached redis key ts s).phases i) ≡ false
  done-free ts s r i g = elim (Bool-cases (is_holder (w.phases i))) [
    | inl h ↦ absurd (clash false (rw g at ((reached-IsExclusive ts s).busy i h)) refl)
    | inr h ↦ h
  ]
    where
      w : World redis
      w = reached redis key ts s
