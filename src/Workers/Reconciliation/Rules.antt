-- ===== src/Workers/Reconciliation/Rules.antt =====
-- Which intents the sweep flags (app/workers/tasks.py).
use payment_gateway_system.Prelude.{
  ℕ, zero, suc, ◌&&◌, ltb, ◌+◌, ◌*◌, ◌<◌, ◌≤◌, Bool, true, false, ◌≡◌, refl, ◌∙◌, ap, List, [], ◌∷◌,
  map, ◌==◌, ◌⊎◌, arith, Bool-cases, inl, inr,
}
use payment_gateway_system.Prelude.Rows.{select, length, All, IsRow, any, distinct}
use payment_gateway_system.Prelude.Laws.{distinct_first, distinct_rest}
use payment_gateway_system.Models.Payment.{Uuid, PaymentStatus, PaymentIntent, eq_status}
use payment_gateway_system.Models.Database.{Db, unique_keys}
use payment_gateway_system.Session.{ok, ◌>>=◌, with_session}
use payment_gateway_system.Services.Webhook.Earnings.{distinct_intents}
use payment_gateway_system.Workers.Reconciliation.{is_stuck, limit, stuck_intents}

-- In processing, and not changed for more than an hour, in microseconds.
pub record IsOverdue (now : ℕ) (i : PaymentIntent) : Type 0 where
  pub processing : i.status ≡ PaymentStatus.processing
  pub unchanged : i.updated_at + 3600000000 < now

-- An overdue intent has this identifier.
pub record Stuck (now : ℕ) (intents : List PaymentIntent) (key : Uuid) : Type 0 where
  pub intent : PaymentIntent
  pub row : IsRow intent intents
  pub overdue : IsOverdue now intent
  pub identifier : intent.id ≡ key

-- An intent is not overdue, or is flagged.
abbrev pub IsSeen : ℕ → List Uuid → PaymentIntent → Type 0
IsSeen now flagged i = IsRow i.id flagged ⊎ (¬ IsOverdue now i)

stuck-IsOverdue : (now : ℕ) (i : PaymentIntent) → is_stuck now i ≡ true → IsOverdue now i
stuck-IsOverdue now i h = record {
  processing = status i.status i.updated_at h;
  unchanged = time i.status i.updated_at h;
}
  where
    status :
        (s : PaymentStatus) (t : ℕ)
        → (eq_status s PaymentStatus.processing && ltb (t + 3600 * 1000000) now) ≡ true
        → s ≡ PaymentStatus.processing
    status s t h = ground arith

    time :
        (s : PaymentStatus) (t : ℕ)
        → (eq_status s PaymentStatus.processing && ltb (t + 3600 * 1000000) now) ≡ true
        → t + 3600000000 < now
    time s t h = ground arith

overdue-is_stuck : (now : ℕ) (i : PaymentIntent) → IsOverdue now i → is_stuck now i ≡ true
overdue-is_stuck now i o = rw o.processing (late i.updated_at o.unchanged)
  where
    late : (t : ℕ) → t + 3600000000 < now → ltb (t + 3600 * 1000000) now ≡ true
    late t l = ground arith

All-limit : {A : Type 0} (P : A → Type 0) (n : ℕ) (xs : List A) → All P xs → All P (limit n xs)
All-limit P zero xs h = tt
All-limit P (suc n) [] h = tt
All-limit P (suc n) (x ∷ xs) h = (h.0, All-limit P n xs h.1)

All-map :
    {A B : Type 0} (P : B → Type 0) (f : A → B) (xs : List A)
    → All (λ x. P (f x)) xs
    → All P (map f xs)
All-map P f [] h = tt
All-map P f (x ∷ xs) h = (h.0, All-map P f xs h.1)

All-rows : {A : Type 0} (P : A → Type 0) (xs : List A) → ((x : A) → IsRow x xs → P x) → All P xs
All-rows P [] h = tt
All-rows P (x ∷ xs) h = (h x (inl refl), All-rows P xs (λ y r. h y (inr r)))

IsRow-map : {A B : Type 0} (f : A → B) (xs : List A) (x : A) → IsRow x xs → IsRow (f x) (map f xs)
IsRow-map f [] x r = r
IsRow-map f (y ∷ xs) x (inl e) = inl (ap f e)
IsRow-map f (y ∷ xs) x (inr r) = inr (IsRow-map f xs x r)

module _ {A : Type 0} (p : A → Bool) where
  selected : (xs : List A) (x : A) → IsRow x xs → p x ≡ true → IsRow x (select p xs)
  unfolding select
  selected [] x r h = r
  selected (y ∷ xs) x (inl e) h = rw (rw e at h) (inl e)
  selected (y ∷ xs) x (inr r) h = elim (Bool-cases (p y)) [
    | inl t ↦ rw t (inr (selected xs x r h))
    | inr t ↦ rw t (selected xs x r h)
  ]

  select-any : (q : A → Bool) (xs : List A) → any q xs ≡ false → any q (select p xs) ≡ false
  unfolding select any
  select-any q [] h = h
  select-any q (x ∷ xs) h = ground (arith, select-any q xs)

  select-distinct :
      (same : A → A → Bool) (xs : List A)
      → distinct same xs ≡ true
      → distinct same (select p xs) ≡ true
  unfolding select distinct
  select-distinct same [] d = d
  select-distinct same (x ∷ xs) d =
      let rest = select-distinct same xs (distinct_rest same x xs d) in
      elim (Bool-cases (p x)) [
        | inl t ↦ rw (t, select-any (same x) xs (distinct_first same x xs d)) rest
        | inr t ↦ rw t rest
      ]

module _ {A : Type 0} where
  limit-any : (q : A → Bool) (n : ℕ) (xs : List A) → any q xs ≡ false → any q (limit n xs) ≡ false
  unfolding any
  limit-any q zero xs h = refl
  limit-any q (suc n) [] h = h
  limit-any q (suc n) (x ∷ xs) h = ground (arith, limit-any q n xs)

  limit-distinct :
      (same : A → A → Bool) (n : ℕ) (xs : List A)
      → distinct same xs ≡ true
      → distinct same (limit n xs) ≡ true
  unfolding distinct
  limit-distinct same zero xs d = refl
  limit-distinct same (suc n) [] d = d
  limit-distinct same (suc n) (x ∷ xs) d =
      rw (limit-any (same x) n xs (distinct_first same x xs d))
        (limit-distinct same n xs (distinct_rest same x xs d))

  -- As many rows as the limit says, or all.
  limit-length : (n : ℕ) (xs : List A) → (length (limit n xs) ≡ n) ⊎ (limit n xs ≡ xs)
  limit-length zero xs = inl refl
  limit-length (suc n) [] = inr refl
  limit-length (suc n) (x ∷ xs) = elim (limit-length n xs) [
    | inl e ↦ inl (ap suc e)
    | inr e ↦ inr (ap (λ ys. x ∷ ys) e)
  ]

  limit_bound : (n : ℕ) (xs : List A) → length (limit n xs) ≤ n
  limit_bound zero xs = omega arith
  limit_bound (suc n) [] = omega arith
  limit_bound (suc n) (x ∷ xs) = omega (arith, limit_bound n xs)

module _ {A : Type 0} (f : A → ℕ) where
  length-map : (xs : List A) → length (map f xs) ≡ length xs
  length-map [] = refl
  length-map (x ∷ xs) = ap suc (length-map xs)

  any-map : (k : ℕ) (xs : List A) → any (λ n. k == n) (map f xs) ≡ any (λ x. k == f x) xs
  unfolding any
  any-map k [] = refl
  any-map k (x ∷ xs) = rw (any-map k xs) refl

  distinct-map :
      (xs : List A)
      → distinct (λ x y. f x == f y) xs ≡ true
      → distinct (λ m n. m == n) (map f xs) ≡ true
  unfolding distinct
  distinct-map [] d = d
  distinct-map (x ∷ xs) d = rw (any-map (f x) xs) (ground (arith, distinct-map xs))

select-Stuck :
    (now : ℕ) (all xs : List PaymentIntent)
    → ((i : PaymentIntent) → IsRow i xs → IsRow i all)
    → All (λ i. Stuck now all i.id) (select (is_stuck now) xs)
unfolding select
select-Stuck now all [] h = tt
select-Stuck now all (x ∷ xs) h = elim (Bool-cases (is_stuck now x)) [
  | inl e ↦ rw e (
    record {
      intent = x;
      row = h x (inl refl);
      overdue = stuck-IsOverdue now x e;
      identifier = refl;
    },
    select-Stuck now all xs (λ i r. h i (inr r)),
  )
  | inr e ↦ rw e (select-Stuck now all xs (λ i r. h i (inr r)))
]

-- The rows that the sweep reads.
abbrev found : ℕ → Db → List PaymentIntent
found now db = limit 500 (select (is_stuck now) db.intents)

found_all :
    (now : ℕ) (db : Db)
    → found now db ≡ select (is_stuck now) db.intents
    → (i : PaymentIntent) → IsRow i db.intents
    → IsSeen now (map (λ (i : PaymentIntent). i.id) (found now db)) i
found_all now db e i r = elim (Bool-cases (is_stuck now i)) [
  | inl h ↦ inl (
      IsRow-map (λ (x : PaymentIntent). x.id) (found now db) i
        (rw e (selected (is_stuck now) db.intents i r h)))
  | inr h ↦ inr (λ o. cc (h, overdue-is_stuck now i o))
]

-- For any time and any database whose keys are unique the sweep returns, and stores nothing: each
-- identifier that it flags is that of an intent in processing that was not changed for more than an
-- hour, none is flagged twice and 500 at most, and if they are not 500, every such intent is flagged.
pub stuck_intents-Stuck :
    (now : ℕ) (db : Db)
    → unique_keys db ≡ true
    → (flagged : List Uuid) × (with_session (stuck_intents now) db ≡ (ok flagged, db))
      × All (Stuck now db.intents) flagged
      × (distinct (λ a b. a == b) flagged ≡ true)
      × (length flagged ≤ 500)
      × ((length flagged ≡ 500) ⊎ All (IsSeen now flagged) db.intents)
unfolding stuck_intents with_session ◌>>=◌
stuck_intents-Stuck now db u =
    let id : PaymentIntent → Uuid = λ i. i.id in
    (
      map id (found now db),
      refl,
      All-map (Stuck now db.intents) id (found now db)
          (All-limit _ 500 _ (select-Stuck now db.intents db.intents (λ i r. r))),
      distinct-map id (found now db) (
          limit-distinct _ 500 _
            (select-distinct (is_stuck now) _ db.intents (distinct_intents db u))),
      rw (length-map id (found now db)) (limit_bound 500 (select (is_stuck now) db.intents)),
      elim (limit-length 500 (select (is_stuck now) db.intents)) [
        | inl e ↦ inl (length-map id (found now db) ∙ e)
        | inr e ↦ inr (All-rows _ db.intents (found_all now db e))
      ],
    )
