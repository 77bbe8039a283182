-- ===== src/Services/Order/Replay.antt =====
-- An order and its idempotency key (app/services/order.py).
use payment_gateway_system.Prelude.{
  true, false, ◌≡◌, ◌≢◌, ◌==◌, refl, sym, ◌∙◌, ap, List, [], ◌∷◌, arith, str_eq, eq_iff, Bool-cases,
  inl, inr, if◌then◌else◌,
}
use payment_gateway_system.Prelude.Rows.{select, distinct, any, IsRow}
use payment_gateway_system.Prelude.Keys.{no_rows, any_row, row_of_text}
use payment_gateway_system.Models.Payment.{Uuid, PaymentIntent}
use payment_gateway_system.Models.Database.{Db, fits_columns, unique_keys, unique_intents}
use payment_gateway_system.Session.{
  Result, ok, err, ◌>>=◌, with_session, commit, rollback, catch, order_idempotency_reuse,
  data_error, multiple_results_found,
}
use payment_gateway_system.Services.Order.{
  OrderDraws, CreateOrderRequest, CreateOrderResponse, order_response, has_order_key, new_intent,
  add_intent, insert_order, replay_or_insert, create_order,
}

distinct_keys :
    (db : Db)
    → unique_keys db ≡ true
    → distinct (λ (a b : PaymentIntent). str_eq a.idempotency_key b.idempotency_key) db.intents
      ≡ true
unfolding unique_keys unique_intents
distinct_keys db u = ground arith

module _ (draws : OrderDraws) (merchant_id : Uuid) (payload : CreateOrderRequest) (db : Db) where
  -- If the merchant has an intent with the key of the request, the answer describes that intent,
  -- whatever else the request says, and nothing is stored.
  pub create_order-existing :
      {i : PaymentIntent}
      → select (has_order_key payload.idempotency_key merchant_id) db.intents ≡ i ∷ []
      → with_session (create_order draws merchant_id payload) db ≡ (ok (order_response i), db)
  unfolding create_order replay_or_insert with_session ◌>>=◌
  create_order-existing e = rw e refl

  pub create_order-many :
      {i1 i2 : PaymentIntent} {rows : List PaymentIntent}
      → select (has_order_key payload.idempotency_key merchant_id) db.intents ≡ i1 ∷ i2 ∷ rows
      → with_session (create_order draws merchant_id payload) db ≡ (err multiple_results_found, db)
  unfolding create_order with_session ◌>>=◌
  create_order-many e = rw e refl

  abbrev pub stored_order : Db
  stored_order = add_intent (new_intent draws merchant_id payload) db

  -- Without one, the intent is stored, unless the database refuses it.
  pub create_order-new :
      select (has_order_key payload.idempotency_key merchant_id) db.intents ≡ []
      → with_session (create_order draws merchant_id payload) db ≡ (
          if fits_columns stored_order
          then (if unique_keys stored_order
              then (ok (order_response (new_intent draws merchant_id payload)), stored_order)
              else (err order_idempotency_reuse, db))
          else (err data_error, db))
  unfolding create_order replay_or_insert insert_order with_session ◌>>=◌ catch commit rollback
  create_order-new e = elim (Bool-cases (fits_columns stored_order)) [
    | inl f ↦ elim (Bool-cases (unique_keys stored_order)) [
      | inl u ↦ rw (e, f, u) refl
      | inr u ↦ rw (e, f, u) refl
    ]
    | inr f ↦ rw (e, f) refl
  ]

  -- A key that any intent has used, of this merchant or of another, is not unique.
  duplicate_key :
      any (λ i. str_eq payload.idempotency_key i.idempotency_key) db.intents ≡ true
      → unique_keys stored_order ≡ false
  unfolding unique_keys unique_intents distinct
  duplicate_key h = rw h (ground arith)

  unowned :
      (i j : PaymentIntent)
      → unique_keys db ≡ true
      → IsRow j db.intents
      → j.idempotency_key ≡ payload.idempotency_key
      → j.merchant_id ≢ merchant_id
      → IsRow i db.intents
      → has_order_key payload.idempotency_key merchant_id i ≡ false
  unowned i j u r k n q = elim (Bool-cases (str_eq i.idempotency_key payload.idempotency_key)) [
    | inl e ↦
        let same : i ≡ j =
          row_of_text (λ (x : PaymentIntent). x.idempotency_key) db.intents i j (distinct_keys db u)
            q r ((eq_iff i.idempotency_key payload.idempotency_key).0 e ∙ sym k) in
        rw (e, ap (λ (x : PaymentIntent). x.merchant_id) same) (differ j.merchant_id merchant_id n)
    | inr e ↦ rw e refl
  ]
    where
      differ : (a b : Uuid) → a ≢ b → (a == b) ≡ false
      differ a b n = ground arith

  used :
      (j : PaymentIntent)
      → IsRow j db.intents
      → j.idempotency_key ≡ payload.idempotency_key
      → any (λ i. str_eq payload.idempotency_key i.idempotency_key) db.intents ≡ true
  used j r k =
      any_row (λ (i : PaymentIntent). str_eq payload.idempotency_key i.idempotency_key) db.intents j
        r ((eq_iff payload.idempotency_key j.idempotency_key).1 (sym k))

  -- On a database whose keys are unique, where an order of another merchant has the key of the
  -- request and the columns take the new order, the request fails as a reuse of the key, and nothing
  -- is stored.
  pub create_order-key_of_other :
      (j : PaymentIntent)
      → unique_keys db ≡ true
      → IsRow j db.intents
      → j.idempotency_key ≡ payload.idempotency_key
      → j.merchant_id ≢ merchant_id
      → fits_columns stored_order ≡ true
      → with_session (create_order draws merchant_id payload) db ≡ (err order_idempotency_reuse, db)
  create_order-key_of_other j u r k n f =
      rw
        (
          create_order-new
              (no_rows (λ (i : PaymentIntent). i.id) _ db.intents λ i q. unowned i j u r k n q),
          f,
          duplicate_key (used j r k),
        )
        refl

module _ (draws draws' : OrderDraws) (merchant_id : Uuid) (payload payload' : CreateOrderRequest)
    (db : Db) where
  -- After a request that created an order, the merchant has one intent with its key.
  one_with_key :
      select (has_order_key payload.idempotency_key merchant_id) db.intents ≡ []
      → select
          (has_order_key payload.idempotency_key merchant_id)
          (add_intent (new_intent draws merchant_id payload) db).intents
        ≡ new_intent draws merchant_id payload ∷ []
  unfolding select
  one_with_key e =
      rw e (rw ((eq_iff payload.idempotency_key payload.idempotency_key).1 refl) (ground arith))

  -- A request that returned, and a later one of the merchant with the same key: the second has the
  -- answer of the first, also where its amount or another part differs, and stores nothing.
  pub create_order_idempotent :
      {r : CreateOrderResponse} {db' : Db}
      → payload'.idempotency_key ≡ payload.idempotency_key
      → with_session (create_order draws merchant_id payload) db ≡ (ok r, db')
      → with_session (create_order draws' merchant_id payload') db' ≡ (ok r, db')
  create_order_idempotent {r} {db'} k h =
      first (select (has_order_key payload.idempotency_key merchant_id) db.intents) refl
    where
      again :
          (i : PaymentIntent)
          → select (has_order_key payload.idempotency_key merchant_id) db'.intents ≡ i ∷ []
          → ok (order_response i) ≡ ok r
          → with_session (create_order draws' merchant_id payload') db' ≡ (ok r, db')
      again i e q =
          rw (create_order-existing draws' merchant_id payload' db' {i = i} (rw k e), q) refl

      first :
          (rows : List PaymentIntent)
          → select (has_order_key payload.idempotency_key merchant_id) db.intents ≡ rows
          → with_session (create_order draws' merchant_id payload') db' ≡ (ok r, db')
      first [] e = elim (Bool-cases (fits_columns (stored_order draws merchant_id payload db))) [
        | inl f ↦ elim (Bool-cases (unique_keys (stored_order draws merchant_id payload db))) [
          | inl u ↦
              let g = rw (create_order-new draws merchant_id payload db e, f, u) at h in
              again (new_intent draws merchant_id payload)
                (rw (← ap (λ (p : Result CreateOrderResponse × Db). p.1) g) (one_with_key e))
                (ap (λ (p : Result CreateOrderResponse × Db). p.0) g)
          | inr u ↦ cc (rw (create_order-new draws merchant_id payload db e, f, u) at h)
        ]
        | inr f ↦ cc (rw (create_order-new draws merchant_id payload db e, f) at h)
      ]
      first (i ∷ []) e =
          let g = sym (create_order-existing draws merchant_id payload db e) ∙ h in
          again i (rw (← ap (λ (p : Result CreateOrderResponse × Db). p.1) g) e)
            (ap (λ (p : Result CreateOrderResponse × Db). p.0) g)
      first (i1 ∷ i2 ∷ rows) e = cc (create_order-many draws merchant_id payload db e, h)
