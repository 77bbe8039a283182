-- ===== src/Schemas/Columns.antt =====
-- What the schemas of requests let through, against the columns of the tables.
use payment_gateway_system.Prelude.{
  ℕ, ◌+◌, ◌^◌, ◌<◌, ◌≡◌, refl, String, true, Option, none, some, arith, subst, ◌≢◌, List, [], ◌∷◌,
  Bool-cases, Option-cases, inl, inr,
}
use payment_gateway_system.Prelude.Int.{ℤ, pos_part, neg_part}
use payment_gateway_system.Models.Payment.{Uuid, PaymentIntent}
use payment_gateway_system.Models.Database.{
  Db, fits_columns, unique_keys, fits, fits_optional, fits_money, fits_intent,
}
use payment_gateway_system.Prelude.Rows.{select, all}
use payment_gateway_system.Session.{err, data_error, with_session}
use payment_gateway_system.Services.Order.{
  OrderDraws, CreateOrderRequest, new_intent, add_intent, has_order_key, create_order,
}
use payment_gateway_system.Services.Order.Replay.{
  create_order-existing, create_order-many, create_order-new, stored_order,
}
use payment_gateway_system.Core.Security.{new_id}
use payment_gateway_system.Schemas.{
  Validation, IsValidation, OrderBody, has_length, is_description, currency_of, with_amount,
  validate_order,
}

fits-has_length : (low high : ℕ) (s : String) → has_length low high s ≡ true → fits high s ≡ true
unfolding has_length fits
fits-has_length low high s h = ground arith

fits-description : (d : Option String) → is_description d ≡ true → fits_optional 512 d ≡ true
unfolding fits_optional
fits-description none h = refl
fits-description (some d) h = fits-has_length 0 512 d h

money : (a : ℤ) → pos_part a + neg_part a < 10 ^ 18 → fits_money a ≡ true
unfolding fits_money
money a h = ground arith

-- What a body that was let through says of its request.
record Valid (r : CreateOrderRequest) : Type 0 where
  key : fits 128 r.idempotency_key ≡ true
  amount : fits_money r.amount ≡ true
  currency : fits 3 r.currency ≡ true
  description : fits_optional 512 r.description ≡ true

with_amount-Valid :
    (b : OrderBody) (a : ℤ) {r : CreateOrderRequest}
    → pos_part a + neg_part a < 10 ^ 18
    → with_amount b (some a) ≡ some r
    → Valid r
with_amount-Valid b a {r} d h = elim (Bool-cases (has_length 8 128 b.idempotency_key)) [
  | inl k ↦ elim (Bool-cases (has_length 3 3 (currency_of b.currency))) [
    | inl c ↦ elim (Bool-cases (is_description b.description)) [
      | inl e ↦ subst Valid (some_value (rw (k, c, e) at h)) (record {
        key = fits-has_length 8 128 b.idempotency_key k;
        amount = money a d;
        currency = fits-has_length 3 3 (currency_of b.currency) c;
        description = fits-description b.description e;
      })
      | inr e ↦ cc (rw (k, c, e) at h)
    ]
    | inr c ↦ cc (rw (k, c) at h)
  ]
  | inr k ↦ cc (rw k at h)
]
  where
    some_value : {x y : CreateOrderRequest} → some x ≡ some y → x ≡ y
    some_value e = cc

validate_order-Valid :
    (v : Validation) (b : OrderBody) {r : CreateOrderRequest}
    → IsValidation v
    → validate_order v b ≡ some r
    → Valid r
unfolding validate_order
validate_order-Valid v b {r} laws h = elim (Option-cases (v.decimal b.amount)) [
  | inl e ↦ cc (rw e at h)
  | inr (a, e) ↦ with_amount-Valid b a (laws.digits b.amount a e) (rw e at h)
]

Valid-fits_intent :
    (draws : OrderDraws) (m : Uuid) (r : CreateOrderRequest)
    → fits 64 (new_id "ord" draws.token) ≡ true
    → Valid r
    → fits_intent (new_intent draws m r) ≡ true
unfolding fits_intent
Valid-fits_intent draws m r i v = rw (i, v.key, v.amount, v.currency, v.description) refl

fits_columns-add_intent :
    (i : PaymentIntent) (db : Db)
    → fits_intent i ≡ true
    → fits_columns db ≡ true
    → fits_columns (add_intent i db) ≡ true
unfolding fits_columns all
fits_columns-add_intent i db f h = rw f h

-- A body of an order that the schema lets through, with a public identifier that fits its column, on
-- a database whose values fit their columns: the database never refuses the order for a value that
-- does not fit.
pub validated_order_fits :
    (v : Validation) (b : OrderBody) (draws : OrderDraws) (m : Uuid) (r : CreateOrderRequest)
    (db : Db)
    → IsValidation v
    → validate_order v b ≡ some r
    → fits 64 (new_id "ord" draws.token) ≡ true
    → fits_columns db ≡ true
    → (with_session (create_order draws m r) db).0 ≢ err data_error
validated_order_fits v b draws m r db laws h i f =
    go (select (has_order_key r.idempotency_key m) db.intents) refl
  where
    fitting : fits_columns (stored_order draws m r db) ≡ true
    fitting =
        fits_columns-add_intent (new_intent draws m r) db
          (Valid-fits_intent draws m r i (validate_order-Valid v b laws h)) f

    go :
        (rows : List PaymentIntent)
        → select (has_order_key r.idempotency_key m) db.intents ≡ rows
        → (with_session (create_order draws m r) db).0 ≢ err data_error
    go [] e = elim (Bool-cases (unique_keys (stored_order draws m r db))) [
      | inl u ↦ rw (create_order-new draws m r db e, fitting, u) (λ p. cc p)
      | inr u ↦ rw (create_order-new draws m r db e, fitting, u) (λ p. cc p)
    ]
    go (x ∷ []) e = rw (create_order-existing draws m r db {i = x} e) (λ p. cc p)
    go (x ∷ y ∷ rows) e =
        rw (create_order-many draws m r db {i1 = x} {i2 = y} {rows = rows} e) (λ p. cc p)
