-- ===== src/Api/Orders/Rules.antt =====
-- What the endpoints of orders (app/api/v1/orders.py) answer.
use payment_gateway_system.Prelude.{
  arith, ℕ, String, true, ◌≡◌, refl, sym, ap, ◌∙◌, List, [], ◌∷◌, Bool-cases, inl, inr,
}
use payment_gateway_system.Prelude.Rows.{select, IsRow}
use payment_gateway_system.Prelude.Laws.{IsRow-select, select-head}
use payment_gateway_system.Models.Merchant.{Merchant}
use payment_gateway_system.Models.Payment.{Uuid, PaymentIntent}
use payment_gateway_system.Models.Database.{Db, fits_columns, unique_keys}
use payment_gateway_system.Session.{Result, ok, ◌>>=◌, with_session}
use payment_gateway_system.Services.Order.{
  OrderDraws, CreateOrderRequest, CreateOrderResponse, create_order, order_response, has_order_key,
  new_intent,
}
use payment_gateway_system.Services.Order.Replay.{
  create_order-existing, create_order-many, create_order-new, stored_order,
}
use payment_gateway_system.Services.Payment.{is_order}
use payment_gateway_system.Services.Payment.Orders.{order_found}
use payment_gateway_system.Api.Answer.{replied}
use payment_gateway_system.Api.Auth.{AuthEnvironment}
use payment_gateway_system.Api.Orders.{order_of}

-- An order that a merchant has, as a response tells it.
record Placed (merchant_id : Uuid) (r : CreateOrderResponse) (db : Db) : Type 0 where
  intent : PaymentIntent
  row : IsRow intent db.intents
  owner : intent.merchant_id ≡ merchant_id
  response : order_response intent ≡ r
  unique : unique_keys db ≡ true

module _ (draws : OrderDraws) (merchant_id : Uuid) (payload : CreateOrderRequest) (db : Db) where
  existing-Placed :
      (i : PaymentIntent) {r : CreateOrderResponse}
      → select (has_order_key payload.idempotency_key merchant_id) db.intents ≡ i ∷ []
      → ok (order_response i) ≡ ok r
      → unique_keys db ≡ true
      → Placed merchant_id r db
  existing-Placed i e q u = record {
    intent = i;
    row = IsRow-select _ db.intents e;
    owner =
        key_owner payload.idempotency_key merchant_id i
          (select-head (has_order_key payload.idempotency_key merchant_id) db.intents e);
    response = cc q;
    unique = u;
  }
    where
      key_owner :
          (k : String) (m : Uuid) (i : PaymentIntent)
          → has_order_key k m i ≡ true
          → i.merchant_id ≡ m
      key_owner k m i h = ground arith

  create_order-Placed :
      {r : CreateOrderResponse} {db' : Db}
      → unique_keys db ≡ true
      → with_session (create_order draws merchant_id payload) db ≡ (ok r, db')
      → Placed merchant_id r db'
  create_order-Placed {r} {db'} u h =
      go (select (has_order_key payload.idempotency_key merchant_id) db.intents) refl
    where
      go :
          (rows : List PaymentIntent)
          → select (has_order_key payload.idempotency_key merchant_id) db.intents ≡ rows
          → Placed merchant_id r db'
      go [] e = elim (Bool-cases (fits_columns (stored_order draws merchant_id payload db))) [
        | inl f ↦ elim (Bool-cases (unique_keys (stored_order draws merchant_id payload db))) [
          | inl v ↦
              let g = rw (create_order-new draws merchant_id payload db e, f, v) at h in
              rw (← ap (λ (p : Result CreateOrderResponse × Db). p.1) g) (record {
                intent = new_intent draws merchant_id payload;
                row = inl refl;
                owner = refl;
                response = cc (ap (λ (p : Result CreateOrderResponse × Db). p.0) g);
                unique = v;
              })
          | inr v ↦ cc (rw (create_order-new draws merchant_id payload db e, f, v) at h)
        ]
        | inr f ↦ cc (rw (create_order-new draws merchant_id payload db e, f) at h)
      ]
      go (i ∷ []) e =
          let g = sym (create_order-existing draws merchant_id payload db e) ∙ h in
          rw (← ap (λ (p : Result CreateOrderResponse × Db). p.1) g)
            (existing-Placed i e (ap (λ (p : Result CreateOrderResponse × Db). p.0) g) u)
      go (i1 ∷ i2 ∷ rows) e = cc (create_order-many draws merchant_id payload db e, h)

-- A request of a merchant for an order that returned, on a database whose keys are unique: the
-- merchant that then asks for the order of the response gets the same response, and nothing is
-- stored.
pub order_of-create_order :
    (env : AuthEnvironment) (now : ℕ) (draws : OrderDraws) (merchant : Merchant)
    (payload : CreateOrderRequest) (db : Db) {r : CreateOrderResponse} {db' : Db}
    → unique_keys db ≡ true
    → with_session (create_order draws merchant.id payload) db ≡ (ok r, db')
    → with_session (order_of env now r.order_id merchant) db' ≡ (ok (replied r), db')
unfolding with_session ◌>>=◌
order_of-create_order env now draws merchant payload db {r} {db'} u h =
    let p = create_order-Placed draws merchant.id payload db u h in
    let e : select (is_order p.intent.public_id merchant.id) db'.intents ≡ p.intent ∷ [] =
      order_found db' p.unique (record { row = p.row; named = refl; owner = p.owner }) in
    rw (← p.response) (rw e refl)
