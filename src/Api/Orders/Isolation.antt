-- ===== src/Api/Orders/Isolation.antt =====
-- Which orders a request can read (app/api/v1/orders.py).
use payment_gateway_system.Prelude.{arith, ℕ, String, true, ◌≡◌, refl, List, [], ◌∷◌, eq_iff}
use payment_gateway_system.Prelude.Rows.{select, IsRow}
use payment_gateway_system.Prelude.Laws.{IsRow-select, select-head}
use payment_gateway_system.Models.Merchant.{Merchant}
use payment_gateway_system.Models.Payment.{Uuid, PaymentIntent}
use payment_gateway_system.Models.Database.{Db}
use payment_gateway_system.Session.{
  Session, Result, ok, err, ◌>>=◌, pure, scalar_one_or_none, with_session,
}
use payment_gateway_system.Services.Order.{CreateOrderResponse, order_response}
use payment_gateway_system.Services.Payment.{is_order}
use payment_gateway_system.Api.Answer.{Answer, rejected, replied}
use payment_gateway_system.Api.Auth.{AuthEnvironment, Bearer, get_current_merchant}
use payment_gateway_system.Api.Auth.Rules.{
  Shows, get_current_merchant-Shows, LeavesSession-get_current_merchant,
}
use payment_gateway_system.Api.Orders.{order_of, get_order, order_answer}

-- The order that was read, and the merchant that read it.
pub record Own (env : AuthEnvironment) (now : ℕ) (b : Bearer) (order_id : String)
    (r : CreateOrderResponse) (db : Db) : Type 0 where
  pub merchant : Merchant
  pub intent : PaymentIntent
  pub shown : Shows env now b merchant
  pub active : merchant.is_active ≡ true
  pub row : IsRow intent db.intents
  pub owner : intent.merchant_id ≡ merchant.id
  pub identifier : intent.public_id ≡ order_id
  pub response : order_response intent ≡ r

record Found (order_id : String) (m : Merchant) (r : CreateOrderResponse) (db : Db) : Type 0 where
  intent : PaymentIntent
  found : select (is_order order_id m.id) db.intents ≡ intent ∷ []
  response : order_response intent ≡ r

order-Found :
    (env : AuthEnvironment) (now : ℕ) (order_id : String) (m : Merchant) (s : Session)
    {r : CreateOrderResponse} {s' : Session}
    → order_of env now order_id m s ≡ (ok (replied r), s')
    → Found order_id m r s.current
unfolding ◌>>=◌
order-Found env now order_id m s {r} {s'} h =
    go (select (is_order order_id m.id) s.current.intents) refl h
  where
    go :
        (rows : List PaymentIntent)
        → select (is_order order_id m.id) s.current.intents ≡ rows
        → (scalar_one_or_none rows >>= λ i. pure (order_answer i)) s ≡ (ok (replied r), s')
        → Found order_id m r s.current
    go [] e h = absurd (ground arith)
    go (i ∷ []) e h = record { intent = i; found = e; response = cc h }
    go (i1 ∷ i2 ∷ rows) e h = absurd (ground arith)

of_merchant :
    (id : String) (m : Uuid) (i : PaymentIntent) → is_order id m i ≡ true → i.merchant_id ≡ m
of_merchant id m i h = ground arith

of_id : (id : String) (m : Uuid) (i : PaymentIntent) → is_order id m i ≡ true → i.public_id ≡ id
of_id id m i h = ground (arith, eq_iff i.public_id id)

-- A request that reads an order and gets one, with whatever headers: it shows a credential of an
-- active merchant, and the order with that identifier is of that merchant.
pub get_order-Own :
    (env : AuthEnvironment) (now : ℕ) (b : Bearer) (order_id : String) (db : Db)
    {r : CreateOrderResponse} {db' : Db}
    → with_session (get_order env now b order_id) db ≡ (ok (replied r), db')
    → Own env now b order_id r db
unfolding with_session get_order ◌>>=◌
get_order-Own env now b order_id db {r} {db'} h =
    go (get_current_merchant env now b start).0 (get_current_merchant env now b start).1 refl
      ((LeavesSession-get_current_merchant env now b).same start)
  where
    start : Session
    start = record { stored = db; current = db }

    own :
        (m : Merchant) (s : Session)
        → get_current_merchant env now b start ≡ (ok (replied m), s)
        → s ≡ start
        → Found order_id m r start.current
        → Own env now b order_id r db
    own m s e f g =
        let a =
          get_current_merchant-Shows env now b db {m = m} {db' = s.stored}
            (λ i. ((e i).0, (e i).1.stored)) in
        let q = select-head (is_order order_id m.id) db.intents g.found in
        record {
          merchant = m;
          intent = g.intent;
          shown = a.0;
          active = a.1;
          row = IsRow-select (is_order order_id m.id) db.intents g.found;
          owner = of_merchant order_id m.id g.intent q;
          identifier = of_id order_id m.id g.intent q;
          response = g.response;
        }

    go :
        (q : Result (Answer Merchant)) (s : Session)
        → get_current_merchant env now b start ≡ (q, s)
        → s ≡ start
        → Own env now b order_id r db
    go (err x) s e f = absurd (ground arith)
    go (ok (rejected n)) s e f = absurd (ground arith)
    go (ok (replied m)) s e f =
        let g = rw e at h in
        own m s e f (
          rw f at
            (order-Found env now order_id m s (λ i. ((g i).0, (order_of env now order_id m s).1))))
