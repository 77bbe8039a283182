-- ===== src/Services/Order.antt =====
-- app/services/order.py: an order is a payment intent, created once for an idempotency key.
pub mod Replay
pub mod Rules
use payment_gateway_system.Prelude.{ℕ, String, Bool, ◌&&◌, Option, none, some, ◌∷◌, ◌==◌, str_eq}
use payment_gateway_system.Prelude.Int.{ℤ}
use payment_gateway_system.Prelude.Rows.{select}
use payment_gateway_system.Models.Payment.{Uuid, PaymentStatus, PaymentIntent, status_value}
use payment_gateway_system.Models.Database.{Db}
use payment_gateway_system.Core.Security.{new_id}
use payment_gateway_system.Session.{
  M, Error, ◌>>=◌, ◌>>◌, pure, raise, read, write, scalar_one_or_none, commit, rollback, catch,
  integrity_error, order_idempotency_reuse,
}

-- `CreateOrderRequest` and `CreateOrderResponse` of app/schemas/payment.py.
pub record CreateOrderRequest : Type 0 where
  pub idempotency_key : String
  pub amount : ℤ
  pub currency : String
  pub description : Option String

pub record CreateOrderResponse : Type 0 where
  pub order_id : String
  pub idempotency_key : String
  pub amount : ℤ
  pub currency : String
  pub status : String

-- What a new intent draws: its key, the token of its public id, and the time.
pub record OrderDraws : Type 0 where
  pub key : Uuid
  pub token : String
  pub now : ℕ

abbrev pub order_response : PaymentIntent → CreateOrderResponse
order_response i = record {
  order_id = i.public_id;
  idempotency_key = i.idempotency_key;
  amount = i.amount;
  currency = i.currency;
  status = status_value i.status;
}

abbrev pub has_order_key : String → Uuid → PaymentIntent → Bool
has_order_key key merchant_id i = str_eq i.idempotency_key key && (i.merchant_id == merchant_id)

abbrev pub new_intent : OrderDraws → Uuid → CreateOrderRequest → PaymentIntent
new_intent draws merchant_id payload = record {
  id = draws.key;
  public_id = new_id "ord" draws.token;
  merchant_id = merchant_id;
  amount = payload.amount;
  currency = payload.currency;
  status = PaymentStatus.created;
  idempotency_key = payload.idempotency_key;
  description = payload.description;
  updated_at = draws.now;
}

abbrev pub add_intent : PaymentIntent → Db → Db
add_intent i db = record db { intents = i ∷ db.intents }

-- `except IntegrityError`
abbrev pub on_integrity_error : Error → M (Unit {0})
on_integrity_error integrity_error = rollback >> raise order_idempotency_reuse
on_integrity_error e = raise e

unfoldable pub insert_order : OrderDraws → Uuid → CreateOrderRequest → M CreateOrderResponse
insert_order draws merchant_id payload = do
  write (add_intent (new_intent draws merchant_id payload))
  catch commit on_integrity_error
  pure (order_response (new_intent draws merchant_id payload))

-- The branch on `existing`.
unfoldable pub replay_or_insert :
    OrderDraws → Uuid → CreateOrderRequest → Option PaymentIntent → M CreateOrderResponse
replay_or_insert draws merchant_id payload (some existing) = pure (order_response existing)
replay_or_insert draws merchant_id payload none = insert_order draws merchant_id payload

unfoldable pub create_order : OrderDraws → Uuid → CreateOrderRequest → M CreateOrderResponse
create_order draws merchant_id payload = do
  rows ← read (λ db. select (has_order_key payload.idempotency_key merchant_id) db.intents)
  existing ← scalar_one_or_none rows
  replay_or_insert draws merchant_id payload existing
