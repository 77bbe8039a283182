-- ===== src/Api/Orders.antt =====
-- app/api/v1/orders.py: the endpoints of orders.
pub mod Rules
pub mod Anonymous
pub mod Isolation
use payment_gateway_system.Prelude.{ℕ, String, Option, none, some}
use payment_gateway_system.Prelude.Rows.{select}
use payment_gateway_system.Models.Payment.{Uuid, PaymentIntent}
use payment_gateway_system.Models.Merchant.{Merchant}
use payment_gateway_system.Session.{
  M, Error, ◌>>=◌, pure, raise, read, scalar_one_or_none, catch, order_idempotency_reuse,
}
use payment_gateway_system.Services.Order.{
  OrderDraws, CreateOrderRequest, CreateOrderResponse, create_order, order_response,
}
use payment_gateway_system.Services.Payment.{is_order}
use payment_gateway_system.Api.Answer.{Answer, rejected, replied, and_then, reply}
use payment_gateway_system.Api.Auth.{AuthEnvironment, Bearer, get_current_merchant}

-- `except OrderIdempotencyReuse`
abbrev pub on_order_error : Error → M (Answer CreateOrderResponse)
on_order_error order_idempotency_reuse = pure (rejected 409)
on_order_error e = raise e

abbrev pub order_answer : Option PaymentIntent → Answer CreateOrderResponse
order_answer none = rejected 404
order_answer (some i) = replied (order_response i)

module _ (env : AuthEnvironment) (now : ℕ) where
  abbrev pub create_for :
      OrderDraws → CreateOrderRequest → Merchant → M (Answer CreateOrderResponse)
  create_for draws payload merchant =
      catch (create_order draws merchant.id payload >>= reply) on_order_error

  unfoldable pub create_order_endpoint :
      Bearer → OrderDraws → CreateOrderRequest → M (Answer CreateOrderResponse)
  create_order_endpoint b draws payload =
      get_current_merchant env now b >>= and_then (create_for draws payload)

  abbrev pub order_of : String → Merchant → M (Answer CreateOrderResponse)
  order_of order_id merchant = do
    rows ← read (λ db. select (is_order order_id merchant.id) db.intents)
    intent ← scalar_one_or_none rows
    pure (order_answer intent)

  unfoldable pub get_order : Bearer → String → M (Answer CreateOrderResponse)
  get_order b order_id = get_current_merchant env now b >>= and_then (order_of order_id)
