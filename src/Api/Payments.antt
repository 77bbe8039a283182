-- ===== src/Api/Payments.antt =====
-- app/api/v1/payments.py: the endpoint that starts a UPI payment.
use payment_gateway_system.Prelude.{ℕ}
use payment_gateway_system.Models.Merchant.{Merchant}
use payment_gateway_system.Session.{
  M, Error, ◌>>=◌, pure, raise, catch, order_not_found, already_finalised,
}
use payment_gateway_system.Services.Payment.{
  PaymentDraws, UpiInitiateRequest, UpiInitiateResponse, initiate_upi,
}
use payment_gateway_system.Api.Answer.{Answer, rejected, and_then, reply}
use payment_gateway_system.Api.Auth.{AuthEnvironment, Bearer, get_current_merchant}

-- `except OrderNotFound` and `except AlreadyFinalised`
abbrev pub on_payment_error : Error → M (Answer UpiInitiateResponse)
on_payment_error order_not_found = pure (rejected 404)
on_payment_error already_finalised = pure (rejected 409)
on_payment_error e = raise e

module _ (env : AuthEnvironment) (now : ℕ) where
  abbrev pub initiate_for :
      PaymentDraws → UpiInitiateRequest → Merchant → M (Answer UpiInitiateResponse)
  initiate_for draws payload merchant =
      catch (initiate_upi draws merchant.id payload >>= reply) on_payment_error

  unfoldable pub initiate_upi_payment :
      Bearer → PaymentDraws → UpiInitiateRequest → M (Answer UpiInitiateResponse)
  initiate_upi_payment b draws payload =
      get_current_merchant env now b >>= and_then (initiate_for draws payload)
