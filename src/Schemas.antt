-- ===== src/Schemas.antt =====
-- app/schemas/payment.py and app/schemas/merchant.py: which bodies of requests are let through. A
-- request whose body is not gets status 422 from the framework.
pub mod Columns
pub mod Payments
use Prim.Native.Char.{code}
use Prim.Native.String.{count}
use payment_gateway_system.Prelude.{
  ℕ, ◌+◌, ◌^◌, ◌≤◌, ◌<◌, ◌≡◌, String, Bool, true, false, ◌&&◌, ◌||◌, not, Option, none, some, leb,
  ltb, ◌==◌, if◌then◌else◌,
}
use payment_gateway_system.Prelude.Int.{ℤ, pos_part, neg_part}
use payment_gateway_system.Services.Order.{CreateOrderRequest}
use payment_gateway_system.Services.Payment.{UpiInitiateRequest}
use payment_gateway_system.Api.Merchants.{MerchantCreateRequest}

-- The code of the libraries: `decimal` is Pydantic's field of at most eighteen digits, four of them
-- decimal places, above nothing, as ten-thousandths; `strip` and `lower` are those of `str`.
pub record Validation : Type 0 where
  pub decimal : String → Option ℤ
  pub strip : String → String
  pub lower : String → String

-- A value that the field lets through is positive and has at most eighteen digits.
pub record IsValidation (v : Validation) : Type 0 where
  pub positive : (t : String) (a : ℤ) → v.decimal t ≡ some a → neg_part a < pos_part a
  pub digits : (t : String) (a : ℤ) → v.decimal t ≡ some a → pos_part a + neg_part a < 10 ^ 18

-- The bodies, as JSON gives them. `currency` has a default.
pub record OrderBody : Type 0 where
  pub idempotency_key : String
  pub amount : String
  pub currency : Option String
  pub description : Option String

pub record UpiBody : Type 0 where
  pub idempotency_key : String
  pub order_id : String
  pub vpa : String

-- `min_length` and `max_length`
unfoldable pub has_length : ℕ → ℕ → String → Bool
has_length low high s = leb low (count s) && leb (count s) high

unfoldable pub has_at : String → Bool
has_at String.[] = false
has_at (String.◌∷◌ c s) = (code c == b'@') || has_at s

abbrev pub is_idempotency_key : String → Bool
is_idempotency_key = has_length 8 128

abbrev pub is_description : Option String → Bool
is_description none = true
is_description (some d) = has_length 0 512 d

abbrev pub currency_of : Option String → String
currency_of none = "INR"
currency_of (some c) = c

abbrev pub when : {A : Type 0} → Bool → A → Option A
when true a = some a
when false a = none

abbrev pub with_amount : OrderBody → Option ℤ → Option CreateOrderRequest
with_amount b none = none
with_amount b (some a) =
    when
      (is_idempotency_key b.idempotency_key
        && has_length 3 3 (currency_of b.currency)
        && is_description b.description)
      (record {
        idempotency_key = b.idempotency_key;
        amount = a;
        currency = currency_of b.currency;
        description = b.description;
      })

module _ (v : Validation) where
  unfoldable pub validate_order : OrderBody → Option CreateOrderRequest
  validate_order b = with_amount b (v.decimal b.amount)

  -- `_validate_vpa`: the address without spaces around it, in lower case.
  abbrev pub validate_vpa : String → Option String
  validate_vpa vpa =
      let address = v.lower (v.strip vpa) in
      when (not (not (has_at address) || ltb (count address) 5 || ltb 255 (count address))) address

  abbrev pub with_vpa : UpiBody → Option String → Option UpiInitiateRequest
  with_vpa b none = none
  with_vpa b (some address) =
      when (is_idempotency_key b.idempotency_key && leb 1 (count b.order_id))
        (record { idempotency_key = b.idempotency_key; order_id = b.order_id; vpa = address })

  unfoldable pub validate_upi : UpiBody → Option UpiInitiateRequest
  validate_upi b = with_vpa b (validate_vpa b.vpa)

abbrev pub is_webhook_url : Option String → Bool
is_webhook_url none = true
is_webhook_url (some url) = has_length 0 2048 url

unfoldable pub validate_merchant : MerchantCreateRequest → Option MerchantCreateRequest
validate_merchant r = when (has_length 2 255 r.name && is_webhook_url r.webhook_url) r
