-- ===== src/Application.antt =====
-- app/main.py and app/api/v1/router.py: the requests that the application routes to its endpoints,
-- each in a database session of its own.
pub mod Keeps
pub mod Endpoints
pub mod Callback
pub mod Books
pub mod Refusals
use payment_gateway_system.Prelude.{ℕ, String, Option, none, some, List, [], ◌∷◌, if◌then◌else◌}
use payment_gateway_system.Models.Payment.{Uuid}
use payment_gateway_system.Models.Database.{Db}
use payment_gateway_system.Core.Config.{Settings, is_production}
use payment_gateway_system.Core.Security.{Credentials}
use payment_gateway_system.Session.{M, Result, ok, err, ◌>>=◌, pure, with_session}
use payment_gateway_system.Services.Order.{OrderDraws, CreateOrderRequest, CreateOrderResponse}
use payment_gateway_system.Services.Payment.{PaymentDraws, UpiInitiateRequest, UpiInitiateResponse}
use payment_gateway_system.Schemas.{
  Validation, OrderBody, UpiBody, validate_order, validate_upi, validate_merchant,
}
use payment_gateway_system.Api.Answer.{Answer, rejected, replied, and_then}
use payment_gateway_system.Api.Auth.{AuthEnvironment, Bearer, get_current_merchant}
use payment_gateway_system.Api.Merchants.{
  MerchantCreateRequest, MerchantCreateResponse, TokenForm, create_merchant, merchant_token,
}
use payment_gateway_system.Api.Orders.{create_order_endpoint, get_order}
use payment_gateway_system.Api.Payments.{initiate_upi_payment}
use payment_gateway_system.Api.BankCallback.{
  Environment, CallbackDraws, CallbackRequest, Reply, bank_callback,
}

-- The libraries and the settings of the endpoints.
pub record Gateway : Type 0 where
  pub auth : AuthEnvironment
  pub bank : Environment
  pub validation : Validation

-- Where the documentation of the API is served.
pub record DocsUrls : Type 0 where
  pub docs_url : Option String
  pub redoc_url : Option String
  pub openapi_url : Option String

abbrev pub docs_urls : Settings → DocsUrls
docs_urls settings =
    if is_production settings
    then record { docs_url = none; redoc_url = none; openapi_url = none }
    else record {
      docs_url = some "/docs";
      redoc_url = some "/redoc";
      openapi_url = some "/openapi.json";
    }

-- The requests, with what each draws and the time at which it is served.
pub data ApiRequest : Type 0 where
  health : ApiRequest
  post_merchants : Uuid → Credentials → MerchantCreateRequest → ApiRequest
  post_token : ℕ → TokenForm → ApiRequest
  post_orders : ℕ → Bearer → OrderDraws → OrderBody → ApiRequest
  get_orders : ℕ → Bearer → String → ApiRequest
  post_upi_initiate : ℕ → Bearer → PaymentDraws → UpiBody → ApiRequest
  post_bank_callback : CallbackDraws → CallbackRequest → ApiRequest

-- The status of a response; an exception that no handler takes is an error of the server.
abbrev pub status_of : {A : Type 0} → ℕ → Result (Answer A) → ℕ
status_of code (ok (rejected status)) = status
status_of code (ok (replied a)) = code
status_of code (err e) = 500

abbrev pub created_status : Result MerchantCreateResponse → ℕ
created_status (ok r) = 201
created_status (err e) = 500

abbrev pub callback_status : Result Reply → ℕ
callback_status (ok (Reply.rejected status)) = status
callback_status (ok (Reply.accepted d)) = 200
callback_status (err e) = 500

module _ (g : Gateway) where
  -- The framework authenticates before it looks at the fields of a body.
  abbrev pub unprocessable : {A : Type 0} → ℕ → Bearer → M (Answer A)
  unprocessable now b = get_current_merchant g.auth now b >>= and_then (λ m. pure (rejected 422))

  abbrev pub post_order :
      ℕ → Bearer → OrderDraws → Option CreateOrderRequest → M (Answer CreateOrderResponse)
  post_order now b draws none = unprocessable now b
  post_order now b draws (some payload) = create_order_endpoint g.auth now b draws payload

  abbrev pub post_upi :
      ℕ → Bearer → PaymentDraws → Option UpiInitiateRequest → M (Answer UpiInitiateResponse)
  post_upi now b draws none = unprocessable now b
  post_upi now b draws (some payload) = initiate_upi_payment g.auth now b draws payload

  abbrev pub post_merchant : Uuid → Credentials → Option MerchantCreateRequest → Db → ℕ × Db
  post_merchant key drawn none db = (422, db)
  post_merchant key drawn (some payload) db =
      let (r, db') = with_session (create_merchant g.auth key drawn payload) db in
      (created_status r, db')

  -- The status of the response, and the database after it.
  unfoldable pub respond : ApiRequest → Db → ℕ × Db
  respond health db = (200, db)
  respond (post_merchants key drawn payload) db =
      post_merchant key drawn (validate_merchant payload) db
  respond (post_token now form) db =
      let (r, db') = with_session (merchant_token g.auth g.bank.uuid_str now form) db in
      (status_of 200 r, db')
  respond (post_orders now b draws body) db =
      let (r, db') = with_session (post_order now b draws (validate_order g.validation body)) db in
      (status_of 201 r, db')
  respond (get_orders now b order_id) db =
      let (r, db') = with_session (get_order g.auth now b order_id) db in (status_of 200 r, db')
  respond (post_upi_initiate now b draws body) db =
      let (r, db') = with_session (post_upi now b draws (validate_upi g.validation body)) db in
      (status_of 201 r, db')
  respond (post_bank_callback draws r) db =
      let (q, db') = with_session (bank_callback g.bank draws r) db in (callback_status q, db')

  -- The database after these requests.
  unfoldable pub run : List ApiRequest → Db → Db
  run [] db = db
  run (r ∷ rs) db = run rs (respond r db).1
