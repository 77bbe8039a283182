-- ===== src/Application/Endpoints.antt =====
-- What the endpoints of merchants, orders and payments (app/api/v1) keep in the database.
use payment_gateway_system.Prelude.{ℕ, String, Bool, true, false, refl, Option, none, some, List}
use payment_gateway_system.Models.Payment.{Uuid}
use payment_gateway_system.Models.Merchant.{Merchant}
use payment_gateway_system.Models.Database.{Db}
use payment_gateway_system.Core.Security.{Credentials}
use payment_gateway_system.Session.{
  Error, M, ◌>>=◌, catch, with_session, order_idempotency_reuse, order_not_found, already_finalised,
}
use payment_gateway_system.Session.Triples.{
  Triple, Triple-bind, Triple-catch_from, Triple-write, Triple-commit-Kept, Triple-pure-Kept,
  with_session-Ends, Kept, LeavesSession, LeavesSession-read, LeavesSession-lift,
  LeavesSession-pure, LeavesSession-bind, LeavesSession-scalar_one_or_none,
}
use payment_gateway_system.Services.Order.{OrderDraws, CreateOrderRequest, create_order}
use payment_gateway_system.Services.Payment.{PaymentDraws, UpiInitiateRequest, initiate_upi}
use payment_gateway_system.Api.Answer.{Answer, rejected, replied, and_then, reply}
use payment_gateway_system.Api.Auth.{AuthEnvironment, Bearer, get_current_merchant}
use payment_gateway_system.Api.Auth.Rules.{LeavesSession-get_current_merchant}
use payment_gateway_system.Api.Merchants.{
  MerchantCreateRequest, TokenForm, create_merchant, merchant_token, token_for, issue_token,
}
use payment_gateway_system.Api.Orders.{
  create_order_endpoint, create_for, on_order_error, get_order, order_of,
}
use payment_gateway_system.Api.Payments.{initiate_upi_payment, initiate_for, on_payment_error}
use payment_gateway_system.Application.{Gateway, unprocessable, post_order, post_upi}
use payment_gateway_system.Application.Keeps.{
  IsFresh, Safe, fresh-Safe, Triple-known, Safe-leaves, fresh-leaves, done, with_session-Safe,
}

LeavesSession-issue_token :
    (env : AuthEnvironment) (uuid_str : Uuid → String) (now : ℕ) (m : Merchant) (b : Bool)
    → LeavesSession (issue_token env uuid_str now m b)
LeavesSession-issue_token env uuid_str now m true =
    LeavesSession-bind _ _ (LeavesSession-lift _) (λ t. LeavesSession-pure _)
LeavesSession-issue_token env uuid_str now m false = LeavesSession-pure _

LeavesSession-token_for :
    (env : AuthEnvironment) (uuid_str : Uuid → String) (now : ℕ) (password : String)
    (o : Option Merchant)
    → LeavesSession (token_for env uuid_str now password o)
LeavesSession-token_for env uuid_str now password none = LeavesSession-pure _
LeavesSession-token_for env uuid_str now password (some m) =
    LeavesSession-bind _ _ (LeavesSession-lift _) (LeavesSession-issue_token env uuid_str now m)

pub LeavesSession-merchant_token :
    (env : AuthEnvironment) (uuid_str : Uuid → String) (now : ℕ) (form : TokenForm)
    → LeavesSession (merchant_token env uuid_str now form)
unfolding merchant_token
LeavesSession-merchant_token env uuid_str now form =
    LeavesSession-bind _ _ (LeavesSession-read _) λ ms.
      LeavesSession-bind _ _ (LeavesSession-scalar_one_or_none ms)
        (LeavesSession-token_for env uuid_str now form.password)

pub LeavesSession-order_of :
    (env : AuthEnvironment) (now : ℕ) (order_id : String) (m : Merchant)
    → LeavesSession (order_of env now order_id m)
LeavesSession-order_of env now order_id m =
    LeavesSession-bind _ _ (LeavesSession-read _) λ rows.
      LeavesSession-bind _ _ (LeavesSession-scalar_one_or_none rows) λ i. LeavesSession-pure _

-- A read-only action.
module _ (base : Db) (I : Db → Type 0) (k : Kept I base) where
  reads : {A : Type 0} (m : M A) → LeavesSession m → Triple (IsFresh base) m (λ a. Safe I) (Safe I)
  reads m l = record { at = λ s f. (Safe-leaves base I k m l).at s (fresh-Safe base I k s f) }

  -- An endpoint that authenticates first.
  authenticated :
      {A : Type 0} (env : AuthEnvironment) (now : ℕ) (b : Bearer) (f : Merchant → M (Answer A))
      → ((m : Merchant) → Triple (IsFresh base) (f m) (λ a. Safe I) (Safe I))
      → Kept I (with_session (get_current_merchant env now b >>= and_then f) base).1
  authenticated env now b f h = with_session-Safe base I k _ (
      Triple-bind _ _ (fresh-leaves base I k _ (LeavesSession-get_current_merchant env now b))
        answered)
    where
      answered : (a : Answer Merchant) → Triple (IsFresh base) (and_then f a) (λ a. Safe I) (Safe I)
      answered (rejected status) = done base I k (rejected status)
      answered (replied m) = h m

  pub create_merchant-keeps :
      (env : AuthEnvironment) (key : Uuid) (drawn : Credentials) (payload : MerchantCreateRequest)
      → ((ms : List Merchant) (db : Db) → I db → I (record db { merchants = ms }))
      → Kept I (with_session (create_merchant env key drawn payload) base).1
  unfolding create_merchant
  create_merchant-keeps env key drawn payload keeps =
      (with_session-Ends {I = I} {J = Kept I} _ base
        (Triple-bind _ _ (Triple-write _ (λ d i. keeps _ d i))
          λ _. Triple-bind _ _ Triple-commit-Kept λ _. Triple-pure-Kept _ (λ d h. h))
        k.holds k).0

  pub merchant_token-keeps :
      (env : AuthEnvironment) (uuid_str : Uuid → String) (now : ℕ) (form : TokenForm)
      → Kept I (with_session (merchant_token env uuid_str now form) base).1
  merchant_token-keeps env uuid_str now form =
      with_session-Safe base I k _ (reads _ (LeavesSession-merchant_token env uuid_str now form))

  pub get_order-keeps :
      (env : AuthEnvironment) (now : ℕ) (b : Bearer) (order_id : String)
      → Kept I (with_session (get_order env now b order_id) base).1
  unfolding get_order
  get_order-keeps env now b order_id =
      authenticated env now b (order_of env now order_id)
        λ m. reads _ (LeavesSession-order_of env now order_id m)

  LeavesSession-on_order_error : (e : Error) → LeavesSession (on_order_error e)
  LeavesSession-on_order_error order_idempotency_reuse = LeavesSession-pure _
  LeavesSession-on_order_error _ = record { same = λ s. refl }

  LeavesSession-on_payment_error : (e : Error) → LeavesSession (on_payment_error e)
  LeavesSession-on_payment_error order_not_found = LeavesSession-pure _
  LeavesSession-on_payment_error already_finalised = LeavesSession-pure _
  LeavesSession-on_payment_error _ = record { same = λ s. refl }

  -- A call of a service whose exceptions become statuses.
  served :
      {A : Type 0} (m : M A) (handler : Error → M (Answer A))
      → Kept I (with_session m base).1
      → ((e : Error) → LeavesSession (handler e))
      → Triple (IsFresh base) (catch (m >>= reply) handler) (λ a. Safe I) (Safe I)
  served m handler h l =
      Triple-catch_from {R = Safe I} _ _
        (Triple-bind _ _ (Triple-known base I k m h)
          λ a. Safe-leaves base I k _ (LeavesSession-pure _))
        λ e. Safe-leaves base I k _ (l e)

  unprocessable-keeps :
      (A : Type 0) (g : Gateway) (now : ℕ) (b : Bearer)
      → Kept I (with_session (unprocessable g {A = A} now b) base).1
  unprocessable-keeps A g now b = authenticated g.auth now b _ λ m. done base I k (rejected 422)

  pub post_order-keeps :
      (g : Gateway) (now : ℕ) (b : Bearer) (draws : OrderDraws) (o : Option CreateOrderRequest)
      → ((m : Uuid) (p : CreateOrderRequest)
          → Kept I (with_session (create_order draws m p) base).1)
      → Kept I (with_session (post_order g now b draws o) base).1
  unfolding create_order_endpoint
  post_order-keeps g now b draws none h = unprocessable-keeps _ g now b
  post_order-keeps g now b draws (some p) h =
      authenticated g.auth now b (create_for g.auth now draws p) λ m.
        served (create_order draws m.id p) on_order_error (h m.id p) LeavesSession-on_order_error

  pub post_upi-keeps :
      (g : Gateway) (now : ℕ) (b : Bearer) (draws : PaymentDraws) (o : Option UpiInitiateRequest)
      → ((m : Uuid) (p : UpiInitiateRequest)
          → Kept I (with_session (initiate_upi draws m p) base).1)
      → Kept I (with_session (post_upi g now b draws o) base).1
  unfolding initiate_upi_payment
  post_upi-keeps g now b draws none h = unprocessable-keeps _ g now b
  post_upi-keeps g now b draws (some p) h =
      authenticated g.auth now b (initiate_for g.auth now draws p) λ m.
        served (initiate_upi draws m.id p) on_payment_error (h m.id p)
          LeavesSession-on_payment_error
