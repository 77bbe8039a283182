-- ===== src/Application/Refusals.antt =====
-- What a request that is refused leaves in the database (app/main.py, app/api/v1).
use payment_gateway_system.Prelude.{
  ℕ, ◌≤◌, ◌<◌, String, ◌≡◌, refl, ap, ◌∙◌, Option, none, some, arith,
}
use payment_gateway_system.Models.Payment.{Uuid}
use payment_gateway_system.Models.Merchant.{Merchant}
use payment_gateway_system.Models.Database.{Db}
use payment_gateway_system.Core.Security.{Credentials}
use payment_gateway_system.Session.{
  Session, Result, Error, ok, err, M, ◌>>=◌, catch, with_session, order_idempotency_reuse,
  order_not_found, already_finalised,
}
use payment_gateway_system.Session.Triples.{
  Ends, Triple, Triple-bind, Triple-same, Triple-catch_from, Triple-write, Triple-commit,
  Triple-pure-Stored, with_session-Ends, Untouched, LeavesSession, LeavesSession-pure,
}
use payment_gateway_system.Services.Order.{OrderDraws, CreateOrderRequest, create_order}
use payment_gateway_system.Services.Order.Rules.{create_order_atomic}
use payment_gateway_system.Services.Payment.{PaymentDraws, UpiInitiateRequest, initiate_upi}
use payment_gateway_system.Services.Payment.Rules.{initiate_upi_atomic}
use payment_gateway_system.Services.Webhook.Redelivery.{start}
use payment_gateway_system.Schemas.{validate_order, validate_upi, validate_merchant}
use payment_gateway_system.Api.Answer.{Answer, rejected, replied, and_then, reply}
use payment_gateway_system.Api.Auth.{AuthEnvironment, Bearer, get_current_merchant}
use payment_gateway_system.Api.Auth.Rules.{LeavesSession-get_current_merchant}
use payment_gateway_system.Api.Merchants.{
  MerchantCreateRequest, MerchantCreateResponse, create_merchant, merchant_token,
}
use payment_gateway_system.Api.Orders.{
  create_order_endpoint, create_for, on_order_error, get_order, order_of,
}
use payment_gateway_system.Api.Payments.{initiate_upi_payment, initiate_for, on_payment_error}
use payment_gateway_system.Api.BankCallback.{CallbackDraws, Reply, accepted}
use payment_gateway_system.Api.BankCallback.Rules.{Fate, bank_callback-Fate}
use payment_gateway_system.Application.{
  Gateway, ApiRequest, health, post_merchants, post_token, post_orders, get_orders,
  post_upi_initiate, post_bank_callback, post_merchant, post_order, post_upi, status_of,
  created_status, callback_status, respond,
}
use payment_gateway_system.Application.Keeps.{IsFresh}
use payment_gateway_system.Application.Endpoints.{
  LeavesSession-merchant_token, LeavesSession-order_of,
}

module _ (base : Db) where
  -- An answer that refuses has stored nothing.
  abbrev Refuses : {A : Type 0} → Answer A → Session → Type 0
  Refuses (rejected status) s = s.stored ≡ base
  Refuses (replied a) s = Unit

  -- An endpoint that stores nothing when it refuses or raises.
  abbrev IsCareful : {A : Type 0} → M (Answer A) → Type 0
  IsCareful m = Triple (IsFresh base) m Refuses (Untouched base)

  fresh-Untouched : (s : Session) → IsFresh base s → Untouched base s
  fresh-Untouched s f = record { fresh = ap (λ (t : Session). t.stored) f.begun }

  reading-Ends :
      {A : Type 0} (r : Result (Answer A)) (s : Session)
      → s.stored ≡ base
      → Ends Refuses (Untouched base) (r, s)
  reading-Ends (ok (rejected status)) s e = e
  reading-Ends (ok (replied a)) s e = tt
  reading-Ends (err x) s e = record { fresh = e }

  reading-IsCareful : {A : Type 0} (m : M (Answer A)) → LeavesSession m → IsCareful m
  reading-IsCareful m l = record {
    at = λ s f.
        reading-Ends (m s).0 (m s).1
          (ap (λ (t : Session). t.stored) (l.same s) ∙ (fresh-Untouched s f).fresh);
  }

  authenticated-IsCareful :
      {A : Type 0} (env : AuthEnvironment) (now : ℕ) (b : Bearer) (f : Merchant → M (Answer A))
      → ((m : Merchant) → IsCareful (f m))
      → IsCareful (get_current_merchant env now b >>= and_then f)
  authenticated-IsCareful env now b f h =
      Triple-bind _ _ (Triple-same _ (LeavesSession-get_current_merchant env now b) fresh-Untouched)
        answered
    where
      answered : (a : Answer Merchant) → IsCareful (and_then f a)
      answered (rejected status) = reading-IsCareful _ (LeavesSession-pure _)
      answered (replied m) = h m

  -- A service that stores nothing when it raises, behind a handler of its exceptions.
  served-IsCareful :
      {A : Type 0} (m : M A) (handler : Error → M (Answer A))
      → ((e : Error) (db' : Db) → with_session m base ≡ (err e, db') → db' ≡ base)
      → ((e : Error) → Triple (Untouched base) (handler e) Refuses (Untouched base))
      → IsCareful (catch (m >>= reply) handler)
  unfolding with_session
  served-IsCareful {A} m handler atomic h =
      Triple-catch_from {R = Untouched base} _ _
        (Triple-bind {R = λ a s. Unit {0}} _ _
          (record { at = λ s f. rw f.begun (ended (m (start base)).0 (m (start base)).1 refl) })
          λ a. record { at = λ s u. tt })
        h
    where
      ended :
          (r : Result A) (s : Session)
          → m (start base) ≡ (r, s)
          → Ends (λ (a : A) s. Unit {0}) (Untouched base) (r, s)
      ended (ok a) s e = tt
      ended (err x) s e = record { fresh = atomic x s.stored (λ i. ((e i).0, (e i).1.stored)) }

  on_order_error-Refuses :
      (e : Error) → Triple (Untouched base) (on_order_error e) Refuses (Untouched base)
  on_order_error-Refuses order_idempotency_reuse = record { at = λ s u. u.fresh }
  on_order_error-Refuses _ = record { at = λ s u. u }

  on_payment_error-Refuses :
      (e : Error) → Triple (Untouched base) (on_payment_error e) Refuses (Untouched base)
  on_payment_error-Refuses order_not_found = record { at = λ s u. u.fresh }
  on_payment_error-Refuses already_finalised = record { at = λ s u. u.fresh }
  on_payment_error-Refuses _ = record { at = λ s u. u }

  module _ (g : Gateway) (now : ℕ) (b : Bearer) where
    post_order-IsCareful :
        (draws : OrderDraws) (o : Option CreateOrderRequest)
        → IsCareful (post_order g now b draws o)
    unfolding create_order_endpoint
    post_order-IsCareful draws none =
        authenticated-IsCareful g.auth now b _ λ m. reading-IsCareful _ (LeavesSession-pure _)
    post_order-IsCareful draws (some p) =
        authenticated-IsCareful g.auth now b (create_for g.auth now draws p) λ m.
          served-IsCareful (create_order draws m.id p) on_order_error
            (λ e db' h. create_order_atomic draws m.id p base h) on_order_error-Refuses

    post_upi-IsCareful :
        (draws : PaymentDraws) (o : Option UpiInitiateRequest)
        → IsCareful (post_upi g now b draws o)
    unfolding initiate_upi_payment
    post_upi-IsCareful draws none =
        authenticated-IsCareful g.auth now b _ λ m. reading-IsCareful _ (LeavesSession-pure _)
    post_upi-IsCareful draws (some p) =
        authenticated-IsCareful g.auth now b (initiate_for g.auth now draws p) λ m.
          served-IsCareful (initiate_upi draws m.id p) on_payment_error
            (λ e db' h. initiate_upi_atomic draws m.id p base h) on_payment_error-Refuses

    get_order-IsCareful : (order_id : String) → IsCareful (get_order g.auth now b order_id)
    unfolding get_order
    get_order-IsCareful order_id =
        authenticated-IsCareful g.auth now b (order_of g.auth now order_id)
          λ m. reading-IsCareful _ (LeavesSession-order_of g.auth now order_id m)

  -- What is left of a run whose answer has this status.
  answered-unchanged :
      {A : Type 0} (code : ℕ) (m : M (Answer A))
      → code < 400
      → IsCareful m
      → 400 ≤ status_of code (with_session m base).0
      → (with_session m base).1 ≡ base
  unfolding with_session
  answered-unchanged {A} code m c h =
      ended (m (start base)).0 (m (start base)).1 (h.at (start base) (record { begun = refl }))
    where
      ended :
          (r : Result (Answer A)) (s : Session)
          → Ends Refuses (Untouched base) (r, s)
          → 400 ≤ status_of code r
          → s.stored ≡ base
      ended (ok (rejected status)) s e l = e
      ended (ok (replied a)) s e l = absurd (omega arith)
      ended (err x) s e l = e.fresh

  module _ (g : Gateway) where
    create_merchant-unchanged :
        (key : Uuid) (drawn : Credentials) (p : MerchantCreateRequest)
        (r : Result MerchantCreateResponse)
        → (with_session (create_merchant g.auth key drawn p) base).0 ≡ r
        → 400 ≤ created_status r
        → (with_session (create_merchant g.auth key drawn p) base).1 ≡ base
    unfolding create_merchant
    create_merchant-unchanged key drawn p (ok a) e l = absurd (omega arith)
    create_merchant-unchanged key drawn p (err x) e l =
        (with_session-Ends {I = λ d. Unit {0}} {J = λ d. Unit {0}} _ base
            (Triple-bind _ _ (Triple-write _ (λ d u. tt))
              λ u. Triple-bind _ _ Triple-commit λ v. Triple-pure-Stored _)
            tt tt).1
          x e

    post_merchant-unchanged :
        (key : Uuid) (drawn : Credentials) (o : Option MerchantCreateRequest)
        → 400 ≤ (post_merchant g key drawn o base).0
        → (post_merchant g key drawn o base).1 ≡ base
    post_merchant-unchanged key drawn none l = refl
    post_merchant-unchanged key drawn (some p) l = create_merchant-unchanged key drawn p _ refl l

callback-unchanged :
    (draws : CallbackDraws) (base : Db) (q : Result Reply) (db : Db)
    → Fate draws base q db
    → 400 ≤ callback_status q
    → callback_status q < 500
    → db ≡ base
callback-unchanged draws base (ok (Reply.rejected status)) db f l h = f
callback-unchanged draws base (ok (accepted d)) db f l h = absurd (omega arith)
callback-unchanged draws base (err x) db f l h = absurd (omega arith)

-- The statuses with which a request is refused. A callback that ends in an error of the server may
-- have been posted before the error.
abbrev pub IsRefusal : ApiRequest → ℕ → Type 0
IsRefusal (post_bank_callback draws r) status = (400 ≤ status) × (status < 500)
IsRefusal _ status = 400 ≤ status

-- A request of the API that is refused leaves the database as it was: no endpoint has stored
-- anything when its response has a status of at least 400, and the endpoint of the bank's callbacks
-- has stored nothing when its response has a status from 400 to 499.
pub refused_request_stores_nothing :
    (g : Gateway) (r : ApiRequest) (db : Db)
    → IsRefusal r (respond g r db).0
    → (respond g r db).1 ≡ db
unfolding respond
refused_request_stores_nothing g health db h = refl
refused_request_stores_nothing g (post_merchants key drawn p) db h =
    post_merchant-unchanged db g key drawn (validate_merchant p) h
refused_request_stores_nothing g (post_token now form) db h =
    answered-unchanged db 200 (merchant_token g.auth g.bank.uuid_str now form) (omega arith)
      (reading-IsCareful db _ (LeavesSession-merchant_token g.auth g.bank.uuid_str now form)) h
refused_request_stores_nothing g (post_orders now b draws body) db h =
    answered-unchanged db 201 _ (omega arith)
      (post_order-IsCareful db g now b draws (validate_order g.validation body)) h
refused_request_stores_nothing g (get_orders now b order_id) db h =
    answered-unchanged db 200 _ (omega arith) (get_order-IsCareful db g now b order_id) h
refused_request_stores_nothing g (post_upi_initiate now b draws body) db h =
    answered-unchanged db 201 _ (omega arith)
      (post_upi-IsCareful db g now b draws (validate_upi g.validation body)) h
refused_request_stores_nothing g (post_bank_callback draws r) db h =
    callback-unchanged draws db _ _ (bank_callback-Fate g.bank draws r db) h.0 h.1
