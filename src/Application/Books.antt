-- ===== src/Application/Books.antt =====
-- The books after any requests to the application (app/main.py).
use payment_gateway_system.Prelude.{String, refl, Option, none, some, List, [], ◌∷◌}
use payment_gateway_system.Prelude.Rows.{all, distinct}
use payment_gateway_system.Prelude.Totals.{total}
use payment_gateway_system.Models.Payment.{Uuid}
use payment_gateway_system.Models.Merchant.{Merchant, WebhookDelivery}
use payment_gateway_system.Models.Database.{
  Db, empty_db, fits_columns, unique_keys, unique_merchants, unique_intents, unique_transactions,
  unique_accounts,
}
use payment_gateway_system.Core.Security.{Credentials}
use payment_gateway_system.Session.Triples.{Kept}
use payment_gateway_system.Services.Books.{IsReconciled, side}
use payment_gateway_system.Services.Postings.{IsPostedOnce, lines, succeeded}
use payment_gateway_system.Services.Earnings.{IsUuidText, IsEarned}
use payment_gateway_system.Services.History.{
  Request, order, payment, callback, handle, handle-IsReconciled, handle-IsPostedOnce,
}
use payment_gateway_system.Services.History.Earnings.{handle-IsEarned}
use payment_gateway_system.Services.History.Mirror.{handle-IsMirrored}
use payment_gateway_system.Services.Mirror.{IsMirrored}
use payment_gateway_system.Schemas.{validate_order, validate_upi, validate_merchant}
use payment_gateway_system.Api.Merchants.{MerchantCreateRequest}
use payment_gateway_system.Application.{
  Gateway, ApiRequest, health, post_merchants, post_token, post_orders, get_orders,
  post_upi_initiate, post_bank_callback, post_merchant, respond, run,
}
use payment_gateway_system.Application.Endpoints.{
  create_merchant-keeps, merchant_token-keeps, get_order-keeps, post_order-keeps, post_upi-keeps,
}
use payment_gateway_system.Application.Callback.{bank_callback-keeps}

-- What the services keep, and the tables of merchants and deliveries have no part in, every request
-- keeps.
module _ (g : Gateway) (I : Db → Type 0)
    (services : (r : Request) (db : Db) → Kept I db → Kept I (handle g.bank.uuid_str r db))
    (others : (ms : List Merchant) (ds : List WebhookDelivery) (db : Db)
      → I db
      → I (record db { merchants = ms; deliveries = ds })) where
  post_merchant-keeps :
      (key : Uuid) (drawn : Credentials) (o : Option MerchantCreateRequest) (db : Db)
      → Kept I db
      → Kept I (post_merchant g key drawn o db).1
  post_merchant-keeps key drawn none db k = k
  post_merchant-keeps key drawn (some p) db k =
      create_merchant-keeps db I k g.auth key drawn p (λ ms d i. others ms d.deliveries d i)

  respond-keeps : (r : ApiRequest) (db : Db) → Kept I db → Kept I (respond g r db).1
  unfolding respond handle
  respond-keeps health db k = k
  respond-keeps (post_merchants key drawn payload) db k =
      post_merchant-keeps key drawn (validate_merchant payload) db k
  respond-keeps (post_token now form) db k =
      merchant_token-keeps db I k g.auth g.bank.uuid_str now form
  respond-keeps (post_orders now b draws body) db k =
      post_order-keeps db I k g now b draws (validate_order g.validation body)
        (λ m p. services (order draws m p) db k)
  respond-keeps (get_orders now b order_id) db k = get_order-keeps db I k g.auth now b order_id
  respond-keeps (post_upi_initiate now b draws body) db k =
      post_upi-keeps db I k g now b draws (validate_upi g.validation body)
        (λ m p. services (payment draws m p) db k)
  respond-keeps (post_bank_callback draws r) db k =
      bank_callback-keeps db I k g.bank draws
        (λ event ref amount. services (callback draws.keys draws.now event ref amount) db k)
        (λ ds d i. others d.merchants ds d i) r

  run_keeps : (rs : List ApiRequest) (db : Db) → Kept I db → Kept I (run g rs db)
  unfolding run
  run_keeps [] db k = k
  run_keeps (r ∷ rs) db k = run_keeps rs (respond g r db).1 (respond-keeps r db k)

-- The books are in order: balances and entries agree, every successful transaction is posted once,
-- every merchant has what its paid orders are worth, and every order has the transaction that its
-- status says.
pub record IsInOrder (uuid_str : Uuid → String) (db : Db) : Type 0 where
  pub reconciled : IsReconciled db
  pub posted : IsPostedOnce db
  pub earned : IsEarned uuid_str db
  pub mirrored : IsMirrored db

handle-IsInOrder :
    (uuid_str : Uuid → String)
    → IsUuidText uuid_str
    → (r : Request) (db : Db) → Kept (IsInOrder uuid_str) db
    → Kept (IsInOrder uuid_str) (handle uuid_str r db)
handle-IsInOrder uuid_str texts r db k =
    let posted =
      handle-IsPostedOnce uuid_str r db
        (record { holds = k.holds.posted; fits = k.fits; unique = k.unique }) in
    let earned =
      handle-IsEarned uuid_str texts r db
        (record { holds = k.holds.earned; fits = k.fits; unique = k.unique }) in
    let mirrored =
      handle-IsMirrored uuid_str r db
        (record { holds = k.holds.mirrored; fits = k.fits; unique = k.unique }) in
    record {
      holds = record {
        reconciled = handle-IsReconciled uuid_str r db k.holds.reconciled;
        posted = posted.holds;
        earned = earned.holds;
        mirrored = mirrored.holds;
      };
      fits = posted.fits;
      unique = posted.unique;
    }

-- After any requests to the application from the empty database, with whatever credentials and
-- bodies and failed ones included, if different identifiers have different texts: every balance is
-- the sum of the entries of its account, each transaction at success has exactly one debit and one
-- credit of the amount of its order and no other transaction has entries, the settlement balance of
-- each merchant is the sum of the amounts of its orders that are paid, and an order that was just
-- created has no transaction, while any other order has exactly one, which is pending, at success or
-- at failed as the order is in processing, at success or at failed.
pub run-IsInOrder :
    (g : Gateway) (rs : List ApiRequest)
    → IsUuidText g.bank.uuid_str
    → IsInOrder g.bank.uuid_str (run g rs empty_db)
unfolding total lines succeeded side fits_columns unique_keys all distinct unique_merchants
    unique_intents unique_transactions unique_accounts
run-IsInOrder g rs texts =
    (run_keeps g (IsInOrder g.bank.uuid_str) (handle-IsInOrder g.bank.uuid_str texts)
      (λ ms ds db i. record {
        reconciled = record {
          balances = i.reconciled.balances;
          owners = i.reconciled.owners;
          balanced = i.reconciled.balanced;
        };
        posted = record { counts = i.posted.counts; amounts = i.posted.amounts };
        earned = record { earns = i.earned.earns };
        mirrored = record { mirrors = i.mirrored.mirrors; owned = i.mirrored.owned };
      })
      rs empty_db
      (record {
        holds = record {
          reconciled = record { balances = tt; owners = tt; balanced = λ t. refl };
          posted = record { counts = λ key side. refl; amounts = tt };
          earned = record { earns = λ m. refl };
          mirrored = record { mirrors = λ i r. absurd r; owned = tt };
        };
        fits = refl;
        unique = refl;
      })).holds
