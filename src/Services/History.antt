-- ===== src/Services/History.antt =====
-- Requests one after the other, as the locks on the rows serialise them: the orders, the payments
-- and the callbacks of the bank, each in a session of its own.
pub mod Cases
pub mod Earnings
pub mod Mirror
pub mod Addresses
use payment_gateway_system.Prelude.{ℕ, String, List, [], ◌∷◌, refl}
use payment_gateway_system.Models.Payment.{Uuid}
use payment_gateway_system.Models.Database.{
  Db, empty_db, fits_columns, unique_keys, unique_merchants, unique_intents, unique_transactions,
  unique_accounts,
}
use payment_gateway_system.Prelude.Rows.{all, distinct}
use payment_gateway_system.Session.Triples.{Kept}
use payment_gateway_system.Services.Postings.{
  IsPostedOnce, lines, succeeded, add_intent-IsPostedOnce, add_transaction-IsPostedOnce,
  set_intent_status-IsPostedOnce,
}
use payment_gateway_system.Services.Webhook.Once.{not_success, callback-IsPostedOnce}
use payment_gateway_system.Session.{with_session}
use payment_gateway_system.Services.Books.{IsReconciled, side}
use payment_gateway_system.Services.Ledger.{PostingKeys}
use payment_gateway_system.Services.Order.{OrderDraws, CreateOrderRequest, create_order}
use payment_gateway_system.Services.Order.Rules.{create_order-keeps}
use payment_gateway_system.Services.Payment.{PaymentDraws, UpiInitiateRequest, initiate_upi}
use payment_gateway_system.Services.Payment.Rules.{initiate_upi-keeps}
use payment_gateway_system.Services.Webhook.{Decimal, process_bank_callback}
use payment_gateway_system.Services.Webhook.Books.{process_bank_callback-IsReconciled}

pub data Request : Type 0 where
  order : OrderDraws → Uuid → CreateOrderRequest → Request
  payment : PaymentDraws → Uuid → UpiInitiateRequest → Request
  callback : PostingKeys → ℕ → String → String → Decimal → Request

-- A request that raises is followed by the next one all the same.
unfoldable pub handle : (Uuid → String) → Request → Db → Db
handle uuid_str (order draws m p) db = (with_session (create_order draws m p) db).1
handle uuid_str (payment draws m p) db = (with_session (initiate_upi draws m p) db).1
handle uuid_str (callback keys now event ref amount) db =
    (with_session (process_bank_callback uuid_str keys now event ref amount) db).1

unfoldable pub serve : (Uuid → String) → List Request → Db → Db
serve uuid_str [] db = db
serve uuid_str (r ∷ rs) db = serve uuid_str rs (handle uuid_str r db)

pub handle-IsReconciled :
    (uuid_str : Uuid → String) (r : Request) (db : Db)
    → IsReconciled db
    → IsReconciled (handle uuid_str r db)
unfolding handle
handle-IsReconciled uuid_str (order draws m p) db h =
    create_order-keeps db IsReconciled IsReconciled (λ d k. k.holds)
      (λ i d k. record { balances = k.balances; owners = k.owners; balanced = k.balanced }) (λ r. r)
      h draws m p
handle-IsReconciled uuid_str (payment draws m p) db h =
    initiate_upi-keeps db IsReconciled IsReconciled (λ d k. k.holds)
      (λ i s n d k. record { balances = k.balances; owners = k.owners; balanced = k.balanced })
      (λ t d n k. record { balances = k.balances; owners = k.owners; balanced = k.balanced })
      (λ r. r) h draws m p
handle-IsReconciled uuid_str (callback keys now event ref amount) db h =
    process_bank_callback-IsReconciled uuid_str keys now event ref amount db h

pub handle-IsPostedOnce :
    (uuid_str : Uuid → String) (r : Request) (db : Db)
    → Kept IsPostedOnce db
    → Kept IsPostedOnce (handle uuid_str r db)
unfolding handle
handle-IsPostedOnce uuid_str (order draws m p) db h =
    create_order-keeps db IsPostedOnce (Kept IsPostedOnce) (λ d k. k) add_intent-IsPostedOnce
      (λ k. k.holds) h draws m p
handle-IsPostedOnce uuid_str (payment draws m p) db h =
    initiate_upi-keeps db IsPostedOnce (Kept IsPostedOnce) (λ d k. k) set_intent_status-IsPostedOnce
      (λ t d n. add_transaction-IsPostedOnce t d (not_success t.state n)) (λ k. k.holds) h draws m p
handle-IsPostedOnce uuid_str (callback keys now event ref amount) db h =
    callback-IsPostedOnce uuid_str keys now event ref amount db h

-- What every request keeps, a history keeps.
pub serve_keeps :
    (I : Db → Type 0) (uuid_str : Uuid → String)
    → ((r : Request) (db : Db) → I db → I (handle uuid_str r db))
    → (rs : List Request) (db : Db) → I db
    → I (serve uuid_str rs db)
unfolding serve
serve_keeps I uuid_str keeps [] db h = h
serve_keeps I uuid_str keeps (r ∷ rs) db h =
    serve_keeps I uuid_str keeps rs (handle uuid_str r db) (keeps r db h)

-- After any requests from the empty database, failed ones included: every balance is the sum of the
-- entries of its account, every entry is on an account that exists, and the debits of each
-- transaction equal its credits.
pub serve-IsReconciled :
    (uuid_str : Uuid → String) (rs : List Request) → IsReconciled (serve uuid_str rs empty_db)
unfolding side
serve-IsReconciled uuid_str rs =
    serve_keeps IsReconciled uuid_str (handle-IsReconciled uuid_str) rs empty_db
      (record { balances = tt; owners = tt; balanced = λ t. refl })

-- After any requests from the empty database, failed ones included: for each transaction and each
-- side the ledger has exactly one entry if the transaction is at success and none if it is not, and
-- every entry has the amount of the order of its transaction.
pub serve-IsPostedOnce :
    (uuid_str : Uuid → String) (rs : List Request) → IsPostedOnce (serve uuid_str rs empty_db)
unfolding lines succeeded fits_columns unique_keys all distinct unique_merchants unique_intents
    unique_transactions unique_accounts
serve-IsPostedOnce uuid_str rs =
    (serve_keeps (Kept IsPostedOnce) uuid_str (handle-IsPostedOnce uuid_str) rs empty_db (record {
      holds = record { counts = λ key side. refl; amounts = tt };
      fits = refl;
      unique = refl;
    })).holds
