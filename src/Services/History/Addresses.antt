-- ===== src/Services/History/Addresses.antt =====
-- Whose accounts the ledger entries are on, after each request to a service (app/services).
use payment_gateway_system.Prelude.{ℕ, String, true, ◌≡◌, refl, List, [], ◌==◌, eq_iff, arith}
use payment_gateway_system.Prelude.Rows.{all, distinct}
use payment_gateway_system.Prelude.Laws.{IsRow-select, select-head, ==_refl}
use payment_gateway_system.Prelude.Keys.{any_row}
use payment_gateway_system.Models.Payment.{
  Uuid, PaymentStatus, TransactionState, PaymentIntent, Transaction,
}
use payment_gateway_system.Models.Database.{
  Db, empty_db, fits_columns, unique_keys, unique_merchants, unique_intents, unique_transactions,
  unique_accounts,
}
use payment_gateway_system.Session.{with_session}
use payment_gateway_system.Session.Triples.{Kept}
use payment_gateway_system.Services.Addresses.{
  paid_by, pays, sold_by, IsAddressed, Grows, Grows-trans, Grows-state, Grows-status, grown,
  any_more,
}
use payment_gateway_system.Services.Ledger.{PostingKeys}
use payment_gateway_system.Services.Order.{add_intent}
use payment_gateway_system.Services.Order.Rules.{create_order-keeps}
use payment_gateway_system.Services.Payment.{add_transaction}
use payment_gateway_system.Services.Payment.Rules.{initiate_upi-keeps}
use payment_gateway_system.Services.Webhook.{
  Decimal, by_id, by_reference, set_transaction_state, process_bank_callback,
}
use payment_gateway_system.Services.Webhook.Course.{callback-Kept}
use payment_gateway_system.Services.Webhook.Failure.{marked}
use payment_gateway_system.Services.Webhook.Lookup.{Returned, units}
use payment_gateway_system.Services.Webhook.Placing.{Placing, settle-IsAddressed}
use payment_gateway_system.Services.History.{
  Request, order, payment, callback, handle, serve, serve_keeps,
}

Grows-intent : (i : PaymentIntent) (db : Db) → Grows db (add_intent i db)
Grows-intent i db = record {
  accounts = λ k t n h. h;
  payers = λ k v h. h;
  orders = λ k o h. h;
  sellers = λ o m h. any_more (sold_by o m) i db.intents h;
}

Grows-transaction : (t : Transaction) (db : Db) → Grows db (add_transaction t db)
Grows-transaction t db = record {
  accounts = λ k a n h. h;
  payers = λ k v h. any_more (paid_by k v) t db.transactions h;
  orders = λ k o h. any_more (pays k o) t db.transactions h;
  sellers = λ o m h. h;
}

Grows-marked :
    (txn : Uuid) (state : TransactionState) (intent : Uuid) (status : PaymentStatus) (now : ℕ)
    (db : Db)
    → Grows db (marked txn state intent status now db)
Grows-marked txn state intent status now db =
    Grows-trans db (set_transaction_state txn state db) _ (Grows-state txn state db)
      (Grows-status intent status now (set_transaction_state txn state db))

module _ (uuid_str : Uuid → String) where
  module _ (keys : PostingKeys) (now : ℕ) (event ref : String) (amount : Decimal) (db : Db)
      (k : Kept (IsAddressed uuid_str) db) where
    marked-IsAddressed :
        (f : Returned ref amount db) (state : TransactionState) (status : PaymentStatus)
        → IsAddressed uuid_str (marked f.txn.id state f.intent.id status now db)
    marked-IsAddressed f state status = record {
      placed =
          grown uuid_str db _ (Grows-marked f.txn.id state f.intent.id status now db) db.entries
            k.holds.placed;
    }

    marked-Placing :
        (f : Returned ref amount db)
        → Placing db uuid_str f.txn f.intent []
            (marked f.txn.id TransactionState.success f.intent.id PaymentStatus.success now db)
    marked-Placing f =
        let g =
          Grows-marked f.txn.id TransactionState.success f.intent.id PaymentStatus.success now db in
        let row = IsRow-select (by_reference ref) db.transactions f.found.transaction in
        record {
          addressed = marked-IsAddressed f TransactionState.success PaymentStatus.success;
          payer = g.payers f.txn.id f.txn.vpa (
              any_row (paid_by f.txn.id f.txn.vpa) db.transactions f.txn row
                (rw (==_refl f.txn.id) ((eq_iff f.txn.vpa f.txn.vpa).1 refl)));
          order = g.orders f.txn.id f.intent.id (
              any_row (pays f.txn.id f.intent.id) db.transactions f.txn row (
                rw (==_refl f.txn.id) (
                  turned f.intent.id f.txn.intent_id
                    (select-head (by_id f.txn.intent_id) db.intents f.found.owner))));
          seller = g.sellers f.intent.id f.intent.merchant_id (
              any_row (sold_by f.intent.id f.intent.merchant_id) db.intents f.intent
                (IsRow-select (by_id f.txn.intent_id) db.intents f.found.owner)
                (rw (==_refl f.intent.id, ==_refl f.intent.merchant_id) refl));
          held = tt;
        }
      where
        turned : (a b : Uuid) → (a == b) ≡ true → (b == a) ≡ true
        turned a b h = ground arith

    callback-IsAddressed :
        Kept
          (IsAddressed uuid_str)
          (with_session (process_bank_callback uuid_str keys now event ref amount) db).1
    callback-IsAddressed =
        callback-Kept uuid_str keys now event ref amount db (IsAddressed uuid_str)
          (λ txn intent. Placing db uuid_str txn intent []) k (λ f o. marked-Placing f)
          (λ f o. marked-IsAddressed f TransactionState.failed PaymentStatus.failed)
          (λ f. settle-IsAddressed db uuid_str f.txn f.intent keys (units amount))

  intent-IsAddressed :
      (i : PaymentIntent) (db : Db)
      → IsAddressed uuid_str db
      → IsAddressed uuid_str (add_intent i db)
  intent-IsAddressed i db h = record {
    placed = grown uuid_str db _ (Grows-intent i db) db.entries h.placed;
  }

  handle-IsAddressed :
      (r : Request) (db : Db)
      → Kept (IsAddressed uuid_str) db
      → Kept (IsAddressed uuid_str) (handle uuid_str r db)
  unfolding handle
  handle-IsAddressed (order draws m p) db h =
      create_order-keeps db (IsAddressed uuid_str) (Kept (IsAddressed uuid_str)) (λ d k. k)
        intent-IsAddressed (λ k. k.holds) h draws m p
  handle-IsAddressed (payment draws m p) db h =
      initiate_upi-keeps db (IsAddressed uuid_str) (Kept (IsAddressed uuid_str)) (λ d k. k)
        (λ i s n d k. record {
          placed = grown uuid_str d _ (Grows-status i s n d) d.entries k.placed;
        })
        (λ t d n k. record {
          placed = grown uuid_str d _ (Grows-transaction t d) d.entries k.placed;
        })
        (λ k. k.holds) h draws m p
  handle-IsAddressed (callback keys now event ref amount) db h =
      callback-IsAddressed keys now event ref amount db h

  -- After any requests from the empty database, failed ones included: every debit of the ledger is on
  -- the virtual account of the address that pays its transaction, and every credit is on the
  -- settlement account of the merchant whose order its transaction pays.
  pub serve-IsAddressed : (rs : List Request) → IsAddressed uuid_str (serve uuid_str rs empty_db)
  unfolding fits_columns unique_keys all distinct unique_merchants unique_intents
      unique_transactions unique_accounts
  serve-IsAddressed rs =
      (serve_keeps (Kept (IsAddressed uuid_str)) uuid_str handle-IsAddressed rs empty_db
        (record { holds = record { placed = tt }; fits = refl; unique = refl })).holds
