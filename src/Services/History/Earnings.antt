-- ===== src/Services/History/Earnings.antt =====
-- What the merchants have earned, after each request to a service (app/services).
use payment_gateway_system.Prelude.{ℕ, String, false, ◌≡◌, refl}
use payment_gateway_system.Prelude.Rows.{IsRow}
use payment_gateway_system.Models.Payment.{
  Uuid, PaymentStatus, TransactionState, PaymentIntent, Transaction, eq_status,
}
use payment_gateway_system.Models.Database.{Db}
use payment_gateway_system.Session.Triples.{Kept}
use payment_gateway_system.Services.Earnings.{
  IsUuidText, IsEarned, add_intent-IsEarned, status-IsEarned,
}
use payment_gateway_system.Services.Payment.{add_transaction, set_intent_status}
use payment_gateway_system.Services.Webhook.Earnings.{callback-IsEarned, distinct_intents}
use payment_gateway_system.Services.History.{Request, order, payment, callback, handle}
use payment_gateway_system.Services.History.Cases.{create_order-Kept, initiate_upi-Kept}

created_is_unpaid :
    (s : PaymentStatus) → s ≡ PaymentStatus.created → eq_status s PaymentStatus.success ≡ false
created_is_unpaid s h = rw h refl

-- A payment that starts marks an order that is not paid.
started-IsEarned :
    (uuid_str : Uuid → String) (db : Db)
    → Kept (IsEarned uuid_str) db
    → (i : PaymentIntent) (t : Transaction) (now : ℕ) → IsRow i db.intents
    → i.status ≡ PaymentStatus.created
    → t.state ≡ TransactionState.pending
    → t.intent_id ≡ i.id
    → IsEarned uuid_str (add_transaction t (set_intent_status i.id PaymentStatus.processing now db))
started-IsEarned uuid_str db k i t now r c p e =
    let marked =
      status-IsEarned uuid_str i now db r (distinct_intents db k.unique)
        (created_is_unpaid i.status c) k.holds PaymentStatus.processing refl in
    record { earns = marked.earns }

pub handle-IsEarned :
    (uuid_str : Uuid → String)
    → IsUuidText uuid_str
    → (r : Request) (db : Db) → Kept (IsEarned uuid_str) db
    → Kept (IsEarned uuid_str) (handle uuid_str r db)
unfolding handle
handle-IsEarned uuid_str texts (order draws m p) db k =
    create_order-Kept db (IsEarned uuid_str) k
      (λ i c u. add_intent-IsEarned uuid_str i db c k.holds) (started-IsEarned uuid_str db k) draws
      m p
handle-IsEarned uuid_str texts (payment draws m p) db k =
    initiate_upi-Kept db (IsEarned uuid_str) k
      (λ i c u. add_intent-IsEarned uuid_str i db c k.holds) (started-IsEarned uuid_str db k) draws
      m p
handle-IsEarned uuid_str texts (callback keys now event ref amount) db k =
    callback-IsEarned uuid_str texts keys now event ref amount db k
