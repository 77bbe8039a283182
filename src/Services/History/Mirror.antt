-- ===== src/Services/History/Mirror.antt =====
-- The payment of each order, after each request to a service (app/services).
use payment_gateway_system.Prelude.{ℕ, String, true, false, ◌≡◌, refl, List, [], ◌∷◌, ◌==◌, arith}
use payment_gateway_system.Prelude.Rows.{select, any, distinct}
use payment_gateway_system.Prelude.Laws.{IsRow-select, select-head}
use payment_gateway_system.Models.Payment.{Uuid, PaymentStatus, TransactionState, PaymentIntent}
use payment_gateway_system.Models.Database.{Db, unique_keys, unique_intents}
use payment_gateway_system.Session.{with_session}
use payment_gateway_system.Session.Triples.{Kept}
use payment_gateway_system.Services.Ledger.{PostingKeys}
use payment_gateway_system.Services.Mirror.{IsMirrored, states_of, add_intent-IsMirrored}
use payment_gateway_system.Services.Mirror.Started.{started-IsMirrored}
use payment_gateway_system.Services.Mirror.Marks.{marks-IsMirrored}
use payment_gateway_system.Services.Order.{add_intent}
use payment_gateway_system.Services.Webhook.{Decimal, by_id, by_reference, process_bank_callback}
use payment_gateway_system.Services.Webhook.Branches.{IsOpen}
use payment_gateway_system.Services.Webhook.Course.{callback-Kept}
use payment_gateway_system.Services.Webhook.Earnings.{distinct_intents}
use payment_gateway_system.Services.Webhook.Failure.{marked}
use payment_gateway_system.Services.Webhook.Lookup.{Returned}
use payment_gateway_system.Services.Webhook.Once.{distinct_transactions}
use payment_gateway_system.Services.Webhook.Rules.{settle-keeps}
use payment_gateway_system.Services.History.{Request, order, payment, callback, handle}
use payment_gateway_system.Services.History.Cases.{create_order-Kept, initiate_upi-Kept}

new_key :
    (i : PaymentIntent) (db : Db)
    → unique_keys (add_intent i db) ≡ true
    → any (λ j. i.id == j.id) db.intents ≡ false
unfolding unique_keys unique_intents distinct
new_key i db u = ground arith

found_id :
    (k : Uuid) (is : List PaymentIntent) {i : PaymentIntent}
    → select (by_id k) is ≡ i ∷ []
    → k ≡ i.id
found_id k is {i} e = same (select-head (by_id k) is e)
  where
    same : (i.id == k) ≡ true → k ≡ i.id
    same h = ground arith

module _ (uuid_str : Uuid → String) (keys : PostingKeys) (now : ℕ) (event ref : String)
    (amount : Decimal) (db : Db) (k : Kept IsMirrored db) where
  found-IsMirrored :
      (f : Returned ref amount db) (s : TransactionState) (status : PaymentStatus)
      → IsOpen f.txn f.intent
      → states_of status ≡ s ∷ []
      → IsMirrored (marked f.txn.id s f.intent.id status now db)
  found-IsMirrored f s status o =
      marks-IsMirrored db f.txn f.intent s status now (distinct_intents db k.unique)
        (distinct_transactions db k.unique) k.holds
        (IsRow-select (by_reference ref) db.transactions f.found.transaction)
        (IsRow-select (by_id f.txn.intent_id) db.intents f.found.owner)
        (found_id f.txn.intent_id db.intents f.found.owner) o.processing

  pub callback-IsMirrored :
      Kept IsMirrored (with_session (process_bank_callback uuid_str keys now event ref amount) db).1
  callback-IsMirrored =
      callback-Kept uuid_str keys now event ref amount db IsMirrored (λ txn intent. IsMirrored) k
        (λ f o. found-IsMirrored f TransactionState.success PaymentStatus.success o refl)
        (λ f o. found-IsMirrored f TransactionState.failed PaymentStatus.failed o refl)
        (λ f.
          settle-keeps db IsMirrored (λ a es d h. record { mirrors = h.mirrors; owned = h.owned })
            uuid_str keys f.txn f.intent _)

pub handle-IsMirrored :
    (uuid_str : Uuid → String) (r : Request) (db : Db)
    → Kept IsMirrored db
    → Kept IsMirrored (handle uuid_str r db)
unfolding handle
handle-IsMirrored uuid_str (order draws m p) db k =
    create_order-Kept db IsMirrored k
      (λ i c u. add_intent-IsMirrored i db c (new_key i db u) k.holds)
      (λ i t now. started-IsMirrored db i t now (distinct_intents db k.unique) k.holds) draws m p
handle-IsMirrored uuid_str (payment draws m p) db k =
    initiate_upi-Kept db IsMirrored k
      (λ i c u. add_intent-IsMirrored i db c (new_key i db u) k.holds)
      (λ i t now. started-IsMirrored db i t now (distinct_intents db k.unique) k.holds) draws m p
handle-IsMirrored uuid_str (callback keys now event ref amount) db k =
    callback-IsMirrored uuid_str keys now event ref amount db k
