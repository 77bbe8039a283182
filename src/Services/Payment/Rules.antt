-- ===== src/Services/Payment/Rules.antt =====
-- `initiate_upi` (app/services/payment.py) for any statement about the database that its two writes
-- keep.
use payment_gateway_system.Prelude.{ℕ, ◌≡◌, refl, ap, sym, ◌∙◌, Option, none, some}
use payment_gateway_system.Models.Payment.{
  Uuid, PaymentStatus, TransactionState, PaymentIntent, Transaction,
}
use payment_gateway_system.Models.Database.{Db}
use payment_gateway_system.Session.{Result, Error, err, with_session}
use payment_gateway_system.Session.Triples.{
  Triple, Triple-bind, Triple-leaves, Triple-write, Triple-commit-Kept, Triple-pure-Kept,
  Triple-pure-Durable, Kept, Working, Durable, Kept, Untouched, leaving, with_session-Ends,
}
use payment_gateway_system.Services.Payment.{
  PaymentDraws, UpiInitiateRequest, UpiInitiateResponse, set_intent_status, add_transaction,
  start_transaction, replay_or_start, initiate_upi,
}

module _ (base : Db) (I J : Db → Type 0) (commits : (db : Db) → Kept I db → J db)
    (statuses : (i : Uuid) (status : PaymentStatus) (now : ℕ) (db : Db)
      → I db
      → I (set_intent_status i status now db))
    (adds : (t : Transaction) (db : Db)
      → t.state ≡ TransactionState.pending
      → I db
      → I (add_transaction t db))
    (starts : J base → I base) (holds : J base) (draws : PaymentDraws) (merchant_id : Uuid)
    (payload : UpiInitiateRequest) where
  replay_or_start-Triple :
      (intent : PaymentIntent) (duplicate : Option Transaction)
      → Triple
          (Working base I)
          (replay_or_start draws intent payload.vpa duplicate)
          (λ r. Durable J)
          (Untouched base)
  unfolding replay_or_start start_transaction
  replay_or_start-Triple intent (some t) = Triple-pure-Durable _ holds
  replay_or_start-Triple intent none = Triple-bind _ _ (Triple-leaves _ (search leaving)) λ _.
      Triple-bind _ _ (Triple-write _ (statuses intent.id PaymentStatus.processing draws.now)) λ _.
        Triple-bind _ _ (Triple-leaves _ (search leaving)) λ _.
          Triple-bind _ _ (Triple-write _ (λ d h. adds _ d refl h))
            λ _. Triple-bind _ _ Triple-commit-Kept λ _. Triple-pure-Kept _ commits

  initiate_upi-Triple :
      Triple
        (Working base I)
        (initiate_upi draws merchant_id payload)
        (λ r. Durable J)
        (Untouched base)
  unfolding initiate_upi
  initiate_upi-Triple = Triple-bind _ _ (Triple-leaves _ (search leaving)) λ orders.
      Triple-bind _ _ (Triple-leaves _ (search leaving)) λ found.
        Triple-bind _ _ (Triple-leaves _ (search leaving)) λ intent.
          Triple-bind _ _ (Triple-leaves _ (search leaving)) λ _.
            Triple-bind _ _ (Triple-leaves _ (search leaving)) λ duplicates.
              Triple-bind _ _ (Triple-leaves _ (search leaving))
                λ duplicate. replay_or_start-Triple intent duplicate

  -- What holds before a request for a payment holds after it.
  pub initiate_upi-keeps : J (with_session (initiate_upi draws merchant_id payload) base).1
  initiate_upi-keeps = (with_session-Ends _ base initiate_upi-Triple (starts holds) holds).0

-- A request for a payment that raises any exception leaves the database as it was.
pub initiate_upi_atomic :
    (draws : PaymentDraws) (merchant_id : Uuid) (payload : UpiInitiateRequest) (db : Db) {e : Error}
    {db' : Db}
    → with_session (initiate_upi draws merchant_id payload) db ≡ (err e, db')
    → db' ≡ db
initiate_upi_atomic draws merchant_id payload db {e} {db'} h =
    sym (ap (λ (p : Result UpiInitiateResponse × Db). p.1) h)
    ∙ (with_session-Ends {I = λ d. Unit {0}} {J = λ d. Unit {0}} _ db
          (initiate_upi-Triple db (λ d. Unit) (λ d. Unit) (λ d k. tt) (λ i s n d u. tt)
            (λ t d n u. tt) (λ u. tt) tt draws merchant_id payload)
          tt tt).1
        e (ap (λ (p : Result UpiInitiateResponse × Db). p.0) h)
