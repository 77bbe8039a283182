-- ===== src/Services/Payment/Branches.antt =====
-- What `initiate_upi` (app/services/payment.py) does for each status of the order.
use payment_gateway_system.Prelude.{
  true, false, ◌≡◌, ◌≢◌, refl, List, [], ◌∷◌, Bool-cases, inl, inr, if◌then◌else◌, ◌⊎◌,
}
use payment_gateway_system.Prelude.Rows.{select, IsRow}
use payment_gateway_system.Models.Payment.{Uuid, PaymentStatus, PaymentIntent, Transaction}
use payment_gateway_system.Models.Database.{Db, fits_columns, unique_keys}
use payment_gateway_system.Session.{
  Error, ok, err, ◌>>=◌, with_session, commit, order_not_found, already_finalised,
  invalid_state_transition, integrity_error, data_error, multiple_results_found,
}
use payment_gateway_system.Services.StateMachine.{
  assert_intent_transition, assert_transaction_transition,
}
use payment_gateway_system.Services.Payment.{
  PaymentDraws, UpiInitiateRequest, is_order, is_duplicate, set_intent_status, add_transaction,
  new_transaction, replay_response, initiated_response, start_transaction, replay_or_start,
  initiate_upi, is_final,
}
use payment_gateway_system.Services.Payment.Orders.{IsOrderOf, order_found, no_order, no_payment}

module _ (draws : PaymentDraws) (merchant_id : Uuid) (payload : UpiInitiateRequest) (db : Db) where
  -- An order that the merchant does not have is not found, and nothing is stored.
  pub initiate_upi-unknown :
      select (is_order payload.order_id merchant_id) db.intents ≡ []
      → with_session (initiate_upi draws merchant_id payload) db ≡ (err order_not_found, db)
  unfolding initiate_upi with_session ◌>>=◌
  initiate_upi-unknown e = rw e refl

  pub initiate_upi-ambiguous :
      {i1 i2 : PaymentIntent} {rows : List PaymentIntent}
      → select (is_order payload.order_id merchant_id) db.intents ≡ i1 ∷ i2 ∷ rows
      → with_session (initiate_upi draws merchant_id payload) db ≡ (err multiple_results_found, db)
  unfolding initiate_upi with_session ◌>>=◌
  initiate_upi-ambiguous e = rw e refl

  module _ {intent : PaymentIntent}
      (order : select (is_order payload.order_id merchant_id) db.intents ≡ intent ∷ []) where
    pub initiate_upi-final :
        is_final intent.status ≡ true
        → with_session (initiate_upi draws merchant_id payload) db ≡ (err already_finalised, db)
    unfolding initiate_upi with_session ◌>>=◌
    initiate_upi-final f = rw (order, f) refl

    pub initiate_upi-duplicate :
        {t : Transaction}
        → is_final intent.status ≡ false
        → select (is_duplicate intent.id payload.vpa) db.transactions ≡ t ∷ []
        → with_session (initiate_upi draws merchant_id payload) db
          ≡ (ok (replay_response intent t), db)
    unfolding initiate_upi with_session ◌>>=◌ replay_or_start
    initiate_upi-duplicate f d = rw (order, f, d) refl

    pub initiate_upi-duplicates :
        {t1 t2 : Transaction} {rows : List Transaction}
        → is_final intent.status ≡ false
        → select (is_duplicate intent.id payload.vpa) db.transactions ≡ t1 ∷ t2 ∷ rows
        → with_session (initiate_upi draws merchant_id payload) db
          ≡ (err multiple_results_found, db)
    unfolding initiate_upi with_session ◌>>=◌
    initiate_upi-duplicates f d = rw (order, f, d) refl

    -- An order in processing takes no second payment.
    pub initiate_upi-processing :
        intent.status ≡ PaymentStatus.processing
        → select (is_duplicate intent.id payload.vpa) db.transactions ≡ []
        → with_session (initiate_upi draws merchant_id payload) db
          ≡ (err invalid_state_transition, db)
    unfolding initiate_upi with_session ◌>>=◌ replay_or_start start_transaction
        assert_intent_transition
    initiate_upi-processing f d = rw (order, f, d) refl

    abbrev pub started : Db
    started =
        add_transaction (new_transaction draws intent payload.vpa)
          (set_intent_status intent.id PaymentStatus.processing draws.now db)

    pub initiate_upi-created :
        intent.status ≡ PaymentStatus.created
        → select (is_duplicate intent.id payload.vpa) db.transactions ≡ []
        → with_session (initiate_upi draws merchant_id payload) db ≡ (
            if fits_columns started
            then (if unique_keys started
                then (
                  ok (initiated_response intent (new_transaction draws intent payload.vpa)),
                  started,
                )
                else (err integrity_error, db))
            else (err data_error, db))
    unfolding initiate_upi with_session ◌>>=◌ replay_or_start start_transaction
        assert_intent_transition assert_transaction_transition commit
    initiate_upi-created f d = elim (Bool-cases (fits_columns started)) [
      | inl fi ↦ elim (Bool-cases (unique_keys started)) [
        | inl u ↦ rw (order, f, d, fi, u) refl
        | inr u ↦ rw (order, f, d, fi, u) refl
      ]
      | inr fi ↦ rw (order, f, d, fi) refl
    ]

-- The requests that are refused, each with its exception.
pub data Refused (merchant_id : Uuid) (payload : UpiInitiateRequest) (db : Db)
    : Error → Type 0 where
  unknown :
      ((i : PaymentIntent) → ¬ IsOrderOf merchant_id payload.order_id i db)
      → Refused merchant_id payload db order_not_found
  finalised :
      {intent : PaymentIntent}
      → IsOrderOf merchant_id payload.order_id intent db
      → (intent.status ≡ PaymentStatus.success) ⊎ (intent.status ≡ PaymentStatus.failed)
      → Refused merchant_id payload db already_finalised
  second_payer :
      {intent : PaymentIntent}
      → IsOrderOf merchant_id payload.order_id intent db
      → intent.status ≡ PaymentStatus.processing
      → ((t : Transaction)
          → IsRow t db.transactions
          → t.intent_id ≡ intent.id
          → t.vpa ≢ payload.vpa)
      → Refused merchant_id payload db invalid_state_transition

final :
    {s : PaymentStatus}
    → (s ≡ PaymentStatus.success) ⊎ (s ≡ PaymentStatus.failed)
    → is_final s ≡ true
final (inl e) = rw e refl
final (inr e) = rw e refl

-- On a database whose keys are unique: a request for an order that no row has as this merchant's,
-- for an order of the merchant at success or at failed, or from an address that no transaction of
-- the order has, for an order of the merchant in processing, fails with the exception of its case,
-- and nothing is stored.
pub initiate_upi-Refused :
    (draws : PaymentDraws) (merchant_id : Uuid) (payload : UpiInitiateRequest) (db : Db) {e : Error}
    → unique_keys db ≡ true
    → Refused merchant_id payload db e
    → with_session (initiate_upi draws merchant_id payload) db ≡ (err e, db)
initiate_upi-Refused draws merchant_id payload db u (unknown n) =
    initiate_upi-unknown draws merchant_id payload db (no_order merchant_id payload.order_id db n)
initiate_upi-Refused draws merchant_id payload db u (finalised o f) =
    initiate_upi-final draws merchant_id payload db (order_found db u o) (final f)
initiate_upi-Refused draws merchant_id payload db u (second_payer o s d) =
    initiate_upi-processing draws merchant_id payload db (order_found db u o) s
      (no_payment _ payload.vpa db d)
