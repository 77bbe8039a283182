-- ===== src/Services/History/Cases.antt =====
-- What a statement about the database needs in order to be kept by the requests for orders and
-- payments (app/services/order.py, app/services/payment.py).
use payment_gateway_system.Prelude.{ℕ, true, false, ◌≡◌, refl, List, [], ◌∷◌, Bool-cases, inl, inr}
use payment_gateway_system.Prelude.Rows.{select, IsRow}
use payment_gateway_system.Prelude.Laws.{IsRow-select}
use payment_gateway_system.Models.Payment.{
  Uuid, PaymentStatus, TransactionState, PaymentIntent, Transaction,
}
use payment_gateway_system.Models.Database.{Db, fits_columns, unique_keys}
use payment_gateway_system.Session.{with_session}
use payment_gateway_system.Session.Triples.{Kept}
use payment_gateway_system.Services.Order.{
  OrderDraws, CreateOrderRequest, create_order, has_order_key, new_intent, add_intent,
}
use payment_gateway_system.Services.Order.Replay.{
  create_order-existing, create_order-many, create_order-new, stored_order,
}
use payment_gateway_system.Services.Payment.{
  PaymentDraws, UpiInitiateRequest, initiate_upi, is_order, is_duplicate, is_final, new_transaction,
  add_transaction, set_intent_status,
}
use payment_gateway_system.Services.Payment.Branches.{
  initiate_upi-unknown, initiate_upi-ambiguous, initiate_upi-final, initiate_upi-duplicate,
  initiate_upi-duplicates, initiate_upi-processing, initiate_upi-created, started,
}

module _ (db : Db) (J : Db → Type 0) (k : Kept J db)
    (orders : (i : PaymentIntent)
      → i.status ≡ PaymentStatus.created
      → unique_keys (add_intent i db) ≡ true
      → J (add_intent i db))
    (payments : (i : PaymentIntent) (t : Transaction) (now : ℕ)
      → IsRow i db.intents
      → i.status ≡ PaymentStatus.created
      → t.state ≡ TransactionState.pending
      → t.intent_id ≡ i.id
      → J (add_transaction t (set_intent_status i.id PaymentStatus.processing now db))) where
  pub create_order-Kept :
      (draws : OrderDraws) (m : Uuid) (p : CreateOrderRequest)
      → Kept J (with_session (create_order draws m p) db).1
  create_order-Kept draws m p = go (select (has_order_key p.idempotency_key m) db.intents) refl
    where
      new_db : Db
      new_db = stored_order draws m p db

      go :
          (rows : List PaymentIntent)
          → select (has_order_key p.idempotency_key m) db.intents ≡ rows
          → Kept J (with_session (create_order draws m p) db).1
      go [] e = elim (Bool-cases (fits_columns new_db)) [
        | inl f ↦ elim (Bool-cases (unique_keys new_db)) [
          | inl u ↦
              rw (create_order-new draws m p db e, f, u)
                (record { holds = orders (new_intent draws m p) refl u; fits = f; unique = u })
          | inr u ↦ rw (create_order-new draws m p db e, f, u) k
        ]
        | inr f ↦ rw (create_order-new draws m p db e, f) k
      ]
      go (i ∷ []) e = rw (create_order-existing draws m p db {i = i} e) k
      go (i ∷ j ∷ rows) e = rw (create_order-many draws m p db {i1 = i} {i2 = j} {rows = rows} e) k

  module _ (draws : PaymentDraws) (m : Uuid) (p : UpiInitiateRequest) (i : PaymentIntent)
      (o : select (is_order p.order_id m) db.intents ≡ i ∷ []) where
    abbrev Goal : Type 0
    Goal = Kept J (with_session (initiate_upi draws m p) db).1

    by_status :
        (s : PaymentStatus)
        → i.status ≡ s
        → is_final i.status ≡ false
        → select (is_duplicate i.id p.vpa) db.transactions ≡ []
        → Goal
    by_status PaymentStatus.created c f d =
        let new_db = started draws m p db o in
        elim (Bool-cases (fits_columns new_db)) [
          | inl fi ↦ elim (Bool-cases (unique_keys new_db)) [
            | inl u ↦
                rw (initiate_upi-created draws m p db o c d, fi, u)
                  (record {
                    holds =
                        payments i (new_transaction draws i p.vpa) draws.now
                          (IsRow-select (is_order p.order_id m) db.intents o) c refl refl;
                    fits = fi;
                    unique = u;
                  })
            | inr u ↦ rw (initiate_upi-created draws m p db o c d, fi, u) k
          ]
          | inr fi ↦ rw (initiate_upi-created draws m p db o c d, fi) k
        ]
    by_status PaymentStatus.processing c f d = rw (initiate_upi-processing draws m p db o c d) k
    by_status PaymentStatus.success c f d = cc (rw c at f)
    by_status PaymentStatus.failed c f d = cc (rw c at f)

    by_duplicates :
        (ts : List Transaction) → select (is_duplicate i.id p.vpa) db.transactions ≡ ts → Goal
    by_duplicates ts d = elim (Bool-cases (is_final i.status)) [
      | inl f ↦ rw (initiate_upi-final draws m p db o f) k
      | inr f ↦ unsettled ts d f
    ]
      where
        unsettled :
            (ts : List Transaction)
            → select (is_duplicate i.id p.vpa) db.transactions ≡ ts
            → is_final i.status ≡ false
            → Goal
        unsettled [] d f = by_status i.status refl f d
        unsettled (t ∷ []) d f = rw (initiate_upi-duplicate draws m p db o {t = t} f d) k
        unsettled (t ∷ u ∷ rows) d f =
            rw (initiate_upi-duplicates draws m p db o {t1 = t} {t2 = u} {rows = rows} f d) k

  pub initiate_upi-Kept :
      (draws : PaymentDraws) (m : Uuid) (p : UpiInitiateRequest)
      → Kept J (with_session (initiate_upi draws m p) db).1
  initiate_upi-Kept draws m p = go (select (is_order p.order_id m) db.intents) refl
    where
      go :
          (rows : List PaymentIntent)
          → select (is_order p.order_id m) db.intents ≡ rows
          → Kept J (with_session (initiate_upi draws m p) db).1
      go [] e = rw (initiate_upi-unknown draws m p db e) k
      go (i ∷ []) e =
          by_duplicates draws m p i e (select (is_duplicate i.id p.vpa) db.transactions) refl
      go (i ∷ j ∷ rows) e =
          rw (initiate_upi-ambiguous draws m p db {i1 = i} {i2 = j} {rows = rows} e) k
