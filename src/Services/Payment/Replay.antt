-- ===== src/Services/Payment/Replay.antt =====
-- The same request for a payment, twice (app/services/payment.py).
use payment_gateway_system.Prelude.{
  false, subst, ◌≡◌, refl, sym, ◌∙◌, ap, List, [], ◌∷◌, eq_iff, Bool-cases, inl, inr,
}
use payment_gateway_system.Prelude.Rows.{select}
use payment_gateway_system.Prelude.Laws.{select-update_one, ==_refl}
use payment_gateway_system.Models.Payment.{Uuid, PaymentStatus, PaymentIntent, Transaction}
use payment_gateway_system.Models.Database.{Db, fits_columns, unique_keys}
use payment_gateway_system.Session.{Result, ok, with_session}
use payment_gateway_system.Services.Payment.{
  PaymentDraws, UpiInitiateRequest, UpiInitiateResponse, is_order, is_duplicate, set_intent_status,
  add_transaction, new_transaction, replay_response, initiated_response, initiate_upi, is_final,
}
use payment_gateway_system.Services.Payment.Branches.{
  initiate_upi-unknown, initiate_upi-ambiguous, initiate_upi-final, initiate_upi-duplicate,
  initiate_upi-duplicates, initiate_upi-processing, initiate_upi-created, started,
}

-- What the same request finds after one that returned.
record Ready (merchant_id : Uuid) (payload : UpiInitiateRequest) (r : UpiInitiateResponse) (db : Db)
    : Type 0 where
  intent : PaymentIntent
  txn : Transaction
  order : select (is_order payload.order_id merchant_id) db.intents ≡ intent ∷ []
  unsettled : is_final intent.status ≡ false
  duplicate : select (is_duplicate intent.id payload.vpa) db.transactions ≡ txn ∷ []
  answer : replay_response intent txn ≡ r

module _ (draws : PaymentDraws) (merchant_id : Uuid) (payload : UpiInitiateRequest) (db : Db) where
  Ready-started :
      (intent : PaymentIntent)
      → select (is_order payload.order_id merchant_id) db.intents ≡ intent ∷ []
      → select (is_duplicate intent.id payload.vpa) db.transactions ≡ []
      → Ready merchant_id payload
          (initiated_response intent (new_transaction draws intent payload.vpa))
          (add_transaction
            (new_transaction draws intent payload.vpa)
            (set_intent_status intent.id PaymentStatus.processing draws.now db))
  unfolding select
  Ready-started intent o d = record {
    intent = record intent { status = PaymentStatus.processing; updated_at = draws.now };
    txn = new_transaction draws intent payload.vpa;
    order =
        select-update_one (is_order payload.order_id merchant_id) _ _ db.intents (λ i. refl) o
          (==_refl intent.id);
    unsettled = refl;
    duplicate = rw (d, ==_refl intent.id, (eq_iff payload.vpa payload.vpa).1 refl) refl;
    answer = refl;
  }

  -- The cases of a request that returned.
  module _ {r : UpiInitiateResponse} {db' : Db}
      (h : with_session (initiate_upi draws merchant_id payload) db ≡ (ok r, db')) where
    Ready-at :
        {r0 : UpiInitiateResponse} {db0 : Db}
        → Ready merchant_id payload r0 db0
        → with_session (initiate_upi draws merchant_id payload) db ≡ (ok r0, db0)
        → Ready merchant_id payload r db'
    Ready-at {r0} {db0} q e =
        let p : ◌≡◌ {A = Result UpiInitiateResponse × Db} (ok r0, db0) (ok r, db') = sym e ∙ h in
        let answers : ◌≡◌ {A = Result UpiInitiateResponse} (ok r0) (ok r) = ap (λ x. x.0) p in
        subst (λ d. Ready merchant_id payload r d) (ap (λ x. x.1) p)
          (subst (λ x. Ready merchant_id payload x db0) (cc answers) q)

    Ready-new :
        (intent : PaymentIntent)
        → select (is_order payload.order_id merchant_id) db.intents ≡ intent ∷ []
        → select (is_duplicate intent.id payload.vpa) db.transactions ≡ []
        → (s : PaymentStatus) → intent.status ≡ s
        → Ready merchant_id payload r db'
    Ready-new intent o d PaymentStatus.created e =
        elim (Bool-cases (fits_columns (started draws merchant_id payload db o))) [
          | inl f ↦ elim (Bool-cases (unique_keys (started draws merchant_id payload db o))) [
            | inl u ↦
                Ready-at (Ready-started intent o d)
                  (rw (f, u) at (initiate_upi-created draws merchant_id payload db o e d))
            | inr u ↦ cc (rw (f, u) at (initiate_upi-created draws merchant_id payload db o e d), h)
          ]
          | inr f ↦ cc (rw f at (initiate_upi-created draws merchant_id payload db o e d), h)
        ]
    Ready-new intent o d PaymentStatus.processing e =
        cc (initiate_upi-processing draws merchant_id payload db o e d, h)
    Ready-new intent o d PaymentStatus.success e =
        cc (initiate_upi-final draws merchant_id payload db o (rw e refl), h)
    Ready-new intent o d PaymentStatus.failed e =
        cc (initiate_upi-final draws merchant_id payload db o (rw e refl), h)

    Ready-old :
        (intent : PaymentIntent)
        → select (is_order payload.order_id merchant_id) db.intents ≡ intent ∷ []
        → is_final intent.status ≡ false
        → (ts : List Transaction) → select (is_duplicate intent.id payload.vpa) db.transactions ≡ ts
        → Ready merchant_id payload r db'
    Ready-old intent o f [] e = Ready-new intent o e intent.status refl
    Ready-old intent o f (t ∷ []) e =
        Ready-at
          (record {
            intent = intent;
            txn = t;
            order = o;
            unsettled = f;
            duplicate = e;
            answer = refl;
          })
          (initiate_upi-duplicate draws merchant_id payload db o f e)
    Ready-old intent o f (t1 ∷ t2 ∷ ts) e =
        cc (initiate_upi-duplicates draws merchant_id payload db o f e, h)

    ready :
        (rows : List PaymentIntent)
        → select (is_order payload.order_id merchant_id) db.intents ≡ rows
        → Ready merchant_id payload r db'
    ready [] o = cc (initiate_upi-unknown draws merchant_id payload db o, h)
    ready (intent ∷ []) o = elim (Bool-cases (is_final intent.status)) [
      | inl f ↦ cc (initiate_upi-final draws merchant_id payload db o f, h)
      | inr f ↦
          Ready-old intent o f (select (is_duplicate intent.id payload.vpa) db.transactions) refl
    ]
    ready (i1 ∷ i2 ∷ rows) o = cc (initiate_upi-ambiguous draws merchant_id payload db o, h)

-- A request for a payment that returned, and the same request again with whatever tokens: the
-- second has the answer of the first, with its transaction and its reference, and stores nothing.
pub initiate_upi_idempotent :
    (draws draws' : PaymentDraws) (merchant_id : Uuid) (payload : UpiInitiateRequest) (db : Db)
    {r : UpiInitiateResponse} {db' : Db}
    → with_session (initiate_upi draws merchant_id payload) db ≡ (ok r, db')
    → with_session (initiate_upi draws' merchant_id payload) db' ≡ (ok r, db')
initiate_upi_idempotent draws draws' merchant_id payload db {r} {db'} h =
    let q : Ready merchant_id payload r db' =
      ready draws merchant_id payload db h
        (select (is_order payload.order_id merchant_id) db.intents) refl in
    rw q.answer at
      (initiate_upi-duplicate draws' merchant_id payload db' q.order q.unsettled q.duplicate)
