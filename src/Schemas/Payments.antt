-- ===== src/Schemas/Payments.antt =====
-- A payment whose body the schema lets through, as the service takes it (app/schemas/payment.py,
-- app/services/payment.py).
use Prim.Native.String.{count}
use payment_gateway_system.Prelude.{
  ◌≡◌, refl, String, true, false, ◌&&◌, ◌||◌, not, Option, none, some, leb, ltb, ◌==◌, str_eq,
  arith, ap, sym, ◌∙◌, [], ◌∷◌, Bool-cases, Option-cases, inl, inr,
}
use payment_gateway_system.Prelude.Rows.{select, any, all, distinct}
use payment_gateway_system.Prelude.Laws.{all-update}
use payment_gateway_system.Models.Payment.{Uuid, PaymentStatus, PaymentIntent}
use payment_gateway_system.Models.Database.{
  Db, fits, fits_optional, fits_columns, fits_intent, fits_transaction, unique_keys,
  unique_transactions,
}
use payment_gateway_system.Core.Security.{new_id}
use payment_gateway_system.Session.{ok, ◌>>=◌, commit, with_session}
use payment_gateway_system.Services.StateMachine.{
  assert_intent_transition, assert_transaction_transition,
}
use payment_gateway_system.Services.Payment.{
  UpiInitiateRequest, PaymentDraws, is_order, is_duplicate, set_intent_status, add_transaction,
  new_transaction, initiated_response, replay_or_start, start_transaction, initiate_upi,
}
use payment_gateway_system.Services.Webhook.Failure.{unique_intents-status}
use payment_gateway_system.Schemas.{
  Validation, UpiBody, has_at, is_idempotency_key, validate_vpa, validate_upi,
}

validate_vpa-fits :
    (v : Validation) (vpa : String) {address : String}
    → validate_vpa v vpa ≡ some address
    → fits 255 address ≡ true
unfolding fits
validate_vpa-fits v vpa {address} h =
    let a = v.lower (v.strip vpa) in
    elim (Bool-cases (not (not (has_at a) || ltb (count a) 5 || ltb 255 (count a)))) [
      | inl e ↦ ap (λ (s : String). leb (count s) 255) (sym (some_value (rw e at h))) ∙ short a e
      | inr e ↦ cc (rw e at h)
    ]
  where
    some_value : {x y : String} → some x ≡ some y → x ≡ y
    some_value e = cc

    short :
        (a : String)
        → not (not (has_at a) || ltb (count a) 5 || ltb 255 (count a)) ≡ true
        → leb (count a) 255 ≡ true
    short a e = ground arith

-- The address of a body that was let through fits its column.
validate_upi-fits :
    (v : Validation) (b : UpiBody) {r : UpiInitiateRequest}
    → validate_upi v b ≡ some r
    → fits 255 r.vpa ≡ true
unfolding validate_upi
validate_upi-fits v b {r} h = elim (Option-cases (validate_vpa v b.vpa)) [
  | inl e ↦ cc (rw e at h)
  | inr (a, e) ↦
      elim (Bool-cases (is_idempotency_key b.idempotency_key && leb 1 (count b.order_id))) [
        | inl k ↦
            ap (λ (s : String). fits 255 s) (sym (vpa_of (rw (e, k) at h)))
            ∙ validate_vpa-fits v b.vpa e
        | inr k ↦ cc (rw (e, k) at h)
      ]
]
  where
    vpa_of :
        {a : String}
        → some (record { idempotency_key = b.idempotency_key; order_id = b.order_id; vpa = a })
          ≡ some r
        → a ≡ r.vpa
    vpa_of e = ap (λ (o : Option UpiInitiateRequest). vpa_in o) e
      where
        vpa_in : Option UpiInitiateRequest → String
        vpa_in none = ""
        vpa_in (some q) = q.vpa

-- The order of a payment that can start: it is the merchant's, just created, with no payment of the
-- same payer.
pub record IsPayable (m : Uuid) (r : UpiInitiateRequest) (intent : PaymentIntent) (db : Db)
    : Type 0 where
  pub order : select (is_order r.order_id m) db.intents ≡ intent ∷ []
  pub created : intent.status ≡ PaymentStatus.created
  pub unpaid : select (is_duplicate intent.id r.vpa) db.transactions ≡ []

-- The draws of a payment that no transaction has used, in texts that fit.
pub record IsFresh (draws : PaymentDraws) (db : Db) : Type 0 where
  pub key : any (λ t. draws.key == t.id) db.transactions ≡ false
  pub token : any (λ t. str_eq (new_id "txn" draws.token) t.public_id) db.transactions ≡ false
  pub short : fits 64 (new_id "txn" draws.token) ≡ true
  pub short_psp : fits 128 (new_id "psp" draws.psp_token) ≡ true

-- The database after the start of a payment.
abbrev pub started : PaymentDraws → PaymentIntent → String → Db → Db
started draws intent vpa db =
    add_transaction (new_transaction draws intent vpa)
      (set_intent_status intent.id PaymentStatus.processing draws.now db)

module _ (draws : PaymentDraws) (intent : PaymentIntent) (vpa : String) (db : Db)
    (f : IsFresh draws db) where
  started_fits :
      fits 255 vpa ≡ true
      → fits_columns db ≡ true
      → fits_columns (started draws intent vpa db) ≡ true
  unfolding fits_columns fits_intent fits_transaction fits_optional all
  started_fits h c =
      rw
        (
          all-update fits_intent (λ i. i.id == intent.id)
              (λ i. record i { status = PaymentStatus.processing; updated_at = draws.now })
              db.intents (λ i. refl),
          f.short,
          f.short_psp,
          h,
        )
        c

  started_unique : unique_keys db ≡ true → unique_keys (started draws intent vpa db) ≡ true
  unfolding unique_keys unique_transactions distinct
  started_unique u =
      rw
        (
          unique_intents-status intent.id PaymentStatus.processing draws.now db.intents,
          f.key,
          f.token,
        )
        u

-- A payment whose body the schema lets through, for an order of the merchant that was just created
-- and that the payer has no payment for, on a database that meets the constraints of the schema and
-- with draws that are new: it always starts, and exactly the new transaction and the new status of
-- the order are stored.
pub validated_payment_starts :
    (v : Validation) (b : UpiBody) (draws : PaymentDraws) (m : Uuid) (r : UpiInitiateRequest)
    (intent : PaymentIntent) (db : Db)
    → validate_upi v b ≡ some r
    → IsPayable m r intent db
    → IsFresh draws db
    → fits_columns db ≡ true
    → unique_keys db ≡ true
    → with_session (initiate_upi draws m r) db ≡ (
      ok (initiated_response intent (new_transaction draws intent r.vpa)),
      started draws intent r.vpa db,
    )
unfolding with_session initiate_upi replay_or_start start_transaction ◌>>=◌ commit
    assert_intent_transition assert_transaction_transition
validated_payment_starts v b draws m r intent db h p f c u =
    rw
      (
        p.order,
        p.created,
        p.unpaid,
        started_fits draws intent r.vpa db f (validate_upi-fits v b h) c,
        started_unique draws intent r.vpa db f u,
      )
      refl
