-- ===== src/Services/Payment/Orders.antt =====
-- The order and the transaction that a payment request names (app/services/payment.py).
use payment_gateway_system.Prelude.{
  arith, String, true, false, ◌≡◌, ◌≢◌, ◌==◌, refl, [], ◌∷◌, str_eq, eq_iff, Bool-cases, inl, inr,
}
use payment_gateway_system.Prelude.Rows.{select, distinct, IsRow}
use payment_gateway_system.Prelude.Laws.{select_unique, ==_refl}
use payment_gateway_system.Prelude.Keys.{no_rows}
use payment_gateway_system.Models.Payment.{Uuid, PaymentIntent, Transaction}
use payment_gateway_system.Models.Database.{Db, unique_keys, unique_intents}
use payment_gateway_system.Services.Payment.{is_order, is_duplicate}

-- This order of the table is the merchant's, under this public identifier.
pub record IsOrderOf (merchant_id : Uuid) (order_id : String) (i : PaymentIntent) (db : Db)
    : Type 0 where
  pub row : IsRow i db.intents
  pub named : i.public_id ≡ order_id
  pub owner : i.merchant_id ≡ merchant_id

same_id :
    (id : String) (m : Uuid) (a b : PaymentIntent)
    → is_order id m a ≡ true
    → is_order id m b ≡ true
    → str_eq a.public_id b.public_id ≡ true
same_id id m a b h k =
    ground (arith, eq_iff a.public_id id, eq_iff b.public_id id, eq_iff a.public_id b.public_id)

distinct_ids :
    (db : Db)
    → unique_keys db ≡ true
    → distinct (λ (a b : PaymentIntent). str_eq a.public_id b.public_id) db.intents ≡ true
unfolding unique_keys unique_intents
distinct_ids db u = ground arith

-- The query for an order that the merchant has finds it alone.
pub order_found :
    {merchant_id : Uuid} {order_id : String} {i : PaymentIntent} (db : Db)
    → unique_keys db ≡ true
    → IsOrderOf merchant_id order_id i db
    → select (is_order order_id merchant_id) db.intents ≡ i ∷ []
order_found {merchant_id} {order_id} {i} db u o =
    select_unique (is_order order_id merchant_id) (λ a b. str_eq a.public_id b.public_id)
      (same_id order_id merchant_id) db.intents i o.row (distinct_ids db u)
      (rw (o.named, o.owner, (eq_iff order_id order_id).1 refl, ==_refl merchant_id) refl)

order_unlike :
    (m : Uuid) (id : String) (i : PaymentIntent)
    → (i.public_id ≡ id → i.merchant_id ≢ m)
    → is_order id m i ≡ false
order_unlike m id i h = elim (Bool-cases (str_eq i.public_id id)) [
  | inl e ↦ rw e (differ i.merchant_id m (h ((eq_iff i.public_id id).0 e)))
  | inr e ↦ rw e refl
]
  where
    differ : (a b : Uuid) → a ≢ b → (a == b) ≡ false
    differ a b n = ground arith

pub no_order :
    (merchant_id : Uuid) (order_id : String) (db : Db)
    → ((i : PaymentIntent) → ¬ IsOrderOf merchant_id order_id i db)
    → select (is_order order_id merchant_id) db.intents ≡ []
no_order merchant_id order_id db h =
    no_rows (λ (i : PaymentIntent). i.id) (is_order order_id merchant_id) db.intents
      λ i r.
        order_unlike merchant_id order_id i (λ n o. h i (record { row = r; named = n; owner = o }))

-- No transaction of the order has this payer.
pub no_payment :
    (intent_id : Uuid) (vpa : String) (db : Db)
    → ((t : Transaction) → IsRow t db.transactions → t.intent_id ≡ intent_id → t.vpa ≢ vpa)
    → select (is_duplicate intent_id vpa) db.transactions ≡ []
no_payment intent_id vpa db h =
    no_rows (λ (t : Transaction). t.id) (is_duplicate intent_id vpa) db.transactions
      λ t r. elim (Bool-cases (t.intent_id == intent_id)) [
        | inl e ↦ rw (e, other_payer t.vpa (h t r (same t.intent_id intent_id e))) refl
        | inr e ↦ rw e refl
      ]
  where
    same : (a b : Uuid) → (a == b) ≡ true → a ≡ b
    same a b h = ground arith

    other_payer : (v : String) → v ≢ vpa → str_eq v vpa ≡ false
    other_payer v n = elim (Bool-cases (str_eq v vpa)) [
      | inl e ↦ absurd (n ((eq_iff v vpa).0 e))
      | inr e ↦ e
    ]
