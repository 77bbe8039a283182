-- ===== src/Services/Mirror/Started.antt =====
-- The payment of an order that initiate_upi starts (app/services/payment.py).
use payment_gateway_system.Prelude.{ℕ, true, false, ◌≡◌, refl, ◌∷◌, ◌==◌, arith, if◌then◌else◌}
use payment_gateway_system.Prelude.Rows.{IsRow, distinct}
use payment_gateway_system.Prelude.Laws.{==_refl}
use payment_gateway_system.Prelude.Keys.{any_row}
use payment_gateway_system.Models.Payment.{
  PaymentStatus, TransactionState, PaymentIntent, Transaction,
}
use payment_gateway_system.Models.Database.{Db}
use payment_gateway_system.Services.Payment.{set_intent_status, add_transaction}
use payment_gateway_system.Services.Mirror.{states, IsMirrored, taken-IsMirrored}

pub started-IsMirrored :
    (db : Db) (i : PaymentIntent) (t : Transaction) (now : ℕ)
    → distinct (λ (a b : PaymentIntent). a.id == b.id) db.intents ≡ true
    → IsMirrored db
    → IsRow i db.intents
    → i.status ≡ PaymentStatus.created
    → t.state ≡ TransactionState.pending
    → t.intent_id ≡ i.id
    → IsMirrored (add_transaction t (set_intent_status i.id PaymentStatus.processing now db))
unfolding states
started-IsMirrored db i t now ids h r c p o =
    taken-IsMirrored db ids h i r PaymentStatus.processing now (t ∷ db.transactions)
      (rw (o, ==_refl i.id, p, h.mirrors i r, c) refl) (λ j n. rw o (other j.id n))
      (rw o (any_row (λ j. j.id == i.id) db.intents i r (==_refl i.id)), h.owned)
  where
    other :
        (k : ℕ)
        → (k == i.id) ≡ false
        → (if i.id == k then t.state ∷ states k db.transactions else states k db.transactions)
          ≡ states k db.transactions
    other k n = ground arith
