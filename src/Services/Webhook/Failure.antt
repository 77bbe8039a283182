-- ===== src/Services/Webhook/Failure.antt =====
-- The report of a failed payment (app/services/webhook.py).
use payment_gateway_system.Prelude.{ℕ, String, false, ◌==◌, str_eq, ◌≡◌, refl, List}
use payment_gateway_system.Prelude.Rows.{update}
use payment_gateway_system.Prelude.Laws.{all-update, distinct-update}
use payment_gateway_system.Models.Payment.{
  Uuid, PaymentStatus, TransactionState, PaymentIntent, Transaction,
}
use payment_gateway_system.Models.Database.{
  Db, fits_columns, fits_intent, fits_transaction, unique_keys, unique_intents, unique_transactions,
}
use payment_gateway_system.Session.{Session, ok, ◌>>=◌, commit, with_session}
use payment_gateway_system.Session.Triples.{Kept}
use payment_gateway_system.Services.Ledger.{PostingKeys}
use payment_gateway_system.Services.Payment.{set_intent_status}
use payment_gateway_system.Services.Webhook.{
  Decimal, is_replay, applied_result, apply_event, set_transaction_state, process_bank_callback,
}
use payment_gateway_system.Services.Webhook.Branches.{IsOpen, transitions_accepted}
use payment_gateway_system.Services.Webhook.Lookup.{
  Finds, Matches, callback-found, require_amount-Matches,
}

-- The schema does not see the status of an intent or the state of a transaction.
pub unique_intents-status :
    (key : Uuid) (status : PaymentStatus) (now : ℕ) (is : List PaymentIntent)
    → unique_intents
        (update (λ i. i.id == key) (λ i. record i { status = status; updated_at = now }) is)
      ≡ unique_intents is
unfolding unique_intents
unique_intents-status key status now is =
    rw
      (
        distinct-update (λ a b. a.id == b.id) (λ i. i.id == key)
            (λ i. record i { status = status; updated_at = now }) is (λ x y. refl) (λ x y. refl),
        distinct-update (λ a b. str_eq a.public_id b.public_id) (λ i. i.id == key)
            (λ i. record i { status = status; updated_at = now }) is (λ x y. refl) (λ x y. refl),
        distinct-update (λ a b. str_eq a.idempotency_key b.idempotency_key) (λ i. i.id == key)
            (λ i. record i { status = status; updated_at = now }) is (λ x y. refl) (λ x y. refl),
      )
      refl

unique_transactions-state :
    (key : Uuid) (state : TransactionState) (ts : List Transaction)
    → unique_transactions (update (λ t. t.id == key) (λ t. record t { state = state }) ts)
      ≡ unique_transactions ts
unfolding unique_transactions
unique_transactions-state key state ts =
    rw
      (
        distinct-update (λ a b. a.id == b.id) (λ t. t.id == key) (λ t. record t { state = state })
            ts (λ x y. refl) (λ x y. refl),
        distinct-update (λ a b. str_eq a.public_id b.public_id) (λ t. t.id == key)
            (λ t. record t { state = state }) ts (λ x y. refl) (λ x y. refl),
      )
      refl

-- The database with the new status and the new state.
abbrev pub marked : Uuid → TransactionState → Uuid → PaymentStatus → ℕ → Db → Db
marked txn state intent status now db =
    set_intent_status intent status now (set_transaction_state txn state db)

module _ (txn : Uuid) (state : TransactionState) (intent : Uuid) (status : PaymentStatus) (now : ℕ)
    (db : Db) where
  pub fits_columns-marked : fits_columns (marked txn state intent status now db) ≡ fits_columns db
  unfolding fits_columns fits_intent fits_transaction
  fits_columns-marked =
      rw
        (
          all-update fits_intent (λ i. i.id == intent)
              (λ i. record i { status = status; updated_at = now }) db.intents (λ i. refl),
          all-update fits_transaction (λ t. t.id == txn) (λ t. record t { state = state })
              db.transactions (λ t. refl),
        )
        refl

  pub unique_keys-marked : unique_keys (marked txn state intent status now db) ≡ unique_keys db
  unfolding unique_keys
  unique_keys-marked =
      rw
        (
          unique_intents-status intent status now db.intents,
          unique_transactions-state txn state db.transactions,
        )
        refl

pending_is_new :
    (txn : Transaction)
    → txn.state ≡ TransactionState.pending
    → is_replay txn "payment.failed" ≡ false
pending_is_new txn h = rw h refl

-- A report that an open payment failed, with the amount of the order, on a database that meets the
-- constraints of the schema: it always goes through, the transaction and its intent are marked as
-- failed, and no other table changes, so no money moves.
pub failure_applies :
    (uuid_str : Uuid → String) (keys : PostingKeys) (now : ℕ) (ref : String) (amount : Decimal)
    (txn : Transaction) (intent : PaymentIntent) (db : Db)
    → Kept (Finds ref txn intent) db
    → Matches intent.amount amount
    → IsOpen txn intent
    → with_session (process_bank_callback uuid_str keys now "payment.failed" ref amount) db ≡ (
      ok (applied_result txn intent "payment.failed"),
      marked txn.id TransactionState.failed intent.id PaymentStatus.failed now db,
    )
unfolding with_session ◌>>=◌ apply_event commit
failure_applies uuid_str keys now ref amount txn intent db k m o =
    let s : Session = record { stored = db; current = db } in
    rw
      (
        callback-found uuid_str keys now "payment.failed" ref amount s k.holds,
        require_amount-Matches intent.amount amount s m,
        pending_is_new txn o.pending,
        transitions_accepted txn intent "payment.failed" s o,
        fits_columns-marked txn.id TransactionState.failed intent.id PaymentStatus.failed now db,
        unique_keys-marked txn.id TransactionState.failed intent.id PaymentStatus.failed now db,
        k.fits,
        k.unique,
      )
      refl
