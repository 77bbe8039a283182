-- ===== src/Services/Webhook/Branches.antt =====
-- What a callback does on each branch that raises (app/services/webhook.py).
use payment_gateway_system.Prelude.{
  ℕ, String, Bool, true, false, ◌≡◌, refl, [], arith, if◌then◌else◌, Bool-cases, inl, inr,
}
use payment_gateway_system.Prelude.Rows.{select}
use payment_gateway_system.Models.Payment.{
  Uuid, PaymentStatus, TransactionState, PaymentIntent, Transaction, eq_state, eq_status,
}
use payment_gateway_system.Models.Database.{Db}
use payment_gateway_system.Session.{
  Session, ok, err, ◌>>=◌, catch, rollback, with_session, transaction_not_found, amount_mismatch,
  invalid_state_transition, unexpected,
}
use payment_gateway_system.Services.Ledger.{PostingKeys}
use payment_gateway_system.Services.StateMachine.{
  assert_intent_transition, assert_transaction_transition,
}
use payment_gateway_system.Services.Webhook.{
  Decimal, signaling, by_reference, check_transitions, apply_event, process_bank_callback,
  is_success, is_replay,
}
use payment_gateway_system.Services.Webhook.Lookup.{
  Finds, Matches, callback-found, require_amount-Matches, require_amount-mismatch,
}

-- The states in which a transaction and its intent take an event.
pub record IsOpen (txn : Transaction) (intent : PaymentIntent) : Type 0 where
  pub pending : txn.state ≡ TransactionState.pending
  pub processing : intent.status ≡ PaymentStatus.processing

transaction_gate :
    (s : TransactionState) (b : Bool)
    → assert_transaction_transition s
        (if b then TransactionState.success else TransactionState.failed)
      ≡ (if eq_state s TransactionState.pending then ok tt else err invalid_state_transition)
unfolding assert_transaction_transition
transaction_gate s b = ground arith

intent_gate :
    (s : PaymentStatus) (b : Bool)
    → assert_intent_transition s (if b then PaymentStatus.success else PaymentStatus.failed)
      ≡ (if eq_status s PaymentStatus.processing then ok tt else err invalid_state_transition)
unfolding assert_intent_transition
intent_gate s b = ground arith

pub is_pending :
    (s : TransactionState)
    → eq_state s TransactionState.pending ≡ true
    → s ≡ TransactionState.pending
is_pending s h = ground arith

pub is_processing :
    (s : PaymentStatus) → eq_status s PaymentStatus.processing ≡ true → s ≡ PaymentStatus.processing
is_processing s h = ground arith

module _ (txn : Transaction) (intent : PaymentIntent) (event : String) (s : Session) where
  pub transitions_refused :
      ¬ IsOpen txn intent
      → check_transitions txn intent event s
        ≡ (err invalid_state_transition, record { stored = s.stored; current = s.stored })
  unfolding check_transitions ◌>>=◌ catch rollback
  transitions_refused n =
      rw
        (
          transaction_gate txn.state (is_success event),
          intent_gate intent.status (is_success event),
        )
        (elim (Bool-cases (eq_state txn.state TransactionState.pending)) [
          | inl p ↦ elim (Bool-cases (eq_status intent.status PaymentStatus.processing)) [
            | inl q ↦ absurd (
                n (record {
                  pending = is_pending txn.state p;
                  processing = is_processing intent.status q;
                }))
            | inr q ↦ rw (p, q) refl
          ]
          | inr p ↦ rw p refl
        ])

  pub transitions_accepted : IsOpen txn intent → check_transitions txn intent event s ≡ (ok tt, s)
  unfolding check_transitions ◌>>=◌ catch
  transitions_accepted o =
      rw
        (
          transaction_gate txn.state (is_success event),
          intent_gate intent.status (is_success event),
        )
        (rw (o.pending, o.processing) refl)

module _ (uuid_str : Uuid → String) (keys : PostingKeys) (now : ℕ) (event ref : String)
    (amount : Decimal) (db : Db) where
  pub callback-unknown :
      select (by_reference ref) db.transactions ≡ []
      → with_session (process_bank_callback uuid_str keys now event ref amount) db
        ≡ (err transaction_not_found, db)
  unfolding process_bank_callback with_session ◌>>=◌
  callback-unknown e = rw e refl

  module _ {txn : Transaction} {intent : PaymentIntent} (found : Finds ref txn intent db) where
    pub callback-incomparable :
        amount ≡ signaling
        → with_session (process_bank_callback uuid_str keys now event ref amount) db
          ≡ (err unexpected, db)
    unfolding with_session ◌>>=◌
    callback-incomparable q =
        rw
          (
            callback-found uuid_str keys now event ref amount (record { stored = db; current = db })
                found,
            q,
          )
          refl

    pub callback-mismatch :
        ¬ (amount ≡ signaling)
        → ¬ Matches intent.amount amount
        → with_session (process_bank_callback uuid_str keys now event ref amount) db
          ≡ (err amount_mismatch, db)
    unfolding with_session ◌>>=◌
    callback-mismatch q n =
        rw
          (
            callback-found uuid_str keys now event ref amount (record { stored = db; current = db })
                found,
            require_amount-mismatch intent.amount amount (record { stored = db; current = db }) q n,
          )
          refl

    pub callback-conflict :
        Matches intent.amount amount
        → is_replay txn event ≡ false
        → ¬ IsOpen txn intent
        → with_session (process_bank_callback uuid_str keys now event ref amount) db
          ≡ (err invalid_state_transition, db)
    unfolding with_session ◌>>=◌ apply_event
    callback-conflict m r n =
        rw
          (
            callback-found uuid_str keys now event ref amount (record { stored = db; current = db })
                found,
            require_amount-Matches intent.amount amount (record { stored = db; current = db }) m,
            r,
            transitions_refused txn intent event (record { stored = db; current = db }) n,
          )
          refl
