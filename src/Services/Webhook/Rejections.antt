-- ===== src/Services/Webhook/Rejections.antt =====
-- The callbacks that the service refuses (app/services/webhook.py).
use payment_gateway_system.Prelude.{
  arith, ℕ, String, true, false, ◌≡◌, ◌≢◌, refl, ap, Option, none, some, str_eq, eq_iff, Bool-cases,
  inl, inr, ◌==◌,
}
use payment_gateway_system.Prelude.Int.{ℤ, eqb_ℤ}
use payment_gateway_system.Prelude.Rows.{IsRow}
use payment_gateway_system.Prelude.Keys.{no_rows, sole_row, unique_row}
use payment_gateway_system.Models.Payment.{Uuid, TransactionState, PaymentIntent, Transaction}
use payment_gateway_system.Models.Database.{Db, unique_keys}
use payment_gateway_system.Session.{
  Error, err, with_session, transaction_not_found, amount_mismatch, invalid_state_transition,
  unexpected,
}
use payment_gateway_system.Services.Ledger.{PostingKeys}
use payment_gateway_system.Services.Webhook.{
  Decimal, fixed, other, signaling, BankEvent, payment_success, payment_failed, event_name,
  by_reference, by_id, is_replay, process_bank_callback,
}
use payment_gateway_system.Services.Webhook.Lookup.{Finds, Matches, units}
use payment_gateway_system.Services.Webhook.Branches.{
  IsOpen, callback-unknown, callback-incomparable, callback-mismatch, callback-conflict,
}
use payment_gateway_system.Services.Webhook.Earnings.{units-Matches, distinct_intents}
use payment_gateway_system.Services.Webhook.Once.{distinct_transactions}

-- The transaction with this reference, the only one, and its order.
pub record Reports (ref : String) (txn : Transaction) (intent : PaymentIntent) (db : Db)
    : Type 0 where
  pub row : IsRow txn db.transactions
  pub reference : txn.psp_reference ≡ some ref
  pub sole : (t : Transaction) → IsRow t db.transactions → t.psp_reference ≡ some ref → t ≡ txn
  pub order : IsRow intent db.intents
  pub owner : intent.id ≡ txn.intent_id

-- The event that ended a transaction, reported again.
pub data Repeats : BankEvent → TransactionState → Type 0 where
  success_again : Repeats payment_success TransactionState.success
  failure_again : Repeats payment_failed TransactionState.failed

-- The callbacks that are refused, each with its exception.
pub data Refused (e : BankEvent) (ref : String) (amount : Decimal) (db : Db) : Error → Type 0 where
  unknown :
      ((t : Transaction) → IsRow t db.transactions → t.psp_reference ≢ some ref)
      → Refused e ref amount db transaction_not_found
  not_comparable :
      {txn : Transaction} {intent : PaymentIntent}
      → Reports ref txn intent db
      → amount ≡ signaling
      → Refused e ref amount db unexpected
  mismatch :
      {txn : Transaction} {intent : PaymentIntent}
      → Reports ref txn intent db
      → amount ≢ signaling
      → amount ≢ fixed intent.amount
      → Refused e ref amount db amount_mismatch
  conflict :
      {txn : Transaction} {intent : PaymentIntent}
      → Reports ref txn intent db
      → amount ≡ fixed intent.amount
      → ¬ Repeats e txn.state
      → ¬ IsOpen txn intent
      → Refused e ref amount db invalid_state_transition

referenced :
    (ref : String) (t : Transaction) → by_reference ref t ≡ true → t.psp_reference ≡ some ref
referenced ref t h = go t.psp_reference h
  where
    go : (o : Option String) → elim o [ none ↦ false | some r ↦ str_eq r ref ] ≡ true → o ≡ some ref
    go none h = cc
    go (some r) h = ap some ((eq_iff r ref).0 h)

unreferenced :
    (ref : String) (t : Transaction) → t.psp_reference ≢ some ref → by_reference ref t ≡ false
unreferenced ref t n = elim (Bool-cases (by_reference ref t)) [
  | inl h ↦ absurd (n (referenced ref t h))
  | inr h ↦ h
]

same_key : (a b : Uuid) → (a == b) ≡ true → a ≡ b
same_key a b h = ground arith

-- What the queries find where the keys are unique.
Reports-Finds :
    {ref : String} {txn : Transaction} {intent : PaymentIntent} (db : Db)
    → unique_keys db ≡ true
    → Reports ref txn intent db
    → Finds ref txn intent db
Reports-Finds {ref} {txn} {intent} db u r = record {
  transaction =
      sole_row (λ (t : Transaction). t.id) (by_reference ref) db.transactions txn r.row
        (rw r.reference ((eq_iff ref ref).1 refl)) (λ t q h. r.sole t q (referenced ref t h))
        (distinct_transactions db u);
  owner =
      sole_row (λ (i : PaymentIntent). i.id) (by_id txn.intent_id) db.intents intent r.order
        (is_same intent.id txn.intent_id r.owner)
        (λ i q h.
          unique_row (λ (x : PaymentIntent). x.id) db.intents intent i (distinct_intents db u)
            r.order q (rw r.owner h))
        (distinct_intents db u);
}
  where
    is_same : (a b : Uuid) → a ≡ b → (a == b) ≡ true
    is_same a b p = ground arith

not_replay :
    (e : BankEvent) (txn : Transaction) (s : TransactionState)
    → txn.state ≡ s
    → ¬ Repeats e s
    → is_replay txn (event_name e) ≡ false
not_replay payment_success txn TransactionState.success q n = absurd (n success_again)
not_replay payment_success txn TransactionState.failed q n = rw q refl
not_replay payment_failed txn TransactionState.success q n = rw q refl
not_replay payment_failed txn TransactionState.failed q n = absurd (n failure_again)
not_replay _ txn TransactionState.initiated q n = rw q refl
not_replay _ txn TransactionState.pending q n = rw q refl

other_amount : (a : ℤ) (d : Decimal) → d ≢ fixed a → ¬ Matches a d
unfolding units
other_amount a (fixed b) n m = n (ap fixed (units-Matches a (fixed b) m))
other_amount a (other text) n m = m
other_amount a signaling n m = m

same_amount : (a : ℤ) (d : Decimal) → d ≡ fixed a → Matches a d
same_amount a d q = rw q (itself a)
  where
    itself : (a : ℤ) → eqb_ℤ a a ≡ true
    itself a = ground arith

-- On a database whose keys are unique, a callback with a reference that no transaction has, or for
-- the only transaction with its reference, with an amount that cannot be compared, with another
-- amount than that of the order, or with an event that is not the one that ended the transaction
-- while the transaction is not pending or the order not in processing, fails with the exception of
-- its case, and nothing is stored.
pub callback-Refused :
    (uuid_str : Uuid → String) (keys : PostingKeys) (now : ℕ) (e : BankEvent) (ref : String)
    (amount : Decimal) (db : Db) {x : Error}
    → unique_keys db ≡ true
    → Refused e ref amount db x
    → with_session (process_bank_callback uuid_str keys now (event_name e) ref amount) db
      ≡ (err x, db)
callback-Refused uuid_str keys now e ref amount db u (unknown n) =
    callback-unknown uuid_str keys now (event_name e) ref amount db (
      no_rows (λ (t : Transaction). t.id) (by_reference ref) db.transactions
        λ t r. unreferenced ref t (n t r))
callback-Refused uuid_str keys now e ref amount db u (not_comparable r q) =
    callback-incomparable uuid_str keys now (event_name e) ref amount db (Reports-Finds db u r) q
callback-Refused uuid_str keys now e ref amount db u (mismatch r q n) =
    callback-mismatch uuid_str keys now (event_name e) ref amount db (Reports-Finds db u r) q
      (other_amount _ amount n)
callback-Refused uuid_str keys now e ref amount db u (conflict {txn} r q n o) =
    callback-conflict uuid_str keys now (event_name e) ref amount db (Reports-Finds db u r)
      (same_amount _ amount q) (not_replay e txn txn.state refl n) o
