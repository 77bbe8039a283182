-- ===== src/Services/Webhook/Redelivery.antt =====
-- A second delivery of a callback that went through (app/services/webhook.py).
use payment_gateway_system.Prelude.{
  ℕ, String, true, ◌≡◌, sym, refl, ◌∙◌, ap, none, Bool-cases, inl, inr,
}
use payment_gateway_system.Prelude.Int.{ℤ}
use payment_gateway_system.Prelude.Laws.{select-update_one, ==_refl}
use payment_gateway_system.Models.Payment.{
  Uuid, PaymentStatus, TransactionState, PaymentIntent, Transaction,
}
use payment_gateway_system.Models.Database.{Db}
use payment_gateway_system.Session.{Session, Result, ok, ◌>>=◌, ◌>>◌, pure, commit, with_session}
use payment_gateway_system.Session.Triples.{
  Ends, Triple, Triple-bind, Triple-leaves, Triple-if, Triple-write_to, Triple-commit-Kept, Working,
  Kept, Untouched, LeavesSession-pure,
}
use payment_gateway_system.Services.Ledger.{PostingKeys}
use payment_gateway_system.Services.Payment.{set_intent_status}
use payment_gateway_system.Services.Webhook.{
  Decimal, BankEvent, payment_success, payment_failed, event_name, by_reference, by_id,
  set_transaction_state, CallbackResult, applied_result, apply_event, process_bank_callback,
  target_txn, target_intent, is_success, is_replay, replay_result,
}
use payment_gateway_system.Services.Webhook.Lookup.{
  Finds, callback-found, Matches, units, require_amount-Matches, Returned, callback-Returned,
}
use payment_gateway_system.Services.Webhook.Rules.{check_transitions-Triple, settle-keeps}

set_transaction_state-Finds :
    {ref : String} {txn : Transaction} {intent : PaymentIntent} (state : TransactionState) (db : Db)
    → Finds ref txn intent db
    → Finds ref (record txn { state = state }) intent (set_transaction_state txn.id state db)
set_transaction_state-Finds {ref} {txn} state db f = record {
  transaction =
      select-update_one (by_reference ref) _ _ db.transactions (λ t. refl) f.transaction
        (==_refl txn.id);
  owner = f.owner;
}

set_intent_status-Finds :
    {ref : String} {txn : Transaction} {intent : PaymentIntent} (status : PaymentStatus) (now : ℕ)
    (db : Db)
    → Finds ref txn intent db
    → Finds ref txn
        (record intent { status = status; updated_at = now })
        (set_intent_status intent.id status now db)
set_intent_status-Finds {ref} {txn} {intent} status now db f = record {
  transaction = f.transaction;
  owner =
      select-update_one (by_id txn.intent_id) _ _ db.intents (λ i. refl) f.owner
        (==_refl intent.id);
}

-- A new session.
abbrev pub start : Db → Session
start db = record { stored = db; current = db }

-- The rows after the event was applied.
abbrev final_txn : Transaction → String → Transaction
final_txn txn event = record txn { state = target_txn event }

abbrev final_intent : PaymentIntent → String → ℕ → PaymentIntent
final_intent intent event now = record intent { status = target_intent event; updated_at = now }

-- The action returned this answer, and stored a database in which a callback finds these rows.
record Applied (ref : String) (answer : CallbackResult) (txn : Transaction) (intent : PaymentIntent)
    (r : CallbackResult) (s : Session) : Type 0 where
  result : r ≡ answer
  clean : s.stored ≡ s.current
  kept : Kept (Finds ref txn intent) s.current

module _ (base : Db) (ref event : String) (txn : Transaction) (intent : PaymentIntent)
    (uuid_str : Uuid → String) (keys : PostingKeys) (now : ℕ) (amount : ℤ) where
  apply_event-Applied :
      Triple
        (Working base (Finds ref txn intent))
        (apply_event uuid_str keys now event txn intent amount)
        (Applied ref
          (applied_result txn intent event)
          (final_txn txn event)
          (final_intent intent event now))
        (Untouched base)
  unfolding apply_event
  apply_event-Applied = Triple-bind _ _ (check_transitions-Triple base _ txn intent event) λ _.
      Triple-bind _ _
        (Triple-write_to {J = Finds ref (final_txn txn event) intent} _
          (set_transaction_state-Finds (target_txn event)))
        λ _.
          Triple-bind _ _
            (Triple-write_to {J = Finds ref (final_txn txn event) (final_intent intent event now)} _
              (set_intent_status-Finds (target_intent event) now))
            λ _.
              Triple-bind _ _
                (Triple-if (is_success event) _ _
                  (λ e.
                    settle-keeps base _
                      (λ a es d f. record { transaction = f.transaction; owner = f.owner }) uuid_str
                      keys txn intent amount)
                  (λ e. Triple-leaves _ (LeavesSession-pure tt)))
                λ _. Triple-bind _ _ Triple-commit-Kept λ _. record {
                  at = λ s w. record { result = refl; clean = w.clean; kept = w.holds };
                }

-- A callback that the state of its transaction shows to be a replay.
pub callback-replay :
    (uuid_str : Uuid → String) (keys : PostingKeys) (now : ℕ) (event ref : String)
    (amount : Decimal) (db : Db) {txn : Transaction} {intent : PaymentIntent}
    → Kept (Finds ref txn intent) db
    → is_replay txn event ≡ true
    → Matches intent.amount amount
    → process_bank_callback uuid_str keys now event ref amount (start db)
      ≡ (ok (replay_result txn), start db)
unfolding ◌>>=◌ commit
callback-replay uuid_str keys now event ref amount db {txn} {intent} k r m =
    let s : Session = start db in
    rw
      (
        callback-found uuid_str keys now event ref amount s k.holds,
        require_amount-Matches intent.amount amount s m,
        r,
        k.fits,
        k.unique,
      )
      refl

replay-Applied :
    (base : Db) (ref : String) (txn : Transaction) (intent : PaymentIntent)
    → Triple
        (Working base (Finds ref txn intent))
        (commit >> pure (replay_result txn))
        (Applied ref (replay_result txn) txn intent)
        (Untouched base)
replay-Applied base ref txn intent =
    Triple-bind _ _ Triple-commit-Kept
      λ _. record { at = λ s w. record { result = refl; clean = w.clean; kept = w.holds } }

-- What a later delivery of the same callback finds, and what it will answer.
pub record Settled (ref event : String) (amount : Decimal) (r : CallbackResult) (db : Db)
    : Type 0 where
  pub txn : Transaction
  pub intent : PaymentIntent
  pub kept : Kept (Finds ref txn intent) db
  pub amounts : Matches intent.amount amount
  pub replayed : is_replay txn event ≡ true
  pub answer : replay_result txn ≡ record r { replay = true; order_id = none }

final-is_replay :
    (txn : Transaction) (e : BankEvent)
    → is_replay (final_txn txn (event_name e)) (event_name e) ≡ true
final-is_replay txn payment_success = refl
final-is_replay txn payment_failed = refl

final-answer :
    (txn : Transaction) (intent : PaymentIntent) (e : BankEvent)
    → replay_result (final_txn txn (event_name e))
      ≡ record (applied_result txn intent (event_name e)) { replay = true; order_id = none }
final-answer txn intent payment_success = refl
final-answer txn intent payment_failed = refl

module _ (uuid_str : Uuid → String) (keys : PostingKeys) (now : ℕ) (e : BankEvent) (ref : String)
    (amount : Decimal) (db : Db) where
  Settled-by_apply :
      (f : Returned ref amount db) {r : CallbackResult} {s : Session}
      → Ends
          (Applied ref
            (applied_result f.txn f.intent (event_name e))
            (final_txn f.txn (event_name e))
            (final_intent f.intent (event_name e) now))
          (Untouched db)
          (ok r, s)
      → Settled ref (event_name e) amount r s.stored
  Settled-by_apply f {r} {s} a = record {
    txn = final_txn f.txn (event_name e);
    intent = final_intent f.intent (event_name e) now;
    kept = rw a.clean a.kept;
    amounts = f.amounts;
    replayed = final-is_replay f.txn e;
    answer = rw a.result (final-answer f.txn f.intent e);
  }

  Settled-by_replay :
      (f : Returned ref amount db) {r : CallbackResult} {s : Session}
      → is_replay f.txn (event_name e) ≡ true
      → Ends (Applied ref (replay_result f.txn) f.txn f.intent) (Untouched db) (ok r, s)
      → Settled ref (event_name e) amount r s.stored
  Settled-by_replay f {r} {s} p a = record {
    txn = f.txn;
    intent = f.intent;
    kept = rw a.clean a.kept;
    amounts = f.amounts;
    replayed = p;
    answer = rw a.result refl;
  }

  pub delivery-Settled :
      (f : Returned ref amount db) {r : CallbackResult} {s : Session}
      → process_bank_callback uuid_str keys now (event_name e) ref amount (start db) ≡ (ok r, s)
      → Settled ref (event_name e) amount r s.stored
  unfolding ◌>>=◌
  delivery-Settled f {r} {s} h =
      let g =
        sym (callback-found uuid_str keys now (event_name e) ref amount (start db) f.found) ∙ h in
      elim (Bool-cases (is_replay f.txn (event_name e))) [
        | inl p ↦
            let a = replay-Applied db ref f.txn f.intent in
            Settled-by_replay f p (
              rw (rw (require_amount-Matches f.intent.amount amount (start db) f.amounts, p) at g)
                at (a.at (start db) (record { fresh = refl; holds = f.found })))
        | inr p ↦
            let a =
              apply_event-Applied db ref (event_name e) f.txn f.intent uuid_str keys now
                (units amount) in
            Settled-by_apply f (
              rw (rw (require_amount-Matches f.intent.amount amount (start db) f.amounts, p) at g)
                at (a.at (start db) (record { fresh = refl; holds = f.found })))
      ]

-- What is left of a run when its session is closed.
abbrev closed : Result CallbackResult × Session → Result CallbackResult × Db
closed p = (p.0, p.1.stored)

-- A callback of a known event that returned, also as a replay: each later delivery of it, with
-- whatever keys and at whatever time, answers as a replay for the same transaction with the same
-- status, and changes nothing in the database.
pub redelivery_changes_nothing :
    (uuid_str : Uuid → String) (keys keys' : PostingKeys) (now now' : ℕ) (e : BankEvent)
    (ref : String) (amount : Decimal) (db : Db) {r : CallbackResult} {db' : Db}
    → with_session (process_bank_callback uuid_str keys now (event_name e) ref amount) db
      ≡ (ok r, db')
    → with_session (process_bank_callback uuid_str keys' now' (event_name e) ref amount) db'
      ≡ (ok (record r { replay = true; order_id = none }), db')
unfolding with_session
redelivery_changes_nothing uuid_str keys keys' now now' e ref amount db {r} {db'} h =
    second (delivery-Settled uuid_str keys now e ref amount db found ended)
  where
    run : Result CallbackResult × Session
    run = process_bank_callback uuid_str keys now (event_name e) ref amount (start db)

    ended : run ≡ (ok r, run.1)
    ended = λ i. ((h i).0, run.1)

    found : Returned ref amount db
    found = callback-Returned uuid_str keys now (event_name e) ref amount _ ended

    second :
        Settled ref (event_name e) amount r run.1.stored
        → with_session (process_bank_callback uuid_str keys' now' (event_name e) ref amount) db'
          ≡ (ok (record r { replay = true; order_id = none }), db')
    second q = rw (ap (λ (p : Result CallbackResult × Db). p.1) h) at (
        rw q.answer at (
          ap closed (
            callback-replay uuid_str keys' now' (event_name e) ref amount run.1.stored q.kept
              q.replayed q.amounts)))
