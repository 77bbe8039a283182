-- ===== src/Services/Webhook/Rules.antt =====
-- A callback of the bank (app/services/webhook.py) for any statement about the database: what the
-- ledger lines and the two writes of states keep, the whole callback keeps.
use payment_gateway_system.Prelude.{ℕ, String, ◌≡◌, ◌≢◌, refl, Option, List, ◌∷◌, arith}
use payment_gateway_system.Prelude.Int.{ℤ}
use payment_gateway_system.Prelude.Rows.{any}
use payment_gateway_system.Models.Payment.{
  Uuid, PaymentStatus, TransactionState, PaymentIntent, Transaction,
}
use payment_gateway_system.Models.Ledger.{AccountType, LedgerAccount, LedgerEntry}
use payment_gateway_system.Models.Database.{Db, fits_account, same_account_key}
use payment_gateway_system.Session.{
  Session, Error, ok, ◌>>=◌, ◌>>◌, pure, commit, rollback, invalid_state_transition,
}
use payment_gateway_system.Session.Triples.{
  Ends-if, Triple, Triple-catch, Triple-bind, Triple-leaves, Triple-if, Triple-write, Triple-commit,
  Triple-pure-clean, Working, Stored, Untouched, LeavesSession, LeavesSession-pure, leaving,
}
use payment_gateway_system.Services.Accounts.{has_account, new_account, insert_or_ignore}
use payment_gateway_system.Services.Ledger.{PostingKeys}
use payment_gateway_system.Services.Payment.{set_intent_status}
use payment_gateway_system.Services.Webhook.{
  Decimal, fixed, other, signaling, on_invalid_transition, set_transaction_state,
  ensure_account_locked, require_amount, check_transitions, settle, apply_event,
  process_bank_callback, target_txn, target_intent, is_success, is_replay, replay_result,
}

on_invalid_transition-raises :
    (base : Db) (e : Error) (u : Session)
    → u.stored ≡ base
    → Untouched base (on_invalid_transition e u).1
      × ((x : Unit {0}) → (on_invalid_transition e u).0 ≢ ok x)
unfolding ◌>>=◌ rollback
on_invalid_transition-raises base invalid_state_transition u f = (record { fresh = f }, λ x p. cc)
on_invalid_transition-raises base _ u f = (record { fresh = f }, λ x p. cc)

pub check_transitions-Triple :
    (base : Db) (I : Db → Type 0) (txn : Transaction) (intent : PaymentIntent) (event : String)
    → Triple
        (Working base I)
        (check_transitions txn intent event)
        (λ u. Working base I)
        (Untouched base)
unfolding check_transitions
check_transitions-Triple base I txn intent event =
    Triple-catch _ _ (search leaving) (on_invalid_transition-raises base)

pub LeavesSession-require_amount : (a : ℤ) (d : Decimal) → LeavesSession (require_amount a d)
LeavesSession-require_amount a (fixed b) = record { same = λ s. ground arith }
LeavesSession-require_amount a (other text) = record { same = λ s. refl }
LeavesSession-require_amount a signaling = record { same = λ s. refl }

module _ (base : Db) (I : Db → Type 0) (uuid_str : Uuid → String) (keys : PostingKeys)
    (settles : (txn : Transaction) (intent : PaymentIntent) (amount : ℤ)
      → Triple
          (Working base I)
          (settle uuid_str keys txn intent amount)
          (λ u. Working base I)
          (Untouched base))
    (states : (t : Uuid) (state : TransactionState) (db : Db)
      → I db
      → I (set_transaction_state t state db))
    (statuses : (i : Uuid) (status : PaymentStatus) (now : ℕ) (db : Db)
      → I db
      → I (set_intent_status i status now db))
    (now : ℕ) (event : String) where
  apply_event-Triple :
      (txn : Transaction) (intent : PaymentIntent) (amount : ℤ)
      → Triple
          (Working base I)
          (apply_event uuid_str keys now event txn intent amount)
          (λ r. Stored I)
          (Untouched base)
  unfolding apply_event
  apply_event-Triple txn intent amount =
      Triple-bind _ _ (check_transitions-Triple base I txn intent event) λ _.
        Triple-bind _ _ (Triple-write _ (states txn.id (target_txn event))) λ _.
          Triple-bind _ _ (Triple-write _ (statuses intent.id (target_intent event) now)) λ _.
            Triple-bind _ _
              (Triple-if (is_success event) _ _ (λ e. settles txn intent amount)
                (λ e. Triple-leaves _ (LeavesSession-pure tt)))
              λ _. Triple-bind _ _ Triple-commit λ _. Triple-pure-clean _

  replay-Triple :
      (txn : Transaction)
      → Triple
          (Working base I)
          (commit >> pure (replay_result txn))
          (λ r. Stored I)
          (Untouched base)
  replay-Triple txn = Triple-bind _ _ Triple-commit λ _. Triple-pure-clean _

  pub callback-Triple :
      (ref : String) (amount : Decimal)
      → Triple
          (Working base I)
          (process_bank_callback uuid_str keys now event ref amount)
          (λ r. Stored I)
          (Untouched base)
  unfolding process_bank_callback
  callback-Triple ref amount = Triple-bind _ _ (Triple-leaves _ (search leaving)) λ rows.
      Triple-bind _ _ (Triple-leaves _ (search leaving)) λ found.
        Triple-bind _ _ (Triple-leaves _ (search leaving)) λ txn.
          Triple-bind _ _ (Triple-leaves _ (search leaving)) λ intents.
            Triple-bind _ _ (Triple-leaves _ (search leaving)) λ intent.
              Triple-bind _ _ (Triple-leaves _ (LeavesSession-require_amount intent.amount amount))
                λ units.
                  Triple-if (is_replay txn event) _ _ (λ e. replay-Triple txn)
                    (λ e. apply_event-Triple txn intent units)

-- A statement that the accounts have no part in is kept by creating or finding one.
module _ (base : Db) (I : Db → Type 0)
    (keeps : (accounts : List LedgerAccount) (db : Db)
      → I db
      → I (record db { accounts = accounts })) where
  insert_or_ignore-Triple :
      (a : LedgerAccount)
      → Triple (Working base I) (insert_or_ignore a) (λ u. Working base I) (Untouched base)
  unfolding insert_or_ignore
  insert_or_ignore-Triple a = record {
    at = λ s w.
        Ends-if _ _ (fits_account a) _ _
          (λ f.
            Ends-if _ _ (any (same_account_key a) s.current.accounts) _ _ (λ u. w)
              (λ u.
                Ends-if _ _ (has_account a.id s.current.accounts) _ _
                  (λ t. record { fresh = w.fresh })
                  (λ t. record {
                    fresh = w.fresh;
                    holds = keeps (a ∷ s.current.accounts) s.current w.holds;
                  })))
          (λ f. record { fresh = w.fresh });
  }

  pub ensure-keeps :
      (key : Uuid) (t : AccountType) (identifier : String) (m : Option Uuid)
      → Triple
          (Working base I)
          (ensure_account_locked key t identifier m)
          (λ a. Working base I)
          (Untouched base)
  unfolding ensure_account_locked
  ensure-keeps key t identifier m =
      Triple-bind _ _ (insert_or_ignore-Triple (new_account key t identifier m)) λ _.
        Triple-bind _ _ (Triple-leaves _ (search leaving)) λ rows. Triple-leaves _ (search leaving)

-- A statement that the accounts and the entries have no part in is kept by the ledger lines.
pub settle-keeps :
    (base : Db) (I : Db → Type 0)
    (keeps : (accounts : List LedgerAccount) (entries : List LedgerEntry) (db : Db)
      → I db
      → I (record db { accounts = accounts; entries = entries }))
    (uuid_str : Uuid → String) (keys : PostingKeys) (txn : Transaction) (intent : PaymentIntent)
    (amount : ℤ)
    → Triple
        (Working base I)
        (settle uuid_str keys txn intent amount)
        (λ u. Working base I)
        (Untouched base)
unfolding settle
settle-keeps base I keeps uuid_str keys txn intent amount =
    let accounts_keep : (accounts : List LedgerAccount) (db : Db)
        → I db
        → I (record db { accounts = accounts }) =
      λ accounts db h. keeps accounts db.entries db h in
    Triple-bind _ _ (ensure-keeps base I accounts_keep _ _ _ _) λ payer.
      Triple-bind _ _ (ensure-keeps base I accounts_keep _ _ _ _) λ merchant.
        Triple-bind _ _ (Triple-write _ (λ d h. keeps _ d.entries d h)) λ _.
          Triple-bind _ _ (Triple-write _ (λ d h. keeps _ d.entries d h))
            λ _. Triple-write _ (λ d h. keeps d.accounts _ d h)
