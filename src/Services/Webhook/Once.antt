-- ===== src/Services/Webhook/Once.antt =====
-- A callback of the bank (app/services/webhook.py) posts a transaction to the ledger once.
use payment_gateway_system.Prelude.{ℕ, String, true, false, ◌≡◌, refl, List, ◌==◌, ◌&&◌, arith}
use payment_gateway_system.Prelude.Int.{ℤ, eqb_ℤ}
use payment_gateway_system.Prelude.Rows.{distinct}
use payment_gateway_system.Prelude.Laws.{any-select, select-head, ==_refl}
use payment_gateway_system.Models.Payment.{
  Uuid, PaymentStatus, TransactionState, PaymentIntent, Transaction, eq_state,
}
use payment_gateway_system.Models.Ledger.{EntryType, LedgerAccount, default_currency}
use payment_gateway_system.Models.Database.{Db, unique_keys, unique_transactions}
use payment_gateway_system.Session.{with_session}
use payment_gateway_system.Session.Triples.{
  Triple, Triple-bind, Triple-write, Triple-write_to, Working, Kept, Untouched,
}
use payment_gateway_system.Services.Ledger.{PostingKeys, entry}
use payment_gateway_system.Services.Postings.{
  IsPostedOnce, IsDue, IsOpenFor, set_intent_status-IsPostedOnce, set_intent_status-IsDue,
  set_success-IsDue, set_failed-IsPostedOnce, add_entries-IsPostedOnce,
}
use payment_gateway_system.Services.Webhook.{
  Decimal, fixed, other, signaling, by_id, settle, process_bank_callback,
}
use payment_gateway_system.Services.Webhook.Branches.{IsOpen}
use payment_gateway_system.Services.Webhook.Lookup.{Finds, Matches, units, Returned}
use payment_gateway_system.Services.Webhook.Rules.{ensure-keeps}
use payment_gateway_system.Services.Webhook.Succeeded.{succeeded-select}
use payment_gateway_system.Services.Webhook.Course.{callback-Kept}

-- The ledger lines of a success, where they are due.
settle-posts :
    (base : Db) (uuid_str : Uuid → String) (keys : PostingKeys) (txn : Transaction)
    (intent : PaymentIntent) (amount : ℤ)
    → Triple
        (Working base (IsDue txn.id amount))
        (settle uuid_str keys txn intent amount)
        (λ u. Working base IsPostedOnce)
        (Untouched base)
unfolding settle
settle-posts base uuid_str keys txn intent amount =
    let I : Db → Type 0 = IsDue txn.id amount in
    let keeps : (accounts : List LedgerAccount) (db : Db)
        → I db
        → I (record db { accounts = accounts }) =
      λ accounts db p. record {
        others = p.others;
        settled = p.settled;
        amounts = p.amounts;
        owed = p.owed;
      } in
    Triple-bind _ _ (ensure-keeps base I keeps _ _ _ _) λ payer.
      Triple-bind _ _ (ensure-keeps base I keeps _ _ _ _) λ merchant.
        Triple-bind _ _ (Triple-write _ (λ d h. keeps _ d h)) λ _.
          Triple-bind _ _ (Triple-write _ (λ d h. keeps _ d h)) λ _. Triple-write_to _ (λ d h.
            add_entries-IsPostedOnce
              (entry keys.debit_entry payer txn amount EntryType.debit default_currency)
              (entry keys.credit_entry merchant txn amount EntryType.credit default_currency) txn.id
              amount d refl refl refl refl refl refl h)

-- What a callback that returns starts from.
record Starts (ref : String) (txn : Transaction) (intent : PaymentIntent) (amount : ℤ) (db : Db)
    : Type 0 where
  posted : IsPostedOnce db
  found : Finds ref txn intent db
  ids : distinct (λ (a b : Transaction). a.id == b.id) db.transactions ≡ true
  amounts : eqb_ℤ intent.amount amount ≡ true

pub not_success :
    (s : TransactionState)
    → s ≡ TransactionState.pending
    → eq_state s TransactionState.success ≡ false
not_success s h = ground arith

Starts-IsOpenFor :
    (ref : String) (txn : Transaction) (intent : PaymentIntent) (amount : ℤ) (db : Db)
    → IsOpen txn intent
    → Starts ref txn intent amount db
    → IsOpenFor txn.id amount db
Starts-IsOpenFor ref txn intent amount db o w = record {
  posted = w.posted;
  unsettled =
      succeeded-select _ db.transactions txn w.found.transaction w.ids
        (not_success txn.state o.pending);
  known = any-select _ (λ t. t.id == txn.id) db.transactions w.found.transaction (==_refl txn.id);
  owed = any-select _ _ db.transactions w.found.transaction (
      rw
        (
          ==_refl txn.id,
          any-select (by_id txn.intent_id) (λ i. (i.id == txn.intent_id) && eqb_ℤ i.amount amount)
              db.intents w.found.owner
              (rw (select-head (by_id txn.intent_id) db.intents w.found.owner, w.amounts) refl),
        )
        refl);
}

pub distinct_transactions :
    (db : Db)
    → unique_keys db ≡ true
    → distinct (λ (a b : Transaction). a.id == b.id) db.transactions ≡ true
unfolding unique_keys unique_transactions
distinct_transactions db u = ground arith

Matches-units : (a : ℤ) (d : Decimal) → Matches a d → eqb_ℤ a (units d) ≡ true
unfolding units
Matches-units a (fixed b) m = m
Matches-units a (other text) m = absurd m
Matches-units a signaling m = absurd m

module _ (uuid_str : Uuid → String) (keys : PostingKeys) (now : ℕ) (event ref : String)
    (amount : Decimal) (db : Db) (k : Kept IsPostedOnce db) where
  opens :
      (f : Returned ref amount db) → IsOpen f.txn f.intent → IsOpenFor f.txn.id (units amount) db
  opens f o = Starts-IsOpenFor ref f.txn f.intent (units amount) db o (record {
    posted = k.holds;
    found = f.found;
    ids = distinct_transactions db k.unique;
    amounts = Matches-units f.intent.amount amount f.amounts;
  })

  -- What a delivery of a callback leaves.
  pub callback-IsPostedOnce :
      Kept IsPostedOnce
        (with_session (process_bank_callback uuid_str keys now event ref amount) db).1
  callback-IsPostedOnce =
      callback-Kept uuid_str keys now event ref amount db IsPostedOnce
        (λ txn intent. IsDue txn.id (units amount)) k
        (λ f o.
          set_intent_status-IsDue f.txn.id (units amount) f.intent.id PaymentStatus.success now _
            (set_success-IsDue f.txn.id (units amount) db (opens f o)))
        (λ f o.
          set_intent_status-IsPostedOnce f.intent.id PaymentStatus.failed now _
            (set_failed-IsPostedOnce f.txn.id (units amount) db (opens f o)))
        (λ f. settle-posts db uuid_str keys f.txn f.intent (units amount))
