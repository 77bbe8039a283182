-- ===== src/Services/Webhook/Earnings.antt =====
-- A callback of the bank (app/services/webhook.py) and what the merchants have earned.
use payment_gateway_system.Prelude.{ℕ, String, true, false, ◌≡◌, refl, [], ◌==◌, arith}
use payment_gateway_system.Prelude.Int.{ℤ}
use payment_gateway_system.Prelude.Rows.{IsRow, distinct}
use payment_gateway_system.Prelude.Laws.{IsRow-select}
use payment_gateway_system.Models.Payment.{
  Uuid, PaymentStatus, TransactionState, PaymentIntent, eq_status,
}
use payment_gateway_system.Models.Ledger.{LedgerAccount}
use payment_gateway_system.Models.Database.{Db, unique_keys, unique_accounts, unique_intents}
use payment_gateway_system.Session.{with_session}
use payment_gateway_system.Session.Triples.{Kept}
use payment_gateway_system.Services.Ledger.{PostingKeys}
use payment_gateway_system.Services.Earnings.{IsUuidText, IsEarned, status-IsEarned, status-IsOwing}
use payment_gateway_system.Services.Webhook.{
  Decimal, fixed, other, signaling, set_transaction_state, process_bank_callback,
}
use payment_gateway_system.Services.Webhook.Lookup.{Matches, units, Returned}
use payment_gateway_system.Services.Webhook.Payout.{Posting, settle-IsEarned}
use payment_gateway_system.Services.Webhook.Branches.{IsOpen}
use payment_gateway_system.Services.Webhook.Course.{callback-Kept}

open_is_unpaid :
    (s : PaymentStatus) → s ≡ PaymentStatus.processing → eq_status s PaymentStatus.success ≡ false
open_is_unpaid s h = rw h refl

pub units-Matches : (a : ℤ) (d : Decimal) → Matches a d → units d ≡ a
unfolding units
units-Matches a (fixed b) h = ground arith
units-Matches a (other text) h = absurd h
units-Matches a signaling h = absurd h

pub distinct_intents :
    (db : Db)
    → unique_keys db ≡ true
    → distinct (λ (a b : PaymentIntent). a.id == b.id) db.intents ≡ true
unfolding unique_keys unique_intents
distinct_intents db u = ground arith

distinct_accounts :
    (db : Db)
    → unique_keys db ≡ true
    → distinct (λ (a b : LedgerAccount). a.id == b.id) db.accounts ≡ true
unfolding unique_keys unique_accounts
distinct_accounts db u = ground arith

-- What the merchants have earned before the marks on the transaction and the order of a callback.
record Marks (uuid_str : Uuid → String) (intent : PaymentIntent) (db : Db) : Type 0 where
  row : IsRow intent db.intents
  intent_ids : distinct (λ (a b : PaymentIntent). a.id == b.id) db.intents ≡ true
  unpaid : eq_status intent.status PaymentStatus.success ≡ false
  earned : IsEarned uuid_str db

module _ (uuid_str : Uuid → String) (texts : IsUuidText uuid_str) (keys : PostingKeys) (now : ℕ)
    (event ref : String) (amount : Decimal) (db : Db) (k : Kept (IsEarned uuid_str) db) where
  marks :
      (f : Returned ref amount db) (state : TransactionState)
      → IsOpen f.txn f.intent
      → Marks uuid_str f.intent (set_transaction_state f.txn.id state db)
  marks f state o = record {
    row = IsRow-select _ db.intents f.found.owner;
    intent_ids = distinct_intents db k.unique;
    unpaid = open_is_unpaid f.intent.status o.processing;
    earned = record { earns = k.holds.earns };
  }

  -- What a delivery of a callback leaves.
  pub callback-IsEarned :
      Kept
        (IsEarned uuid_str)
        (with_session (process_bank_callback uuid_str keys now event ref amount) db).1
  callback-IsEarned =
      callback-Kept uuid_str keys now event ref amount db (IsEarned uuid_str)
        (λ txn intent. Posting db uuid_str texts intent.merchant_id (units amount) []) k
        (λ f o.
          let m = marks f TransactionState.success o in
          record {
            owing = rw (units-Matches f.intent.amount amount f.amounts) (
                status-IsOwing uuid_str f.intent now _ m.row m.intent_ids m.unpaid m.earned
                  (distinct_accounts db k.unique));
            locked = tt;
          })
        (λ f o.
          let m = marks f TransactionState.failed o in
          status-IsEarned uuid_str f.intent now _ m.row m.intent_ids m.unpaid m.earned
            PaymentStatus.failed refl)
        (λ f. settle-IsEarned db uuid_str texts keys f.txn f.intent (units amount))
