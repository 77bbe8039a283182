-- ===== src/Services/Webhook/LongAddress.antt =====
-- A payer whose address does not fit the identifier of a ledger account (app/services/webhook.py,
-- app/models/ledger.py).
use Prim.Native.String.{count}
use payment_gateway_system.Prelude.{ℕ, ◌<◌, String, false, ◌≡◌, refl, none, arith}
use payment_gateway_system.Models.Payment.{Uuid, TransactionState, PaymentIntent, Transaction}
use payment_gateway_system.Models.Ledger.{AccountType}
use payment_gateway_system.Models.Database.{Db, fits, fits_account}
use payment_gateway_system.Session.{Session, err, ◌>>=◌, with_session, data_error}
use payment_gateway_system.Services.Accounts.{new_account, insert_or_ignore}
use payment_gateway_system.Services.Ledger.{PostingKeys}
use payment_gateway_system.Services.Webhook.{
  Decimal, ensure_account_locked, settle, apply_event, process_bank_callback, is_replay,
}
use payment_gateway_system.Services.Webhook.Branches.{IsOpen, transitions_accepted}
use payment_gateway_system.Services.Webhook.Lookup.{
  Finds, Matches, callback-found, require_amount-Matches,
}

long_account :
    (key : Uuid) (t : AccountType) (identifier : String)
    → 128 < count identifier
    → fits_account (new_account key t identifier none) ≡ false
unfolding fits_account fits
long_account key t identifier h = ground arith

pending_is_new :
    (txn : Transaction)
    → txn.state ≡ TransactionState.pending
    → is_replay txn "payment.success" ≡ false
pending_is_new txn h = rw h refl

-- A success callback for an open payment, with the amount of the order, where the address of the
-- payer has more than 128 characters: it fails with an error of the database and stores nothing, so
-- every delivery of it fails.
pub long_address_fails :
    (uuid_str : Uuid → String) (keys : PostingKeys) (now : ℕ) (ref : String) (amount : Decimal)
    (txn : Transaction) (intent : PaymentIntent) (db : Db)
    → Finds ref txn intent db
    → Matches intent.amount amount
    → IsOpen txn intent
    → 128 < count txn.vpa
    → with_session (process_bank_callback uuid_str keys now "payment.success" ref amount) db
      ≡ (err data_error, db)
unfolding with_session ◌>>=◌ apply_event settle ensure_account_locked insert_or_ignore
long_address_fails uuid_str keys now ref amount txn intent db f m o h =
    let s : Session = record { stored = db; current = db } in
    rw
      (
        callback-found uuid_str keys now "payment.success" ref amount s f,
        require_amount-Matches intent.amount amount s m,
        pending_is_new txn o.pending,
        transitions_accepted txn intent "payment.success" s o,
        long_account keys.debit_account AccountType.virtual txn.vpa h,
      )
      refl
