-- ===== src/Services/Ledger.antt =====
-- app/services/ledger.py: a balanced pair of entries, posted inside the caller's transaction.
--
-- The keys of new rows (`uuid4`) are arguments. `uuid_str` is the text of a UUID, as `uuid` prints it.
use payment_gateway_system.Prelude.{String, Option, none, some, not}
use payment_gateway_system.Prelude.Int.{ℤ, pos, leb_ℤ}
use payment_gateway_system.Prelude.Rows.{select}
use payment_gateway_system.Models.Payment.{Uuid, Transaction}
use payment_gateway_system.Models.Ledger.{AccountType, EntryType, LedgerAccount, LedgerEntry}
use payment_gateway_system.Session.{
  M, ◌>>=◌, ◌>>◌, pure, read, write, guard, scalar_one, ledger_error,
}
use payment_gateway_system.Services.Accounts.{
  new_account, insert_or_ignore, is_account, add_to_balance, add_entries,
}
use Prim.Native.String.{◌++◌}

-- The keys that a posting draws: for two accounts, if they are new, and for two entries.
pub record PostingKeys : Type 0 where
  pub debit_account : Uuid
  pub credit_account : Uuid
  pub debit_entry : Uuid
  pub credit_entry : Uuid

-- `f"merchant:{merchant_id}"`
abbrev pub merchant_identifier : (Uuid → String) → Uuid → String
merchant_identifier uuid_str merchant_id = "merchant:" ++ uuid_str merchant_id

unfoldable pub get_or_create_account : Uuid → AccountType → String → Option Uuid → M LedgerAccount
get_or_create_account key account_type identifier merchant_id = do
  insert_or_ignore (new_account key account_type identifier merchant_id)
  rows ← read (λ db. select (is_account identifier account_type) db.accounts)
  scalar_one rows

abbrev pub entry : Uuid → LedgerAccount → Transaction → ℤ → EntryType → String → LedgerEntry
entry key account txn amount side currency = record {
  id = key;
  account_id = account.id;
  transaction_id = txn.id;
  amount = amount;
  entry_type = side;
  currency = currency;
}

-- The pair of accounts stands for the four values that the source returns; the entries are in the
-- session.
unfoldable pub post_double_entry :
    (Uuid → String)
    → PostingKeys
    → Transaction
    → String
    → Uuid
    → ℤ
    → String
    → M (LedgerAccount × LedgerAccount)
post_double_entry uuid_str keys txn payer_vpa merchant_id amount currency = do
  guard (not (leb_ℤ amount (pos 0))) ledger_error
  debit_account ← get_or_create_account keys.debit_account AccountType.virtual payer_vpa none
  credit_account ←
      get_or_create_account keys.credit_account AccountType.merchant_settlement
        (merchant_identifier uuid_str merchant_id) (some merchant_id)
  write (add_to_balance debit_account.id amount)
  write (add_to_balance credit_account.id amount)
  write (
      add_entries (entry keys.debit_entry debit_account txn amount EntryType.debit currency)
        (entry keys.credit_entry credit_account txn amount EntryType.credit currency))
  pure (debit_account, credit_account)
