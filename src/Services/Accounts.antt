-- ===== src/Services/Accounts.antt =====
-- The statement that both app/services/ledger.py and app/services/webhook.py create an account
-- with, and the queries and updates on accounts that they share.
use payment_gateway_system.Prelude.{
  Bool, false, ◌&&◌, ◌||◌, Option, none, String, List, [], ◌∷◌, ◌==◌, str_eq, if◌then◌else◌,
}
use payment_gateway_system.Prelude.Int.{ℤ, pos, ◌+ℤ◌}
use payment_gateway_system.Prelude.Rows.{any, update}
use payment_gateway_system.Models.Payment.{Uuid}
use payment_gateway_system.Models.Ledger.{
  AccountType, LedgerAccount, LedgerEntry, eq_account_type, default_currency,
}
use payment_gateway_system.Models.Database.{Db, fits_account, same_account_key}
use payment_gateway_system.Session.{M, ok, err, integrity_error, data_error}

-- Whether the primary key of an account is taken.
unfoldable pub has_account : Uuid → List LedgerAccount → Bool
has_account key [] = false
has_account key (a ∷ accounts) = (key == a.id) || has_account key accounts

-- `INSERT ... ON CONFLICT (identifier, currency) DO NOTHING`. A value too long for its column is
-- refused in any case, and a duplicate primary key where the statement does insert.
unfoldable pub insert_or_ignore : LedgerAccount → M (Unit {0})
unfolding any has_account
insert_or_ignore a s =
    if fits_account a
    then if any (same_account_key a) s.current.accounts
      then (ok tt, s)
      else if has_account a.id s.current.accounts
      then (err integrity_error, s)
      else (ok tt, record s { current = record s.current { accounts = a ∷ s.current.accounts } })
    else (err data_error, s)

abbrev pub if_settlement : AccountType → Option Uuid → Option Uuid
if_settlement AccountType.merchant_settlement m = m
if_settlement _ m = none

-- The values of the row; the currency is the default of its column.
abbrev pub new_account : Uuid → AccountType → String → Option Uuid → LedgerAccount
new_account key account_type identifier merchant_id = record {
  id = key;
  merchant_id = if_settlement account_type merchant_id;
  account_type = account_type;
  identifier = identifier;
  currency = default_currency;
  balance = pos 0;
}

-- The filter of the query that locks the account.
abbrev pub is_account : String → AccountType → LedgerAccount → Bool
is_account identifier account_type a =
    str_eq a.identifier identifier && eq_account_type a.account_type account_type

-- `account.balance = Decimal(account.balance) + amount`, on the row with the account's key.
abbrev pub add_to_balance : Uuid → ℤ → Db → Db
add_to_balance account_id amount db = record db {
  accounts =
      update (λ a. a.id == account_id) (λ a. record a { balance = a.balance +ℤ amount })
        db.accounts;
}

-- `db.add_all([debit_entry, credit_entry])`
abbrev pub add_entries : LedgerEntry → LedgerEntry → Db → Db
add_entries d c db = record db { entries = d ∷ c ∷ db.entries }
