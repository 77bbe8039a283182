-- ===== src/Models/Database.antt =====
-- The tables, and what the schema (app/models, alembic/versions/0001_initial.py) makes the database
-- refuse at a commit: a duplicate in a primary key or a unique column, a text longer than its
-- column, and an amount that does not fit `Numeric(18, 4)`.
--
-- Foreign keys are not among the refusals: the services only write identifiers of rows that they
-- have just read or created, and no row is ever deleted.
use Prim.Native.String.{count}
use payment_gateway_system.Prelude.{
  ℕ, ◌^◌, String, Bool, true, ◌&&◌, Option, none, some, List, [], ltb, leb, ◌==◌, str_eq,
}
use payment_gateway_system.Prelude.Int.{ℤ, pos_part, neg_part}
use payment_gateway_system.Prelude.Rows.{all, distinct}
use payment_gateway_system.Models.Payment.{PaymentIntent, Transaction}
use payment_gateway_system.Models.Ledger.{LedgerAccount, LedgerEntry}
use payment_gateway_system.Models.Merchant.{Merchant, WebhookDelivery}

pub record Db : Type 0 where
  pub merchants : List Merchant
  pub intents : List PaymentIntent
  pub transactions : List Transaction
  pub accounts : List LedgerAccount
  pub entries : List LedgerEntry
  pub deliveries : List WebhookDelivery

abbrev pub empty_db : Db
empty_db = record {
  merchants = [];
  intents = [];
  transactions = [];
  accounts = [];
  entries = [];
  deliveries = [];
}

-- `String(n)`
unfoldable pub fits : ℕ → String → Bool
fits n s = leb (count s) n

unfoldable pub fits_optional : ℕ → Option String → Bool
unfolding fits
fits_optional n none = true
fits_optional n (some s) = fits n s

-- `Numeric(18, 4)`: at most eighteen digits, in ten-thousandths.
unfoldable pub fits_money : ℤ → Bool
fits_money a = ltb (pos_part a) (10 ^ 18) && ltb (neg_part a) (10 ^ 18)

unfoldable pub fits_merchant : Merchant → Bool
unfolding fits fits_optional
fits_merchant m =
    fits 255 m.name
    && fits 64 m.api_key_hash
    && fits 64 m.secret_hash
    && fits_optional 2048 m.webhook_url

unfoldable pub fits_intent : PaymentIntent → Bool
unfolding fits fits_optional fits_money
fits_intent i =
    fits 64 i.public_id
    && fits_money i.amount
    && fits 3 i.currency
    && fits 128 i.idempotency_key
    && fits_optional 512 i.description

unfoldable pub fits_transaction : Transaction → Bool
unfolding fits fits_optional
fits_transaction t = fits 64 t.public_id && fits 255 t.vpa && fits_optional 128 t.psp_reference

unfoldable pub fits_account : LedgerAccount → Bool
unfolding fits fits_money
fits_account a = fits 128 a.identifier && fits 3 a.currency && fits_money a.balance

unfoldable pub fits_entry : LedgerEntry → Bool
unfolding fits fits_money
fits_entry e = fits_money e.amount && fits 3 e.currency

unfoldable pub fits_delivery : WebhookDelivery → Bool
unfolding fits
fits_delivery d = fits 2048 d.url && fits 128 d.signature

-- Every value fits its column.
unfoldable pub fits_columns : Db → Bool
unfolding all
fits_columns db =
    all fits_merchant db.merchants
    && all fits_intent db.intents
    && all fits_transaction db.transactions
    && all fits_account db.accounts
    && all fits_entry db.entries
    && all fits_delivery db.deliveries

unfoldable pub unique_merchants : List Merchant → Bool
unfolding distinct
unique_merchants ms =
    distinct (λ a b. a.id == b.id) ms && distinct (λ a b. str_eq a.api_key_hash b.api_key_hash) ms

unfoldable pub unique_intents : List PaymentIntent → Bool
unfolding distinct
unique_intents is =
    distinct (λ a b. a.id == b.id) is
    && distinct (λ a b. str_eq a.public_id b.public_id) is
    && distinct (λ a b. str_eq a.idempotency_key b.idempotency_key) is

unfoldable pub unique_transactions : List Transaction → Bool
unfolding distinct
unique_transactions ts =
    distinct (λ a b. a.id == b.id) ts && distinct (λ a b. str_eq a.public_id b.public_id) ts

-- `UniqueConstraint("identifier", "currency")`
abbrev pub same_account_key : LedgerAccount → LedgerAccount → Bool
same_account_key a b = str_eq a.identifier b.identifier && str_eq a.currency b.currency

unfoldable pub unique_accounts : List LedgerAccount → Bool
unfolding distinct
unique_accounts accounts =
    distinct (λ a b. a.id == b.id) accounts && distinct same_account_key accounts

-- Every primary key and every unique column is without a duplicate.
unfoldable pub unique_keys : Db → Bool
unfolding distinct
unique_keys db =
    unique_merchants db.merchants
    && unique_intents db.intents
    && unique_transactions db.transactions
    && unique_accounts db.accounts
    && distinct (λ a b. a.id == b.id) db.entries
    && distinct (λ a b. a.id == b.id) db.deliveries
