-- ===== src/Services/Webhook.antt =====
-- app/services/webhook.py: what a verified callback of the bank does to a transaction, to its
-- intent and to the ledger.
pub mod Rules
pub mod Books
pub mod Atomic
pub mod Lookup
pub mod Branches
pub mod Redelivery
pub mod Posting
pub mod Succeeded
pub mod Once
pub mod LongAddress
pub mod Failure
pub mod Course
pub mod Payout
pub mod Earnings
pub mod Verification
pub mod Rejections
pub mod Placing
use payment_gateway_system.Prelude.{
  ℕ, String, Bool, true, false, ◌&&◌, ◌||◌, Option, none, some, ◌==◌, str_eq, if◌then◌else◌,
}
use payment_gateway_system.Prelude.Int.{ℤ, pos, eqb_ℤ}
use payment_gateway_system.Prelude.Rows.{select, update}
use payment_gateway_system.Models.Payment.{
  Uuid, PaymentStatus, TransactionState, PaymentIntent, Transaction, eq_state, status_value,
  state_value,
}
use payment_gateway_system.Models.Ledger.{AccountType, EntryType, LedgerAccount, default_currency}
use payment_gateway_system.Models.Database.{Db}
use payment_gateway_system.Session.{
  M, Error, ◌>>=◌, ◌>>◌, pure, raise, lift, read, write, guard, or_raise, scalar_one,
  scalar_one_or_none, commit, rollback, catch, ok, err, transaction_not_found, amount_mismatch,
  invalid_state_transition, unexpected,
}
use payment_gateway_system.Services.StateMachine.{
  assert_intent_transition, assert_transaction_transition,
}
use payment_gateway_system.Services.Accounts.{
  new_account, insert_or_ignore, is_account, add_to_balance, add_entries,
}
use payment_gateway_system.Services.Ledger.{PostingKeys, merchant_identifier, entry}
use payment_gateway_system.Services.Payment.{set_intent_status}

-- The events that the endpoint lets through (`BankCallbackEvent` of app/schemas/payment.py).
pub data BankEvent : Type 0 where
  payment_success payment_failed : BankEvent

abbrev pub event_name : BankEvent → String
event_name payment_success = "payment.success"
event_name payment_failed = "payment.failed"

-- The amount of a callback: a number of ten-thousandths, the text of any other `Decimal`, which
-- equals no amount of an intent, or a signaling NaN, whose comparison raises `InvalidOperation`.
pub data Decimal : Type 0 where
  fixed : ℤ → Decimal
  other : String → Decimal
  signaling : Decimal

-- The dictionary that `process_bank_callback` returns; a replay has no `order_id`.
pub record CallbackResult : Type 0 where
  pub replay : Bool
  pub transaction_db_id : Uuid
  pub transaction_id : String
  pub order_id : Option String
  pub status : String

unfoldable pub ensure_account_locked : Uuid → AccountType → String → Option Uuid → M LedgerAccount
ensure_account_locked key account_type identifier merchant_id = do
  insert_or_ignore (new_account key account_type identifier merchant_id)
  rows ← read (λ db. select (is_account identifier account_type) db.accounts)
  scalar_one rows

abbrev pub by_reference : String → Transaction → Bool
by_reference ref t = elim t.psp_reference [ none ↦ false | some r ↦ str_eq r ref ]

abbrev pub by_id : Uuid → PaymentIntent → Bool
by_id key i = i.id == key

abbrev pub is_success : String → Bool
is_success event = str_eq event "payment.success"

abbrev pub is_failure : String → Bool
is_failure event = str_eq event "payment.failed"

-- `if intent.amount != amount: raise AmountMismatch`; the amount of what goes through is a number of
-- ten-thousandths.
abbrev pub require_amount : ℤ → Decimal → M ℤ
require_amount a (fixed b) s = if eqb_ℤ a b then (ok b, s) else (err amount_mismatch, s)
require_amount a (other text) s = raise amount_mismatch s
require_amount a signaling s = raise unexpected s

-- The tests of the two returns for a delivery that was applied before.
abbrev pub is_replay : Transaction → String → Bool
is_replay txn event =
    (eq_state txn.state TransactionState.success && is_success event)
    || (eq_state txn.state TransactionState.failed && is_failure event)

abbrev pub replay_result : Transaction → CallbackResult
replay_result txn = record {
  replay = true;
  transaction_db_id = txn.id;
  transaction_id = txn.public_id;
  order_id = none;
  status = state_value txn.state;
}

abbrev pub target_txn : String → TransactionState
target_txn event = if is_success event then TransactionState.success else TransactionState.failed

abbrev pub target_intent : String → PaymentStatus
target_intent event = if is_success event then PaymentStatus.success else PaymentStatus.failed

abbrev pub applied_result : Transaction → PaymentIntent → String → CallbackResult
applied_result txn intent event = record {
  replay = false;
  transaction_db_id = txn.id;
  transaction_id = txn.public_id;
  order_id = some intent.public_id;
  status = status_value (target_intent event);
}

-- `except InvalidStateTransition`
abbrev pub on_invalid_transition : Error → M (Unit {0})
on_invalid_transition invalid_state_transition = rollback >> raise invalid_state_transition
on_invalid_transition e = raise e

unfoldable pub check_transitions : Transaction → PaymentIntent → String → M (Unit {0})
check_transitions txn intent event =
    catch
      (lift (assert_transaction_transition txn.state (target_txn event))
        >> lift (assert_intent_transition intent.status (target_intent event)))
      on_invalid_transition

abbrev pub set_transaction_state : Uuid → TransactionState → Db → Db
set_transaction_state key state db = record db {
  transactions = update (λ t. t.id == key) (λ t. record t { state = state }) db.transactions;
}

-- The ledger lines of a success.
unfoldable pub settle :
    (Uuid → String) → PostingKeys → Transaction → PaymentIntent → ℤ → M (Unit {0})
settle uuid_str keys txn intent amount = do
  payer_account ← ensure_account_locked keys.debit_account AccountType.virtual txn.vpa none
  merchant_account ←
      ensure_account_locked keys.credit_account AccountType.merchant_settlement
        (merchant_identifier uuid_str intent.merchant_id) (some intent.merchant_id)
  write (add_to_balance payer_account.id amount)
  write (add_to_balance merchant_account.id amount)
  write (
      add_entries (entry keys.debit_entry payer_account txn amount EntryType.debit default_currency)
        (entry keys.credit_entry merchant_account txn amount EntryType.credit default_currency))

-- From the target states to the end of `process_bank_callback`.
unfoldable pub apply_event :
    (Uuid → String) → PostingKeys → ℕ → String → Transaction → PaymentIntent → ℤ → M CallbackResult
apply_event uuid_str keys now event txn intent amount = do
  check_transitions txn intent event
  write (set_transaction_state txn.id (target_txn event))
  write (set_intent_status intent.id (target_intent event) now)
  if is_success event then settle uuid_str keys txn intent amount else pure tt
  commit
  pure (applied_result txn intent event)

unfoldable pub process_bank_callback :
    (Uuid → String) → PostingKeys → ℕ → String → String → Decimal → M CallbackResult
process_bank_callback uuid_str keys now event psp_reference amount = do
  transactions ← read (λ db. select (by_reference psp_reference) db.transactions)
  found ← scalar_one_or_none transactions
  txn ← or_raise found transaction_not_found
  intents ← read (λ db. select (by_id txn.intent_id) db.intents)
  intent ← scalar_one intents
  units ← require_amount intent.amount amount
  if is_replay txn event
      then commit >> pure (replay_result txn)
      else apply_event uuid_str keys now event txn intent units
