-- ===== src/Scenario/Data.antt =====
-- The rows and requests of the scenario.
use payment_gateway_system.Prelude.{String, none, some, [], ◌∷◌, ◌==◌, if◌then◌else◌, false}
use payment_gateway_system.Prelude.Int.{pos}
use payment_gateway_system.Models.Payment.{
  Uuid, PaymentStatus, TransactionState, PaymentIntent, Transaction,
}
use payment_gateway_system.Models.Ledger.{AccountType, EntryType}
use payment_gateway_system.Models.Database.{Db, empty_db}
use payment_gateway_system.Services.Ledger.{PostingKeys}
use payment_gateway_system.Services.Order.{OrderDraws, CreateOrderRequest, new_intent, add_intent}
use payment_gateway_system.Services.Payment.{PaymentDraws, UpiInitiateRequest, new_transaction}
use payment_gateway_system.Services.Webhook.{CallbackResult}

-- The text of the only UUID whose text is needed.
abbrev pub sample_uuid_str : Uuid → String
sample_uuid_str n = if n == 7 then "7f3a" else "0000"

abbrev pub order_draws : OrderDraws
order_draws = record { key = 11; token = "a1"; now = 1000 }

abbrev pub later_order_draws : OrderDraws
later_order_draws = record { key = 12; token = "a2"; now = 1001 }

abbrev pub order_request : CreateOrderRequest
order_request = record {
  idempotency_key = "idem-0001";
  amount = pos 12500000;
  currency = "INR";
  description = none;
}

-- The same key with another amount.
abbrev pub changed_request : CreateOrderRequest
changed_request = record order_request { amount = pos 10000 }

abbrev pub intent : PaymentIntent
intent = new_intent order_draws 7 order_request

abbrev pub ordered : Db
ordered = add_intent intent empty_db

abbrev pub payment_draws : PaymentDraws
payment_draws = record { key = 21; token = "b1"; psp_token = "c1"; now = 1100 }

abbrev pub later_payment_draws : PaymentDraws
later_payment_draws = record { key = 22; token = "b2"; psp_token = "c2"; now = 1200 }

abbrev pub payment_request : UpiInitiateRequest
payment_request = record { idempotency_key = "idem-0002"; order_id = "ord_a1"; vpa = "payer@upi" }

abbrev pub other_payer : UpiInitiateRequest
other_payer = record payment_request { vpa = "other@upi" }

abbrev pub txn : Transaction
txn = new_transaction payment_draws intent "payer@upi"

abbrev pub processing_intent : PaymentIntent
processing_intent = record intent { status = PaymentStatus.processing; updated_at = 1100 }

abbrev pub initiated : Db
initiated = record empty_db { intents = processing_intent ∷ []; transactions = txn ∷ [] }

abbrev pub keys : PostingKeys
keys = record { debit_account = 31; credit_account = 32; debit_entry = 41; credit_entry = 42 }

abbrev pub later_keys : PostingKeys
later_keys = record { debit_account = 33; credit_account = 34; debit_entry = 43; credit_entry = 44 }

abbrev pub settled_txn : Transaction
settled_txn = record txn { state = TransactionState.success }

abbrev pub settled : Db
settled = record empty_db {
  intents = record intent { status = PaymentStatus.success; updated_at = 1300 } ∷ [];
  transactions = settled_txn ∷ [];
  accounts =
      record {
        id = 32;
        merchant_id = some 7;
        account_type = AccountType.merchant_settlement;
        identifier = "merchant:7f3a";
        currency = "INR";
        balance = pos 12500000;
      }
      ∷ record {
        id = 31;
        merchant_id = none;
        account_type = AccountType.virtual;
        identifier = "payer@upi";
        currency = "INR";
        balance = pos 12500000;
      }
      ∷ [];
  entries =
      record {
        id = 41;
        account_id = 31;
        transaction_id = 21;
        amount = pos 12500000;
        entry_type = EntryType.debit;
        currency = "INR";
      }
      ∷ record {
        id = 42;
        account_id = 32;
        transaction_id = 21;
        amount = pos 12500000;
        entry_type = EntryType.credit;
        currency = "INR";
      }
      ∷ [];
}

abbrev pub settled_result : CallbackResult
settled_result = record {
  replay = false;
  transaction_db_id = 21;
  transaction_id = "txn_b1";
  order_id = some "ord_a1";
  status = "SUCCESS";
}
