-- ===== src/Scenario/Outcomes.antt =====
-- Reports of the bank on the payment of the scenario.
use payment_gateway_system.Prelude.{refl, ◌≡◌}
use payment_gateway_system.Prelude.Int.{pos}
use payment_gateway_system.Prelude.Rows.{select, any, all, distinct}
use payment_gateway_system.Models.Payment.{PaymentStatus, TransactionState}
use payment_gateway_system.Models.Database.{
  fits_columns, unique_keys, fits, fits_optional, fits_money, fits_merchant, fits_intent,
  fits_transaction, fits_account, fits_entry, fits_delivery, unique_merchants, unique_intents,
  unique_transactions, unique_accounts,
}
use payment_gateway_system.Session.{ok, with_session}
use payment_gateway_system.Services.Webhook.{fixed, applied_result, process_bank_callback}
use payment_gateway_system.Services.Webhook.Failure.{marked, failure_applies}
use payment_gateway_system.Scenario.Data.{sample_uuid_str, keys, initiated, txn, processing_intent}

failure_applies_example :
    with_session
      (process_bank_callback sample_uuid_str keys 1300 "payment.failed" "psp_c1"
        (fixed (pos 12500000)))
      initiated
    ≡ (
      ok (applied_result txn processing_intent "payment.failed"),
      marked 21 TransactionState.failed 11 PaymentStatus.failed 1300 initiated,
    )
unfolding select fits_columns unique_keys fits fits_optional fits_money fits_merchant fits_intent
    fits_transaction fits_account fits_entry fits_delivery unique_merchants unique_intents
    unique_transactions unique_accounts any all distinct
failure_applies_example =
    failure_applies sample_uuid_str keys 1300 "psp_c1" (fixed (pos 12500000)) txn processing_intent
      initiated
      (record { holds = record { transaction = refl; owner = refl }; fits = refl; unique = refl })
      refl (record { pending = refl; processing = refl })
