-- ===== src/Scenario/Runs.antt =====
-- The services run on the rows of the scenario.
use payment_gateway_system.Prelude.{◌≡◌, refl}
use payment_gateway_system.Prelude.Int.{pos, ◌+ℤ◌}
use payment_gateway_system.Prelude.Rows.{select, update, any, all, distinct}
use payment_gateway_system.Models.Database.{
  empty_db, fits_columns, unique_keys, fits, fits_optional, fits_money, fits_merchant, fits_intent,
  fits_transaction, fits_account, fits_entry, fits_delivery, unique_merchants, unique_intents,
  unique_transactions, unique_accounts,
}
use payment_gateway_system.Session.{ok, ◌>>=◌, catch, commit, rollback, with_session}
use payment_gateway_system.Services.StateMachine.{
  assert_intent_transition, assert_transaction_transition,
}
use payment_gateway_system.Services.Accounts.{has_account, insert_or_ignore}
use payment_gateway_system.Services.Order.{
  order_response, insert_order, replay_or_insert, create_order,
}
use payment_gateway_system.Services.Payment.{
  initiated_response, start_transaction, replay_or_start, initiate_upi,
}
use payment_gateway_system.Services.Webhook.{
  fixed, ensure_account_locked, check_transitions, settle, apply_event, process_bank_callback,
}
use payment_gateway_system.Scenario.Data.{
  sample_uuid_str, order_draws, order_request, intent, ordered, payment_draws, payment_request, txn,
  initiated, keys, settled, settled_result,
}

pub run_order :
    with_session (create_order order_draws 7 order_request) empty_db
    ≡ (ok (order_response intent), ordered)
unfolding with_session ◌>>=◌ catch commit rollback create_order replay_or_insert insert_order select
    all any distinct fits_columns unique_keys fits fits_optional fits_money fits_merchant
    fits_intent fits_transaction fits_account fits_entry fits_delivery unique_merchants
    unique_intents unique_transactions unique_accounts
run_order = refl

pub run_payment :
    with_session (initiate_upi payment_draws 7 payment_request) ordered
    ≡ (ok (initiated_response intent txn), initiated)
unfolding with_session ◌>>=◌ commit rollback initiate_upi replay_or_start start_transaction
    assert_intent_transition assert_transaction_transition select update all any distinct
    fits_columns unique_keys fits fits_optional fits_money fits_merchant fits_intent
    fits_transaction fits_account fits_entry fits_delivery unique_merchants unique_intents
    unique_transactions unique_accounts
run_payment = refl

pub run_callback :
    with_session
      (process_bank_callback sample_uuid_str keys 1300 "payment.success" "psp_c1"
        (fixed (pos 12500000)))
      initiated
    ≡ (ok settled_result, settled)
unfolding with_session ◌>>=◌ catch commit rollback process_bank_callback apply_event
    check_transitions settle ensure_account_locked insert_or_ignore has_account ◌+ℤ◌
    assert_intent_transition assert_transaction_transition select update all any distinct
    fits_columns unique_keys fits fits_optional fits_money fits_merchant fits_intent
    fits_transaction fits_account fits_entry fits_delivery unique_merchants unique_intents
    unique_transactions unique_accounts
run_callback = refl
