-- ===== src/Scenario/Witnesses.antt =====
-- Instances of the theorems on the rows of the scenario.
use payment_gateway_system.Prelude.{
  arith, String, sym, ap, ◌∙◌, eq_iff, inl, inr, ◌≡◌, refl, ◌↔◌, ◌≤◌, ◌+◌, none, true, [], ◌∷◌,
}
use payment_gateway_system.Prelude.Int.{pos}
use payment_gateway_system.Prelude.Rows.{any, all, distinct}
use payment_gateway_system.Models.Payment.{Transaction, PaymentStatus, TransactionState}
use payment_gateway_system.Models.Database.{
  empty_db, fits_columns, fits, fits_optional, fits_money, fits_intent, unique_keys,
  unique_merchants, unique_intents, unique_transactions, unique_accounts,
}
use payment_gateway_system.Session.{
  ok, err, pure, ◌>>◌, with_session, invalid_state_transition, order_idempotency_reuse,
}
use payment_gateway_system.Services.StateMachine.{
  assert_intent_transition, assert_transaction_transition,
}
use payment_gateway_system.Services.StateMachine.Laws.{
  IntentStep, TransactionStep, assert_intent_transition_iff, assert_transaction_transition_iff,
  Accepted, stop, next, rank, history_bounded, final_status_stays,
}
use payment_gateway_system.Services.Books.{IsReconciled}
use payment_gateway_system.Services.Postings.{IsPostedOnce}
use payment_gateway_system.Services.Addresses.{IsAddressed}
use payment_gateway_system.Services.History.Addresses.{serve-IsAddressed}
use payment_gateway_system.Services.History.{
  serve, serve-IsReconciled, serve-IsPostedOnce, order, payment, callback,
}
use payment_gateway_system.Services.Order.{order_response, create_order}
use payment_gateway_system.Services.Order.Replay.{
  create_order_idempotent, create_order-key_of_other,
}
use payment_gateway_system.Services.Order.Rules.{create_order_atomic}
use payment_gateway_system.Services.Payment.{initiated_response, initiate_upi}
use payment_gateway_system.Services.Payment.Branches.{second_payer, initiate_upi-Refused}
use payment_gateway_system.Services.Payment.Replay.{initiate_upi_idempotent}
use payment_gateway_system.Services.Webhook.{
  payment_failed, fixed, payment_success, settle, process_bank_callback,
}
use payment_gateway_system.Services.Webhook.Posting.{settle-post_double_entry}
use payment_gateway_system.Services.Ledger.{post_double_entry}
use payment_gateway_system.Models.Ledger.{default_currency}
use payment_gateway_system.Services.Webhook.Atomic.{process_bank_callback_atomic}
use payment_gateway_system.Services.Webhook.Rejections.{
  Repeats, failure_again, conflict, callback-Refused,
}
use payment_gateway_system.Services.Webhook.Redelivery.{redelivery_changes_nothing}
use payment_gateway_system.Scenario.Data.{
  sample_uuid_str, order_draws, later_order_draws, order_request, changed_request, intent, ordered,
  payment_draws, later_payment_draws, payment_request, other_payer, txn, initiated, keys,
  later_keys, settled, settled_result,
}
use payment_gateway_system.Scenario.Runs.{run_order, run_payment, run_callback}

serve-IsReconciled_example : IsReconciled (
    serve sample_uuid_str
      (order order_draws 7 order_request
        ∷ payment payment_draws 7 payment_request
        ∷ callback keys 1300 "payment.success" "psp_c1" (fixed (pos 12500000))
        ∷ [])
      empty_db)
serve-IsReconciled_example = serve-IsReconciled sample_uuid_str (
    order order_draws 7 order_request
    ∷ payment payment_draws 7 payment_request
    ∷ callback keys 1300 "payment.success" "psp_c1" (fixed (pos 12500000))
    ∷ [])

serve-IsAddressed_example : IsAddressed sample_uuid_str (
    serve sample_uuid_str
      (order order_draws 7 order_request
        ∷ payment payment_draws 7 payment_request
        ∷ callback keys 1300 "payment.success" "psp_c1" (fixed (pos 12500000))
        ∷ [])
      empty_db)
serve-IsAddressed_example = serve-IsAddressed sample_uuid_str (
    order order_draws 7 order_request
    ∷ payment payment_draws 7 payment_request
    ∷ callback keys 1300 "payment.success" "psp_c1" (fixed (pos 12500000))
    ∷ [])

serve-IsPostedOnce_example : IsPostedOnce (
    serve sample_uuid_str
      (order order_draws 7 order_request
        ∷ payment payment_draws 7 payment_request
        ∷ callback keys 1300 "payment.success" "psp_c1" (fixed (pos 12500000))
        ∷ callback later_keys 1400 "payment.success" "psp_c1" (fixed (pos 12500000))
        ∷ [])
      empty_db)
serve-IsPostedOnce_example = serve-IsPostedOnce sample_uuid_str (
    order order_draws 7 order_request
    ∷ payment payment_draws 7 payment_request
    ∷ callback keys 1300 "payment.success" "psp_c1" (fixed (pos 12500000))
    ∷ callback later_keys 1400 "payment.success" "psp_c1" (fixed (pos 12500000))
    ∷ [])

redelivery_changes_nothing_example :
    with_session
      (process_bank_callback sample_uuid_str later_keys 1400 "payment.success" "psp_c1"
        (fixed (pos 12500000)))
      settled
    ≡ (ok (record settled_result { replay = true; order_id = none }), settled)
redelivery_changes_nothing_example =
    redelivery_changes_nothing sample_uuid_str keys later_keys 1300 1400 payment_success "psp_c1"
      (fixed (pos 12500000)) initiated run_callback

only_failed : (s : TransactionState) → Repeats payment_failed s → s ≡ TransactionState.failed
only_failed _ failure_again = refl

-- A failure reported after the success.
callback-Refused_example :
    with_session
      (process_bank_callback sample_uuid_str keys 1500 "payment.failed" "psp_c1"
        (fixed (pos 12500000)))
      settled
    ≡ (err invalid_state_transition, settled)
unfolding unique_keys unique_merchants unique_intents unique_transactions unique_accounts distinct
    any
callback-Refused_example =
    callback-Refused sample_uuid_str keys 1500 payment_failed "psp_c1" (fixed (pos 12500000))
      settled refl
      (conflict
        (record {
          row = inl refl;
          reference = refl;
          sole = λ t r e. elim r [ inl p ↦ p | inr q ↦ absurd q ];
          order = inl refl;
          owner = refl;
        })
        refl (λ r. cc (only_failed TransactionState.success r)) (λ o. cc (o.pending)))

process_bank_callback_atomic_example : settled ≡ settled
process_bank_callback_atomic_example =
    process_bank_callback_atomic sample_uuid_str keys 1500 "payment.failed" "psp_c1"
      (fixed (pos 12500000)) settled callback-Refused_example

initiate_upi_idempotent_example :
    with_session (initiate_upi later_payment_draws 7 payment_request) initiated
    ≡ (ok (initiated_response intent txn), initiated)
initiate_upi_idempotent_example =
    initiate_upi_idempotent payment_draws later_payment_draws 7 payment_request ordered run_payment

abbrev first_vpa : String
first_vpa = "payer@upi"

not_other : ¬ (first_vpa ≡ "other@upi")
not_other e = cc ((eq_iff first_vpa "other@upi").1 e)

initiate_upi-Refused_example :
    with_session (initiate_upi later_payment_draws 7 other_payer) initiated
    ≡ (err invalid_state_transition, initiated)
unfolding unique_keys unique_merchants unique_intents unique_transactions unique_accounts distinct
    any
initiate_upi-Refused_example =
    initiate_upi-Refused later_payment_draws 7 other_payer initiated refl (
      second_payer (record { row = inl refl; named = refl; owner = refl }) refl
        (λ t r e v. elim r [
          | inl p ↦ not_other (sym (ap (λ (x : Transaction). x.vpa) p) ∙ v)
          | inr q ↦ absurd q
        ]))

create_order_idempotent_example :
    with_session (create_order later_order_draws 7 changed_request) ordered
    ≡ (ok (order_response intent), ordered)
create_order_idempotent_example =
    create_order_idempotent order_draws later_order_draws 7 order_request changed_request empty_db
      refl run_order

-- The key of merchant 7, used by merchant 8.
create_order-key_of_other_example :
    with_session (create_order later_order_draws 8 order_request) ordered
    ≡ (err order_idempotency_reuse, ordered)
unfolding any all fits_columns fits fits_optional fits_money fits_intent unique_keys
    unique_merchants unique_intents unique_transactions unique_accounts distinct
create_order-key_of_other_example =
    create_order-key_of_other later_order_draws 8 order_request ordered intent refl (inl refl) refl
      (omega arith) refl

create_order_atomic_example : ordered ≡ ordered
create_order_atomic_example =
    create_order_atomic later_order_draws 8 order_request ordered create_order-key_of_other_example

assert_intent_transition_iff_example :
    (assert_intent_transition PaymentStatus.processing PaymentStatus.success ≡ ok tt)
    ↔ IntentStep PaymentStatus.processing PaymentStatus.success
assert_intent_transition_iff_example =
    assert_intent_transition_iff PaymentStatus.processing PaymentStatus.success

assert_transaction_transition_iff_example :
    (assert_transaction_transition TransactionState.success TransactionState.failed ≡ ok tt)
    ↔ TransactionStep TransactionState.success TransactionState.failed
assert_transaction_transition_iff_example =
    assert_transaction_transition_iff TransactionState.success TransactionState.failed

full_history : Accepted PaymentStatus.created 2 PaymentStatus.failed
unfolding assert_intent_transition any
full_history = next {t = PaymentStatus.processing} refl (next {t = PaymentStatus.failed} refl stop)

history_bounded_example : (2 + 0 ≡ rank PaymentStatus.failed) × (2 ≤ 2)
history_bounded_example = history_bounded full_history

final_status_stays_example : PaymentStatus.success ≡ PaymentStatus.success
final_status_stays_example = final_status_stays {s = PaymentStatus.success} stop refl

settle-post_double_entry_example :
    settle sample_uuid_str keys txn intent
      (pos 12500000)
      (record { stored = initiated; current = initiated })
    ≡ (post_double_entry sample_uuid_str keys txn "payer@upi" 7 (pos 12500000) default_currency
          >> pure tt)
        (record { stored = initiated; current = initiated })
settle-post_double_entry_example =
    settle-post_double_entry sample_uuid_str keys txn intent (pos 12500000)
      (record { stored = initiated; current = initiated }) (λ h. ground arith)
