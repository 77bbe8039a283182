-- ===== src/Scenario/Application.antt =====
-- A merchant that signs up, takes an order, and is paid, through the endpoints.
use payment_gateway_system.Prelude.{arith, ℕ, suc, zero, String, refl, ◌≡◌, ap, List, [], ◌∷◌}
use payment_gateway_system.Prelude.Int.{pos, ◌+ℤ◌}
use payment_gateway_system.Prelude.Rows.{select, update, any, all, distinct}
use payment_gateway_system.Prelude.Totals.{total}
use payment_gateway_system.Models.Payment.{Uuid}
use payment_gateway_system.Models.Database.{
  empty_db, fits_columns, unique_keys, fits, fits_optional, fits_money, fits_merchant, fits_intent,
  fits_transaction, fits_account, fits_entry, fits_delivery, unique_merchants, unique_intents,
  unique_transactions, unique_accounts,
}
use payment_gateway_system.Core.Security.{is_ascii, secure_compare}
use payment_gateway_system.Session.{◌>>=◌, catch, commit, rollback, with_session}
use payment_gateway_system.Services.StateMachine.{
  assert_intent_transition, assert_transaction_transition,
}
use payment_gateway_system.Services.Accounts.{has_account, insert_or_ignore}
use payment_gateway_system.Services.Order.{create_order, replay_or_insert, insert_order}
use payment_gateway_system.Services.Payment.{initiate_upi, replay_or_start, start_transaction}
use payment_gateway_system.Services.Webhook.{
  ensure_account_locked, check_transitions, settle, apply_event, process_bank_callback,
}
use payment_gateway_system.Services.Earnings.{IsUuidText, settled_balance}
use payment_gateway_system.Schemas.{
  has_length, has_at, validate_order, validate_upi, validate_merchant,
}
use payment_gateway_system.Api.Auth.{get_current_merchant}
use payment_gateway_system.Api.Merchants.{create_merchant}
use payment_gateway_system.Api.Orders.{create_order_endpoint}
use payment_gateway_system.Api.Payments.{initiate_upi_payment}
use payment_gateway_system.Api.BankCallback.{deliver, bank_callback}
use payment_gateway_system.Application.{
  Gateway, ApiRequest, health, post_merchants, post_orders, post_upi_initiate, post_bank_callback,
  respond, run,
}
use payment_gateway_system.Application.Books.{IsInOrder, run-IsInOrder}
use payment_gateway_system.Application.Refusals.{refused_request_stores_nothing}
use payment_gateway_system.Scenario.Data.{order_draws, payment_draws, later_payment_draws}
use payment_gateway_system.Scenario.Access.{access, drawn, shop_request, by_key}
use payment_gateway_system.Scenario.Bodies.{validation, order_body, upi_body}
use payment_gateway_system.Scenario.Callbacks.{env, draws, signed}

-- As many strokes as the identifier says.
abbrev tally : Uuid → String
tally zero = ""
tally (suc n) = String.◌∷◌ "1" (tally n)

abbrev strokes : String → ℕ
strokes String.[] = zero
strokes (String.◌∷◌ c s) = suc (strokes s)

strokes-tally : (n : ℕ) → strokes (tally n) ≡ n
strokes-tally zero = refl
strokes-tally (suc n) = ap suc (strokes-tally n)

tally-IsUuidText : IsUuidText tally
tally-IsUuidText = record {
  injective = λ a b e. rw (strokes-tally a, strokes-tally b) at (ap strokes e);
}

abbrev gateway : Gateway
gateway = record { auth = access; bank = record env { uuid_str = tally }; validation = validation }

abbrev day : List ApiRequest
day =
    health
    ∷ post_merchants 7 drawn shop_request
    ∷ post_orders 1000 by_key order_draws order_body
    ∷ post_upi_initiate 1100 by_key payment_draws upi_body
    ∷ post_bank_callback draws signed
    ∷ post_bank_callback draws signed
    ∷ []

run-IsInOrder_example : IsInOrder tally (run gateway day empty_db)
run-IsInOrder_example = run-IsInOrder gateway day tally-IsUuidText

-- The merchant has the amount of its order once.
paid_once : settled_balance tally 7 (run gateway day empty_db) ≡ pos 12500000
unfolding total run respond with_session ◌>>=◌ catch commit rollback get_current_merchant
    create_merchant create_order_endpoint initiate_upi_payment bank_callback deliver create_order
    replay_or_insert insert_order initiate_upi replay_or_start start_transaction secure_compare
    is_ascii process_bank_callback apply_event check_transitions settle ensure_account_locked
    insert_or_ignore has_account ◌+ℤ◌ assert_intent_transition assert_transaction_transition select
    update all any distinct fits_columns unique_keys fits fits_optional fits_money fits_merchant
    fits_intent fits_transaction fits_account fits_entry fits_delivery unique_merchants
    unique_intents unique_transactions unique_accounts has_length has_at validate_order validate_upi
    validate_merchant
paid_once = refl

-- A second payment of the order that is paid.
abbrev second_payment : ApiRequest
second_payment =
    post_upi_initiate 1500 by_key later_payment_draws
      (record upi_body { idempotency_key = "idem-0009" })

second_payment_conflicts : (respond gateway second_payment (run gateway day empty_db)).0 ≡ 409
unfolding run respond with_session ◌>>=◌ catch commit rollback get_current_merchant create_merchant
    create_order_endpoint initiate_upi_payment bank_callback deliver create_order replay_or_insert
    insert_order initiate_upi replay_or_start start_transaction secure_compare is_ascii
    process_bank_callback apply_event check_transitions settle ensure_account_locked
    insert_or_ignore has_account ◌+ℤ◌ assert_intent_transition assert_transaction_transition select
    update all any distinct fits_columns unique_keys fits fits_optional fits_money fits_merchant
    fits_intent fits_transaction fits_account fits_entry fits_delivery unique_merchants
    unique_intents unique_transactions unique_accounts has_length has_at validate_order validate_upi
    validate_merchant
second_payment_conflicts = refl

refused_request_stores_nothing_example :
    (respond gateway second_payment (run gateway day empty_db)).1 ≡ run gateway day empty_db
refused_request_stores_nothing_example =
    refused_request_stores_nothing gateway second_payment (run gateway day empty_db)
      (rw second_payment_conflicts (omega arith))
