-- ===== src/Scenario/Callbacks.antt =====
-- Requests to the endpoint of the bank's callbacks, with libraries that know the scenario's bodies.
use payment_gateway_system.Prelude.{
  ℕ, Bool, true, false, refl, ◌≡◌, none, some, List, [], ◌∷◌, ◌==◌, if◌then◌else◌,
}
use payment_gateway_system.Prelude.Int.{pos, ◌+ℤ◌}
use payment_gateway_system.Models.Database.{
  Db, fits_columns, unique_keys, fits, fits_optional, fits_money, fits_merchant, fits_intent,
  fits_transaction, fits_account, fits_entry, fits_delivery, unique_merchants, unique_intents,
  unique_transactions, unique_accounts,
}
use payment_gateway_system.Session.{Result, ok, ◌>>=◌, catch, commit, rollback, with_session}
use payment_gateway_system.Services.Webhook.{
  CallbackResult, fixed, ensure_account_locked, check_transitions, settle, apply_event,
  process_bank_callback,
}
use payment_gateway_system.Prelude.Rows.{select, update, any, all, distinct}
use payment_gateway_system.Core.Security.{is_ascii, secure_compare}
use payment_gateway_system.Core.Config.{default_settings}
use payment_gateway_system.Services.StateMachine.{
  assert_intent_transition, assert_transaction_transition,
}
use payment_gateway_system.Services.Accounts.{has_account, insert_or_ignore}
use payment_gateway_system.Api.BankCallback.{
  Environment, CallbackDraws, CallbackRequest, Body, no_json, object, Reply, accepted, rejected,
  deliver, bank_callback, new_delivery,
}
use payment_gateway_system.Api.BankCallback.Once.{bank_callback_redelivery}
use payment_gateway_system.Api.BankCallback.Rules.{
  Fate, bank_callback-Fate, unsigned_callback-Refused,
}
use payment_gateway_system.Scenario.Data.{sample_uuid_str, keys, later_keys, initiated, txn, intent}

abbrev pub read_body : List ℕ → Body
read_body [] = no_json
read_body (n ∷ ns) = object (record {
  event = if n == 1 then "payment.success" else "payment.failed";
  psp_reference = "psp_c1";
  amount = some (fixed (pos 12500000));
})

abbrev pub env : Environment
env = record {
  crypto = record {
    sha256 = λ m. "";
    hmac_sha256 = λ k m. elim m [ [] ↦ "00" | n ∷ ns ↦ if n == 1 then "5a" else "c3" ];
    encode = λ s. [];
  };
  loads = read_body;
  dumps = λ event txn order status. event;
  parse_int = λ s. none;
  uuid_str = sample_uuid_str;
  settings = default_settings;
}

abbrev pub draws : CallbackDraws
draws = record { keys = keys; delivery = 51; now = 1300; clock = 1300; broker_up = true }

abbrev later_draws : CallbackDraws
later_draws = record {
  keys = later_keys;
  delivery = 52;
  now = 1400;
  clock = 1400;
  broker_up = true;
}

abbrev with_merchant : Db
with_merchant = record initiated {
  merchants =
      record {
        id = 7;
        name = "shop";
        api_key_hash = "k";
        secret_hash = "s";
        is_active = true;
        webhook_url = some "https://shop.example/hook";
      }
      ∷ [];
}

abbrev pub signed : CallbackRequest
signed = record { x_signature = some "5a"; x_timestamp = none; body = 1 ∷ [] }

-- The body says failure, the signature is that of the success.
abbrev forged : CallbackRequest
forged = record signed { body = 2 ∷ [] }

abbrev queued : Result Reply → Bool
queued (ok (accepted (some d))) = true
queued _ = false

bank_callback-Fate_example :
    Fate draws with_merchant
      (with_session (bank_callback env draws signed) with_merchant).0
      (with_session (bank_callback env draws signed) with_merchant).1
bank_callback-Fate_example = bank_callback-Fate env draws signed with_merchant

unsigned_callback-Refused_example :
    with_session (bank_callback env draws forged) with_merchant ≡ (ok (rejected 401), with_merchant)
unfolding is_ascii
unsigned_callback-Refused_example =
    unsigned_callback-Refused env draws forged with_merchant (λ e. cc e)

-- The notification is handed to the queue once.
run_signed : queued (with_session (bank_callback env draws signed) with_merchant).0 ≡ true
unfolding with_session ◌>>=◌ catch commit rollback bank_callback deliver secure_compare is_ascii
    process_bank_callback apply_event check_transitions settle ensure_account_locked
    insert_or_ignore has_account ◌+ℤ◌ assert_intent_transition assert_transaction_transition select
    update all any distinct fits_columns unique_keys fits fits_optional fits_money fits_merchant
    fits_intent fits_transaction fits_account fits_entry fits_delivery unique_merchants
    unique_intents unique_transactions unique_accounts
run_signed = refl

abbrev outcome : CallbackResult
outcome = record {
  replay = false;
  transaction_db_id = txn.id;
  transaction_id = txn.public_id;
  order_id = some intent.public_id;
  status = "SUCCESS";
}

abbrev notified_db : Db
notified_db = (with_session (bank_callback env draws signed) with_merchant).1

accepted_signed : with_session (bank_callback env draws signed) with_merchant ≡ (
  ok (
      accepted
        (some (new_delivery env draws "payment.success" outcome 7 "https://shop.example/hook"))),
  notified_db,
)
unfolding with_session ◌>>=◌ catch commit rollback bank_callback deliver secure_compare is_ascii
    process_bank_callback apply_event check_transitions settle ensure_account_locked
    insert_or_ignore has_account ◌+ℤ◌ assert_intent_transition assert_transaction_transition select
    update all any distinct fits_columns unique_keys fits fits_optional fits_money fits_merchant
    fits_intent fits_transaction fits_account fits_entry fits_delivery unique_merchants
    unique_intents unique_transactions unique_accounts
accepted_signed = refl

bank_callback_redelivery_example :
    with_session (bank_callback env later_draws signed) notified_db
    ≡ (ok (accepted none), notified_db)
bank_callback_redelivery_example =
    bank_callback_redelivery env draws later_draws signed with_merchant accepted_signed refl
