-- ===== src/Scenario/Tasks.antt =====
-- The delivery of a notification whose first attempt fails, and a sweep.
use payment_gateway_system.Prelude.{
  arith, ◌⊎◌, ◌+◌, ◌*◌, ◌≤◌, ◌==◌, true, ◌≡◌, refl, some, [], List, ltb, if◌then◌else◌,
}
use payment_gateway_system.Prelude.Rows.{any, distinct, length, All}
use payment_gateway_system.Models.Database.{
  unique_keys, unique_merchants, unique_intents, unique_transactions, unique_accounts,
}
use payment_gateway_system.Models.Payment.{Uuid}
use payment_gateway_system.Core.Config.{default_settings}
use payment_gateway_system.Core.Security.{verify_signature, is_ascii}
use payment_gateway_system.Session.{ok, with_session}
use payment_gateway_system.Workers.Delivery.{
  TaskEnvironment, IsCelery, Notification, response, http_error, backoff_delay,
  deliver_merchant_webhook,
}
use payment_gateway_system.Workers.Delivery.Delay.{backoff_delay_bounds}
use payment_gateway_system.Workers.Delivery.Attempts.{
  deliveries, done, Course, sent, deliveries-Course,
}
use payment_gateway_system.Workers.Delivery.Signature.{attempt_signature, webhook_headers-signature}
use payment_gateway_system.Workers.Reconciliation.{stuck_intents}
use payment_gateway_system.Workers.Reconciliation.Rules.{IsSeen, Stuck, stuck_intents-Stuck}
use payment_gateway_system.Api.BankCallback.{new_delivery}
use payment_gateway_system.Scenario.Data.{initiated, settled_result}
use payment_gateway_system.Scenario.Callbacks.{env, draws}

abbrev task : TaskEnvironment
task = record {
  crypto = env.crypto;
  settings = default_settings;
  event_of = λ payload. some payload;
  post = λ attempt url body headers. if attempt == 1 then http_error else response "ok";
  may_retry = λ n limit. ltb n limit;
}

task-IsCelery : IsCelery task
task-IsCelery = record { retries = λ n limit. refl }

abbrev note : Notification
note = record { url = "https://shop.example/hook"; payload = "payment.success"; secret = "shared" }

backoff_delay_bounds_example :
    (backoff_delay default_settings 2 7 ≤ 3600 * 1000000)
    × (backoff_delay default_settings 2 7 ≤ backoff_delay default_settings (2 + 1) 0)
backoff_delay_bounds_example =
    backoff_delay_bounds default_settings 2 7 0 (omega arith) (omega arith)

run_deliveries : deliveries task note (λ n. 0) 6 0 ≡ done 2 "ok"
unfolding deliveries deliver_merchant_webhook
run_deliveries = refl

deliveries-Course_example :
    Course 5 (sent task note "payment.success") (deliveries task note (λ n. 0) 6 0)
deliveries-Course_example =
    deliveries-Course task note (λ n. 0) "payment.success" task-IsCelery refl

webhook_headers-signature_example :
    (attempt_signature task env.settings
        (new_delivery env draws "payment.success" settled_result 7 "https://shop.example/hook")
        "payment.success"
      ≡ "00")
    × (verify_signature env.crypto [] "change-me-merchant-webhook-secret" (
          attempt_signature task env.settings
            (new_delivery env draws "payment.success" settled_result 7 "https://shop.example/hook")
            "payment.success")
        ≡ ok true)
unfolding is_ascii
webhook_headers-signature_example =
    webhook_headers-signature env task draws "payment.success" "payment.success" settled_result 7
      "https://shop.example/hook" refl refl

-- Two hours after the payment was started.
stuck_intents-Stuck_example :
    (flagged : List Uuid) × (with_session (stuck_intents 7200001100) initiated
      ≡ (ok flagged, initiated))
    × All (Stuck 7200001100 initiated.intents) flagged
    × (distinct (λ a b. a == b) flagged ≡ true)
    × (length flagged ≤ 500)
    × ((length flagged ≡ 500) ⊎ All (IsSeen 7200001100 flagged) initiated.intents)
unfolding unique_keys unique_merchants unique_intents unique_transactions unique_accounts distinct
    any
stuck_intents-Stuck_example = stuck_intents-Stuck 7200001100 initiated refl
