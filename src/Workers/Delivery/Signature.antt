-- ===== src/Workers/Delivery/Signature.antt =====
-- The signature of a notification, from the outbox (app/api/v1/webhooks.py) to the merchant
-- (app/workers/tasks.py).
use payment_gateway_system.Prelude.{◌≡◌, refl, String, true, eq_iff}
use payment_gateway_system.Models.Payment.{Uuid}
use payment_gateway_system.Models.Merchant.{WebhookDelivery}
use payment_gateway_system.Core.Config.{Settings}
use payment_gateway_system.Core.Security.{verify_signature, secure_compare, is_ascii}
use payment_gateway_system.Session.{ok}
use payment_gateway_system.Services.Webhook.{CallbackResult}
use payment_gateway_system.Api.BankCallback.{Environment, CallbackDraws, new_delivery}
use payment_gateway_system.Workers.Delivery.{TaskEnvironment, Notification, webhook_headers}

-- The arguments with which the endpoint hands a delivery to the task.
abbrev pub notification : Settings → WebhookDelivery → Notification
notification settings d = record {
  url = d.url;
  payload = d.payload;
  secret = settings.merchant_webhook_secret;
}

abbrev pub attempt_signature : TaskEnvironment → Settings → WebhookDelivery → String → String
attempt_signature task settings d header =
    (webhook_headers task (notification settings d) header).signature

accepted : (digest : String) → is_ascii digest ≡ true → secure_compare digest digest ≡ ok true
unfolding secure_compare
accepted digest a = rw (a, (eq_iff digest digest).1 refl) refl

-- A task on the libraries of the endpoint, for a row that the endpoint wrote to the outbox, where
-- the HMAC is ASCII: the signature header of every attempt is the signature of the row, and a
-- merchant that verifies the header with the shared secret and the body that was sent accepts it.
pub webhook_headers-signature :
    (env : Environment) (task : TaskEnvironment) (draws : CallbackDraws) (event header : String)
    (result : CallbackResult) (merchant_id : Uuid) (url : String)
    → task.crypto ≡ env.crypto
    → is_ascii (new_delivery env draws event result merchant_id url).signature ≡ true
    → (attempt_signature task env.settings
          (new_delivery env draws event result merchant_id url)
          header
        ≡ (new_delivery env draws event result merchant_id url).signature)
      × (verify_signature env.crypto
            (env.crypto.encode (new_delivery env draws event result merchant_id url).payload)
            env.settings.merchant_webhook_secret
            (attempt_signature task env.settings
              (new_delivery env draws event result merchant_id url)
              header)
          ≡ ok true)
webhook_headers-signature env task draws event header result merchant_id url c a =
    rw c (refl, accepted _ a)
