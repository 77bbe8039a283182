-- ===== src/Api/BankCallback.antt =====
-- app/api/v1/webhooks.py: the endpoint of the bank's callbacks, its checks of the raw request, the
-- call of the service, and the outbox row with the notification of the merchant.
pub mod Rules
pub mod Passes
pub mod Once
use payment_gateway_system.Prelude.{
  ℕ, String, Bool, true, false, ◌&&◌, ◌||◌, not, Option, none, some, List, [], ◌∷◌, ◌++◌, ◌⊎◌, inl,
  inr, ◌-◌, ◌+◌, ◌*◌, ◌==◌, ltb, str_eq, if◌then◌else◌,
}
use payment_gateway_system.Prelude.Int.{ℤ, pos, negsuc, pos_part, neg_part}
use payment_gateway_system.Prelude.Rows.{select}
use payment_gateway_system.Models.Payment.{Uuid, PaymentIntent, Transaction}
use payment_gateway_system.Models.Merchant.{Merchant, DeliveryState, WebhookDelivery}
use payment_gateway_system.Models.Database.{Db}
use payment_gateway_system.Core.Config.{Settings}
use payment_gateway_system.Core.Security.{Crypto, sign_payload, verify_signature}
use payment_gateway_system.Session.{
  M, Error, ◌>>=◌, ◌>>◌, pure, raise, lift, read, write, scalar_one_or_none, commit, catch,
  transaction_not_found, amount_mismatch, unexpected,
}
use payment_gateway_system.Services.Ledger.{PostingKeys}
use payment_gateway_system.Services.Webhook.{
  Decimal, CallbackResult, by_reference, process_bank_callback,
}

-- What the body says: the values of the keys `event` and `psp_reference`, where a key that is absent
-- counts as an empty text, and the amount, if `Decimal` reads it.
pub record EventData : Type 0 where
  pub event : String
  pub psp_reference : String
  pub amount : Option Decimal

-- `json.loads` and the reading of the three keys: the body is no JSON, it is JSON that the code
-- fails on with another exception, or it is an object.
pub data Body : Type 0 where
  no_json unreadable : Body
  object : EventData → Body

-- The libraries and the settings that the endpoint uses. `dumps` is the text of the notification of
-- an event, with the id of the transaction, that of the order and the status.
pub record Environment : Type 0 where
  pub crypto : Crypto
  pub loads : List ℕ → Body
  pub dumps : String → String → Option String → String → String
  pub parse_int : String → Option ℤ
  pub uuid_str : Uuid → String
  pub settings : Settings

pub record CallbackRequest : Type 0 where
  pub x_signature : Option String
  pub x_timestamp : Option String
  pub body : List ℕ

-- What a request draws: the keys of the new rows, the time of the update and the clock, both in
-- microseconds, and whether the broker takes the task of the notification.
pub record CallbackDraws : Type 0 where
  pub keys : PostingKeys
  pub delivery : Uuid
  pub now : ℕ
  pub clock : ℕ
  pub broker_up : Bool

-- The reply: the status of an `HTTPException`, or the acknowledgement, with the delivery that was
-- handed to the task queue, if there was one.
pub data Reply : Type 0 where
  rejected : ℕ → Reply
  accepted : Option WebhookDelivery → Reply

abbrev pub microseconds : ℕ → ℕ
microseconds seconds = seconds * 1000000

-- The distance of the clock from a timestamp of either sign.
abbrev pub age : ℕ → ℤ → ℕ
age clock ts =
    (clock - microseconds (pos_part ts))
    + (microseconds (pos_part ts) - clock)
    + microseconds (neg_part ts)

-- The status for a timestamp that is no number or is too old.
abbrev pub stale_status : Environment → ℕ → Option ℤ → Option ℕ
stale_status env clock none = some 400
stale_status env clock (some ts) =
    if ltb (microseconds env.settings.webhook_verify_tolerance_seconds) (age clock ts)
    then some 401
    else none

abbrev pub check_timestamp : Environment → ℕ → Option String → Option ℕ
check_timestamp env clock none = none
check_timestamp env clock (some t) = stale_status env clock (env.parse_int t)

abbrev pub is_known_event : String → Bool
is_known_event event = str_eq event "payment.success" || str_eq event "payment.failed"

-- `except (TransactionNotFound, AmountMismatch)`
abbrev pub on_rejected : Error → M (ℕ ⊎ CallbackResult)
on_rejected transaction_not_found = pure (inl 422)
on_rejected amount_mismatch = pure (inl 422)
on_rejected e = raise e

-- The join of merchants, intents and transactions on the reference.
abbrev pub intents_of : List PaymentIntent → List Transaction → List PaymentIntent
intents_of intents [] = []
intents_of intents (t ∷ ts) = select (λ i. i.id == t.intent_id) intents ++ intents_of intents ts

abbrev pub merchants_of : List Merchant → List PaymentIntent → List Merchant
merchants_of merchants [] = []
merchants_of merchants (i ∷ is) =
    select (λ m. m.id == i.merchant_id) merchants ++ merchants_of merchants is

abbrev pub merchants_by_reference : String → Db → List Merchant
merchants_by_reference ref db =
    merchants_of db.merchants (intents_of db.intents (select (by_reference ref) db.transactions))

abbrev pub add_delivery : WebhookDelivery → Db → Db
add_delivery d db = record db { deliveries = d ∷ db.deliveries }

-- The url of a merchant that gets notifications: an empty text is none.
abbrev pub notified : Option Merchant → Option (Uuid × String)
notified none = none
notified (some m) = elim m.webhook_url [
  | none ↦ none
  | some url ↦ if str_eq url "" then none else some (m.id, url)
]

module _ (env : Environment) (draws : CallbackDraws) where
  abbrev pub new_delivery : String → CallbackResult → Uuid → String → WebhookDelivery
  new_delivery event result merchant_id url =
      let payload = env.dumps event result.transaction_id result.order_id result.status in
      record {
        id = draws.delivery;
        transaction_id = result.transaction_db_id;
        merchant_id = merchant_id;
        url = url;
        payload = payload;
        signature =
            sign_payload env.crypto (env.crypto.encode payload)
              env.settings.merchant_webhook_secret;
        state = DeliveryState.pending;
        attempts = 0;
        last_error = none;
        delivered_at = none;
      }

  -- `deliver_merchant_webhook.delay`, which raises if the broker does not take the task.
  abbrev pub hand_over : WebhookDelivery → M Reply
  hand_over d = if draws.broker_up then pure (accepted (some d)) else raise unexpected

  abbrev pub enqueue : String → CallbackResult → Option (Uuid × String) → M Reply
  enqueue event result none = pure (accepted none)
  enqueue event result (some (merchant_id, url)) =
      if result.replay
      then pure (accepted none)
      else (write (add_delivery (new_delivery event result merchant_id url))
          >> (commit >> hand_over (new_delivery event result merchant_id url)))

  abbrev pub notify : String → String → (ℕ ⊎ CallbackResult) → M Reply
  notify event ref (inl status) = pure (rejected status)
  notify event ref (inr result) = do
    merchants ← read (merchants_by_reference ref)
    merchant ← scalar_one_or_none merchants
    enqueue event result (notified merchant)

  -- From the call of the service on.
  unfoldable pub deliver : String → String → Decimal → M Reply
  deliver event ref amount = do
    result ←
        catch
          (process_bank_callback env.uuid_str draws.keys draws.now event ref amount >>= λ r.
            pure (inr r))
          on_rejected
    notify event ref result

  abbrev pub read_amount : String → String → Option Decimal → M Reply
  read_amount event ref none = raise unexpected
  read_amount event ref (some amount) = deliver event ref amount

  -- From the body on.
  abbrev pub handle_body : Body → M Reply
  handle_body no_json = pure (rejected 400)
  handle_body unreadable = raise unexpected
  handle_body (object d) =
      if not (is_known_event d.event) || str_eq d.psp_reference ""
      then pure (rejected 400)
      else read_amount d.event d.psp_reference d.amount

  abbrev pub when_fresh : Option ℕ → Body → M Reply
  when_fresh (some status) body = pure (rejected status)
  when_fresh none body = handle_body body

  -- The test of the signature that is not empty.
  abbrev pub verified : CallbackRequest → String → M Reply
  verified r signature = do
    is_valid ← lift (verify_signature env.crypto r.body env.settings.psp_webhook_secret signature)
    if is_valid
        then when_fresh (check_timestamp env draws.clock r.x_timestamp) (env.loads r.body)
        else pure (rejected 401)

  abbrev pub when_signed : CallbackRequest → Option String → M Reply
  when_signed r none = pure (rejected 400)
  when_signed r (some signature) =
      if str_eq signature "" then pure (rejected 400) else verified r signature

  unfoldable pub bank_callback : CallbackRequest → M Reply
  bank_callback r = when_signed r r.x_signature
