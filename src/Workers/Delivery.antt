-- ===== src/Workers/Delivery.antt =====
-- app/workers/tasks.py: the delivery of a notification to a merchant, with its retries.
pub mod Delay
pub mod Attempts
pub mod Signature
use payment_gateway_system.Prelude.{
  ℕ, suc, ◌+◌, ◌-◌, ◌*◌, ◌^◌, String, Bool, true, false, ◌≡◌, Option, none, some, List, ltb, leb,
  if◌then◌else◌,
}
use payment_gateway_system.Core.Config.{Settings}
use payment_gateway_system.Core.Security.{Crypto, sign_payload}

pub record WebhookHeaders : Type 0 where
  pub content_type : String
  pub signature : String
  pub event : String

-- What `httpx.post` and `raise_for_status` do: the text of a response with a status of success, an
-- `HTTPError`, of the network or for another status, or another exception, as for an address that
-- is no URL.
pub data HttpOutcome : Type 0 where
  response : String → HttpOutcome
  http_error other_error : HttpOutcome

-- The libraries that the task uses. `event_of` reads the key `event` of a JSON text, an empty text
-- if it has none, and fails on any other text. `post` sends an attempt, by its number, to an address.
-- `may_retry` is the test of `Task.retry`, of the retries so far and the most that there may be.
pub record TaskEnvironment : Type 0 where
  pub crypto : Crypto
  pub settings : Settings
  pub event_of : String → Option String
  pub post : ℕ → String → List ℕ → WebhookHeaders → HttpOutcome
  pub may_retry : ℕ → ℕ → Bool

-- Celery retries a task as often as `max_retries` says.
pub record IsCelery (env : TaskEnvironment) : Type 0 where
  pub retries : (n limit : ℕ) → env.may_retry n limit ≡ ltb n limit

-- The arguments of the task that are not its number.
pub record Notification : Type 0 where
  pub url : String
  pub payload : String
  pub secret : String

-- How a run of the task ends: with the text of the response, with a retry after a time, with the
-- error of the last attempt, or with another exception.
pub data TaskEnd : Type 0 where
  delivered : String → TaskEnd
  retry : ℕ → TaskEnd
  exhausted failed : TaskEnd

abbrev pub max_delay : ℕ
max_delay = 3600 * 1000000

-- `_backoff_delay`, in microseconds, at the jitter that `random.uniform(0, base)` draws.
unfoldable pub backoff_delay : Settings → ℕ → ℕ → ℕ
backoff_delay settings attempt jitter =
    let delay = settings.celery_webhook_retry_backoff * 2 ^ (attempt - 1) + jitter in
    if ltb delay max_delay then delay else max_delay

module _ (env : TaskEnvironment) where
  abbrev pub webhook_headers : Notification → String → WebhookHeaders
  webhook_headers n event = record {
    content_type = "application/json";
    signature = sign_payload env.crypto (env.crypto.encode n.payload) n.secret;
    event = event;
  }

  abbrev pub after_post : ℕ → ℕ → HttpOutcome → TaskEnd
  after_post retries jitter (response body) = delivered body
  after_post retries jitter http_error =
      if env.may_retry retries env.settings.celery_webhook_max_retries
      then retry (backoff_delay env.settings (retries + 1) jitter)
      else exhausted
  after_post retries jitter other_error = failed

  -- From the event on, which `json.loads` may fail to give.
  abbrev pub with_event : Notification → ℕ → ℕ → Option String → TaskEnd
  with_event n retries jitter none = failed
  with_event n retries jitter (some event) =
      after_post retries jitter
        (env.post (retries + 1) n.url (env.crypto.encode n.payload) (webhook_headers n event))

  -- One run of the task, after this number of retries.
  unfoldable pub deliver_merchant_webhook : Notification → ℕ → ℕ → TaskEnd
  deliver_merchant_webhook n retries jitter = with_event n retries jitter (env.event_of n.payload)
