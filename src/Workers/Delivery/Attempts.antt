-- ===== src/Workers/Delivery/Attempts.antt =====
-- The attempts of one delivery (app/workers/tasks.py), one run of the task after the other.
use payment_gateway_system.Prelude.{
  ℕ, zero, suc, ◌+◌, ◌≤◌, ◌<◌, ◌≡◌, ◌≢◌, ◌==◌, ◌⊎◌, refl, arith, String, true, false, some, ltb,
  if◌then◌else◌, subst, Bool-cases, inl, inr,
}
use payment_gateway_system.Workers.Delivery.{
  HttpOutcome, response, http_error, other_error, TaskEnvironment, IsCelery, Notification, TaskEnd,
  delivered, retry, exhausted, failed, webhook_headers, deliver_merchant_webhook,
}

-- How a delivery ends, after this number of runs: with a response, with the HTTP error of the last,
-- or with another exception; or not yet when the fuel is used up.
pub data DeliveryEnd : Type 0 where
  done : ℕ → String → DeliveryEnd
  given_up broken : ℕ → DeliveryEnd
  unfinished : DeliveryEnd

-- After a run, with this number of attempts: the end, or the runs after a retry.
abbrev pub after_run : ℕ → DeliveryEnd → TaskEnd → DeliveryEnd
after_run attempts later (delivered body) = done attempts body
after_run attempts later (retry delay) = later
after_run attempts later exhausted = given_up attempts
after_run attempts later failed = broken attempts

module _ (env : TaskEnvironment) (n : Notification) (jitter : ℕ → ℕ) where
  -- The runs of the task from this number of retries on, each after the retry of the one before.
  unfoldable pub deliveries : ℕ → ℕ → DeliveryEnd
  deliveries zero retries = unfinished
  deliveries (suc fuel) retries =
      after_run (suc retries) (deliveries fuel (suc retries))
        (deliver_merchant_webhook env n retries (jitter retries))

-- What the merchant's endpoint does with the attempt of a number.
abbrev pub sent : TaskEnvironment → Notification → String → ℕ → HttpOutcome
sent env n event attempt =
    env.post attempt n.url (env.crypto.encode n.payload) (webhook_headers env n event)

suc_is : (r : ℕ) → suc r ≡ r + 1
suc_is r = omega arith

at_limit : (r limit : ℕ) → r + 0 ≡ limit → ltb r limit ≡ false
at_limit r limit h = ground arith

below : (r m limit : ℕ) → r + suc m ≡ limit → ltb r limit ≡ true
below r m limit h = ground arith

last_attempt : (r limit : ℕ) → r + 0 ≡ limit → suc r ≡ limit + 1
last_attempt r limit h = omega arith

same_number : (k j : ℕ) → (j == k) ≡ true → k ≡ j
same_number k j h = ground arith

differs : (k j : ℕ) → (j == k) ≡ false → j ≢ k
differs k j h = ground arith

module _ (env : TaskEnvironment) (celery : IsCelery env) (n : Notification) (jitter : ℕ → ℕ)
    (event : String) (readable : env.event_of n.payload ≡ some event) where
  abbrev limit : ℕ
  limit = env.settings.celery_webhook_max_retries

  success_run :
      (fuel retries : ℕ) {body : String}
      → sent env n event (retries + 1) ≡ response body
      → deliveries env n jitter (suc fuel) retries ≡ done (suc retries) body
  unfolding deliveries deliver_merchant_webhook
  success_run fuel retries e = rw (readable, e) refl

  failure_run :
      (fuel retries : ℕ)
      → sent env n event (retries + 1) ≡ other_error
      → deliveries env n jitter (suc fuel) retries ≡ broken (suc retries)
  unfolding deliveries deliver_merchant_webhook
  failure_run fuel retries e = rw (readable, e) refl

  error_run :
      (fuel retries : ℕ)
      → sent env n event (retries + 1) ≡ http_error
      → deliveries env n jitter (suc fuel) retries ≡ (
          if ltb retries limit
          then deliveries env n jitter fuel (suc retries)
          else given_up (suc retries))
  unfolding deliveries deliver_merchant_webhook
  error_run fuel retries e = elim (Bool-cases (ltb retries limit)) [
    | inl l ↦ rw (readable, e, celery.retries retries limit, l) refl
    | inr l ↦ rw (readable, e, celery.retries retries limit, l) refl
  ]

-- What the attempts make of a delivery, where there is one more of them than retries: the response of
-- the first that is no HTTP error, or its exception, or the error of the last if all are HTTP errors.
pub data Course (limit : ℕ) (outcome : ℕ → HttpOutcome) : DeliveryEnd → Type 0 where
  first_success :
      (k : ℕ) (body : String)
      → k ≤ limit
      → ((j : ℕ) → j < k → outcome (j + 1) ≡ http_error)
      → outcome (k + 1) ≡ response body
      → Course limit outcome (done (k + 1) body)
  other_failure :
      (k : ℕ)
      → k ≤ limit
      → ((j : ℕ) → j < k → outcome (j + 1) ≡ http_error)
      → outcome (k + 1) ≡ other_error
      → Course limit outcome (broken (k + 1))
  all_fail :
      ((j : ℕ) → j ≤ limit → outcome (j + 1) ≡ http_error)
      → Course limit outcome (given_up (limit + 1))

outcome_cases :
    (o : HttpOutcome)
    → ((body : String) × (o ≡ response body)) ⊎ ((o ≡ http_error) ⊎ (o ≡ other_error))
outcome_cases (response body) = inl (body, refl)
outcome_cases http_error = inr (inl refl)
outcome_cases other_error = inr (inr refl)

-- One more attempt that failed.
errors_next :
    (outcome : ℕ → HttpOutcome) (k : ℕ)
    → ((j : ℕ) → j < k → outcome (j + 1) ≡ http_error)
    → outcome (k + 1) ≡ http_error
    → (j : ℕ) → j < suc k
    → outcome (j + 1) ≡ http_error
errors_next outcome k errors e j l = elim (Bool-cases (j == k)) [
  | inl q ↦ subst (λ i. outcome (i + 1) ≡ http_error) (same_number k j q) e
  | inr q ↦ errors j (omega (arith, differs k j q))
]

module _ (env : TaskEnvironment) (celery : IsCelery env) (n : Notification) (jitter : ℕ → ℕ)
    (event : String) (readable : env.event_of n.payload ≡ some event) where
  Course-from :
      (more retries : ℕ)
      → retries + more ≡ env.settings.celery_webhook_max_retries
      → ((j : ℕ) → j < retries → sent env n event (j + 1) ≡ http_error)
      → Course env.settings.celery_webhook_max_retries
          (sent env n event)
          (deliveries env n jitter (suc more) retries)
  Course-from zero retries h errors = elim (outcome_cases (sent env n event (retries + 1))) [
    | inl (body, e) ↦
        rw (success_run env celery n jitter event readable 0 retries e, suc_is retries)
          (first_success retries body (omega arith) errors e)
    | inr (inr e) ↦
        rw (failure_run env celery n jitter event readable 0 retries e, suc_is retries)
          (other_failure retries (omega arith) errors e)
    | inr (inl e) ↦
        rw
          (
            error_run env celery n jitter event readable 0 retries e,
            at_limit retries _ h,
            last_attempt retries _ h,
          )
          (all_fail (λ j l. errors_next (sent env n event) retries errors e j (omega arith)))
  ]
  Course-from (suc more) retries h errors = elim (outcome_cases (sent env n event (retries + 1))) [
    | inl (body, e) ↦
        rw (success_run env celery n jitter event readable (suc more) retries e, suc_is retries)
          (first_success retries body (omega arith) errors e)
    | inr (inr e) ↦
        rw (failure_run env celery n jitter event readable (suc more) retries e, suc_is retries)
          (other_failure retries (omega arith) errors e)
    | inr (inl e) ↦
        rw
          (
            error_run env celery n jitter event readable (suc more) retries e,
            below retries more _ h,
          )
          (Course-from more (suc retries) (omega arith)
            (errors_next (sent env n event) retries errors e))
  ]

-- A delivery whose payload is JSON, with Celery's retries as their limit says and with whatever
-- jitters: with as much fuel as there are attempts it comes to an end. If all attempts, one more than
-- there are retries, end in an HTTP error, it is given up with the error of the last; otherwise the
-- first attempt that does not is the last, and it ends with the response of that attempt, or with
-- its exception if it is no HTTP error.
pub deliveries-Course :
    (env : TaskEnvironment) (n : Notification) (jitter : ℕ → ℕ) (event : String)
    → IsCelery env
    → env.event_of n.payload ≡ some event
    → Course env.settings.celery_webhook_max_retries
        (sent env n event)
        (deliveries env n jitter (suc env.settings.celery_webhook_max_retries) 0)
deliveries-Course env n jitter event celery readable =
    Course-from env celery n jitter event readable env.settings.celery_webhook_max_retries 0
      (omega arith) (λ j l. absurd (omega arith))
