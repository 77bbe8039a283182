-- ===== src/Api/BankCallback/Passes.antt =====
-- The requests that pass the checks of the endpoint (app/api/v1/webhooks.py).
use payment_gateway_system.Prelude.{
  ℕ, String, Bool, true, false, ◌≡◌, refl, Option, none, some, ◌||◌, not, str_eq, eq_iff,
  Bool-cases, Option-cases, inl, inr,
}
use payment_gateway_system.Core.Security.{verify_signature}
use payment_gateway_system.Models.Merchant.{WebhookDelivery}
use payment_gateway_system.Session.{Session, Result, ok, err, ◌>>=◌}
use payment_gateway_system.Services.Webhook.{
  Decimal, BankEvent, event_name, payment_success, payment_failed,
}
use payment_gateway_system.Api.BankCallback.{
  Environment, CallbackDraws, CallbackRequest, EventData, Body, no_json, unreadable, object,
  accepted, deliver, is_known_event, check_timestamp, bank_callback, handle_body, when_fresh,
  verified,
}

-- A body that the endpoint hands to the service.
pub record Readable (b : Body) : Type 0 where
  pub fields : EventData
  pub parsed : b ≡ object fields
  pub gate : (not (is_known_event fields.event) || str_eq fields.psp_reference "") ≡ false
  pub amount : Decimal
  pub reads : fields.amount ≡ some amount

-- A request that passes every check but that of its timestamp.
pub record Passes (env : Environment) (r : CallbackRequest) : Type 0 where
  pub signature : String
  pub signed : r.x_signature ≡ some signature
  pub given : str_eq signature "" ≡ false
  pub genuine :
      verify_signature env.crypto r.body env.settings.psp_webhook_secret signature ≡ ok true
  pub body : Readable (env.loads r.body)

handle_body-Readable :
    (env : Environment) (draws : CallbackDraws) (b : Body) (s : Session)
    {o : Option WebhookDelivery} {s' : Session}
    → handle_body env draws b s ≡ (ok (accepted o), s')
    → Readable b
handle_body-Readable env draws no_json s h = cc
handle_body-Readable env draws unreadable s h = cc
handle_body-Readable env draws (object d) s h =
    elim (Bool-cases (not (is_known_event d.event) || str_eq d.psp_reference "")) [
      | inl g ↦ cc (rw g at h)
      | inr g ↦ elim (Option-cases d.amount) [
        | inl e ↦ cc (rw (g, e) at h)
        | inr (a, e) ↦ record { fields = d; parsed = refl; gate = g; amount = a; reads = e }
      ]
    ]

when_fresh-Readable :
    (env : Environment) (draws : CallbackDraws) (t : Option ℕ) (b : Body) (s : Session)
    {o : Option WebhookDelivery} {s' : Session}
    → when_fresh env draws t b s ≡ (ok (accepted o), s')
    → (t ≡ none) × Readable b
when_fresh-Readable env draws none b s h = (refl, handle_body-Readable env draws b s h)
when_fresh-Readable env draws (some status) b s h = cc

module _ (env : Environment) (draws : CallbackDraws) (r : CallbackRequest) (s : Session)
    {o : Option WebhookDelivery} {s' : Session} where
  verified-Passes :
      (signature : String)
      → r.x_signature ≡ some signature
      → str_eq signature "" ≡ false
      → verified env draws r signature s ≡ (ok (accepted o), s')
      → (check_timestamp env draws.clock r.x_timestamp ≡ none) × Passes env r
  unfolding ◌>>=◌
  verified-Passes signature e g h =
      genuine (verify_signature env.crypto r.body env.settings.psp_webhook_secret signature) refl
    where
      genuine :
          (q : Result Bool)
          → verify_signature env.crypto r.body env.settings.psp_webhook_secret signature ≡ q
          → (check_timestamp env draws.clock r.x_timestamp ≡ none) × Passes env r
      genuine (ok true) v =
          let (fresh, body) =
            when_fresh-Readable env draws (check_timestamp env draws.clock r.x_timestamp)
              (env.loads r.body) s (rw v at h) in
          (fresh, record { signature = signature; signed = e; given = g; genuine = v; body = body })
      genuine (ok false) v = cc (rw v at h)
      genuine (err x) v = cc (rw v at h)

  pub bank_callback-Passes :
      bank_callback env draws r s ≡ (ok (accepted o), s')
      → (check_timestamp env draws.clock r.x_timestamp ≡ none) × Passes env r
  unfolding bank_callback
  bank_callback-Passes h = elim (Option-cases r.x_signature) [
    | inl e ↦ cc (rw e at h)
    | inr (signature, e) ↦ elim (Bool-cases (str_eq signature "")) [
      | inl g ↦ cc (rw (e, g) at h)
      | inr g ↦ verified-Passes signature e g (rw (e, g) at h)
    ]
  ]

-- What a request that passes does when its timestamp is fresh.
pub Passes-deliver :
    (env : Environment) (draws : CallbackDraws) (r : CallbackRequest) (s : Session)
    (p : Passes env r)
    → check_timestamp env draws.clock r.x_timestamp ≡ none
    → bank_callback env draws r s
      ≡ deliver env draws p.body.fields.event p.body.fields.psp_reference p.body.amount s
unfolding bank_callback ◌>>=◌
Passes-deliver env draws r s p t =
    rw (p.signed, p.given, p.genuine, t, p.body.parsed, p.body.gate, p.body.reads) refl

pub known_event :
    (event ref : String)
    → (not (is_known_event event) || str_eq ref "") ≡ false
    → (e : BankEvent) × (event ≡ event_name e)
known_event event ref h = elim (Bool-cases (str_eq event "payment.success")) [
  | inl p ↦ (payment_success, (eq_iff event "payment.success").0 p)
  | inr p ↦ elim (Bool-cases (str_eq event "payment.failed")) [
    | inl q ↦ (payment_failed, (eq_iff event "payment.failed").0 q)
    | inr q ↦ cc (rw (p, q) at h)
  ]
]
