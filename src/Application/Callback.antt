-- ===== src/Application/Callback.antt =====
-- What the endpoint of the bank's callbacks (app/api/v1/webhooks.py) keeps in the database.
use payment_gateway_system.Prelude.{
  ℕ, String, ◌≡◌, refl, Option, none, some, List, ◌∷◌, ◌⊎◌, inl, inr, str_eq, Bool-cases,
}
use payment_gateway_system.Models.Payment.{Uuid}
use payment_gateway_system.Models.Merchant.{WebhookDelivery}
use payment_gateway_system.Models.Database.{Db, fits_columns, unique_keys}
use payment_gateway_system.Session.{
  Session, Result, Error, ok, err, ◌>>=◌, ◌>>◌, raise, write, commit, with_session,
  transaction_not_found, amount_mismatch, unexpected,
}
use payment_gateway_system.Session.Triples.{
  Ends, Triple, Triple-bind, Triple-if, Triple-same, Triple-catch_from, Kept, LeavesSession-read,
  LeavesSession-lift, LeavesSession-scalar_one_or_none,
}
use payment_gateway_system.Services.Webhook.{Decimal, CallbackResult, process_bank_callback}
use payment_gateway_system.Services.Webhook.Redelivery.{start}
use payment_gateway_system.Api.BankCallback.{
  Environment, CallbackDraws, CallbackRequest, Body, no_json, unreadable, object, Reply, rejected,
  on_rejected, new_delivery, add_delivery, notified, hand_over, enqueue, notify, deliver,
  read_amount, when_fresh, verified, when_signed, check_timestamp, bank_callback,
}
use payment_gateway_system.Api.BankCallback.Once.{deliver_clean}
use payment_gateway_system.Application.Keeps.{
  IsFresh, Safe, fresh-Safe, fresh-leaves, done, with_session-Safe,
}

-- What the session of the endpoint is after the service: all is stored, and in order.
record IsServed (I : Db → Type 0) (s : Session) : Type 0 where
  clean : s.stored ≡ s.current
  kept : Kept I s.stored

module _ (base : Db) (I : Db → Type 0) (k : Kept I base) (env : Environment) (draws : CallbackDraws)
    (callbacks : (event ref : String) (amount : Decimal)
      → Kept I
          (with_session
            (process_bank_callback env.uuid_str draws.keys draws.now event ref amount)
            base).1)
    (outbox : (ds : List WebhookDelivery) (db : Db)
      → I db
      → I (record db { deliveries = ds })) where
  abbrev Outcome : (ℕ ⊎ CallbackResult) → Session → Type 0
  Outcome (inl status) s = Safe I s
  Outcome (inr r) s = IsServed I s

  served-safe : (s : Session) → IsServed I s → Safe I s
  served-safe s h = record { holds = h.kept }

  process-Triple :
      (event ref : String) (amount : Decimal)
      → Triple
          (IsFresh base)
          (process_bank_callback env.uuid_str draws.keys draws.now event ref amount)
          (λ r. IsServed I)
          (Safe I)
  unfolding with_session
  process-Triple event ref amount = record {
    at = λ s f. rw f.begun (ended _ _ refl (callbacks event ref amount));
  }
    where
      ended :
          (r : Result CallbackResult) (s : Session)
          → process_bank_callback env.uuid_str draws.keys draws.now event ref amount (start base)
            ≡ (r, s)
          → Kept I s.stored
          → Ends (λ r. IsServed I) (Safe I) (r, s)
      ended (ok r) s e h = record {
        clean = deliver_clean env draws event ref amount base e;
        kept = h;
      }
      ended (err x) s e h = record { holds = h }

  on_rejected-Safe : (e : Error) → Triple (Safe I) (on_rejected e) Outcome (Safe I)
  on_rejected-Safe transaction_not_found = record { at = λ s h. h }
  on_rejected-Safe amount_mismatch = record { at = λ s h. h }
  on_rejected-Safe _ = record { at = λ s h. h }

  -- The row of the notification, and its commit.
  commit-Safe :
      (d : WebhookDelivery)
      → Triple
          (IsServed I)
          (write (add_delivery d) >> (commit >> hand_over env draws d))
          (λ r. Safe I)
          (Safe I)
  unfolding ◌>>=◌ commit
  commit-Safe d = record {
    at = λ s h.
        let db = add_delivery d s.current in
        let holds : I s.current = rw h.clean at h.kept.holds in
        elim (Bool-cases (fits_columns db)) [
          | inl e ↦ elim (Bool-cases (unique_keys db)) [
            | inl u ↦
                let safe : Safe I (record { stored = db; current = db }) = record {
                  holds = record {
                    holds = outbox (d ∷ s.current.deliveries) s.current holds;
                    fits = e;
                    unique = u;
                  };
                } in
                elim (Bool-cases draws.broker_up) [
                  | inl b ↦ rw (e, u, b) safe
                  | inr b ↦ rw (e, u, b) safe
                ]
            | inr u ↦ rw (e, u) (record { holds = h.kept })
          ]
          | inr e ↦ rw e (record { holds = h.kept })
        ];
  }

  enqueue-Safe :
      (event : String) (r : CallbackResult) (o : Option (Uuid × String))
      → Triple (IsServed I) (enqueue env draws event r o) (λ a. Safe I) (Safe I)
  enqueue-Safe event r none = record { at = λ s h. served-safe s h }
  enqueue-Safe event r (some (m, url)) =
      Triple-if r.replay _ _ (λ e. record { at = λ s h. served-safe s h })
        (λ e. commit-Safe (new_delivery env draws event r m url))

  notify-Safe :
      (event ref : String) (o : ℕ ⊎ CallbackResult)
      → Triple (Outcome o) (notify env draws event ref o) (λ a. Safe I) (Safe I)
  notify-Safe event ref (inl status) = record { at = λ s h. h }
  notify-Safe event ref (inr r) =
      Triple-bind _ _ (Triple-same _ (LeavesSession-read _) served-safe) λ merchants.
        Triple-bind _ _ (Triple-same _ (LeavesSession-scalar_one_or_none merchants) served-safe)
          λ merchant. enqueue-Safe event r (notified merchant)

  deliver-Safe :
      (event ref : String) (amount : Decimal)
      → Triple (IsFresh base) (deliver env draws event ref amount) (λ a. Safe I) (Safe I)
  unfolding deliver
  deliver-Safe event ref amount =
      Triple-bind _ _
        (Triple-catch_from {R = Safe I} {Q = Outcome} _ on_rejected
          (Triple-bind _ _ (process-Triple event ref amount) λ r. record { at = λ s h. h })
          on_rejected-Safe)
        (notify-Safe event ref)

  raised : (e : Error) → Triple (IsFresh base) (raise {A = Reply} e) (λ a. Safe I) (Safe I)
  raised e = record { at = λ s f. fresh-Safe base I k s f }

  when_fresh-Safe :
      (o : Option ℕ) (body : Body)
      → Triple (IsFresh base) (when_fresh env draws o body) (λ a. Safe I) (Safe I)
  when_fresh-Safe (some status) body = done base I k (rejected status)
  when_fresh-Safe none no_json = done base I k (rejected 400)
  when_fresh-Safe none unreadable = raised unexpected
  when_fresh-Safe none (object d) =
      Triple-if _ _ _ (λ e. done base I k (rejected 400)) (λ e. read_amount-Safe d.amount)
    where
      read_amount-Safe :
          (o : Option Decimal)
          → Triple
              (IsFresh base)
              (read_amount env draws d.event d.psp_reference o)
              (λ a. Safe I)
              (Safe I)
      read_amount-Safe none = raised unexpected
      read_amount-Safe (some amount) = deliver-Safe d.event d.psp_reference amount

  when_signed-Safe :
      (r : CallbackRequest) (o : Option String)
      → Triple (IsFresh base) (when_signed env draws r o) (λ a. Safe I) (Safe I)
  when_signed-Safe r none = done base I k (rejected 400)
  when_signed-Safe r (some signature) =
      Triple-if (str_eq signature "") _ (verified env draws r signature)
        (λ e. done base I k (rejected 400))
        (λ e. Triple-bind _ _ (fresh-leaves base I k _ (LeavesSession-lift _)) λ is_valid.
          Triple-if is_valid _ _
            (λ v.
              when_fresh-Safe (check_timestamp env draws.clock r.x_timestamp) (env.loads r.body))
            (λ v. done base I k (rejected 401)))

  pub bank_callback-keeps :
      (r : CallbackRequest) → Kept I (with_session (bank_callback env draws r) base).1
  unfolding bank_callback
  bank_callback-keeps r = with_session-Safe base I k _ (when_signed-Safe r r.x_signature)
