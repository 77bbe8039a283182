-- ===== src/Api/BankCallback/Once.antt =====
-- A second delivery of a callback to the endpoint (app/api/v1/webhooks.py).
use payment_gateway_system.Prelude.{
  String, true, ◌≡◌, refl, sym, ap, subst, ◌∙◌, Option, none, some, List, [], ◌∷◌, Bool-cases, inl,
  inr,
}
use payment_gateway_system.Models.Payment.{Uuid, PaymentIntent, Transaction}
use payment_gateway_system.Models.Merchant.{Merchant, WebhookDelivery}
use payment_gateway_system.Models.Database.{Db, fits_columns, unique_keys}
use payment_gateway_system.Session.{
  Session, Result, Error, ok, err, ◌>>=◌, commit, catch, scalar_one_or_none, transaction_not_found,
  amount_mismatch, with_session,
}
use payment_gateway_system.Session.Triples.{Kept, Stored}
use payment_gateway_system.Services.Webhook.{
  Decimal, CallbackResult, BankEvent, event_name, replay_result, process_bank_callback,
}
use payment_gateway_system.Services.Webhook.Rules.{callback-Triple, settle-keeps}
use payment_gateway_system.Services.Webhook.Lookup.{Finds, callback-Returned}
use payment_gateway_system.Services.Webhook.Redelivery.{start, delivery-Settled, callback-replay}
use payment_gateway_system.Api.BankCallback.{
  Environment, CallbackDraws, CallbackRequest, Reply, accepted, on_rejected, merchants_by_reference,
  new_delivery, add_delivery, notified, enqueue, notify, deliver, check_timestamp, bank_callback,
}
use payment_gateway_system.Api.BankCallback.Passes.{
  bank_callback-Passes, Passes-deliver, known_event,
}

-- Why a notification cannot be accepted after an exception of the service.
not_accepted :
    (env : Environment) (draws : CallbackDraws) (event ref : String) (e : Error) (s : Session)
    {o : Option WebhookDelivery} {s' : Session}
    → ¬ ((on_rejected e >>= notify env draws event ref) s ≡ (ok (accepted o), s'))
unfolding ◌>>=◌
not_accepted env draws event ref transaction_not_found s h = cc
not_accepted env draws event ref amount_mismatch s h = cc
not_accepted env draws event ref _ s h = cc

-- What a delivery that was accepted did: the service returned, and the merchant was notified.
record Notified (env : Environment) (draws : CallbackDraws) (event ref : String) (amount : Decimal)
    (db : Db) (o : Option WebhookDelivery) (s' : Session) : Type 0 where
  result : CallbackResult
  after : Session
  served :
      process_bank_callback env.uuid_str draws.keys draws.now event ref amount (start db)
      ≡ (ok result, after)
  notifies : notify env draws event ref (inr result) after ≡ (ok (accepted o), s')

deliver-Notified :
    (env : Environment) (draws : CallbackDraws) (event ref : String) (amount : Decimal) (db : Db)
    {o : Option WebhookDelivery} {s' : Session}
    → deliver env draws event ref amount (start db) ≡ (ok (accepted o), s')
    → Notified env draws event ref amount db o s'
unfolding deliver ◌>>=◌ catch
deliver-Notified env draws event ref amount db {o} {s'} h =
    go (process_bank_callback env.uuid_str draws.keys draws.now event ref amount (start db)).0
      (process_bank_callback env.uuid_str draws.keys draws.now event ref amount (start db)).1 refl
  where
    go :
        (q : Result CallbackResult) (s : Session)
        → process_bank_callback env.uuid_str draws.keys draws.now event ref amount (start db)
          ≡ (q, s)
        → Notified env draws event ref amount db o s'
    go (ok r) s e = record { result = r; after = s; served = e; notifies = rw e at h }
    go (err x) s e = absurd (not_accepted env draws event ref x s (rw e at h))

-- The database after the notification of a merchant.
data After (s : Session) (db' : Db) : Type 0 where
  quiet : db' ≡ s.stored → After s db'
  queued :
      (d : WebhookDelivery)
      → db' ≡ add_delivery d s.current
      → fits_columns (add_delivery d s.current) ≡ true
      → unique_keys (add_delivery d s.current) ≡ true
      → After s db'

enqueue-After :
    (env : Environment) (draws : CallbackDraws) (event : String) (r : CallbackResult)
    (to : Option (Uuid × String)) (s : Session) {reply : Reply} {s' : Session}
    → enqueue env draws event r to s ≡ (ok reply, s')
    → After s s'.stored
unfolding ◌>>=◌ commit
enqueue-After env draws event r none s h =
    quiet (ap (λ (p : Result Reply × Session). p.1.stored) (sym h))
enqueue-After env draws event r (some (m, url)) s {reply} {s'} h = elim (Bool-cases r.replay) [
  | inl e ↦ quiet (ap (λ (p : Result Reply × Session). p.1.stored) (sym (rw e at h)))
  | inr e ↦
      let d = new_delivery env draws event r m url in
      elim (Bool-cases (fits_columns (add_delivery d s.current))) [
        | inl f ↦ elim (Bool-cases (unique_keys (add_delivery d s.current))) [
          | inl u ↦ elim (Bool-cases draws.broker_up) [
            | inl b ↦
                queued d
                  (ap (λ (p : Result Reply × Session). p.1.stored) (sym (rw (e, f, u, b) at h))) f u
            | inr b ↦ cc (rw (e, f, u, b) at h)
          ]
          | inr u ↦ cc (rw (e, f, u) at h)
        ]
        | inr f ↦ cc (rw (e, f) at h)
      ]
]

-- The rows of the merchants decide what the notification does.
rows-After :
    (env : Environment) (draws : CallbackDraws) (event : String) (r : CallbackResult)
    (rows : List Merchant) (s : Session) {reply : Reply} {s' : Session}
    → (scalar_one_or_none rows >>= λ m. enqueue env draws event r (notified m)) s ≡ (ok reply, s')
    → After s s'.stored
unfolding ◌>>=◌
rows-After env draws event r [] s h = enqueue-After env draws event r none s h
rows-After env draws event r (m ∷ []) s h = enqueue-After env draws event r (notified (some m)) s h
rows-After env draws event r (m1 ∷ m2 ∷ rows) s h = cc

quiet_enqueue :
    (env : Environment) (draws : CallbackDraws) (event : String) (r : CallbackResult)
    (to : Option (Uuid × String)) (s : Session)
    → r.replay ≡ true
    → enqueue env draws event r to s ≡ (ok (accepted none), s)
quiet_enqueue env draws event r none s e = refl
quiet_enqueue env draws event r (some (m, url)) s e = rw e refl

-- With the same rows a replay is accepted with no notification.
rows_again :
    (env : Environment) (draws draws' : CallbackDraws) (event : String) (r r' : CallbackResult)
    (rows : List Merchant) (s t : Session) {reply : Reply} {s' : Session}
    → (scalar_one_or_none rows >>= λ m. enqueue env draws event r (notified m)) s ≡ (ok reply, s')
    → r'.replay ≡ true
    → (scalar_one_or_none rows >>= λ m. enqueue env draws' event r' (notified m)) t
      ≡ (ok (accepted none), t)
unfolding ◌>>=◌
rows_again env draws draws' event r r' [] s t h e = quiet_enqueue env draws' event r' none t e
rows_again env draws draws' event r r' (m ∷ []) s t h e =
    quiet_enqueue env draws' event r' (notified (some m)) t e
rows_again env draws draws' event r r' (m1 ∷ m2 ∷ rows) s t h e = cc

-- What a second delivery finds in the database that the first one left.
record Next (ref : String) (txn : Transaction) (intent : PaymentIntent) (s : Session) (db' : Db)
    : Type 0 where
  kept : Kept (Finds ref txn intent) db'
  merchants : merchants_by_reference ref db' ≡ merchants_by_reference ref s.current

After-Next :
    {ref : String} {txn : Transaction} {intent : PaymentIntent} (s : Session) (db' : Db)
    → s.stored ≡ s.current
    → Kept (Finds ref txn intent) s.stored
    → After s db'
    → Next ref txn intent s db'
After-Next {ref} {txn} {intent} s db' c k (quiet e) = record {
  kept = subst (Kept (Finds ref txn intent)) (sym e) k;
  merchants = ap (merchants_by_reference ref) (e ∙ c);
}
After-Next {ref} {txn} {intent} s db' c k (queued d e f u) =
    let found : Finds ref txn intent s.current = subst (Finds ref txn intent) c k.holds in
    record {
      kept = subst (Kept (Finds ref txn intent)) (sym e) (record {
        holds = record { transaction = found.transaction; owner = found.owner };
        fits = f;
        unique = u;
      });
      merchants = ap (merchants_by_reference ref) e;
    }

-- A service that returned has stored all it did.
pub deliver_clean :
    (env : Environment) (draws : CallbackDraws) (event ref : String) (amount : Decimal) (db : Db)
    {r : CallbackResult} {s : Session}
    → process_bank_callback env.uuid_str draws.keys draws.now event ref amount (start db)
      ≡ (ok r, s)
    → s.stored ≡ s.current
deliver_clean env draws event ref amount db {r} {s} h =
    let t =
      callback-Triple db (λ d. Unit {0}) env.uuid_str draws.keys
        (settle-keeps db (λ d. Unit {0}) (λ a b d u. tt) env.uuid_str draws.keys) (λ t s d u. tt)
        (λ i s n d u. tt) draws.now event ref amount in
    let stored : Stored (λ d. Unit {0}) s =
      rw h at (t.at (start db) (record { fresh = refl; holds = tt })) in
    stored.clean

deliver_again :
    (env : Environment) (draws draws' : CallbackDraws) (e : BankEvent) (ref : String)
    (amount : Decimal) (db : Db) {o : Option WebhookDelivery} {s' : Session}
    → deliver env draws (event_name e) ref amount (start db) ≡ (ok (accepted o), s')
    → deliver env draws' (event_name e) ref amount (start s'.stored)
      ≡ (ok (accepted none), start s'.stored)
unfolding deliver ◌>>=◌ catch
deliver_again env draws draws' e ref amount db {o} {s'} h =
    let n = deliver-Notified env draws (event_name e) ref amount db h in
    let f =
      callback-Returned env.uuid_str draws.keys draws.now (event_name e) ref amount (start db)
        n.served in
    let q = delivery-Settled env.uuid_str draws.keys draws.now e ref amount db f n.served in
    let next =
      After-Next n.after s'.stored (deliver_clean env draws (event_name e) ref amount db n.served)
        q.kept
        (rows-After env draws (event_name e) n.result (merchants_by_reference ref n.after.current)
          n.after n.notifies) in
    rw
      (callback-replay env.uuid_str draws'.keys draws'.now (event_name e) ref amount s'.stored
        next.kept q.replayed q.amounts)
      (rw next.merchants (
        rows_again env draws draws' (event_name e) n.result (replay_result q.txn)
          (merchants_by_reference ref n.after.current) n.after (start s'.stored) n.notifies refl))

-- What is left of a run when its session is closed.
abbrev closed : Result Reply × Session → Result Reply × Db
closed q = (q.0, q.1.stored)

-- A request to the endpoint that was accepted: the same request again, at a time at which its
-- timestamp is still fresh and with whatever keys are drawn then, is accepted with no notification,
-- and changes nothing in the database.
pub bank_callback_redelivery :
    (env : Environment) (draws draws' : CallbackDraws) (r : CallbackRequest) (db : Db)
    {o : Option WebhookDelivery} {db' : Db}
    → with_session (bank_callback env draws r) db ≡ (ok (accepted o), db')
    → check_timestamp env draws'.clock r.x_timestamp ≡ none
    → with_session (bank_callback env draws' r) db' ≡ (ok (accepted none), db')
unfolding with_session
bank_callback_redelivery env draws draws' r db {o} {db'} h t =
    let run : Result Reply × Session = bank_callback env draws r (start db) in
    let ended : run ≡ (ok (accepted o), run.1) = λ i. ((h i).0, run.1) in
    let stored : run.1.stored ≡ db' = λ i. (h i).1 in
    let (fresh, p) = bank_callback-Passes env draws r (start db) ended in
    let (e, named) = known_event p.body.fields.event p.body.fields.psp_reference p.body.gate in
    let first = sym (Passes-deliver env draws r (start db) p fresh) ∙ ended in
    let again =
      deliver_again env draws draws' e p.body.fields.psp_reference p.body.amount db
        (rw named at first) in
    let second =
      Passes-deliver env draws' r (start run.1.stored) p t
      ∙ ap
          (λ (v : String).
            deliver env draws' v p.body.fields.psp_reference p.body.amount (start run.1.stored))
          named
      ∙ again in
    rw stored at (ap closed second)
