-- ===== src/Api/BankCallback/Rules.antt =====
-- What the endpoint of the bank's callbacks (app/api/v1/webhooks.py) stores for each reply.
use payment_gateway_system.Prelude.{
  ◌&&◌, false, ℕ, String, ◌≡◌, refl, sym, ap, Option, none, some, ◌∷◌, ◌⊎◌, inl, inr, str_eq,
  eq_iff, Bool-cases, if◌then◌else◌,
}
use payment_gateway_system.Models.Payment.{Uuid}
use payment_gateway_system.Models.Merchant.{WebhookDelivery}
use payment_gateway_system.Models.Database.{Db, fits_columns, unique_keys}
use payment_gateway_system.Core.Security.{sign_payload, secure_compare, is_ascii}
use payment_gateway_system.Session.{
  Session, Result, Error, ok, err, ◌>>=◌, ◌>>◌, pure, raise, write, commit, with_session,
  transaction_not_found, amount_mismatch, unexpected,
}
use payment_gateway_system.Session.Triples.{
  Ends, Triple, Triple-bind, Triple-if, Triple-same, Triple-catch_from, Working, Stored, Untouched,
  LeavesSession-read, LeavesSession-lift, LeavesSession-scalar_one_or_none,
}
use payment_gateway_system.Services.Webhook.{Decimal, CallbackResult}
use payment_gateway_system.Services.Webhook.Rules.{callback-Triple, settle-keeps}
use payment_gateway_system.Api.BankCallback.{
  Environment, CallbackDraws, CallbackRequest, Body, no_json, unreadable, object, Reply, rejected,
  accepted, on_rejected, new_delivery, add_delivery, notified, hand_over, enqueue, notify, deliver,
  read_amount, when_fresh, verified, when_signed, check_timestamp, bank_callback,
}

-- What a reply says of the database before and after it.
abbrev pub Promised : Db → Reply → Db → Type 0
Promised base (rejected status) db = db ≡ base
Promised base (accepted none) db = db.deliveries ≡ base.deliveries
Promised base (accepted (some d)) db = db.deliveries ≡ d ∷ base.deliveries

-- A delivery was stored that the broker did not take.
abbrev pub IsStranded : CallbackDraws → Db → Db → Type 0
IsStranded draws base db =
    (draws.broker_up ≡ false) × ((d : WebhookDelivery) × (db.deliveries ≡ d ∷ base.deliveries))

abbrev pub Fate : CallbackDraws → Db → Result Reply → Db → Type 0
Fate draws base (ok reply) db = Promised base reply db
Fate draws base (err e) db = (db.deliveries ≡ base.deliveries) ⊎ IsStranded draws base db

module _ (env : Environment) (draws : CallbackDraws) (base : Db) where
  -- The outbox of this database is that of the start.
  abbrev SameOutbox : Db → Type 0
  SameOutbox db = db.deliveries ≡ base.deliveries

  record OutboxKept (s : Session) : Type 0 where
    kept : SameOutbox s.stored ⊎ IsStranded draws base s.stored

  record Replied (reply : Reply) (s : Session) : Type 0 where
    promised : Promised base reply s.stored

  abbrev Served : (ℕ ⊎ CallbackResult) → Session → Type 0
  Served (inl status) s = Untouched base s
  Served (inr r) s = Stored SameOutbox s

  Served-Triple :
      (r : CallbackResult) → Triple (Stored SameOutbox) (pure (inr r)) Served (Untouched base)
  Served-Triple r = record { at = λ s p. p }

  Untouched-kept : (s : Session) → Untouched base s → OutboxKept s
  Untouched-kept s u = record { kept = inl (ap (λ (d : Db). d.deliveries) u.fresh) }

  on_rejected-Triple : (e : Error) → Triple (Untouched base) (on_rejected e) Served OutboxKept
  on_rejected-Triple transaction_not_found = record { at = λ s u. u }
  on_rejected-Triple amount_mismatch = record { at = λ s u. u }
  on_rejected-Triple _ = record { at = λ s u. Untouched-kept s u }

  Stored-kept : (s : Session) → Stored SameOutbox s → OutboxKept s
  Stored-kept s p = record { kept = inl (rw p.clean p.holds) }

  commit-Replied :
      (d : WebhookDelivery) (s : Session)
      → Stored SameOutbox s
      → Ends Replied OutboxKept ((write (add_delivery d) >> (commit >> hand_over env draws d)) s)
  unfolding ◌>>=◌ commit
  commit-Replied d s p =
      let db = add_delivery d s.current in
      elim (Bool-cases (fits_columns db)) [
        | inl e ↦ elim (Bool-cases (unique_keys db)) [
          | inl u ↦ elim (Bool-cases draws.broker_up) [
            | inl b ↦ rw (e, u, b) (record { promised = rw p.holds refl })
            | inr b ↦ rw (e, u, b) (record { kept = inr (refl, (d, rw p.holds refl)) })
          ]
          | inr u ↦ rw (e, u) (record { kept = (Stored-kept s p).kept })
        ]
        | inr e ↦ rw e (record { kept = (Stored-kept s p).kept })
      ]

  enqueue-Triple :
      (event : String) (r : CallbackResult) (o : Option (Uuid × String))
      → Triple (Stored SameOutbox) (enqueue env draws event r o) Replied OutboxKept
  enqueue-Triple event r none = record { at = λ s p. record { promised = rw p.clean p.holds } }
  enqueue-Triple event r (some (m, url)) =
      Triple-if r.replay _ _ (λ e. record { at = λ s p. record { promised = rw p.clean p.holds } })
        (λ e. record { at = λ s p. commit-Replied (new_delivery env draws event r m url) s p })

  notify-Triple :
      (event ref : String) (o : ℕ ⊎ CallbackResult)
      → Triple (Served o) (notify env draws event ref o) Replied OutboxKept
  notify-Triple event ref (inl status) = record { at = λ s u. record { promised = u.fresh } }
  notify-Triple event ref (inr r) =
      Triple-bind _ _ (Triple-same _ (LeavesSession-read _) Stored-kept) λ merchants.
        Triple-bind _ _ (Triple-same _ (LeavesSession-scalar_one_or_none merchants) Stored-kept)
          λ merchant. enqueue-Triple event r (notified merchant)

  deliver-Triple :
      (event ref : String) (amount : Decimal)
      → Triple (Working base SameOutbox) (deliver env draws event ref amount) Replied OutboxKept
  unfolding deliver
  deliver-Triple event ref amount =
      Triple-bind _ _
        (Triple-catch_from {R = Untouched base} {Q = Served} _ on_rejected
          (Triple-bind _ _
            (callback-Triple base SameOutbox env.uuid_str draws.keys
              (settle-keeps base SameOutbox (λ a es d k. k) env.uuid_str draws.keys) (λ t s d k. k)
              (λ i s n d k. k) draws.now event ref amount)
            Served-Triple)
          on_rejected-Triple)
        (notify-Triple event ref)

  -- A reply before anything was written.
  rejected-Triple :
      (status : ℕ) → Triple (Working base SameOutbox) (pure (rejected status)) Replied OutboxKept
  rejected-Triple status = record { at = λ s w. record { promised = w.fresh } }

  Working-kept : (s : Session) → Working base SameOutbox s → OutboxKept s
  Working-kept s w = record { kept = inl (ap (λ (d : Db). d.deliveries) w.fresh) }

  unexpected-Triple : Triple (Working base SameOutbox) (raise unexpected) Replied OutboxKept
  unexpected-Triple = record {
    at = λ s w. record { kept = inl (ap (λ (d : Db). d.deliveries) w.fresh) };
  }

  read_amount-Triple :
      (event ref : String) (amount : Option Decimal)
      → Triple (Working base SameOutbox) (read_amount env draws event ref amount) Replied OutboxKept
  read_amount-Triple event ref none = unexpected-Triple
  read_amount-Triple event ref (some amount) = deliver-Triple event ref amount

  when_fresh-Triple :
      (o : Option ℕ) (body : Body)
      → Triple (Working base SameOutbox) (when_fresh env draws o body) Replied OutboxKept
  when_fresh-Triple (some status) body = rejected-Triple status
  when_fresh-Triple none no_json = rejected-Triple 400
  when_fresh-Triple none unreadable = unexpected-Triple
  when_fresh-Triple none (object d) =
      Triple-if _ _ _ (λ e. rejected-Triple 400)
        (λ e. read_amount-Triple d.event d.psp_reference d.amount)

  when_signed-Triple :
      (r : CallbackRequest) (o : Option String)
      → Triple (Working base SameOutbox) (when_signed env draws r o) Replied OutboxKept
  when_signed-Triple r none = rejected-Triple 400
  when_signed-Triple r (some signature) =
      Triple-if (str_eq signature "") _ (verified env draws r signature) (λ e. rejected-Triple 400)
        (λ e. Triple-bind _ _ (Triple-same _ (LeavesSession-lift _) Working-kept) λ is_valid.
          Triple-if is_valid _ _
            (λ v.
              when_fresh-Triple (check_timestamp env draws.clock r.x_timestamp) (env.loads r.body))
            (λ v. rejected-Triple 401))

  Replied-Fate :
      (r : Result Reply) (s : Session) → Ends Replied OutboxKept (r, s) → Fate draws base r s.stored
  Replied-Fate (ok a) s e = e.promised
  Replied-Fate (err x) s e = e.kept

-- What the endpoint stores, for any request and any database, whether the service behind it returns
-- or raises. A reply with an error status has changed nothing. A reply that accepts has added to the
-- outbox the delivery that it handed to the task queue, and nothing else, and without such a
-- delivery it has added nothing. An exception that no handler takes has added nothing to the outbox,
-- unless the broker took no tasks: then it may have added one delivery, which was not handed over.
pub bank_callback-Fate :
    (env : Environment) (draws : CallbackDraws) (r : CallbackRequest) (db : Db)
    → Fate draws db
        (with_session (bank_callback env draws r) db).0
        (with_session (bank_callback env draws r) db).1
unfolding with_session bank_callback
bank_callback-Fate env draws r db =
    let start : Session = record { stored = db; current = db } in
    let (q, s) = bank_callback env draws r start in
    Replied-Fate env draws db q s (
      (when_signed-Triple env draws db r r.x_signature).at start
        (record { fresh = refl; holds = refl }))

-- What is left of a run when its session is closed.
abbrev closed : Result Reply × Session → Result Reply × Db
closed p = (p.0, p.1.stored)

-- The end of a request whose signature is not that of its body. The comparison raises for a text
-- that is not ASCII.
abbrev pub unsigned_end : String → Option String → Result Reply
unsigned_end expected none = ok (rejected 400)
unsigned_end expected (some signature) =
    if str_eq signature ""
    then ok (rejected 400)
    else (if is_ascii expected && is_ascii signature then ok (rejected 401) else err unexpected)

-- A request that does not carry the HMAC of its raw body under the secret of the bank is refused,
-- whatever its timestamp and its body say, and the database stays as it is: with status 400 if it
-- has no signature, with 401 if it has another one, and with an exception if the signature or the
-- HMAC is not in ASCII.
pub unsigned_callback-Refused :
    (env : Environment) (draws : CallbackDraws) (r : CallbackRequest) (db : Db)
    → ¬ (r.x_signature ≡ some (sign_payload env.crypto r.body env.settings.psp_webhook_secret))
    → with_session (bank_callback env draws r) db ≡ (
      unsigned_end (sign_payload env.crypto r.body env.settings.psp_webhook_secret) r.x_signature,
      db,
    )
unfolding with_session bank_callback secure_compare ◌>>=◌
unsigned_callback-Refused env draws r db n = go r.x_signature n
  where
    start : Session
    start = record { stored = db; current = db }

    expected : String
    expected = sign_payload env.crypto r.body env.settings.psp_webhook_secret

    go :
        (o : Option String)
        → ¬ (o ≡ some expected)
        → closed (when_signed env draws r o start) ≡ (unsigned_end expected o, db)
    go none k = refl
    go (some signature) k = elim (Bool-cases (str_eq signature "")) [
      | inl e ↦ rw e refl
      | inr e ↦ elim (Bool-cases (is_ascii expected && is_ascii signature)) [
        | inl a ↦ elim (Bool-cases (str_eq expected signature)) [
          | inl v ↦ absurd (k (ap some (sym ((eq_iff expected signature).0 v))))
          | inr v ↦ rw (e, a, v) refl
        ]
        | inr a ↦ rw (e, a) refl
      ]
    ]
