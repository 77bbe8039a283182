-- ===== src/Services/Webhook/Course.antt =====
-- The course of a callback (app/services/webhook.py), for any statement about the database that its
-- two marks and its posting keep.
use payment_gateway_system.Prelude.{
  ℕ, String, Bool, true, false, ◌≡◌, refl, if◌then◌else◌, Bool-cases, inl, inr,
}
use payment_gateway_system.Models.Payment.{
  Uuid, PaymentStatus, TransactionState, PaymentIntent, Transaction, eq_state, eq_status,
}
use payment_gateway_system.Models.Database.{Db}
use payment_gateway_system.Session.{
  Session, Result, ok, err, ◌>>=◌, ◌>>◌, pure, commit, with_session,
}
use payment_gateway_system.Session.Triples.{
  Ends, Triple, Triple-bind, Triple-leaves, Triple-commit-Kept, Triple-pure-clean, Working, Stored,
  Kept, Untouched, LeavesSession-pure,
}
use payment_gateway_system.Services.Ledger.{PostingKeys}
use payment_gateway_system.Services.Webhook.{
  Decimal, CallbackResult, is_success, is_replay, replay_result, settle, apply_event,
  process_bank_callback,
}
use payment_gateway_system.Services.Webhook.Atomic.{process_bank_callback_atomic}
use payment_gateway_system.Services.Webhook.Branches.{
  IsOpen, transitions_refused, transitions_accepted, is_pending, is_processing,
}
use payment_gateway_system.Services.Webhook.Failure.{marked}
use payment_gateway_system.Services.Webhook.Lookup.{
  callback-found, units, require_amount-Matches, Returned, callback-Returned,
}
use payment_gateway_system.Services.Webhook.Redelivery.{start}

module _ (uuid_str : Uuid → String) (keys : PostingKeys) (now : ℕ) (event ref : String)
    (amount : Decimal) (db : Db) (J : Db → Type 0) (D : Transaction → PaymentIntent → Db → Type 0)
    (k : Kept J db)
    (success : (f : Returned ref amount db)
      → IsOpen f.txn f.intent
      → D f.txn f.intent
          (marked f.txn.id TransactionState.success f.intent.id PaymentStatus.success now db))
    (failure : (f : Returned ref amount db)
      → IsOpen f.txn f.intent
      → J (marked f.txn.id TransactionState.failed f.intent.id PaymentStatus.failed now db))
    (settles : (f : Returned ref amount db)
      → Triple
          (Working db (D f.txn f.intent))
          (settle uuid_str keys f.txn f.intent (units amount))
          (λ u. Working db J)
          (Untouched db)) where
  committed :
      (r : CallbackResult)
      → Triple (Working db J) (commit >> pure r) (λ r. Stored (Kept J)) (Untouched db)
  committed r = Triple-bind _ _ Triple-commit-Kept λ _. Triple-pure-clean r

  -- From the marks on.
  marked_course :
      (f : Returned ref amount db) (o : IsOpen f.txn f.intent) (b : Bool) (r : CallbackResult)
      → Ends
          (λ r. Stored (Kept J))
          (Untouched db)
          (((if b then settle uuid_str keys f.txn f.intent (units amount) else pure tt)
              >> (commit >> pure r))
            (record {
              stored = db;
              current =
                  marked f.txn.id
                    (if b then TransactionState.success else TransactionState.failed)
                    f.intent.id
                    (if b then PaymentStatus.success else PaymentStatus.failed)
                    now
                    db;
            }))
  marked_course f o true r =
      (Triple-bind _ _ (settles f) λ _. committed r).at _
        (record { fresh = refl; holds = success f o })
  marked_course f o false r =
      (Triple-bind _ _ (Triple-leaves _ (LeavesSession-pure tt)) λ _. committed r).at _
        (record { fresh = refl; holds = failure f o })

  open_course :
      (f : Returned ref amount db)
      → IsOpen f.txn f.intent
      → Ends
          (λ r. Stored (Kept J))
          (Untouched db)
          (apply_event uuid_str keys now event f.txn f.intent (units amount) (start db))
  unfolding apply_event ◌>>=◌
  open_course f o =
      rw (transitions_accepted f.txn f.intent event (start db) o)
        (marked_course f o (is_success event) _)

  closed_course :
      (f : Returned ref amount db)
      → ¬ IsOpen f.txn f.intent
      → Ends
          (λ r. Stored (Kept J))
          (Untouched db)
          (apply_event uuid_str keys now event f.txn f.intent (units amount) (start db))
  unfolding apply_event ◌>>=◌
  closed_course f n =
      rw (transitions_refused f.txn f.intent event (start db) n) (record { fresh = refl })

  event_course :
      (f : Returned ref amount db)
      → Ends
          (λ r. Stored (Kept J))
          (Untouched db)
          (apply_event uuid_str keys now event f.txn f.intent (units amount) (start db))
  event_course f = elim (Bool-cases (eq_state f.txn.state TransactionState.pending)) [
    | inl p ↦ elim (Bool-cases (eq_status f.intent.status PaymentStatus.processing)) [
      | inl q ↦ open_course f (record {
        pending = is_pending f.txn.state p;
        processing = is_processing f.intent.status q;
      })
      | inr q ↦ closed_course f (λ o. cc (o.processing))
    ]
    | inr p ↦ closed_course f (λ o. cc (o.pending))
  ]

  found_course :
      (f : Returned ref amount db)
      → Ends
          (λ r. Stored (Kept J))
          (Untouched db)
          (process_bank_callback uuid_str keys now event ref amount (start db))
  unfolding ◌>>=◌
  found_course f =
      rw
        (
          callback-found uuid_str keys now event ref amount (start db) f.found,
          require_amount-Matches f.intent.amount amount (start db) f.amounts,
        )
        (elim (Bool-cases (is_replay f.txn event)) [
          | inl p ↦ rw p (
              (committed (replay_result f.txn)).at (start db)
                (record { fresh = refl; holds = k.holds }))
          | inr p ↦ rw p (event_course f)
        ])

  -- What a delivery of a callback leaves.
  pub callback-Kept :
      Kept J (with_session (process_bank_callback uuid_str keys now event ref amount) db).1
  unfolding with_session
  callback-Kept = go _ _ refl
    where
      go :
          (r : Result CallbackResult) (s : Session)
          → process_bank_callback uuid_str keys now event ref amount (start db) ≡ (r, s)
          → Kept J s.stored
      go (err e) s h =
          rw
            (process_bank_callback_atomic uuid_str keys now event ref amount db
              (λ i. ((h i).0, (h i).1.stored)))
            k
      go (ok r) s h =
          let f = callback-Returned uuid_str keys now event ref amount (start db) h in
          let p : Stored (Kept J) s = rw h at (found_course f) in rw p.clean p.holds
