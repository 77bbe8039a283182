-- ===== src/Services/Order/Rules.antt =====
-- `create_order` (app/services/order.py) for any statement about the database that the new intent
-- keeps.
use payment_gateway_system.Prelude.{◌≡◌, ap, sym, ◌∙◌, Option, none, some}
use payment_gateway_system.Models.Payment.{Uuid, PaymentIntent}
use payment_gateway_system.Models.Database.{Db}
use payment_gateway_system.Session.{
  Session, Result, Error, ok, err, ◌>>=◌, catch, recover, commit, rollback, with_session,
  integrity_error,
}
use payment_gateway_system.Session.Triples.{
  Ends, Triple, Triple-bind, Triple-leaves, Triple-write, Triple-commit-Kept, Triple-pure-Kept,
  Triple-pure-Durable, Kept, Working, Stored, Durable, Kept, Untouched, leaving, with_session-Ends,
}
use payment_gateway_system.Services.Order.{
  OrderDraws, CreateOrderRequest, CreateOrderResponse, add_intent, on_integrity_error, insert_order,
  replay_or_insert, create_order,
}

on_integrity_error-raises :
    (base : Db) (I : Db → Type 0) (e : Error) (s : Session)
    → s.stored ≡ base
    → Ends (λ u. Stored (Kept I)) (Untouched base) (on_integrity_error e s)
unfolding ◌>>=◌ rollback
on_integrity_error-raises base I integrity_error s f = record { fresh = f }
on_integrity_error-raises base I _ s f = record { fresh = f }

recover-Ends :
    (base : Db) (I : Db → Type 0) (r : Result (Unit {0})) (s : Session)
    → Ends (λ u. Stored (Kept I)) (Untouched base) (r, s)
    → Ends (λ u. Stored (Kept I)) (Untouched base) (recover r on_integrity_error s)
recover-Ends base I (ok a) s q = q
recover-Ends base I (err e) s q = on_integrity_error-raises base I e s q.fresh

commit-Triple :
    (base : Db) (I : Db → Type 0)
    → Triple
        (Working base I)
        (catch commit on_integrity_error)
        (λ u. Stored (Kept I))
        (Untouched base)
unfolding catch
commit-Triple base I =
    let committed : Triple (Working base I) commit (λ u. Stored (Kept I)) (Untouched base) =
      Triple-commit-Kept in
    record { at = λ s w. recover-Ends base I (commit s).0 (commit s).1 (committed.at s w) }

module _ (base : Db) (I J : Db → Type 0) (commits : (db : Db) → Kept I db → J db)
    (keeps : (i : PaymentIntent) (db : Db) → I db → I (add_intent i db)) (starts : J base → I base)
    (holds : J base) (draws : OrderDraws) (merchant_id : Uuid) (payload : CreateOrderRequest) where
  replay_or_insert-Triple :
      (existing : Option PaymentIntent)
      → Triple
          (Working base I)
          (replay_or_insert draws merchant_id payload existing)
          (λ r. Durable J)
          (Untouched base)
  unfolding replay_or_insert insert_order
  replay_or_insert-Triple (some i) = Triple-pure-Durable _ holds
  replay_or_insert-Triple none =
      Triple-bind _ _ (Triple-write _ (keeps _))
        λ _. Triple-bind _ _ (commit-Triple base I) λ _. Triple-pure-Kept _ commits

  create_order-Triple :
      Triple
        (Working base I)
        (create_order draws merchant_id payload)
        (λ r. Durable J)
        (Untouched base)
  unfolding create_order
  create_order-Triple = Triple-bind _ _ (Triple-leaves _ (search leaving)) λ rows.
      Triple-bind _ _ (Triple-leaves _ (search leaving))
        λ existing. replay_or_insert-Triple existing

  -- What holds before a request for an order holds after it.
  pub create_order-keeps : J (with_session (create_order draws merchant_id payload) base).1
  create_order-keeps = (with_session-Ends _ base create_order-Triple (starts holds) holds).0

-- A request for an order that raises any exception leaves the database as it was.
pub create_order_atomic :
    (draws : OrderDraws) (merchant_id : Uuid) (payload : CreateOrderRequest) (db : Db) {e : Error}
    {db' : Db}
    → with_session (create_order draws merchant_id payload) db ≡ (err e, db')
    → db' ≡ db
create_order_atomic draws merchant_id payload db {e} {db'} h =
    sym (ap (λ (p : Result CreateOrderResponse × Db). p.1) h)
    ∙ (with_session-Ends {I = λ d. Unit {0}} {J = λ d. Unit {0}} _ db
          (create_order-Triple db (λ d. Unit) (λ d. Unit) (λ d k. tt) (λ i d u. tt) (λ u. tt) tt
            draws merchant_id payload)
          tt tt).1
        e (ap (λ (p : Result CreateOrderResponse × Db). p.0) h)
