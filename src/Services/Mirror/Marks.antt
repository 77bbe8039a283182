-- ===== src/Services/Mirror/Marks.antt =====
-- The payment of an order that a callback of the bank ends (app/services/webhook.py).
use payment_gateway_system.Prelude.{
  ℕ, true, false, ◌≡◌, refl, sym, ap, ◌∙◌, List, [], ◌∷◌, ◌==◌, arith, Bool-cases, inl, inr,
}
use payment_gateway_system.Prelude.Rows.{IsRow, update, any, distinct}
use payment_gateway_system.Prelude.Laws.{==_refl, distinct_first, distinct_rest}
use payment_gateway_system.Prelude.Keys.{row_of_none, update_none, unique_row}
use payment_gateway_system.Models.Payment.{
  Uuid, PaymentStatus, TransactionState, PaymentIntent, Transaction,
}
use payment_gateway_system.Models.Database.{Db}
use payment_gateway_system.Services.Payment.{set_intent_status}
use payment_gateway_system.Services.Webhook.{set_transaction_state}
use payment_gateway_system.Services.Mirror.{
  states, states_of, IsMirrored, IsOwned-state, taken-IsMirrored,
}

states-update_other :
    (key k : Uuid) (s : TransactionState) (ts : List Transaction)
    → ((t : Transaction) → IsRow t ts → (t.id == k) ≡ true → (t.intent_id == key) ≡ false)
    → states key (update (λ t. t.id == k) (λ t. record t { state = s }) ts) ≡ states key ts
unfolding states update
states-update_other key k s [] h = refl
states-update_other key k s (t ∷ ts) h =
    let rest = states-update_other key k s ts (λ x r. h x (inr r)) in
    elim (Bool-cases (t.id == k)) [
      | inl e ↦ rw (e, h t (inl refl) e, rest) refl
      | inr e ↦ rw (e, rest) refl
    ]

no_states :
    (key : Uuid) (ts : List Transaction) (x : Transaction)
    → IsRow x ts
    → x.intent_id ≡ key
    → ¬ (states key ts ≡ [])
unfolding states
no_states key [] x r e h = r
no_states key (t ∷ ts) x (inl p) e h = cc (rw (sym p, e, ==_refl key) at h)
no_states key (t ∷ ts) x (inr r) e h = elim (Bool-cases (t.intent_id == key)) [
  | inl q ↦ cc (rw q at h)
  | inr q ↦ no_states key ts x r e (rw q at h)
]

tail_eq : {a b : TransactionState} {us vs : List TransactionState} → a ∷ us ≡ b ∷ vs → us ≡ vs
tail_eq p = cc

absent_later :
    (t : Transaction) (ts : List Transaction)
    → any (λ y. t.id == y.id) ts ≡ false
    → any (λ y. y.id == t.id) ts ≡ false
unfolding any
absent_later t [] h = h
absent_later t (y ∷ ts) h = ground (arith, absent_later t ts)

states-update_one :
    (key : Uuid) (s p : TransactionState) (ts : List Transaction) (x : Transaction)
    → distinct (λ (a b : Transaction). a.id == b.id) ts ≡ true
    → IsRow x ts
    → x.intent_id ≡ key
    → states key ts ≡ p ∷ []
    → states key (update (λ t. t.id == x.id) (λ t. record t { state = s }) ts) ≡ s ∷ []
unfolding states update
states-update_one key s p [] x d r e h = absurd r
states-update_one key s p (t ∷ ts) x d (inl q) e h =
    let gone : any (λ y. y.id == x.id) ts ≡ false =
      rw q (absent_later t ts (distinct_first (λ (a b : Transaction). a.id == b.id) t ts d)) in
    rw
      (
        update_none (λ y. y.id == x.id) (λ y. record y { state = s }) ts gone,
        sym q,
        ==_refl x.id,
        e,
        ==_refl key,
        tail_eq (rw (sym q, e, ==_refl key) at h),
      )
      refl
states-update_one key s p (t ∷ ts) x d (inr r) e h =
    let later =
      row_of_none (λ y. t.id == y.id) ts x r
        (distinct_first (λ (a b : Transaction). a.id == b.id) t ts d) in
    elim (Bool-cases (t.intent_id == key)) [
      | inl q ↦ absurd (no_states key ts x r e (tail_eq (rw q at h)))
      | inr q ↦
          rw (later, q)
            (states-update_one key s p ts x
              (distinct_rest (λ (a b : Transaction). a.id == b.id) t ts d) r e (rw q at h))
    ]

-- The marks of a callback on a transaction and on its order.
pub marks-IsMirrored :
    (db : Db) (txn : Transaction) (i : PaymentIntent) (s : TransactionState)
    (status : PaymentStatus) (now : ℕ)
    → distinct (λ (a b : PaymentIntent). a.id == b.id) db.intents ≡ true
    → distinct (λ (a b : Transaction). a.id == b.id) db.transactions ≡ true
    → IsMirrored db
    → IsRow txn db.transactions
    → IsRow i db.intents
    → txn.intent_id ≡ i.id
    → i.status ≡ PaymentStatus.processing
    → states_of status ≡ s ∷ []
    → IsMirrored (set_intent_status i.id status now (set_transaction_state txn.id s db))
marks-IsMirrored db txn i s status now ids tids h r q e p m =
    taken-IsMirrored db ids h i q status now
      (update (λ t. t.id == txn.id) (λ t. record t { state = s }) db.transactions)
      (states-update_one i.id s TransactionState.pending db.transactions txn tids r e
          (h.mirrors i q ∙ ap states_of p)
        ∙ sym m)
      (λ j n. states-update_other j.id txn.id s db.transactions (λ t tr te.
        ap (λ (x : Transaction). x.intent_id == j.id)
          (unique_row (λ (a : Transaction). a.id) db.transactions txn t tids r tr te)
        ∙ ap (λ (k : Uuid). k == j.id) e
        ∙ flip j.id i.id n))
      (IsOwned-state db.intents txn.id s db.transactions h.owned)
  where
    flip : (m n : ℕ) → (m == n) ≡ false → (n == m) ≡ false
    flip m n h = ground arith
