-- ===== src/Services/Webhook/Succeeded.antt =====
-- Which transaction of a reference is at success (app/services/webhook.py).
use payment_gateway_system.Prelude.{
  Bool, true, false, ◌≡◌, refl, subst, List, [], ◌∷◌, ◌==◌, arith, Bool-cases, inl, inr,
}
use payment_gateway_system.Prelude.Rows.{select, any, distinct}
use payment_gateway_system.Prelude.Laws.{any-select, ==_refl}
use payment_gateway_system.Models.Payment.{Uuid, TransactionState, Transaction, eq_state}
use payment_gateway_system.Services.Postings.{succeeded}

succeeded_absent :
    (key : Uuid) (ts : List Transaction)
    → any (λ t. key == t.id) ts ≡ false
    → succeeded key ts ≡ false
unfolding succeeded any
succeeded_absent key [] h = refl
succeeded_absent key (t ∷ ts) h = ground (arith, succeeded_absent key ts)

not_first :
    (k key : Uuid) (ts : List Transaction)
    → any (λ t. t.id == key) ts ≡ true
    → any (λ t. k == t.id) ts ≡ false
    → (k == key) ≡ false
unfolding any
not_first k key [] h g = cc
not_first k key (t ∷ ts) h g = ground (arith, not_first k key ts)

succeeded_first :
    (t : Transaction) (ts : List Transaction)
    → distinct (λ (a b : Transaction). a.id == b.id) (t ∷ ts) ≡ true
    → eq_state t.state TransactionState.success ≡ false
    → succeeded t.id (t ∷ ts) ≡ false
unfolding succeeded distinct
succeeded_first t ts d n = ground (arith, succeeded_absent t.id ts)

succeeded_later :
    (key : Uuid) (t : Transaction) (ts : List Transaction)
    → distinct (λ (a b : Transaction). a.id == b.id) (t ∷ ts) ≡ true
    → any (λ t. t.id == key) ts ≡ true
    → succeeded key ts ≡ false
    → succeeded key (t ∷ ts) ≡ false
unfolding succeeded distinct
succeeded_later key t ts d h n = ground (arith, not_first t.id key ts)

distinct_tail :
    (t : Transaction) (ts : List Transaction)
    → distinct (λ (a b : Transaction). a.id == b.id) (t ∷ ts) ≡ true
    → distinct (λ (a b : Transaction). a.id == b.id) ts ≡ true
unfolding distinct
distinct_tail t ts d = ground arith

-- With distinct keys the row that a query finds decides.
pub succeeded-select :
    (p : Transaction → Bool) (ts : List Transaction) (txn : Transaction)
    → select p ts ≡ txn ∷ []
    → distinct (λ a b. a.id == b.id) ts ≡ true
    → eq_state txn.state TransactionState.success ≡ false
    → succeeded txn.id ts ≡ false
unfolding select
succeeded-select p [] txn e d n = cc
succeeded-select p (t ∷ ts) txn e d n = elim (Bool-cases (p t)) [
  | inl q ↦
      let first : t ≡ txn = cc (rw q at e) in
      subst
        (λ (x : Transaction).
          eq_state x.state TransactionState.success ≡ false → succeeded x.id (t ∷ ts) ≡ false)
        first (succeeded_first t ts d) n
  | inr q ↦
      let found : select p ts ≡ txn ∷ [] = rw q at e in
      succeeded_later txn.id t ts d (any-select p _ ts found (==_refl txn.id))
        (succeeded-select p ts txn found (distinct_tail t ts d) n)
]
