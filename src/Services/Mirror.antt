-- ===== src/Services/Mirror.antt =====
-- The payment of an order: what the status of an order says of its transactions (app/services).
pub mod Started
pub mod Marks
use payment_gateway_system.Prelude.{
  ℕ, Bool, true, false, ◌≡◌, refl, sym, ap, ◌∙◌, List, [], ◌∷◌, ◌==◌, arith, Bool-cases, inl, inr,
  if◌then◌else◌,
}
use payment_gateway_system.Prelude.Rows.{IsRow, All, update, any, distinct}
use payment_gateway_system.Prelude.Laws.{any-update, ==_refl, distinct_first, distinct_rest}
use payment_gateway_system.Prelude.Keys.{row_of_none, update_none, IsRow-update, unique_row}
use payment_gateway_system.Models.Payment.{
  Uuid, PaymentStatus, TransactionState, PaymentIntent, Transaction,
}
use payment_gateway_system.Models.Database.{Db}
use payment_gateway_system.Services.Order.{add_intent}
use payment_gateway_system.Services.Payment.{set_intent_status, add_transaction}
use payment_gateway_system.Services.Webhook.{set_transaction_state}

-- The states of the transactions of an order.
unfoldable pub states : Uuid → List Transaction → List TransactionState
states key [] = []
states key (t ∷ ts) =
    let rest = states key ts in if t.intent_id == key then t.state ∷ rest else rest

-- An order that was just created has no transaction, and any other order has one.
abbrev pub states_of : PaymentStatus → List TransactionState
states_of PaymentStatus.created = []
states_of PaymentStatus.processing = TransactionState.pending ∷ []
states_of PaymentStatus.success = TransactionState.success ∷ []
states_of PaymentStatus.failed = TransactionState.failed ∷ []

abbrev has_intent : List PaymentIntent → Uuid → Bool
has_intent is key = any (λ i. i.id == key) is

abbrev IsOwned : List PaymentIntent → List Transaction → Type 0
IsOwned is = All (λ t. has_intent is t.intent_id ≡ true)

pub record IsMirrored (db : Db) : Type 0 where
  pub mirrors :
      (i : PaymentIntent) → IsRow i db.intents → states i.id db.transactions ≡ states_of i.status
  pub owned : IsOwned db.intents db.transactions

IsOwned-more :
    (is js : List PaymentIntent) (ts : List Transaction)
    → ((key : Uuid) → has_intent is key ≡ true → has_intent js key ≡ true)
    → IsOwned is ts
    → IsOwned js ts
IsOwned-more is js [] h o = tt
IsOwned-more is js (t ∷ ts) h o = (h t.intent_id o.0, IsOwned-more is js ts h o.1)

pub IsOwned-state :
    (is : List PaymentIntent) (k : Uuid) (s : TransactionState) (ts : List Transaction)
    → IsOwned is ts
    → IsOwned is (update (λ t. t.id == k) (λ t. record t { state = s }) ts)
unfolding update
IsOwned-state is k s [] o = tt
IsOwned-state is k s (t ∷ ts) o = elim (Bool-cases (t.id == k)) [
  | inl e ↦ rw e (o.0, IsOwned-state is k s ts o.1)
  | inr e ↦ rw e (o.0, IsOwned-state is k s ts o.1)
]

-- A key that no order has is no transaction's.
not_owner :
    (key k : Uuid) (is : List PaymentIntent)
    → any (λ j. key == j.id) is ≡ false
    → has_intent is k ≡ true
    → (k == key) ≡ false
unfolding any
not_owner key k [] h o = cc
not_owner key k (j ∷ is) h o = ground (arith, not_owner key k is)

states_unowned :
    (key : Uuid) (is : List PaymentIntent) (ts : List Transaction)
    → any (λ j. key == j.id) is ≡ false
    → IsOwned is ts
    → states key ts ≡ []
unfolding states
states_unowned key is [] h o = refl
states_unowned key is (t ∷ ts) h o =
    rw (not_owner key t.intent_id is h o.0, states_unowned key is ts h o.1) refl

pub add_intent-IsMirrored :
    (i : PaymentIntent) (db : Db)
    → i.status ≡ PaymentStatus.created
    → any (λ j. i.id == j.id) db.intents ≡ false
    → IsMirrored db
    → IsMirrored (add_intent i db)
unfolding any
add_intent-IsMirrored i db c n h = record {
  mirrors = λ j r. row j r;
  owned = IsOwned-more db.intents (i ∷ db.intents) db.transactions (λ key o. ground arith) h.owned;
}
  where
    row :
        (j : PaymentIntent)
        → IsRow j (i ∷ db.intents)
        → states j.id db.transactions ≡ states_of j.status
    row j (inl e) = rw (e, c) (states_unowned i.id db.intents db.transactions n h.owned)
    row j (inr r) = h.mirrors j r

has_intent-status :
    (key : Uuid) (s : PaymentStatus) (now : ℕ) (is : List PaymentIntent) (k : Uuid)
    → has_intent (update (λ i. i.id == key) (λ i. record i { status = s; updated_at = now }) is) k
      ≡ has_intent is k
has_intent-status key s now is k = any-update (λ i. i.id == k) _ _ is (λ i. refl)

-- The orders after one of them, with this key, took a status, if it agrees with its transactions and
-- the other orders have theirs as before.
module _ (db : Db) (ids : distinct (λ (a b : PaymentIntent). a.id == b.id) db.intents ≡ true)
    (h : IsMirrored db) (i : PaymentIntent) (r : IsRow i db.intents) (s : PaymentStatus) (now : ℕ)
    (ts : List Transaction) (its : states i.id ts ≡ states_of s)
    (others : (j : PaymentIntent)
      → (j.id == i.id) ≡ false
      → states j.id ts ≡ states j.id db.transactions)
    (owned : IsOwned db.intents ts) where
  abbrev taken : Db
  taken = record (set_intent_status i.id s now db) { transactions = ts }

  pub taken-IsMirrored : IsMirrored taken
  taken-IsMirrored = record {
    mirrors =
        λ j q. let (x, (p, e)) = IsRow-update (λ i'. i'.id == i.id) _ db.intents j q in row j x p e;
    owned =
        IsOwned-more db.intents taken.intents ts
          (λ key o. has_intent-status i.id s now db.intents key ∙ o) owned;
  }
    where
      row :
          (j x : PaymentIntent)
          → IsRow x db.intents
          → j ≡ (if x.id == i.id then record x { status = s; updated_at = now } else x)
          → states j.id ts ≡ states_of j.status
      row j x p e = elim (Bool-cases (x.id == i.id)) [
        | inl t ↦
            let same : x ≡ i = unique_row (λ (a : PaymentIntent). a.id) db.intents i x ids r p t in
            let f : j ≡ record x { status = s; updated_at = now } = rw t at e in rw (f, same) its
        | inr t ↦ let f : j ≡ x = rw t at e in rw f (others x t ∙ h.mirrors x p)
      ]
