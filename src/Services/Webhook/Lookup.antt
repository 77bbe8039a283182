-- ===== src/Services/Webhook/Lookup.antt =====
-- What a callback finds, and what it does from there (app/services/webhook.py).
use payment_gateway_system.Prelude.{
  ℕ, String, true, ◌≡◌, sym, refl, ◌∙◌, List, [], ◌∷◌, if◌then◌else◌, Bool-cases, inl, inr,
}
use payment_gateway_system.Prelude.Int.{ℤ, pos, eqb_ℤ}
use payment_gateway_system.Prelude.Rows.{select}
use payment_gateway_system.Models.Payment.{Uuid, PaymentIntent, Transaction}
use payment_gateway_system.Models.Database.{Db}
use payment_gateway_system.Session.{Session, ok, err, M, ◌>>=◌, ◌>>◌, pure, commit, amount_mismatch}
use payment_gateway_system.Services.Ledger.{PostingKeys}
use payment_gateway_system.Services.Webhook.{
  Decimal, fixed, other, signaling, by_reference, by_id, CallbackResult, require_amount,
  apply_event, process_bank_callback, is_replay, replay_result,
}

-- What the queries of a callback find.
pub record Finds (ref : String) (txn : Transaction) (intent : PaymentIntent) (db : Db)
    : Type 0 where
  pub transaction : select (by_reference ref) db.transactions ≡ txn ∷ []
  pub owner : select (by_id txn.intent_id) db.intents ≡ intent ∷ []

-- What a callback does once its transaction and its intent are found.
abbrev pub after_lookup :
    (Uuid → String)
    → PostingKeys
    → ℕ
    → String
    → Decimal
    → Transaction
    → PaymentIntent
    → M CallbackResult
after_lookup uuid_str keys now event amount txn intent =
    require_amount intent.amount amount >>= λ units.
    if is_replay txn event
    then commit >> pure (replay_result txn)
    else apply_event uuid_str keys now event txn intent units

pub callback-found :
    (uuid_str : Uuid → String) (keys : PostingKeys) (now : ℕ) (event ref : String)
    (amount : Decimal) (s : Session) {txn : Transaction} {intent : PaymentIntent}
    → Finds ref txn intent s.current
    → process_bank_callback uuid_str keys now event ref amount s
      ≡ after_lookup uuid_str keys now event amount txn intent s
unfolding process_bank_callback ◌>>=◌
callback-found uuid_str keys now event ref amount s f = rw (f.transaction, f.owner) refl

-- The amount of the callback is that of the intent.
abbrev pub Matches : ℤ → Decimal → Type 0
Matches a (fixed b) = eqb_ℤ a b ≡ true
Matches a (other text) = ⊥
Matches a signaling = ⊥

unfoldable pub units : Decimal → ℤ
units (fixed b) = b
units (other text) = pos 0
units signaling = pos 0

pub require_amount-Matches :
    (a : ℤ) (d : Decimal) (s : Session) → Matches a d → require_amount a d s ≡ (ok (units d), s)
unfolding units
require_amount-Matches a (fixed b) s m = rw m refl
require_amount-Matches a (other text) s m = absurd m
require_amount-Matches a signaling s m = absurd m

pub require_amount-mismatch :
    (a : ℤ) (d : Decimal) (s : Session)
    → ¬ (d ≡ signaling)
    → ¬ Matches a d
    → require_amount a d s ≡ (err amount_mismatch, s)
require_amount-mismatch a (fixed b) s q n = elim (Bool-cases (eqb_ℤ a b)) [
  | inl e ↦ absurd (n e)
  | inr e ↦ rw e refl
]
require_amount-mismatch a (other text) s q n = refl
require_amount-mismatch a signaling s q n = absurd (q refl)

-- What a callback that returns has found.
pub record Returned (ref : String) (amount : Decimal) (db : Db) : Type 0 where
  pub txn : Transaction
  pub intent : PaymentIntent
  pub found : Finds ref txn intent db
  pub amounts : Matches intent.amount amount

module _ (uuid_str : Uuid → String) (keys : PostingKeys) (now : ℕ) (event ref : String)
    (amount : Decimal) (s : Session) where
  amounts_match :
      (a : ℤ) (d : Decimal) (k : ℤ → M CallbackResult) {r : CallbackResult} {s' : Session}
      → (require_amount a d >>= k) s ≡ (ok r, s')
      → Matches a d
  unfolding ◌>>=◌
  amounts_match a (fixed b) k h = elim (Bool-cases (eqb_ℤ a b)) [
    | inl e ↦ e
    | inr e ↦ cc (rw e at h)
  ]
  amounts_match a (other text) k h = cc
  amounts_match a signaling k h = cc

  pub callback-Returned :
      {r : CallbackResult} {s' : Session}
      → process_bank_callback uuid_str keys now event ref amount s ≡ (ok r, s')
      → Returned ref amount s.current
  unfolding process_bank_callback ◌>>=◌
  callback-Returned {r} {s'} h =
      transactions_found (select (by_reference ref) s.current.transactions) refl
    where
      intents_found :
          (txn : Transaction) (is : List PaymentIntent)
          → select (by_reference ref) s.current.transactions ≡ txn ∷ []
          → select (by_id txn.intent_id) s.current.intents ≡ is
          → Returned ref amount s.current
      intents_found txn [] e i = cc (rw (e, i) at h)
      intents_found txn (intent ∷ []) e i =
          let f : Finds ref txn intent s.current = record { transaction = e; owner = i } in
          record {
            txn = txn;
            intent = intent;
            found = f;
            amounts =
                amounts_match intent.amount amount _
                  (sym (callback-found uuid_str keys now event ref amount s f) ∙ h);
          }
      intents_found txn (i1 ∷ i2 ∷ is) e i = cc (rw (e, i) at h)

      transactions_found :
          (ts : List Transaction)
          → select (by_reference ref) s.current.transactions ≡ ts
          → Returned ref amount s.current
      transactions_found [] e = cc (rw e at h)
      transactions_found (txn ∷ []) e =
          intents_found txn (select (by_id txn.intent_id) s.current.intents) e refl
      transactions_found (t1 ∷ t2 ∷ ts) e = cc (rw e at h)
