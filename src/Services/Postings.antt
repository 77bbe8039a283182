-- ===== src/Services/Postings.antt =====
-- What the ledger holds for a transaction: one debit and one credit of the amount of its order if it
-- is at success, and nothing otherwise.
use payment_gateway_system.Prelude.{
  ℕ, suc, Bool, true, false, ◌&&◌, ◌||◌, ◌≡◌, refl, ◌∙◌, List, [], ◌∷◌, arith, ◌==◌, if◌then◌else◌,
}
use payment_gateway_system.Prelude.Int.{ℤ, eqb_ℤ}
use payment_gateway_system.Prelude.Rows.{update, any, All}
use payment_gateway_system.Prelude.Laws.{any-update, any_mono}
use payment_gateway_system.Models.Payment.{
  Uuid, PaymentStatus, TransactionState, PaymentIntent, Transaction, eq_state,
}
use payment_gateway_system.Models.Ledger.{EntryType, LedgerEntry}
use payment_gateway_system.Models.Database.{Db}
use payment_gateway_system.Services.Accounts.{add_entries}
use payment_gateway_system.Services.Order.{add_intent}
use payment_gateway_system.Services.Payment.{set_intent_status, add_transaction}
use payment_gateway_system.Services.Webhook.{set_transaction_state}
use payment_gateway_system.Services.Books.{same_side}

-- A transaction with this key is at success.
unfoldable pub succeeded : Uuid → List Transaction → Bool
succeeded key [] = false
succeeded key (t ∷ ts) =
    ((t.id == key) && eq_state t.state TransactionState.success) || succeeded key ts

abbrev pub is_line : Uuid → EntryType → LedgerEntry → Bool
is_line key side e = (e.transaction_id == key) && same_side side e.entry_type

-- The number of entries on one side of a transaction.
unfoldable pub lines : Uuid → EntryType → List LedgerEntry → ℕ
lines key side [] = 0
lines key side (e ∷ es) =
    let rest = lines key side es in if is_line key side e then suc rest else rest

-- The amount of the order of a transaction with this key.
abbrev pub owes : Uuid → ℤ → List PaymentIntent → Transaction → Bool
owes key amount intents t =
    (t.id == key) && any (λ i. (i.id == t.intent_id) && eqb_ℤ i.amount amount) intents

abbrev pub is_owed : Uuid → ℤ → Db → Bool
is_owed key amount db = any (owes key amount db.intents) db.transactions

pub record IsPostedOnce (db : Db) : Type 0 where
  pub counts :
      (key : Uuid) (side : EntryType)
      → lines key side db.entries ≡ (if succeeded key db.transactions then 1 else 0)
  pub amounts : All (λ e. is_owed e.transaction_id e.amount db ≡ true) db.entries

-- The transaction is at success, and its lines are still to come.
pub record IsDue (key : Uuid) (amount : ℤ) (db : Db) : Type 0 where
  pub others :
      (k : Uuid) (side : EntryType)
      → lines k side db.entries
        ≡ (if k == key then 0 else (if succeeded k db.transactions then 1 else 0))
  pub settled : succeeded key db.transactions ≡ true
  pub amounts : All (λ e. is_owed e.transaction_id e.amount db ≡ true) db.entries
  pub owed : is_owed key amount db ≡ true

abbrev IsOwed : Db → List LedgerEntry → Type 0
IsOwed db = All (λ e. is_owed e.transaction_id e.amount db ≡ true)

-- What is owed in one database is owed in another.
IsOwed-same :
    (db db' : Db) (es : List LedgerEntry)
    → ((key : Uuid) (a : ℤ) → is_owed key a db ≡ true → is_owed key a db' ≡ true)
    → IsOwed db es
    → IsOwed db' es
IsOwed-same db db' [] h o = tt
IsOwed-same db db' (e ∷ es) h o = (h e.transaction_id e.amount o.0, IsOwed-same db db' es h o.1)

succeeded-update_success :
    (key k : Uuid) (ts : List Transaction)
    → succeeded key
        (update (λ t. t.id == k) (λ t. record t { state = TransactionState.success }) ts)
      ≡ (((key == k) && any (λ t. t.id == k) ts) || succeeded key ts)
unfolding succeeded update any
succeeded-update_success key k [] = ground arith
succeeded-update_success key k (t ∷ ts) = ground (arith, succeeded-update_success key k ts)

succeeded-update_failed :
    (key k : Uuid) (ts : List Transaction)
    → succeeded k ts ≡ false
    → succeeded key (update (λ t. t.id == k) (λ t. record t { state = TransactionState.failed }) ts)
      ≡ succeeded key ts
unfolding succeeded update
succeeded-update_failed key k [] h = refl
succeeded-update_failed key k (t ∷ ts) h = ground (arith, succeeded-update_failed key k ts)

-- No write but those of a callback changes what is posted.
pub add_intent-IsPostedOnce :
    (i : PaymentIntent) (db : Db) → IsPostedOnce db → IsPostedOnce (add_intent i db)
unfolding any
add_intent-IsPostedOnce i db p = record {
  counts = p.counts;
  amounts =
      IsOwed-same db (add_intent i db) db.entries
        (λ key a. any_mono _ _ db.transactions (λ t h. ground arith)) p.amounts;
}

pub add_transaction-IsPostedOnce :
    (t : Transaction) (db : Db)
    → eq_state t.state TransactionState.success ≡ false
    → IsPostedOnce db
    → IsPostedOnce (add_transaction t db)
unfolding any succeeded
add_transaction-IsPostedOnce t db n p = record {
  counts = λ key side. ground (arith, p.counts key side);
  amounts = IsOwed-same db (add_transaction t db) db.entries (λ key a h. ground arith) p.amounts;
}

is_owed-set_intent_status :
    (k : Uuid) (s : PaymentStatus) (now : ℕ) (db : Db) (key : Uuid) (a : ℤ)
    → is_owed key a (set_intent_status k s now db) ≡ is_owed key a db
unfolding any
is_owed-set_intent_status k s now db key a = go db.transactions
  where
    go :
        (ts : List Transaction)
        → any (owes key a (set_intent_status k s now db).intents) ts
          ≡ any (owes key a db.intents) ts
    go [] = refl
    go (t ∷ ts) =
        rw
          (
            any-update (λ i. (i.id == t.intent_id) && eqb_ℤ i.amount a) (λ i. i.id == k)
                (λ i. record i { status = s; updated_at = now }) db.intents (λ i. refl),
            go ts,
          )
          refl

is_owed-set_transaction_state :
    (k : Uuid) (s : TransactionState) (db : Db) (key : Uuid) (a : ℤ)
    → is_owed key a (set_transaction_state k s db) ≡ is_owed key a db
is_owed-set_transaction_state k s db key a =
    any-update (owes key a db.intents) _ _ db.transactions (λ t. refl)

pub set_intent_status-IsPostedOnce :
    (k : Uuid) (s : PaymentStatus) (now : ℕ) (db : Db)
    → IsPostedOnce db
    → IsPostedOnce (set_intent_status k s now db)
set_intent_status-IsPostedOnce k s now db p = record {
  counts = p.counts;
  amounts =
      IsOwed-same db (set_intent_status k s now db) db.entries
        (λ key a h. is_owed-set_intent_status k s now db key a ∙ h) p.amounts;
}

pub set_intent_status-IsDue :
    (key : Uuid) (a : ℤ) (k : Uuid) (s : PaymentStatus) (now : ℕ) (db : Db)
    → IsDue key a db
    → IsDue key a (set_intent_status k s now db)
set_intent_status-IsDue key a k s now db p = record {
  others = p.others;
  settled = p.settled;
  amounts =
      IsOwed-same db (set_intent_status k s now db) db.entries
        (λ key a h. is_owed-set_intent_status k s now db key a ∙ h) p.amounts;
  owed = is_owed-set_intent_status k s now db key a ∙ p.owed;
}

-- What a callback that is to be applied finds: the transaction exists, it is not at success, and the
-- amount is that of its order.
pub record IsOpenFor (key : Uuid) (amount : ℤ) (db : Db) : Type 0 where
  pub posted : IsPostedOnce db
  pub unsettled : succeeded key db.transactions ≡ false
  pub known : any (λ t. t.id == key) db.transactions ≡ true
  pub owed : is_owed key amount db ≡ true

pub set_success-IsDue :
    (key : Uuid) (a : ℤ) (db : Db)
    → IsOpenFor key a db
    → IsDue key a (set_transaction_state key TransactionState.success db)
set_success-IsDue key a db o = record {
  others = λ k side.
      rw (o.posted.counts k side, succeeded-update_success k key db.transactions, o.known)
        (grind (arith, o.unsettled));
  settled = rw (succeeded-update_success key key db.transactions, o.known) (ground arith);
  amounts =
      IsOwed-same db (set_transaction_state key TransactionState.success db) db.entries
        (λ k b h. is_owed-set_transaction_state key _ db k b ∙ h) o.posted.amounts;
  owed = is_owed-set_transaction_state key _ db key a ∙ o.owed;
}

pub set_failed-IsPostedOnce :
    (key : Uuid) (a : ℤ) (db : Db)
    → IsOpenFor key a db
    → IsPostedOnce (set_transaction_state key TransactionState.failed db)
set_failed-IsPostedOnce key a db o = record {
  counts = λ k side.
      rw (succeeded-update_failed k key db.transactions o.unsettled) (o.posted.counts k side);
  amounts =
      IsOwed-same db (set_transaction_state key TransactionState.failed db) db.entries
        (λ k b h. is_owed-set_transaction_state key _ db k b ∙ h) o.posted.amounts;
}

-- The two lines of a success.
pub add_entries-IsPostedOnce :
    (d c : LedgerEntry) (key : Uuid) (a : ℤ) (db : Db)
    → d.transaction_id ≡ key
    → c.transaction_id ≡ key
    → d.amount ≡ a
    → c.amount ≡ a
    → d.entry_type ≡ EntryType.debit
    → c.entry_type ≡ EntryType.credit
    → IsDue key a db
    → IsPostedOnce (add_entries d c db)
unfolding lines
add_entries-IsPostedOnce d c key a db dt ct da ca de ce p = record {
  counts = λ k side. ground (arith, p.others k side, p.settled);
  amounts = (rw (dt, da) p.owed, (rw (ct, ca) p.owed, p.amounts));
}
