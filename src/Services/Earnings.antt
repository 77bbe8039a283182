-- ===== src/Services/Earnings.antt =====
-- What a merchant has earned, by its orders and by its account in the ledger
-- (app/services, app/models).
use text.Mathlib.TextLemmas.{append_cancel_left}
use payment_gateway_system.Prelude.{
  ℕ, ◌==◌, String, Bool, true, false, ◌&&◌, ◌≡◌, refl, sym, ap, ◌∙◌, ◌∷◌, arith, eq_iff, Bool-cases,
  inl, inr, if◌then◌else◌,
}
use payment_gateway_system.Prelude.Int.{ℤ, pos, ◌+ℤ◌, int_laws}
use payment_gateway_system.Prelude.Rows.{IsRow, update, any, distinct}
use payment_gateway_system.Prelude.Laws.{any-update, distinct-update}
use payment_gateway_system.Prelude.Totals.{total, any-key, total-update, total-update_row}
use payment_gateway_system.Models.Payment.{Uuid, PaymentStatus, PaymentIntent, eq_status}
use payment_gateway_system.Models.Ledger.{AccountType, LedgerAccount, LedgerEntry, eq_account_type}
use payment_gateway_system.Models.Database.{Db}
use payment_gateway_system.Services.Accounts.{is_account, add_to_balance, add_entries}
use payment_gateway_system.Services.Ledger.{merchant_identifier}
use payment_gateway_system.Services.Order.{add_intent}
use payment_gateway_system.Services.Payment.{set_intent_status}

-- `str` of a UUID tells it.
pub record IsUuidText (uuid_str : Uuid → String) : Type 0 where
  pub injective : (a b : Uuid) → uuid_str a ≡ uuid_str b → a ≡ b

abbrev pub amount_if_paid : Uuid → PaymentIntent → ℤ
amount_if_paid m i =
    if eq_status i.status PaymentStatus.success && (i.merchant_id == m) then i.amount else pos 0

-- The sum of the amounts of the merchant's orders that are paid.
abbrev pub earned : Uuid → Db → ℤ
earned m db = total (amount_if_paid m) db.intents

module _ (uuid_str : Uuid → String) where
  abbrev pub is_settlement : Uuid → LedgerAccount → Bool
  is_settlement m = is_account (merchant_identifier uuid_str m) AccountType.merchant_settlement

  -- The balance of the merchant's settlement account, nothing if there is none.
  abbrev pub settled_balance : Uuid → Db → ℤ
  settled_balance m db = total (λ a. if is_settlement m a then a.balance else pos 0) db.accounts

  -- Every merchant has in the ledger what its paid orders are worth.
  pub record IsEarned (db : Db) : Type 0 where
    pub earns : (m : Uuid) → settled_balance m db ≡ earned m db

  -- As between the change of an order's status and the posting of its amount.
  pub record IsOwing (m : Uuid) (amount : ℤ) (db : Db) : Type 0 where
    pub owes : (k : Uuid) → settled_balance k db +ℤ (if m == k then amount else pos 0) ≡ earned k db
    pub ids : distinct (λ (a b : LedgerAccount). a.id == b.id) db.accounts ≡ true

  pub add_intent-IsEarned :
      (i : PaymentIntent) (db : Db)
      → i.status ≡ PaymentStatus.created
      → IsEarned db
      → IsEarned (add_intent i db)
  unfolding total
  add_intent-IsEarned i db c e = record { earns = λ m. rw (c, e.earns m) (grind int_laws) }

-- An order that is not paid yet takes a new status.
status-earned :
    (m : Uuid) (i : PaymentIntent) (s : PaymentStatus) (now : ℕ) (db : Db)
    → IsRow i db.intents
    → distinct (λ (a b : PaymentIntent). a.id == b.id) db.intents ≡ true
    → eq_status i.status PaymentStatus.success ≡ false
    → earned m (set_intent_status i.id s now db)
      ≡ earned m db +ℤ amount_if_paid m (record i { status = s; updated_at = now })
status-earned m i s now db r d u =
    let moved =
      total-update_row (λ (x : PaymentIntent). x.id) (amount_if_paid m)
        (λ x. record x { status = s; updated_at = now }) db.intents i r d in
    grind (int_laws, u, moved)

module _ (uuid_str : Uuid → String) (i : PaymentIntent) (now : ℕ) (db : Db)
    (row : IsRow i db.intents)
    (ids : distinct (λ (a b : PaymentIntent). a.id == b.id) db.intents ≡ true)
    (unpaid : eq_status i.status PaymentStatus.success ≡ false) (e : IsEarned uuid_str db) where
  pub status-IsEarned :
      (s : PaymentStatus)
      → eq_status s PaymentStatus.success ≡ false
      → IsEarned uuid_str (set_intent_status i.id s now db)
  status-IsEarned s n = record {
    earns = λ m. rw (status-earned m i s now db row ids unpaid, n) (grind (int_laws, e.earns m));
  }

  pub status-IsOwing :
      distinct (λ (a b : LedgerAccount). a.id == b.id) db.accounts ≡ true
      → IsOwing uuid_str i.merchant_id i.amount
          (set_intent_status i.id PaymentStatus.success now db)
  status-IsOwing d = record {
    owes = λ k. rw (status-earned k i PaymentStatus.success now db row ids unpaid, e.earns k) refl;
    ids = d;
  }

-- A payer's account is nobody's settlement account.
payer-is_settlement :
    (uuid_str : Uuid → String) (k : Uuid) (identifier : String) (a : LedgerAccount)
    → is_account identifier AccountType.virtual a ≡ true
    → is_settlement uuid_str k a ≡ false
payer-is_settlement uuid_str k identifier a h = ground arith

settlement_type :
    (uuid_str : Uuid → String) (m : Uuid) (a : LedgerAccount)
    → is_settlement uuid_str m a ≡ true
    → eq_account_type a.account_type AccountType.merchant_settlement ≡ true
settlement_type uuid_str m a h = ground arith

settlement_identifier :
    (uuid_str : Uuid → String) (m : Uuid) (a : LedgerAccount)
    → is_settlement uuid_str m a ≡ true
    → a.identifier ≡ merchant_identifier uuid_str m
settlement_identifier uuid_str m a h =
    (eq_iff a.identifier (merchant_identifier uuid_str m)).0 (ground arith)

-- A settlement account is that of one merchant.
merchant-is_settlement :
    (uuid_str : Uuid → String) (m k : Uuid) (a : LedgerAccount)
    → IsUuidText uuid_str
    → is_settlement uuid_str m a ≡ true
    → is_settlement uuid_str k a ≡ (m == k)
merchant-is_settlement uuid_str m k a u h = elim (Bool-cases (m == k)) [
  | inl e ↦
      let same : m ≡ k = ground arith in
      ap (λ (j : Uuid). is_settlement uuid_str j a) (sym same) ∙ h ∙ sym e
  | inr e ↦ elim (Bool-cases (is_settlement uuid_str k a)) [
    | inl g ↦
        let same : m ≡ k = u.injective m k (
          append_cancel_left "merchant:" (uuid_str m) (uuid_str k)
            (sym (settlement_identifier uuid_str m a h) ∙ settlement_identifier uuid_str k a g)) in
        absurd (differ same e)
    | inr g ↦ g ∙ sym e
  ]
]
  where
    differ : {x y : ℕ} → x ≡ y → ¬ ((x == y) ≡ false)
    differ e f = ground arith

module _ (uuid_str : Uuid → String) (texts : IsUuidText uuid_str) (m : Uuid) (amount : ℤ) (db : Db)
    (o : IsOwing uuid_str m amount db) where
  -- An account with nothing on it.
  pub insert-IsOwing :
      (a : LedgerAccount)
      → a.balance ≡ pos 0
      → any (λ (b : LedgerAccount). a.id == b.id) db.accounts ≡ false
      → IsOwing uuid_str m amount (record db { accounts = a ∷ db.accounts })
  unfolding total distinct
  insert-IsOwing a z n = record { owes = λ k. rw z (grind (int_laws, o.owes k)); ids = rw n o.ids }

  -- The posting of the amount to the accounts of the payer and of the merchant.
  pub post-IsEarned :
      (identifier : String) (payer merchant : LedgerAccount) (d c : LedgerEntry)
      → IsRow payer db.accounts
      → is_account identifier AccountType.virtual payer ≡ true
      → IsRow merchant db.accounts
      → is_settlement uuid_str m merchant ≡ true
      → IsEarned uuid_str
          (add_entries d c (add_to_balance merchant.id amount (add_to_balance payer.id amount db)))
  post-IsEarned identifier payer merchant d c rp p rm q = record {
    earns = λ k.
        let f : LedgerAccount → LedgerAccount = λ a. record a { balance = a.balance +ℤ amount } in
        rw
          (
            total-update (λ (a : LedgerAccount). a.id) (is_settlement uuid_str k) f (λ a. a.balance)
                amount merchant.id (update (λ a. a.id == payer.id) f db.accounts) (λ a. refl)
                (λ a. refl)
                (distinct-update _ (λ a. a.id == payer.id) f db.accounts (λ x y. refl) (λ x y. refl)
                  ∙ o.ids),
            total-update (λ (a : LedgerAccount). a.id) (is_settlement uuid_str k) f (λ a. a.balance)
                amount payer.id db.accounts (λ a. refl) (λ a. refl) o.ids,
            any-update (λ a. is_settlement uuid_str k a && (a.id == merchant.id))
                (λ a. a.id == payer.id) f db.accounts (λ a. refl),
            any-key (λ (a : LedgerAccount). a.id) (is_settlement uuid_str k) db.accounts payer rp
                o.ids,
            any-key (λ (a : LedgerAccount). a.id) (is_settlement uuid_str k) db.accounts merchant rm
                o.ids,
            payer-is_settlement uuid_str k identifier payer p,
            merchant-is_settlement uuid_str m k merchant texts q,
          )
          (grind (int_laws, o.owes k));
  }
