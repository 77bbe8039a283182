-- ===== src/Services/Addresses.antt =====
-- Whose accounts the ledger entries are on (app/services, app/models/ledger.py).
use payment_gateway_system.Prelude.{
  ℕ, String, Bool, true, ◌≡◌, refl, ◌∙◌, ◌&&◌, ◌==◌, str_eq, List, [], ◌∷◌, arith,
}
use payment_gateway_system.Prelude.Int.{ℤ}
use payment_gateway_system.Prelude.Rows.{All, any}
use payment_gateway_system.Prelude.Laws.{any-update}
use payment_gateway_system.Models.Payment.{
  Uuid, PaymentStatus, TransactionState, PaymentIntent, Transaction,
}
use payment_gateway_system.Models.Ledger.{AccountType, EntryType, LedgerAccount, LedgerEntry}
use payment_gateway_system.Models.Database.{Db}
use payment_gateway_system.Services.Accounts.{is_account, add_to_balance}
use payment_gateway_system.Services.Ledger.{merchant_identifier}
use payment_gateway_system.Services.Payment.{set_intent_status}
use payment_gateway_system.Services.Webhook.{set_transaction_state}

abbrev pub is_held : Uuid → AccountType → String → LedgerAccount → Bool
is_held id t identifier a = (a.id == id) && is_account identifier t a

abbrev pub paid_by : Uuid → String → Transaction → Bool
paid_by id vpa t = (t.id == id) && str_eq t.vpa vpa

abbrev pub pays : Uuid → Uuid → Transaction → Bool
pays id order t = (t.id == id) && (t.intent_id == order)

abbrev pub sold_by : Uuid → Uuid → PaymentIntent → Bool
sold_by order merchant i = (i.id == order) && (i.merchant_id == merchant)

-- A debit is on the virtual account of the address that pays its transaction.
pub record IsDebit (db : Db) (e : LedgerEntry) : Type 0 where
  pub payer : String
  pub account : any (is_held e.account_id AccountType.virtual payer) db.accounts ≡ true
  pub transaction : any (paid_by e.transaction_id payer) db.transactions ≡ true

-- A credit is on the settlement account of the merchant whose order its transaction pays.
pub record IsCredit (uuid_str : Uuid → String) (db : Db) (e : LedgerEntry) : Type 0 where
  pub order : Uuid
  pub merchant : Uuid
  pub account :
      any
        (is_held e.account_id AccountType.merchant_settlement
          (merchant_identifier uuid_str merchant))
        db.accounts
      ≡ true
  pub transaction : any (pays e.transaction_id order) db.transactions ≡ true
  pub intent : any (sold_by order merchant) db.intents ≡ true

abbrev pub IsPlaced : (Uuid → String) → Db → EntryType → LedgerEntry → Type 0
IsPlaced uuid_str db EntryType.debit e = IsDebit db e
IsPlaced uuid_str db EntryType.credit e = IsCredit uuid_str db e

pub record IsAddressed (uuid_str : Uuid → String) (db : Db) : Type 0 where
  pub placed : All (λ e. IsPlaced uuid_str db e.entry_type e) db.entries

-- The second database has the rows of the first, but for what the services change in them.
pub record Grows (db db' : Db) : Type 0 where
  pub accounts :
      (id : Uuid) (t : AccountType) (identifier : String)
      → any (is_held id t identifier) db.accounts ≡ true
      → any (is_held id t identifier) db'.accounts ≡ true
  pub payers :
      (id : Uuid) (vpa : String)
      → any (paid_by id vpa) db.transactions ≡ true
      → any (paid_by id vpa) db'.transactions ≡ true
  pub orders :
      (id order : Uuid)
      → any (pays id order) db.transactions ≡ true
      → any (pays id order) db'.transactions ≡ true
  pub sellers :
      (order merchant : Uuid)
      → any (sold_by order merchant) db.intents ≡ true
      → any (sold_by order merchant) db'.intents ≡ true

pub grown :
    (uuid_str : Uuid → String) (db db' : Db)
    → Grows db db'
    → (es : List LedgerEntry) → All (λ e. IsPlaced uuid_str db e.entry_type e) es
    → All (λ e. IsPlaced uuid_str db' e.entry_type e) es
grown uuid_str db db' g [] h = tt
grown uuid_str db db' g (e ∷ es) h = (one e.entry_type h.0, grown uuid_str db db' g es h.1)
  where
    one : (s : EntryType) → IsPlaced uuid_str db s e → IsPlaced uuid_str db' s e
    one EntryType.debit p = record {
      payer = p.payer;
      account = g.accounts _ _ _ p.account;
      transaction = g.payers _ _ p.transaction;
    }
    one EntryType.credit p = record {
      order = p.order;
      merchant = p.merchant;
      account = g.accounts _ _ _ p.account;
      transaction = g.orders _ _ p.transaction;
      intent = g.sellers _ _ p.intent;
    }

pub Grows-balance : (id : Uuid) (amount : ℤ) (db : Db) → Grows db (add_to_balance id amount db)
Grows-balance id amount db = record {
  accounts = λ k t i h. any-update (is_held k t i) _ _ db.accounts (λ a. refl) ∙ h;
  payers = λ k v h. h;
  orders = λ k o h. h;
  sellers = λ o m h. h;
}

pub Grows-state :
    (id : Uuid) (state : TransactionState) (db : Db) → Grows db (set_transaction_state id state db)
Grows-state id state db = record {
  accounts = λ k t i h. h;
  payers = λ k v h. any-update (paid_by k v) _ _ db.transactions (λ t. refl) ∙ h;
  orders = λ k o h. any-update (pays k o) _ _ db.transactions (λ t. refl) ∙ h;
  sellers = λ o m h. h;
}

pub Grows-status :
    (id : Uuid) (status : PaymentStatus) (now : ℕ) (db : Db)
    → Grows db (set_intent_status id status now db)
Grows-status id status now db = record {
  accounts = λ k t i h. h;
  payers = λ k v h. h;
  orders = λ k o h. h;
  sellers = λ o m h. any-update (sold_by o m) _ _ db.intents (λ i. refl) ∙ h;
}

pub Grows-trans : (a b c : Db) → Grows a b → Grows b c → Grows a c
Grows-trans a b c g h = record {
  accounts = λ k t i p. h.accounts k t i (g.accounts k t i p);
  payers = λ k v p. h.payers k v (g.payers k v p);
  orders = λ k o p. h.orders k o (g.orders k o p);
  sellers = λ o m p. h.sellers o m (g.sellers o m p);
}

pub any_more :
    {A : Type 0} (p : A → Bool) (x : A) (xs : List A) → any p xs ≡ true → any p (x ∷ xs) ≡ true
unfolding any
any_more p x xs h = ground arith
