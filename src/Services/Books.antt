-- ===== src/Services/Books.antt =====
-- The books: that the ledger's entries and the balances of the accounts agree, and that they still
-- do after a posting.
use payment_gateway_system.Prelude.{
  ◌∙◌, sym, Bool, true, false, ◌≡◌, refl, List, [], ◌∷◌, arith, ◌==◌, if◌then◌else◌,
}
use payment_gateway_system.Prelude.Int.{ℤ, pos, ◌+ℤ◌, int_laws}
use payment_gateway_system.Prelude.Rows.{select, update, All}
use payment_gateway_system.Models.Payment.{Uuid}
use payment_gateway_system.Models.Ledger.{EntryType, LedgerAccount, LedgerEntry}
use payment_gateway_system.Models.Database.{Db}
use payment_gateway_system.Services.Accounts.{has_account, add_to_balance, add_entries}

-- The sum of the entries on an account.
unfoldable pub posted : Uuid → List LedgerEntry → ℤ
posted key [] = pos 0
posted key (e ∷ es) =
    let rest = posted key es in if key == e.account_id then rest +ℤ e.amount else rest

abbrev pub same_side : EntryType → EntryType → Bool
same_side EntryType.debit EntryType.debit = true
same_side EntryType.credit EntryType.credit = true
same_side _ _ = false

-- The sum of one side of the entries of a transaction.
unfoldable pub side : Uuid → EntryType → List LedgerEntry → ℤ
side txn t [] = pos 0
side txn t (e ∷ es) =
    let rest = side txn t es in
    if txn == e.transaction_id
    then (if same_side t e.entry_type then rest +ℤ e.amount else rest)
    else rest

abbrev pub HasBalances : List LedgerEntry → List LedgerAccount → Type 0
HasBalances es = All (λ a. a.balance ≡ posted a.id es)

abbrev pub HasAccounts : List LedgerAccount → List LedgerEntry → Type 0
HasAccounts accounts = All (λ e. has_account e.account_id accounts ≡ true)

-- Every balance is the sum of the account's entries, every entry is on an account that exists, and
-- the debits of each transaction equal its credits.
pub record IsReconciled (db : Db) : Type 0 where
  pub balances : HasBalances db.entries db.accounts
  pub owners : HasAccounts db.accounts db.entries
  pub balanced :
      (txn : Uuid) → side txn EntryType.debit db.entries ≡ side txn EntryType.credit db.entries

posted-zero :
    (key : Uuid) (accounts : List LedgerAccount) (es : List LedgerEntry)
    → has_account key accounts ≡ false
    → HasAccounts accounts es
    → posted key es ≡ pos 0
unfolding posted
posted-zero key accounts [] h o = refl
posted-zero key accounts (e ∷ es) h o = ground (arith, posted-zero key accounts es h o.1)

HasAccounts-cons :
    (a : LedgerAccount) (accounts : List LedgerAccount) (es : List LedgerEntry)
    → HasAccounts accounts es
    → HasAccounts (a ∷ accounts) es
unfolding has_account
HasAccounts-cons a accounts [] o = tt
HasAccounts-cons a accounts (e ∷ es) o = (ground arith, HasAccounts-cons a accounts es o.1)

-- A new account with nothing on it.
pub insert-IsReconciled :
    (a : LedgerAccount) (db : Db)
    → a.balance ≡ pos 0
    → has_account a.id db.accounts ≡ false
    → IsReconciled db
    → IsReconciled (record db { accounts = a ∷ db.accounts })
insert-IsReconciled a db z h r = record {
  balances = (z ∙ sym (posted-zero a.id db.accounts db.entries h r.owners), r.balances);
  owners = HasAccounts-cons a db.accounts db.entries r.owners;
  balanced = r.balanced;
}

has_account-update :
    (key : Uuid) (q : LedgerAccount → Bool) (f : LedgerAccount → LedgerAccount)
    (accounts : List LedgerAccount)
    → ((a : LedgerAccount) → (f a).id ≡ a.id)
    → has_account key (update q f accounts) ≡ has_account key accounts
unfolding has_account update
has_account-update key q f [] h = refl
has_account-update key q f (a ∷ accounts) h =
    ground (arith, h a, has_account-update key q f accounts h)

pub has_account-add_to_balance :
    (key k : Uuid) (amount : ℤ) (db : Db)
    → has_account key (add_to_balance k amount db).accounts ≡ has_account key db.accounts
has_account-add_to_balance key k amount db = has_account-update key _ _ db.accounts (λ a. refl)

HasAccounts-same :
    (old new : List LedgerAccount) (es : List LedgerEntry)
    → ((key : Uuid) → has_account key new ≡ has_account key old)
    → HasAccounts old es
    → HasAccounts new es
HasAccounts-same old new [] h o = tt
HasAccounts-same old new (e ∷ es) h o = (rw h o.0, HasAccounts-same old new es h o.1)

HasBalances-post :
    (e : LedgerEntry) (es : List LedgerEntry) (accounts : List LedgerAccount)
    → HasBalances es accounts
    → HasBalances (e ∷ es) (
        update
          (λ a. a.id == e.account_id)
          (λ a. record a { balance = a.balance +ℤ e.amount })
          accounts)
unfolding posted update
HasBalances-post e es [] h = tt
HasBalances-post e es (a ∷ accounts) h = (grind int_laws, HasBalances-post e es accounts h.1)

posted-swap :
    (key : Uuid) (d c : LedgerEntry) (es : List LedgerEntry)
    → posted key (d ∷ c ∷ es) ≡ posted key (c ∷ d ∷ es)
unfolding posted
posted-swap key d c es = grind int_laws

HasBalances-swap :
    (d c : LedgerEntry) (es : List LedgerEntry) (accounts : List LedgerAccount)
    → HasBalances (c ∷ d ∷ es) accounts
    → HasBalances (d ∷ c ∷ es) accounts
HasBalances-swap d c es [] h = tt
HasBalances-swap d c es (a ∷ accounts) h =
    (h.0 ∙ posted-swap a.id c d es, HasBalances-swap d c es accounts h.1)

has_account-post :
    (key : Uuid) (d c : LedgerEntry) (db : Db)
    → has_account key
        (add_to_balance c.account_id c.amount (add_to_balance d.account_id d.amount db)).accounts
      ≡ has_account key db.accounts
has_account-post key d c db =
    has_account-add_to_balance key c.account_id c.amount (add_to_balance d.account_id d.amount db)
    ∙ has_account-add_to_balance key d.account_id d.amount db

side-post :
    (txn : Uuid) (d c : LedgerEntry) (es : List LedgerEntry)
    → c.amount ≡ d.amount
    → c.transaction_id ≡ d.transaction_id
    → d.entry_type ≡ EntryType.debit
    → c.entry_type ≡ EntryType.credit
    → side txn EntryType.debit es ≡ side txn EntryType.credit es
    → side txn EntryType.debit (d ∷ c ∷ es) ≡ side txn EntryType.credit (d ∷ c ∷ es)
unfolding side
side-post txn d c es a t ed ec h = ground arith

-- A debit and a credit of one amount for one transaction, on two accounts that exist.
pub post-IsReconciled :
    (d c : LedgerEntry) (db : Db)
    → c.amount ≡ d.amount
    → c.transaction_id ≡ d.transaction_id
    → d.entry_type ≡ EntryType.debit
    → c.entry_type ≡ EntryType.credit
    → has_account d.account_id db.accounts ≡ true
    → has_account c.account_id db.accounts ≡ true
    → IsReconciled db
    → IsReconciled (
        add_entries d c
          (add_to_balance c.account_id c.amount (add_to_balance d.account_id d.amount db)))
post-IsReconciled d c db a t ed ec hd hc r = record {
  balances = HasBalances-swap d c db.entries _ (
      HasBalances-post c (d ∷ db.entries) _ (HasBalances-post d db.entries db.accounts r.balances));
  owners =
      HasAccounts-same db.accounts _ (d ∷ c ∷ db.entries) (λ key. has_account-post key d c db)
        (hd, (hc, r.owners));
  balanced = λ txn. side-post txn d c db.entries a t ed ec (r.balanced txn);
}

-- The account that a query found exists.
pub has_account-select :
    (p : LedgerAccount → Bool) (accounts : List LedgerAccount) {a : LedgerAccount}
    {rest : List LedgerAccount}
    → select p accounts ≡ a ∷ rest
    → has_account a.id accounts ≡ true
unfolding select has_account
has_account-select p [] e = cc
has_account-select p (x ∷ accounts) {a} {rest} e =
    ground (arith, has_account-select p accounts {a = a} {rest = rest})
