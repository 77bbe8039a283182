-- ===== src/Services/Webhook/Books.antt =====
-- A callback of the bank (app/services/webhook.py) keeps the books.
use payment_gateway_system.Prelude.{
  ℕ, String, Bool, true, ◌≡◌, refl, Option, none, some, List, [], ◌∷◌, arith,
}
use payment_gateway_system.Prelude.Int.{ℤ, pos}
use payment_gateway_system.Prelude.Rows.{select, any, All}
use payment_gateway_system.Models.Payment.{
  Uuid, PaymentStatus, TransactionState, PaymentIntent, Transaction,
}
use payment_gateway_system.Models.Ledger.{AccountType, EntryType, LedgerAccount, default_currency}
use payment_gateway_system.Models.Database.{Db, fits_account, same_account_key}
use payment_gateway_system.Session.{Session, M, ◌>>=◌, ◌>>◌, write, read, scalar_one, with_session}
use payment_gateway_system.Session.Triples.{
  Ends, Ends-if, Triple, Triple-bind, Triple-Durable, Working, Untouched, with_session-Ends,
}
use payment_gateway_system.Services.Accounts.{
  has_account, new_account, insert_or_ignore, is_account, add_to_balance, add_entries,
}
use payment_gateway_system.Services.Ledger.{PostingKeys, entry, merchant_identifier}
use payment_gateway_system.Services.Books.{
  IsReconciled, insert-IsReconciled, post-IsReconciled, has_account-select,
}
use payment_gateway_system.Services.Payment.{set_intent_status}
use payment_gateway_system.Services.Webhook.Rules.{callback-Triple}
use payment_gateway_system.Services.Webhook.{
  Decimal, set_transaction_state, ensure_account_locked, settle, process_bank_callback,
}

-- The books are in order, and the accounts with these keys exist.
pub record WithAccounts (keys : List Uuid) (db : Db) : Type 0 where
  pub reconciled : IsReconciled db
  pub known : All (λ key. has_account key db.accounts ≡ true) keys

known-cons :
    (a : LedgerAccount) (accounts : List LedgerAccount) (keys : List Uuid)
    → All (λ key. has_account key accounts ≡ true) keys
    → All (λ key. has_account key (a ∷ accounts) ≡ true) keys
unfolding has_account
known-cons a accounts [] h = tt
known-cons a accounts (k ∷ keys) h = (ground arith, known-cons a accounts keys h.1)

insert_or_ignore-Ends :
    (base : Db) (keys : List Uuid) (a : LedgerAccount) (s : Session)
    → a.balance ≡ pos 0
    → Working base (WithAccounts keys) s
    → Ends (λ u. Working base (WithAccounts keys)) (Untouched base) (insert_or_ignore a s)
unfolding insert_or_ignore
insert_or_ignore-Ends base keys a s z w =
    Ends-if _ _ (fits_account a) _ _
      (λ f.
        Ends-if _ _ (any (same_account_key a) s.current.accounts) _ _ (λ u. w)
          (λ u.
            Ends-if _ _ (has_account a.id s.current.accounts) _ _ (λ t. record { fresh = w.fresh })
              (λ t. record {
                fresh = w.fresh;
                holds = record {
                  reconciled = insert-IsReconciled a s.current z t w.holds.reconciled;
                  known = known-cons a s.current.accounts keys w.holds.known;
                };
              })))
      (λ f. record { fresh = w.fresh })

select-Triple :
    (base : Db) (keys : List Uuid) (p : LedgerAccount → Bool)
    → Triple
        (Working base (WithAccounts keys))
        (read (λ db. select p db.accounts) >>= scalar_one)
        (λ a. Working base (WithAccounts (a.id ∷ keys)))
        (Untouched base)
unfolding ◌>>=◌ select
select-Triple base keys p = record { at = λ s w. found s w (select p s.current.accounts) refl }
  where
    found :
        (s : Session)
        → Working base (WithAccounts keys) s
        → (rows : List LedgerAccount) → select p s.current.accounts ≡ rows
        → Ends (λ a. Working base (WithAccounts (a.id ∷ keys))) (Untouched base) (scalar_one rows s)
    found s w [] e = record { fresh = w.fresh }
    found s w (a ∷ []) e = record {
      fresh = w.fresh;
      holds = record {
        reconciled = w.holds.reconciled;
        known = (has_account-select p s.current.accounts e, w.holds.known);
      };
    }
    found s w (a ∷ b ∷ rows) e = record { fresh = w.fresh }

-- What creating or finding an account does, as the callback needs it.
pub ensure-Triple :
    (base : Db) (keys : List Uuid) (key : Uuid) (t : AccountType) (identifier : String)
    (m : Option Uuid)
    → Triple
        (Working base (WithAccounts keys))
        (ensure_account_locked key t identifier m)
        (λ a. Working base (WithAccounts (a.id ∷ keys)))
        (Untouched base)
unfolding ensure_account_locked
ensure-Triple base keys key t identifier m =
    Triple-bind (insert_or_ignore (new_account key t identifier m))
      (λ u. read (λ db. select (is_account identifier t) db.accounts) >>= scalar_one)
      (record {
        at = λ s w. insert_or_ignore-Ends base keys (new_account key t identifier m) s refl w;
      })
      (λ u. select-Triple base keys (is_account identifier t))

post-Triple :
    (base : Db) (keys : PostingKeys) (payer merchant : LedgerAccount) (txn : Transaction)
    (amount : ℤ)
    → Triple
        (Working base (WithAccounts (merchant.id ∷ payer.id ∷ [])))
        (write (add_to_balance payer.id amount)
          >> (write (add_to_balance merchant.id amount)
              >> write (
                  add_entries
                    (entry keys.debit_entry payer txn amount EntryType.debit default_currency)
                    (entry keys.credit_entry merchant txn amount EntryType.credit
                      default_currency))))
        (λ u. Working base IsReconciled)
        (Untouched base)
unfolding ◌>>=◌
post-Triple base keys payer merchant txn amount = record {
  at = λ s w. record {
    fresh = w.fresh;
    holds =
        post-IsReconciled (entry keys.debit_entry payer txn amount EntryType.debit default_currency)
          (entry keys.credit_entry merchant txn amount EntryType.credit default_currency) s.current
          refl refl refl refl w.holds.known.1.0 w.holds.known.0 w.holds.reconciled;
  };
}

no_accounts-Triple :
    {A : Type 0} {Q : A → Session → Type 0} (base : Db) (m : M A)
    → Triple (Working base (WithAccounts [])) m Q (Untouched base)
    → Triple (Working base IsReconciled) m Q (Untouched base)
no_accounts-Triple base m h = record {
  at = λ s w.
      h.at s (record { fresh = w.fresh; holds = record { reconciled = w.holds; known = tt } });
}

pub settle-Triple :
    (base : Db) (uuid_str : Uuid → String) (keys : PostingKeys) (txn : Transaction)
    (intent : PaymentIntent) (amount : ℤ)
    → Triple
        (Working base IsReconciled)
        (settle uuid_str keys txn intent amount)
        (λ u. Working base IsReconciled)
        (Untouched base)
unfolding settle
settle-Triple base uuid_str keys txn intent amount = no_accounts-Triple base _ (
    Triple-bind _ _ (ensure-Triple base [] keys.debit_account AccountType.virtual txn.vpa none)
      (λ payer.
        Triple-bind _ _
          (ensure-Triple base (payer.id ∷ []) keys.credit_account AccountType.merchant_settlement
            (merchant_identifier uuid_str intent.merchant_id) (some intent.merchant_id))
          (λ merchant. post-Triple base keys payer merchant txn amount)))

set_transaction_state-IsReconciled :
    (t : Uuid) (state : TransactionState) (db : Db)
    → IsReconciled db
    → IsReconciled (set_transaction_state t state db)
set_transaction_state-IsReconciled t state db r = record {
  balances = r.balances;
  owners = r.owners;
  balanced = r.balanced;
}

set_intent_status-IsReconciled :
    (i : Uuid) (status : PaymentStatus) (now : ℕ) (db : Db)
    → IsReconciled db
    → IsReconciled (set_intent_status i status now db)
set_intent_status-IsReconciled i status now db r = record {
  balances = r.balances;
  owners = r.owners;
  balanced = r.balanced;
}

-- A delivery of a callback, whatever its event, reference and amount, and whether it returns or
-- raises: if the books were in order before it they are after it.
pub process_bank_callback-IsReconciled :
    (uuid_str : Uuid → String) (keys : PostingKeys) (now : ℕ) (event ref : String)
    (amount : Decimal) (db : Db)
    → IsReconciled db
    → IsReconciled (with_session (process_bank_callback uuid_str keys now event ref amount) db).1
process_bank_callback-IsReconciled uuid_str keys now event ref amount db h =
    (with_session-Ends _ db
      (Triple-Durable _ (
        callback-Triple db IsReconciled uuid_str keys (settle-Triple db uuid_str keys)
          set_transaction_state-IsReconciled set_intent_status-IsReconciled now event ref amount))
      h h).0
