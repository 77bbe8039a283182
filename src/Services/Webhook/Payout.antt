-- ===== src/Services/Webhook/Payout.antt =====
-- The posting of a callback (app/services/webhook.py), from the accounts to the entries, and what
-- the merchant has earned.
use payment_gateway_system.Prelude.{
  String, true, ◌≡◌, refl, sym, ◌∙◌, Option, List, [], ◌∷◌, ◌==◌, inr,
}
use payment_gateway_system.Prelude.Int.{ℤ, pos}
use payment_gateway_system.Prelude.Rows.{IsRow, All, select, any}
use payment_gateway_system.Prelude.Laws.{select-head, IsRow-select}
use payment_gateway_system.Models.Payment.{Uuid, PaymentIntent, Transaction}
use payment_gateway_system.Models.Ledger.{AccountType, EntryType, LedgerAccount, default_currency}
use payment_gateway_system.Models.Database.{Db, fits_account, same_account_key}
use payment_gateway_system.Session.{Session, ◌>>=◌, ◌>>◌, write, read, scalar_one}
use payment_gateway_system.Session.Triples.{Ends, Ends-if, Triple, Triple-bind, Working, Untouched}
use payment_gateway_system.Services.Accounts.{
  has_account, new_account, insert_or_ignore, is_account, add_to_balance, add_entries,
}
use payment_gateway_system.Services.Ledger.{PostingKeys, entry, merchant_identifier}
use payment_gateway_system.Services.Earnings.{
  IsUuidText, IsEarned, IsOwing, insert-IsOwing, post-IsEarned,
}
use payment_gateway_system.Services.Webhook.{ensure_account_locked, settle}

-- An account with the type and the identifier that it was looked for with.
abbrev pub Locked : Type 0
Locked = LedgerAccount × (AccountType × String)

abbrev pub IsLocked : List LedgerAccount → Locked → Type 0
IsLocked accounts r = IsRow r.0 accounts × (is_account r.1.1 r.1.0 r.0 ≡ true)

has_account-any :
    (key : Uuid) (accounts : List LedgerAccount)
    → has_account key accounts ≡ any (λ (b : LedgerAccount). key == b.id) accounts
unfolding has_account any
has_account-any key [] = refl
has_account-any key (a ∷ accounts) = rw (has_account-any key accounts) refl

IsLocked-cons :
    (a : LedgerAccount) (accounts : List LedgerAccount) (rows : List Locked)
    → All (IsLocked accounts) rows
    → All (IsLocked (a ∷ accounts)) rows
IsLocked-cons a accounts [] h = tt
IsLocked-cons a accounts (r ∷ rows) h = ((inr h.0.0, h.0.1), IsLocked-cons a accounts rows h.1)

module _ (base : Db) (uuid_str : Uuid → String) (texts : IsUuidText uuid_str) (m : Uuid)
    (amount : ℤ) where
  -- The amount is still to be posted, and these accounts were found.
  pub record Posting (rows : List Locked) (db : Db) : Type 0 where
    pub owing : IsOwing uuid_str m amount db
    pub locked : All (IsLocked db.accounts) rows

  insert_or_ignore-Posting :
      (rows : List Locked) (a : LedgerAccount)
      → a.balance ≡ pos 0
      → Triple
          (Working base (Posting rows))
          (insert_or_ignore a)
          (λ u. Working base (Posting rows))
          (Untouched base)
  unfolding insert_or_ignore
  insert_or_ignore-Posting rows a z = record {
    at = λ s w.
        Ends-if _ _ (fits_account a) _ _
          (λ f.
            Ends-if _ _ (any (same_account_key a) s.current.accounts) _ _ (λ u. w)
              (λ u.
                Ends-if _ _ (has_account a.id s.current.accounts) _ _
                  (λ t. record { fresh = w.fresh })
                  (λ t. record {
                    fresh = w.fresh;
                    holds = record {
                      owing =
                          insert-IsOwing uuid_str texts m amount s.current w.holds.owing a z
                            (sym (has_account-any a.id s.current.accounts) ∙ t);
                      locked = IsLocked-cons a s.current.accounts rows w.holds.locked;
                    };
                  })))
          (λ f. record { fresh = w.fresh });
  }

  select-Posting :
      (rows : List Locked) (t : AccountType) (identifier : String)
      → Triple
          (Working base (Posting rows))
          (read (λ db. select (is_account identifier t) db.accounts) >>= scalar_one)
          (λ a. Working base (Posting ((a, (t, identifier)) ∷ rows)))
          (Untouched base)
  unfolding ◌>>=◌
  select-Posting rows t identifier = record {
    at = λ s w. found s w (select (is_account identifier t) s.current.accounts) refl;
  }
    where
      found :
          (s : Session)
          → Working base (Posting rows) s
          → (accounts : List LedgerAccount)
          → select (is_account identifier t) s.current.accounts ≡ accounts
          → Ends
              (λ a. Working base (Posting ((a, (t, identifier)) ∷ rows)))
              (Untouched base)
              (scalar_one accounts s)
      found s w [] e = record { fresh = w.fresh }
      found s w (a ∷ []) e = record {
        fresh = w.fresh;
        holds = record {
          owing = w.holds.owing;
          locked = (
            (
              IsRow-select (is_account identifier t) s.current.accounts e,
              select-head (is_account identifier t) s.current.accounts e,
            ),
            w.holds.locked,
          );
        };
      }
      found s w (a ∷ b ∷ accounts) e = record { fresh = w.fresh }

  ensure-Posting :
      (rows : List Locked) (key : Uuid) (t : AccountType) (identifier : String) (o : Option Uuid)
      → Triple
          (Working base (Posting rows))
          (ensure_account_locked key t identifier o)
          (λ a. Working base (Posting ((a, (t, identifier)) ∷ rows)))
          (Untouched base)
  unfolding ensure_account_locked
  ensure-Posting rows key t identifier o =
      Triple-bind _ _ (insert_or_ignore-Posting rows (new_account key t identifier o) refl)
        λ u. select-Posting rows t identifier

-- The change of the two balances and the entries.
post-Triple :
    (base : Db) (uuid_str : Uuid → String) (texts : IsUuidText uuid_str) (keys : PostingKeys)
    (txn : Transaction) (intent : PaymentIntent) (amount : ℤ) (payer merchant : LedgerAccount)
    → Triple
        (Working base (
          Posting base uuid_str texts intent.merchant_id amount (
            (
              merchant,
              (AccountType.merchant_settlement, merchant_identifier uuid_str intent.merchant_id),
            )
            ∷ (payer, (AccountType.virtual, txn.vpa))
            ∷ [])))
        (write (add_to_balance payer.id amount)
          >> (write (add_to_balance merchant.id amount)
              >> write (
                  add_entries
                    (entry keys.debit_entry payer txn amount EntryType.debit default_currency)
                    (entry keys.credit_entry merchant txn amount EntryType.credit
                      default_currency))))
        (λ u. Working base (IsEarned uuid_str))
        (Untouched base)
unfolding ◌>>=◌
post-Triple base uuid_str texts keys txn intent amount payer merchant = record {
  at = λ s w. record {
    fresh = w.fresh;
    holds =
        post-IsEarned uuid_str texts intent.merchant_id amount s.current w.holds.owing txn.vpa payer
          merchant _ _ w.holds.locked.1.0.0 w.holds.locked.1.0.1 w.holds.locked.0.0
          w.holds.locked.0.1;
  };
}

-- The posting of a success, where it is owed.
pub settle-IsEarned :
    (base : Db) (uuid_str : Uuid → String) (texts : IsUuidText uuid_str) (keys : PostingKeys)
    (txn : Transaction) (intent : PaymentIntent) (amount : ℤ)
    → Triple
        (Working base (Posting base uuid_str texts intent.merchant_id amount []))
        (settle uuid_str keys txn intent amount)
        (λ u. Working base (IsEarned uuid_str))
        (Untouched base)
unfolding settle
settle-IsEarned base uuid_str texts keys txn intent amount =
    let m = intent.merchant_id in
    Triple-bind _ _ (ensure-Posting base uuid_str texts m amount [] _ _ txn.vpa _) λ payer.
      Triple-bind _ _ (ensure-Posting base uuid_str texts m amount _ _ _ _ _)
        λ merchant. post-Triple base uuid_str texts keys txn intent amount payer merchant
