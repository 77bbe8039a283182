-- ===== src/Services/Webhook/Placing.antt =====
-- The accounts that the posting of a callback locks, and the entries on them
-- (app/services/webhook.py).
use payment_gateway_system.Prelude.{String, true, ◌≡◌, refl, Option, List, [], ◌∷◌}
use payment_gateway_system.Prelude.Int.{ℤ}
use payment_gateway_system.Prelude.Rows.{All, select, any}
use payment_gateway_system.Prelude.Laws.{select-head, IsRow-select, ==_refl}
use payment_gateway_system.Prelude.Keys.{any_row}
use payment_gateway_system.Models.Payment.{Uuid, PaymentIntent, Transaction}
use payment_gateway_system.Models.Ledger.{AccountType, EntryType, LedgerAccount, default_currency}
use payment_gateway_system.Models.Database.{Db, fits_account, same_account_key}
use payment_gateway_system.Session.{Session, ◌>>=◌, ◌>>◌, write, read, scalar_one}
use payment_gateway_system.Session.Triples.{Ends, Ends-if, Triple, Triple-bind, Working, Untouched}
use payment_gateway_system.Services.Accounts.{
  has_account, new_account, insert_or_ignore, is_account, add_to_balance, add_entries,
}
use payment_gateway_system.Services.Ledger.{PostingKeys, entry, merchant_identifier}
use payment_gateway_system.Services.Addresses.{
  is_held, paid_by, pays, sold_by, IsAddressed, Grows, Grows-trans, Grows-balance, grown, any_more,
}
use payment_gateway_system.Services.Webhook.{ensure_account_locked, settle}

-- An account, with the type and the identifier that it has.
abbrev pub Held : Type 0
Held = Uuid × (AccountType × String)

abbrev IsHeld : List LedgerAccount → Held → Type 0
IsHeld accounts r = any (is_held r.0 r.1.0 r.1.1) accounts ≡ true

IsHeld-more :
    (a : LedgerAccount) (accounts : List LedgerAccount) (rows : List Held)
    → All (IsHeld accounts) rows
    → All (IsHeld (a ∷ accounts)) rows
IsHeld-more a accounts [] h = tt
IsHeld-more a accounts (r ∷ rows) h =
    (any_more (is_held r.0 r.1.0 r.1.1) a accounts h.0, IsHeld-more a accounts rows h.1)

Grows-account : (a : LedgerAccount) (db : Db) → Grows db (record db { accounts = a ∷ db.accounts })
Grows-account a db = record {
  accounts = λ k t i h. any_more (is_held k t i) a db.accounts h;
  payers = λ k v h. h;
  orders = λ k o h. h;
  sellers = λ o m h. h;
}

module _ (base : Db) (uuid_str : Uuid → String) (txn : Transaction) (intent : PaymentIntent) where
  -- The payment that is posted, and the accounts that were found for it.
  pub record Placing (rows : List Held) (db : Db) : Type 0 where
    pub addressed : IsAddressed uuid_str db
    pub payer : any (paid_by txn.id txn.vpa) db.transactions ≡ true
    pub order : any (pays txn.id intent.id) db.transactions ≡ true
    pub seller : any (sold_by intent.id intent.merchant_id) db.intents ≡ true
    pub held : All (IsHeld db.accounts) rows

  insert_or_ignore-Placing :
      (rows : List Held) (a : LedgerAccount)
      → Triple
          (Working base (Placing rows))
          (insert_or_ignore a)
          (λ u. Working base (Placing rows))
          (Untouched base)
  unfolding insert_or_ignore
  insert_or_ignore-Placing rows a = record {
    at = λ s w.
        Ends-if _ _ (fits_account a) _ _
          (λ f.
            Ends-if _ _ (any (same_account_key a) s.current.accounts) _ _ (λ u. w)
              (λ u.
                Ends-if _ _ (has_account a.id s.current.accounts) _ _
                  (λ t. record { fresh = w.fresh })
                  (λ t. record { fresh = w.fresh; holds = opened s.current w.holds })))
          (λ f. record { fresh = w.fresh });
  }
    where
      opened : (db : Db) → Placing rows db → Placing rows (record db { accounts = a ∷ db.accounts })
      opened db p = record {
        addressed = record {
          placed = grown uuid_str db _ (Grows-account a db) db.entries p.addressed.placed;
        };
        payer = p.payer;
        order = p.order;
        seller = p.seller;
        held = IsHeld-more a db.accounts rows p.held;
      }

  select-Placing :
      (rows : List Held) (t : AccountType) (identifier : String)
      → Triple
          (Working base (Placing rows))
          (read (λ db. select (is_account identifier t) db.accounts) >>= scalar_one)
          (λ a. Working base (Placing ((a.id, (t, identifier)) ∷ rows)))
          (Untouched base)
  unfolding ◌>>=◌
  select-Placing rows t identifier = record {
    at = λ s w. found s w (select (is_account identifier t) s.current.accounts) refl;
  }
    where
      found :
          (s : Session)
          → Working base (Placing rows) s
          → (accounts : List LedgerAccount)
          → select (is_account identifier t) s.current.accounts ≡ accounts
          → Ends
              (λ a. Working base (Placing ((a.id, (t, identifier)) ∷ rows)))
              (Untouched base)
              (scalar_one accounts s)
      found s w [] e = record { fresh = w.fresh }
      found s w (a ∷ []) e = record {
        fresh = w.fresh;
        holds = record {
          addressed = w.holds.addressed;
          payer = w.holds.payer;
          order = w.holds.order;
          seller = w.holds.seller;
          held = (
            any_row (is_held a.id t identifier) s.current.accounts a
                (IsRow-select (is_account identifier t) s.current.accounts e)
                (rw (==_refl a.id) (select-head (is_account identifier t) s.current.accounts e)),
            w.holds.held,
          );
        };
      }
      found s w (a ∷ b ∷ accounts) e = record { fresh = w.fresh }

  ensure-Placing :
      (rows : List Held) (key : Uuid) (t : AccountType) (identifier : String) (o : Option Uuid)
      → Triple
          (Working base (Placing rows))
          (ensure_account_locked key t identifier o)
          (λ a. Working base (Placing ((a.id, (t, identifier)) ∷ rows)))
          (Untouched base)
  unfolding ensure_account_locked
  ensure-Placing rows key t identifier o =
      Triple-bind _ _ (insert_or_ignore-Placing rows (new_account key t identifier o))
        λ u. select-Placing rows t identifier

  -- The two entries are on the accounts that were found for them.
  posted-IsAddressed :
      (keys : PostingKeys) (amount : ℤ) (payer merchant : LedgerAccount) (db : Db)
      → Placing
          ((
            merchant.id,
            (AccountType.merchant_settlement, merchant_identifier uuid_str intent.merchant_id),
          )
            ∷ (payer.id, (AccountType.virtual, txn.vpa))
            ∷ [])
          db
      → IsAddressed uuid_str (
          add_entries
            (entry keys.debit_entry payer txn amount EntryType.debit default_currency)
            (entry keys.credit_entry merchant txn amount EntryType.credit default_currency)
            (add_to_balance merchant.id amount (add_to_balance payer.id amount db)))
  posted-IsAddressed keys amount payer merchant db p =
      let paid : Db = add_to_balance payer.id amount db in
      let g : Grows db (add_to_balance merchant.id amount paid) =
        Grows-trans db paid _ (Grows-balance payer.id amount db)
          (Grows-balance merchant.id amount paid) in
      record {
        placed = (
          record {
            payer = txn.vpa;
            account = g.accounts payer.id AccountType.virtual txn.vpa p.held.1.0;
            transaction = p.payer;
          },
          (
            record {
              order = intent.id;
              merchant = intent.merchant_id;
              account = g.accounts merchant.id AccountType.merchant_settlement _ p.held.0;
              transaction = p.order;
              intent = p.seller;
            },
            grown uuid_str db _
                (record {
                  accounts = g.accounts;
                  payers = g.payers;
                  orders = g.orders;
                  sellers = g.sellers;
                })
                db.entries p.addressed.placed,
          ),
        );
      }

  post-Placing :
      (keys : PostingKeys) (amount : ℤ) (payer merchant : LedgerAccount)
      → Triple
          (Working base (
            Placing (
              (
                merchant.id,
                (AccountType.merchant_settlement, merchant_identifier uuid_str intent.merchant_id),
              )
              ∷ (payer.id, (AccountType.virtual, txn.vpa))
              ∷ [])))
          (write (add_to_balance payer.id amount)
            >> (write (add_to_balance merchant.id amount)
                >> write (
                    add_entries
                      (entry keys.debit_entry payer txn amount EntryType.debit default_currency)
                      (entry keys.credit_entry merchant txn amount EntryType.credit
                        default_currency))))
          (λ u. Working base (IsAddressed uuid_str))
          (Untouched base)
  unfolding ◌>>=◌
  post-Placing keys amount payer merchant = record {
    at = λ s w. record {
      fresh = w.fresh;
      holds = posted-IsAddressed keys amount payer merchant s.current w.holds;
    };
  }

  pub settle-IsAddressed :
      (keys : PostingKeys) (amount : ℤ)
      → Triple
          (Working base (Placing []))
          (settle uuid_str keys txn intent amount)
          (λ u. Working base (IsAddressed uuid_str))
          (Untouched base)
  unfolding settle
  settle-IsAddressed keys amount = Triple-bind _ _ (ensure-Placing [] _ _ txn.vpa _) λ payer.
      Triple-bind _ _ (ensure-Placing _ _ _ _ _) λ merchant. post-Placing keys amount payer merchant
